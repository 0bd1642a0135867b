-- ===== src/Config/Loader/Links.antt =====
-- When the calendar, the analysis and the taxonomy of mios/config/loader.py load.

use invest.Base.{
  ◌≡◌, refl, ◌∙◌, true, false, not, String, List, ◌∷◌, map, All, All-imp, IsIn, arith, subst,
}
use invest.Series.Calendar.{WatchedRelease}
use invest.Analysis.Records.{AssetViewSpec}
use invest.Config.Models.{
  Loaded, loaded, known, repeated, unknown, invalid, signal_id_of, dimension_id_of, links_of,
  valid_analysis, valid_types, unregistered, unknown_types, dangling, unknown_asset,
  duplicate_releases,
}
use invest.Config.Loader.{
  AnalysisConfig, release_name_of, require, none_of, check_each, check_dimension, check_view,
  load_analysis, check_watched, load_calendar, event_types, load_events,
}
use invest.Config.Loader.Checks.{
  >>=-loaded, require-loaded, known-IsIn, IsIn-known, unknown_sound, unknown_complete,
  check_each_sound, check_each_complete,
}
use invest.Config.Loader.Stages.{AllIn}

module _ (registered : List String) where
  pub load_calendar_sound :
      (file : Loaded (List WatchedRelease)) (watch : List WatchedRelease)
      → load_calendar registered file ≡ loaded watch
      → (file ≡ loaded watch)
        × (repeated (map release_name_of watch) ≡ false)
        × All (λ w. AllIn registered w.series) watch
  unfolding load_calendar
  load_calendar_sound file watch h =
      let (ws, e, k) = >>=-loaded file _ h in
      let (_, c, l) = >>=-loaded (check_each (check_watched registered) ws) _ k in
      let unique = not (repeated (map release_name_of ws)) in
      let (_, u, m) = >>=-loaded (require duplicate_releases unique) _ l in
      let same : ws ≡ watch = cc in
      let each =
        All-imp ws (λ w k. unknown_sound (unregistered w.release_name) registered w.series k)
          (check_each_sound (check_watched registered) ws c) in
      (
        e ∙ m,
        subst (λ zs. repeated (map release_name_of zs) ≡ false) same
            (ground (arith, require-loaded duplicate_releases unique u)),
        subst (λ zs. All (λ w. AllIn registered w.series) zs) same each,
      )

  pub load_calendar_complete :
      (watch : List WatchedRelease)
      → repeated (map release_name_of watch) ≡ false
      → All (λ w. AllIn registered w.series) watch
      → load_calendar registered (loaded watch) ≡ loaded watch
  unfolding load_calendar
  load_calendar_complete watch u c =
      let each = check_each_complete (check_watched registered) watch (
        All-imp watch (λ w k. unknown_complete (unregistered w.release_name) registered w.series k)
          c) in
      rw (each, u) refl

  module _ {Float : Type 0} (assets : List String) where
    -- What is asked of the dimensions, and of the views.
    abbrev pub AreRegistered : AnalysisConfig Float → Type 0
    AreRegistered a = All (λ d. AllIn registered (map signal_id_of d.signals)) a.dimensions

    abbrev pub AreLinked : AnalysisConfig Float → Type 0
    AreLinked a =
        All (λ v. IsIn v.asset_id assets × AllIn (map dimension_id_of a.dimensions) (links_of v))
          a.views

    check_view_sound :
        (dimensions : List String) (v : AssetViewSpec Float)
        → check_view assets dimensions v ≡ loaded tt
        → IsIn v.asset_id assets × AllIn dimensions (links_of v)
    check_view_sound dimensions v h =
        let e = unknown_asset v.view_id v.asset_id in
        let (_, k, l) = >>=-loaded (require e (known assets v.asset_id)) _ h in
        (
          known-IsIn assets v.asset_id (require-loaded e (known assets v.asset_id) k),
          unknown_sound (dangling v.view_id) dimensions (links_of v) l,
        )

    check_view_complete :
        (dimensions : List String) (v : AssetViewSpec Float)
        → IsIn v.asset_id assets × AllIn dimensions (links_of v)
        → check_view assets dimensions v ≡ loaded tt
    check_view_complete dimensions v (h, k) =
        rw (IsIn-known assets v.asset_id h)
          (unknown_complete (dangling v.view_id) dimensions (links_of v) k)

    pub load_analysis_sound :
        (file : Loaded (AnalysisConfig Float)) (a : AnalysisConfig Float)
        → load_analysis registered assets file ≡ loaded a
        → (file ≡ loaded a)
          × (valid_analysis a.dimensions a.views ≡ true)
          × AreRegistered a
          × AreLinked a
    unfolding load_analysis
    load_analysis_sound file a h =
        let (b, e, k) = >>=-loaded file _ h in
        let (_, v, l) = >>=-loaded (require invalid (valid_analysis b.dimensions b.views)) _ k in
        let (_, c, m) = >>=-loaded (check_each (check_dimension registered) b.dimensions) _ l in
        let dimensions = map dimension_id_of b.dimensions in
        let (_, w, n) = >>=-loaded (check_each (check_view assets dimensions) b.views) _ m in
        let same : b ≡ a = cc in
        let of_dimensions =
          All-imp b.dimensions
            (λ d k.
              unknown_sound (unregistered d.dimension) registered (map signal_id_of d.signals) k)
            (check_each_sound (check_dimension registered) b.dimensions c) in
        let of_views =
          All-imp b.views (λ v k. check_view_sound dimensions v k)
            (check_each_sound (check_view assets dimensions) b.views w) in
        (
          e ∙ n,
          subst (λ z. valid_analysis z.dimensions z.views ≡ true) same
              (require-loaded invalid (valid_analysis b.dimensions b.views) v),
          subst AreRegistered same of_dimensions,
          subst AreLinked same of_views,
        )

    pub load_analysis_complete :
        (a : AnalysisConfig Float)
        → valid_analysis a.dimensions a.views ≡ true
        → AreRegistered a
        → AreLinked a
        → load_analysis registered assets (loaded a) ≡ loaded a
    unfolding load_analysis
    load_analysis_complete a v c w =
        let dimensions = map dimension_id_of a.dimensions in
        let of_dimensions = check_each_complete (check_dimension registered) a.dimensions (
          All-imp a.dimensions
            (λ d k.
              unknown_complete (unregistered d.dimension) registered (map signal_id_of d.signals) k)
            c) in
        let of_views =
          check_each_complete (check_view assets dimensions) a.views
            (All-imp a.views (λ v k. check_view_complete dimensions v k) w) in
        rw (v, of_dimensions, of_views) refl

pub load_events_sound :
    (watch : List WatchedRelease) (file : Loaded (List String)) (types : List String)
    → load_events watch file ≡ loaded types
    → (file ≡ loaded types)
      × (valid_types types ≡ true)
      × AllIn ("release.other.uncategorised" ∷ types) (event_types watch)
unfolding load_events
load_events_sound watch file types h =
    let (ts, e, k) = >>=-loaded file _ h in
    let (_, v, l) = >>=-loaded (require invalid (valid_types ts)) _ k in
    let there = "release.other.uncategorised" ∷ ts in
    let (_, c, m) = >>=-loaded (none_of unknown_types (unknown there (event_types watch))) _ l in
    let same : ts ≡ types = cc in
    (
      e ∙ m,
      subst (λ zs. valid_types zs ≡ true) same (require-loaded invalid (valid_types ts) v),
      subst (λ zs. AllIn ("release.other.uncategorised" ∷ zs) (event_types watch)) same
          (unknown_sound unknown_types there (event_types watch) c),
    )

pub load_events_complete :
    (watch : List WatchedRelease) (types : List String)
    → valid_types types ≡ true
    → AllIn ("release.other.uncategorised" ∷ types) (event_types watch)
    → load_events watch (loaded types) ≡ loaded types
unfolding load_events
load_events_complete watch types v c =
    let there = "release.other.uncategorised" ∷ types in
    rw (v, unknown_complete unknown_types there (event_types watch) c) refl
