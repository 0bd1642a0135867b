-- ===== src/Analysis/Run/Computed.antt =====
-- The views of mios/analysis/macro.py on a configuration that loads.
use invest.Base.{
  Nothing, ℕ, ◌≡◌, refl, true, Option, none, some, String, List, [], ◌∷◌, map, All, All-append,
  All-imp, IsIn, inl, inr, is_some, str_eq, Bool-cases, length, leb,
}
use invest.Base.Dict.{Dict, get, put, get-put, get-put_self}
use invest.Common.Numeric.{Numeric}
use invest.Series.Repo.{Table}
use invest.Analysis.Records.{
  DimensionSpec, AssetViewSpec, MacroScore, ViewLink, Gap, not_computed, no_signals, Scored,
}
use invest.Analysis.Macro.{score_dimension, asset_view, score_links, add_link, no_scores}
use invest.Analysis.Run.{score_all, view_all}
use invest.Config.Models.{loaded, dimension_id_of, link_id_of, links_of}
use invest.Config.Loader.{Files, ConfigRoot, load_config}
use invest.Config.Loader.Closed.{load_config_iff}

-- The gap is not that of a dimension without a score.
abbrev pub IsComputed : Gap → Type 0
IsComputed (not_computed dimension) = Nothing
IsComputed g = Unit

module _ {Float : Type 0} (n : Numeric Float) (table : Table) (instant : ℕ) where
  abbrev HasScore : Dict (MacroScore Float) → String → Type 0
  HasScore scores id = is_some (get id scores) ≡ true

  put_keeps :
      (scores : Dict (MacroScore Float)) (k : String) (v : MacroScore Float) (id : String)
      → HasScore scores id
      → HasScore (put k v scores) id
  put_keeps scores k v id h = elim (Bool-cases (str_eq k id)) [
    | inl e ↦ rw (get-put k id v scores, e) refl
    | inr e ↦ rw (get-put k id v scores, e) h
  ]

  score_all_keeps :
      (scores : Dict (MacroScore Float)) (dimensions : List (DimensionSpec Float)) (id : String)
      → HasScore scores id
      → HasScore (score_all n table instant scores dimensions) id
  unfolding score_all
  score_all_keeps scores [] id h = h
  score_all_keeps scores (d ∷ dimensions) id h =
      score_all_keeps (put d.dimension (score_dimension n table d instant) scores) dimensions id
        (put_keeps scores d.dimension (score_dimension n table d instant) id h)

  score_all_has :
      (scores : Dict (MacroScore Float)) (dimensions : List (DimensionSpec Float)) (id : String)
      → IsIn id (map dimension_id_of dimensions)
      → HasScore (score_all n table instant scores dimensions) id
  unfolding score_all
  score_all_has scores [] id m = elim m [ ]
  score_all_has scores (d ∷ dimensions) id (inl e) =
      score_all_keeps (put d.dimension (score_dimension n table d instant) scores) dimensions id
        (rw (e, get-put_self d.dimension (score_dimension n table d instant) scores) refl)
  score_all_has scores (d ∷ dimensions) id (inr m) =
      score_all_has (put d.dimension (score_dimension n table d instant) scores) dimensions id m

  add_link-IsComputed :
      (link : ViewLink Float) (source : Option (MacroScore Float)) (scored : Scored Float)
      → is_some source ≡ true
      → All IsComputed scored.gaps
      → All IsComputed (add_link n link source scored).gaps
  add_link-IsComputed link none scored h k = cc
  add_link-IsComputed link (some source) scored h k =
      elim (Bool-cases (leb (length source.signals) 0)) [
        | inl e ↦
            rw e (All-append IsComputed scored.gaps (no_signals link.dimension ∷ []) k (tt, tt))
        | inr e ↦ rw e k
      ]

  score_links-IsComputed :
      (scores : Dict (MacroScore Float)) (links : List (ViewLink Float)) (scored : Scored Float)
      → All (HasScore scores) (map link_id_of links)
      → All IsComputed scored.gaps
      → All IsComputed (score_links n scores links scored).gaps
  unfolding score_links
  score_links-IsComputed scores [] scored h k = k
  score_links-IsComputed scores (link ∷ links) scored h k =
      score_links-IsComputed scores links (add_link n link (get link.dimension scores) scored) h.1
        (add_link-IsComputed link (get link.dimension scores) scored h.0 k)

  views-IsComputed :
      (scores : Dict (MacroScore Float)) (views : List (AssetViewSpec Float))
      → All (λ v. All (HasScore scores) (links_of v)) views
      → All (λ view. All IsComputed view.data_gaps) (map (λ v. asset_view n v scores instant) views)
  unfolding asset_view
  views-IsComputed scores [] h = tt
  views-IsComputed scores (v ∷ views) h = (
    score_links-IsComputed scores v.links (no_scores n) h.0 tt,
    views-IsComputed scores views h.1,
  )

  -- With a configuration that loads, no view has a gap because a dimension was not computed: the
  -- run scores every dimension that a view links to, before the views.
  pub view_all-IsComputed :
      {Other : Type 0} (files : Files Float Other) (c : ConfigRoot Float Other)
      → load_config files ≡ loaded c
      → All (λ view. All IsComputed view.data_gaps) (view_all n table instant c.analysis)
  unfolding view_all
  view_all-IsComputed files c h =
      let closed = ((load_config_iff files c).0 h).1 in
      let dimensions = c.analysis.dimensions in
      let scores = score_all n table instant [] dimensions in
      views-IsComputed scores c.analysis.views (
        All-imp c.analysis.views
          (λ v r. All-imp (links_of v) (λ id m. score_all_has [] dimensions id m) r.1)
          closed.views_resolve)
