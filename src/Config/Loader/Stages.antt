-- ===== src/Config/Loader/Stages.antt =====
-- When a part of the tree of mios/config/loader.py loads.

use invest.Base.{
  ◌≡◌, refl, sym, ap, ◌∙◌, true, false, Option, none, some, String, List, [], ◌∷◌, map, str_eq, All,
  All-imp, IsIn, Bool-cases, subst, Nothing, inl, inr,
}
use invest.Series.Repo.{SeriesSpec}
use invest.Prediction.Bridge.{TargetSpec}
use invest.Scheduler.Jobs.{JobSpec}
use invest.Config.Models.{
  Loaded, loaded, known, repeated, is_empty, driver_id_of, valid_series, valid_targets, valid_jobs,
  unregistered, unknown_source, duplicate_asset,
}
use invest.Config.Loader.{
  AssetConfig, asset_id_of, load_distinct, load_assets, some_assets, check_series, load_series,
  check_target, load_targets, check_source, check_job, load_jobs,
}
use invest.Config.Loader.Checks.{
  >>=-loaded, require-loaded, known-IsIn, IsIn-known, unknown_sound, unknown_complete,
  checked_sound, checked_complete, load_distinct_sound, load_distinct_complete,
}

abbrev pub AllIn : List String → List String → Type 0
AllIn ids wanted = All (λ id. IsIn id ids) wanted

abbrev pub IsSourced : List String → Option String → Type 0
IsSourced sources none = Nothing
IsSourced sources (some id) = IsIn id sources

some_assets_sound :
    (xs assets : List AssetConfig)
    → some_assets xs ≡ loaded assets
    → (xs ≡ assets) × (is_empty xs ≡ false)
some_assets_sound [] assets h = cc
some_assets_sound (x ∷ xs) assets h = (cc, refl)

pub load_assets_sound :
    (files : Option (List (Loaded AssetConfig))) (assets : List AssetConfig)
    → load_assets files ≡ loaded assets
    → (files ≡ some (map loaded assets))
      × (repeated (map asset_id_of assets) ≡ false)
      × (is_empty assets ≡ false)
unfolding load_assets repeated
load_assets_sound none assets h = cc
load_assets_sound (some files) assets h =
    let (xs, e, k) = >>=-loaded (load_distinct asset_id_of duplicate_asset [] files) _ h in
    let (same, some_there) = some_assets_sound xs assets k in
    let (once, (new, p, q)) = load_distinct_sound asset_id_of duplicate_asset [] files xs refl e in
    (
      ap some (q ∙ ap (map loaded) (sym p ∙ same)),
      subst (λ zs. repeated (map asset_id_of zs) ≡ false) same once,
      subst (λ zs. is_empty zs ≡ false) same some_there,
    )

pub load_assets_complete :
    (assets : List AssetConfig)
    → repeated (map asset_id_of assets) ≡ false
    → is_empty assets ≡ false
    → load_assets (some (map loaded assets)) ≡ loaded assets
unfolding load_assets
load_assets_complete assets h k =
    rw (load_distinct_complete asset_id_of duplicate_asset [] assets h, k) refl

check_source-IsSourced :
    (sources : List String) (j : JobSpec) (source : Option String)
    → check_source sources j source ≡ loaded tt
    → IsSourced sources source
check_source-IsSourced sources j none h = cc
check_source-IsSourced sources j (some id) h =
    known-IsIn sources id (require-loaded (unknown_source j.job_id id) (known sources id) h)

IsSourced-check_source :
    (sources : List String) (j : JobSpec) (source : Option String)
    → IsSourced sources source
    → check_source sources j source ≡ loaded tt
IsSourced-check_source sources j none h = elim h [ ]
IsSourced-check_source sources j (some id) h = rw (IsIn-known sources id h) refl

check_job_sound :
    (sources : List String) (j : JobSpec)
    → check_job sources j ≡ loaded tt
    → str_eq j.task "collect" ≡ true
    → IsSourced sources j.source_id
check_job_sound sources j h e = check_source-IsSourced sources j j.source_id (rw e at h)

check_job_complete :
    (sources : List String) (j : JobSpec)
    → (str_eq j.task "collect" ≡ true → IsSourced sources j.source_id)
    → check_job sources j ≡ loaded tt
check_job_complete sources j h = elim (Bool-cases (str_eq j.task "collect")) [
  | inl e ↦ rw e (IsSourced-check_source sources j j.source_id (h e))
  | inr e ↦ rw e refl
]

pub load_series_sound :
    (sources : List String) (file : Loaded (List SeriesSpec)) (series : List SeriesSpec)
    → load_series sources file ≡ loaded series
    → (file ≡ loaded series)
      × (valid_series series ≡ true)
      × All (λ s. IsIn s.source_id sources) series
unfolding load_series
load_series_sound sources file series h =
    let (e, v, c) = checked_sound valid_series (check_series sources) file series h in
    (
      e,
      v,
      All-imp series
          (λ s k.
            known-IsIn sources s.source_id (
              require-loaded (unknown_source s.series_id s.source_id) (known sources s.source_id)
                k))
          c,
    )

pub load_series_complete :
    (sources : List String) (series : List SeriesSpec)
    → valid_series series ≡ true
    → All (λ s. IsIn s.source_id sources) series
    → load_series sources (loaded series) ≡ loaded series
unfolding load_series
load_series_complete sources series v c =
    checked_complete valid_series (check_series sources) (loaded series) series refl v
      (All-imp series (λ s k. rw (IsIn-known sources s.source_id k) refl) c)

module _ {Float : Type 0} (registered : List String) where
  pub load_targets_sound :
      (file : Loaded (List (TargetSpec Float))) (targets : List (TargetSpec Float))
      → load_targets registered file ≡ loaded targets
      → (file ≡ loaded targets)
        × (valid_targets targets ≡ true)
        × All (λ t. AllIn registered (t.series_id ∷ map driver_id_of t.drivers)) targets
  unfolding load_targets
  load_targets_sound file targets h =
      let (e, v, c) = checked_sound valid_targets (check_target registered) file targets h in
      (
        e,
        v,
        All-imp targets
            (λ t k.
              unknown_sound (unregistered t.series_id) registered
                (t.series_id ∷ map driver_id_of t.drivers) k)
            c,
      )

  pub load_targets_complete :
      (targets : List (TargetSpec Float))
      → valid_targets targets ≡ true
      → All (λ t. AllIn registered (t.series_id ∷ map driver_id_of t.drivers)) targets
      → load_targets registered (loaded targets) ≡ loaded targets
  unfolding load_targets
  load_targets_complete targets v c =
      checked_complete valid_targets (check_target registered) (loaded targets) targets refl v (
        All-imp targets
          (λ t k.
            unknown_complete (unregistered t.series_id) registered
              (t.series_id ∷ map driver_id_of t.drivers) k)
          c)

pub load_jobs_sound :
    (sources : List String) (file : Loaded (List JobSpec)) (jobs : List JobSpec)
    → load_jobs sources file ≡ loaded jobs
    → (file ≡ loaded jobs)
      × (valid_jobs jobs ≡ true)
      × All (λ j. str_eq j.task "collect" ≡ true → IsSourced sources j.source_id) jobs
unfolding load_jobs
load_jobs_sound sources file jobs h =
    let (e, v, c) = checked_sound valid_jobs (check_job sources) file jobs h in
    (e, v, All-imp jobs (λ j k. check_job_sound sources j k) c)

pub load_jobs_complete :
    (sources : List String) (jobs : List JobSpec)
    → valid_jobs jobs ≡ true
    → All (λ j. str_eq j.task "collect" ≡ true → IsSourced sources j.source_id) jobs
    → load_jobs sources (loaded jobs) ≡ loaded jobs
unfolding load_jobs
load_jobs_complete sources jobs v c =
    checked_complete valid_jobs (check_job sources) (loaded jobs) jobs refl v
      (All-imp jobs (λ j k. check_job_complete sources j k) c)
