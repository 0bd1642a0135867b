-- ===== src/Config/Loader.antt =====
-- mios/config/loader.py: the whole tree, with the references between its files. What a file gives is
-- what pydantic reads of its fields; the validators that look at several of them are those of
-- Config.Models.
pub mod Checks
pub mod Stages
pub mod Links
pub mod Closed
use invest.Base.{
  ℕ, Bool, true, false, not, Option, none, some, String, List, [], ◌∷◌, ◌++◌, map, str_eq, filter,
  if◌then◌else◌,
}
use invest.Series.Repo.{SeriesSpec}
use invest.Series.Calendar.{WatchedRelease}
use invest.Prediction.Bridge.{TargetSpec}
use invest.Analysis.Records.{DimensionSpec, AssetViewSpec}
use invest.Scheduler.Jobs.{JobSpec}
use invest.Ingestion.Collector.{SourceSpec}
use invest.Config.Models.{
  ConfigError, invalid, without_assets_dir, without_assets, duplicate_asset, duplicate_source,
  unknown_source, unregistered, duplicate_releases, unknown_asset, dangling, without_source,
  unknown_types, Loaded, loaded, refused, ◌>>=◌, known, repeated, is_empty, unknown, series_id_of,
  driver_id_of, signal_id_of, dimension_id_of, links_of, valid_series, valid_targets,
  valid_analysis, valid_jobs, valid_types,
}

-- `AssetConfig`, as far as other files refer to it.
pub record AssetConfig : Type 0 where
  pub asset_id : String
  pub drivers : List String

pub record AnalysisConfig (Float : Type 0) : Type 0 where
  pub dimensions : List (DimensionSpec Float)
  pub views : List (AssetViewSpec Float)

-- The files of the tree: each directory in the order of its paths.
pub record Files (Float Other : Type 0) : Type 0 where
  pub assets : Option (List (Loaded AssetConfig))
  pub sources : List (Loaded SourceSpec)
  pub series : Loaded (List SeriesSpec)
  pub forecast : Loaded (List (TargetSpec Float))
  pub calendar : Loaded (List WatchedRelease)
  pub analysis : Loaded (AnalysisConfig Float)
  pub pipelines : Loaded (List JobSpec)
  pub events : Loaded (List String)
  pub entities : Loaded Other
  pub relationships : Loaded Other
  pub scoring : Loaded Other

-- `ConfigRoot`; the dicts of assets and sources by their values, in order.
pub record ConfigRoot (Float Other : Type 0) : Type 0 where
  pub assets : List AssetConfig
  pub sources : List SourceSpec
  pub series : List SeriesSpec
  pub targets : List (TargetSpec Float)
  pub watch : List WatchedRelease
  pub analysis : AnalysisConfig Float
  pub jobs : List JobSpec
  pub types : List String
  pub entities : Other
  pub relationships : Other
  pub scoring : Other

abbrev pub asset_id_of : AssetConfig → String
asset_id_of a = a.asset_id

abbrev pub source_id_of : SourceSpec → String
source_id_of s = s.source_id

abbrev pub release_name_of : WatchedRelease → String
release_name_of w = w.release_name

abbrev pub require : ConfigError → Bool → Loaded (Unit {0})
require e valid = if valid then loaded tt else refused e

-- `if unknown: raise`
abbrev pub none_of : (List String → ConfigError) → List String → Loaded (Unit {0})
none_of e [] = loaded tt
none_of e (id ∷ ids) = refused (e (id ∷ ids))

-- The loops over the files of a directory: each identifier once.
unfoldable pub load_distinct :
    {A : Type 0}
    → (A → String)
    → (String → ConfigError)
    → List A
    → List (Loaded A)
    → Loaded (List A)
load_distinct id_of duplicate seen [] = loaded seen
load_distinct id_of duplicate seen (file ∷ files) = do
  a ← file
  let rest = load_distinct id_of duplicate (seen ++ a ∷ []) files
  if known (map id_of seen) (id_of a) then refused (duplicate (id_of a)) else rest

-- A check of each element, in order.
unfoldable pub check_each : {A : Type 0} → (A → Loaded (Unit {0})) → List A → Loaded (Unit {0})
check_each check [] = loaded tt
check_each check (x ∷ xs) = do _ ← check x; check_each check xs

abbrev pub some_assets : List AssetConfig → Loaded (List AssetConfig)
some_assets assets = if is_empty assets then refused without_assets else loaded assets

unfoldable pub load_assets : Option (List (Loaded AssetConfig)) → Loaded (List AssetConfig)
unfolding load_distinct
load_assets none = refused without_assets_dir
load_assets (some files) = do
  assets ← load_distinct asset_id_of duplicate_asset [] files
  some_assets assets

abbrev pub check_series : List String → SeriesSpec → Loaded (Unit {0})
check_series sources s =
    require (unknown_source s.series_id s.source_id) (known sources s.source_id)

unfoldable pub load_series : List String → Loaded (List SeriesSpec) → Loaded (List SeriesSpec)
unfolding check_each
load_series sources file = do
  series ← file
  _ ← require invalid (valid_series series)
  _ ← check_each (check_series sources) series
  loaded series

module _ {Float : Type 0} where
  abbrev pub check_target : List String → TargetSpec Float → Loaded (Unit {0})
  check_target registered t =
      none_of (unregistered t.series_id)
        (unknown registered (t.series_id ∷ map driver_id_of t.drivers))

  unfoldable pub load_targets :
      List String → Loaded (List (TargetSpec Float)) → Loaded (List (TargetSpec Float))
  unfolding check_each
  load_targets registered file = do
    targets ← file
    _ ← require invalid (valid_targets targets)
    _ ← check_each (check_target registered) targets
    loaded targets

  abbrev pub check_dimension : List String → DimensionSpec Float → Loaded (Unit {0})
  check_dimension registered d =
      none_of (unregistered d.dimension) (unknown registered (map signal_id_of d.signals))

  abbrev pub check_view : List String → List String → AssetViewSpec Float → Loaded (Unit {0})
  check_view assets dimensions v = do
    _ ← require (unknown_asset v.view_id v.asset_id) (known assets v.asset_id)
    none_of (dangling v.view_id) (unknown dimensions (links_of v))

  unfoldable pub load_analysis :
      List String → List String → Loaded (AnalysisConfig Float) → Loaded (AnalysisConfig Float)
  unfolding check_each
  load_analysis registered assets file = do
    analysis ← file
    _ ← require invalid (valid_analysis analysis.dimensions analysis.views)
    _ ← check_each (check_dimension registered) analysis.dimensions
    _ ← check_each (check_view assets (map dimension_id_of analysis.dimensions)) analysis.views
    loaded analysis

abbrev pub check_watched : List String → WatchedRelease → Loaded (Unit {0})
check_watched registered w = none_of (unregistered w.release_name) (unknown registered w.series)

unfoldable pub load_calendar :
    List String → Loaded (List WatchedRelease) → Loaded (List WatchedRelease)
unfolding check_each repeated
load_calendar registered file = do
  watch ← file
  _ ← check_each (check_watched registered) watch
  _ ← require duplicate_releases (not (repeated (map release_name_of watch)))
  loaded watch

-- A job that collects has a source, which is known.
abbrev pub check_source : List String → JobSpec → Option String → Loaded (Unit {0})
check_source sources j none = refused (without_source j.job_id)
check_source sources j (some id) = require (unknown_source j.job_id id) (known sources id)

abbrev pub check_job : List String → JobSpec → Loaded (Unit {0})
check_job sources j =
    if str_eq j.task "collect" then check_source sources j j.source_id else loaded tt

unfoldable pub load_jobs : List String → Loaded (List JobSpec) → Loaded (List JobSpec)
unfolding check_each
load_jobs sources file = do
  jobs ← file
  _ ← require invalid (valid_jobs jobs)
  _ ← check_each (check_job sources) jobs
  loaded jobs

abbrev pub event_types : List WatchedRelease → List String
event_types watch = map (λ (w : WatchedRelease). w.event_type) watch

unfoldable pub load_events : List WatchedRelease → Loaded (List String) → Loaded (List String)
load_events watch file = do
  types ← file
  _ ← require invalid (valid_types types)
  _ ← none_of unknown_types (unknown ("release.other.uncategorised" ∷ types) (event_types watch))
  loaded types

module _ {Float Other : Type 0} where
  unfoldable pub load_config : Files Float Other → Loaded (ConfigRoot Float Other)
  load_config files = do
    assets ← load_assets files.assets
    sources ← load_distinct source_id_of duplicate_source [] files.sources
    series ← load_series (map source_id_of sources) files.series
    let registered = map series_id_of series
    targets ← load_targets registered files.forecast
    watch ← load_calendar registered files.calendar
    analysis ← load_analysis registered (map asset_id_of assets) files.analysis
    jobs ← load_jobs (map source_id_of sources) files.pipelines
    types ← load_events watch files.events
    entities ← files.entities
    relationships ← files.relationships
    scoring ← files.scoring
    loaded (record {
      assets = assets;
      sources = sources;
      series = series;
      targets = targets;
      watch = watch;
      analysis = analysis;
      jobs = jobs;
      types = types;
      entities = entities;
      relationships = relationships;
      scoring = scoring;
    })
