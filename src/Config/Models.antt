-- ===== src/Config/Models.antt =====
-- mios/config/: what the loader reads of each file, and the validators of uniqueness.
use invest.Base.{
  Bool, true, false, not, ◌||◌, Option, none, some, String, List, [], ◌∷◌, map, any, str_eq, filter,
  ◌&&◌, if◌then◌else◌,
}
use invest.Common.Json.{Json, object, Fields}
use invest.Series.Repo.{SeriesSpec}
use invest.Prediction.Bridge.{TargetSpec, DriverSpec}
use invest.Analysis.Records.{DimensionSpec, AssetViewSpec, SignalSpec, ViewLink}
use invest.Scheduler.Jobs.{JobSpec}

-- What a `ConfigError` is about.
pub data ConfigError : Type 0 where
  missing_file unparsable not_a_mapping invalid : ConfigError
  without_assets_dir without_assets : ConfigError
  duplicate_asset duplicate_source : String → ConfigError
  unknown_source : String → String → ConfigError
  unregistered : String → List String → ConfigError
  duplicate_releases : ConfigError
  unknown_asset : String → String → ConfigError
  dangling : String → List String → ConfigError
  without_source : String → ConfigError
  unknown_types : List String → ConfigError

pub data Loaded {ℓ} (A : Type ℓ) : Type ℓ where
  loaded : A → Loaded A
  refused : ConfigError → Loaded A

infixl 10 ◌>>=◌
abbrev pub ◌>>=◌ {ℓ κ} : {A : Type ℓ} {B : Type κ} → Loaded A → (A → Loaded B) → Loaded B
loaded a >>= f = f a
refused e >>= f = refused e

-- A file, as `yaml.safe_load` finds it.
pub data YamlFile : Type 0 where
  absent : YamlFile
  broken : YamlFile
  document : Json → YamlFile

abbrev pub mapping_of : Json → Loaded Fields
mapping_of (object fields) = loaded fields
mapping_of j = refused not_a_mapping

-- `_read_yaml`
unfoldable pub read_yaml : YamlFile → Loaded Fields
read_yaml absent = refused missing_file
read_yaml broken = refused unparsable
read_yaml (document j) = mapping_of j

abbrev pub or_invalid {ℓ} : {A : Type ℓ} → Option A → Loaded A
or_invalid none = refused invalid
or_invalid (some a) = loaded a

-- `load_model`, with pydantic's reading of the fields as a parameter.
unfoldable pub load_model {ℓ} : {A : Type ℓ} → (Fields → Option A) → YamlFile → Loaded A
unfolding read_yaml
load_model validate file = do fields ← read_yaml file; or_invalid (validate fields)

abbrev pub known : List String → String → Bool
known ids id = any (λ i. str_eq i id) ids

-- The identifiers that are not known.
abbrev pub unknown : List String → List String → List String
unknown ids wanted = filter (λ id. not (known ids id)) wanted

-- `{i for i in ids if ids.count(i) > 1}` is not empty.
unfoldable pub repeated : List String → Bool
repeated [] = false
repeated (id ∷ ids) = known ids id || repeated ids

abbrev pub is_empty {ℓ} : {A : Type ℓ} → List A → Bool
is_empty [] = true
is_empty (x ∷ xs) = false

-- `Field(min_length=1)` with the validator of uniqueness.
abbrev pub has_unique {ℓ} : {A : Type ℓ} → (A → String) → List A → Bool
has_unique id_of xs = if is_empty xs then false else not (repeated (map id_of xs))

abbrev pub series_id_of : SeriesSpec → String
series_id_of s = s.series_id

module _ {Float : Type 0} where
  abbrev pub driver_id_of : DriverSpec Float → String
  driver_id_of d = d.series_id

  abbrev pub target_id_of : TargetSpec Float → String
  target_id_of t = t.series_id

  abbrev pub signal_id_of : SignalSpec Float → String
  signal_id_of s = s.series_id

  abbrev pub dimension_id_of : DimensionSpec Float → String
  dimension_id_of d = d.dimension

  abbrev pub link_id_of : ViewLink Float → String
  link_id_of l = l.dimension

abbrev pub job_id_of : JobSpec → String
job_id_of j = j.job_id

abbrev pub every {ℓ} : {A : Type ℓ} → (A → Bool) → List A → Bool
every p [] = true
every p (x ∷ xs) = p x && every p xs

-- `SeriesSpec._daily_series_are_not_revisable`
abbrev pub is_fit : SeriesSpec → Bool
is_fit s = not (s.revisable && known ("fx" ∷ "commodity" ∷ "risk" ∷ []) s.category)

-- The validators of each series and `SeriesRegistry._unique`
unfoldable pub valid_series : List SeriesSpec → Bool
unfolding repeated
valid_series series = every is_fit series && has_unique series_id_of series

module _ {Float : Type 0} where
  -- `TargetSpec._unique_drivers`
  abbrev pub valid_drivers : TargetSpec Float → Bool
  valid_drivers t =
      has_unique driver_id_of t.drivers && not (known (map driver_id_of t.drivers) t.series_id)

  -- `ForecastConfig._unique_targets`
  unfoldable pub valid_targets : List (TargetSpec Float) → Bool
  unfolding repeated
  valid_targets targets = every valid_drivers targets && has_unique target_id_of targets

  abbrev pub links_of : AssetViewSpec Float → List String
  links_of view = map link_id_of view.links

  -- `DimensionSpec._unique_signals`, `AssetViewSpec._unique_links` and `AnalysisConfig._links_resolve`
  unfoldable pub valid_analysis : List (DimensionSpec Float) → List (AssetViewSpec Float) → Bool
  unfolding repeated
  valid_analysis dimensions views =
      every (λ (d : DimensionSpec Float). has_unique signal_id_of d.signals) dimensions
      && every (λ (v : AssetViewSpec Float). has_unique link_id_of v.links) views
      && has_unique dimension_id_of dimensions
      && not (is_empty views)
      && every
          (λ (v : AssetViewSpec Float).
            is_empty (unknown (map dimension_id_of dimensions) (links_of v)))
          views

-- `PipelinesConfig._unique_jobs`
unfoldable pub valid_jobs : List JobSpec → Bool
unfolding repeated
valid_jobs jobs = not (repeated (map job_id_of jobs))

-- `EventTaxonomy._three_levels`, the form of a type apart
unfoldable pub valid_types : List String → Bool
unfolding repeated
valid_types types = not (repeated types)
