-- ===== src/Series/Registry.antt =====
-- `SeriesRepo` of mios/series/repo.py: the table `series`, a mirror of config/series.yaml.
use invest.Base.{
  ℕ, ◌≡◌, refl, ◌∙◌, Bool, Option, none, some, String, List, [], ◌∷◌, str_eq, if◌then◌else◌, length,
  arith,
}
use invest.Base.Dict
use invest.Base.Dict.{Dict, get-put}
use invest.Series.Repo.{SeriesSpec}

-- The rows by their primary key, `series_id`.
abbrev pub SeriesTable : Type 0
SeriesTable = Dict SeriesSpec

-- INSERT ... ON CONFLICT (series_id) DO UPDATE of every other column, for each spec.
unfoldable pub upsert_specs : SeriesTable → List SeriesSpec → SeriesTable
upsert_specs table [] = table
upsert_specs table (spec ∷ specs) = upsert_specs (Dict.put spec.series_id spec table) specs

-- `sync`
unfoldable pub sync : SeriesTable → List SeriesSpec → SeriesTable × ℕ
unfolding upsert_specs
sync table specs = (upsert_specs table specs, length specs)

-- `get`
unfoldable pub get_series : SeriesTable → String → Option SeriesSpec
get_series table series_id = Dict.get series_id table

abbrev or_else : Option SeriesSpec → Option SeriesSpec → Option SeriesSpec
or_else none o = o
or_else (some spec) o = some spec

-- The last spec of a name.
abbrev pub last_spec : String → List SeriesSpec → Option SeriesSpec
last_spec series_id [] = none
last_spec series_id (spec ∷ specs) =
    or_else (last_spec series_id specs)
      (if str_eq spec.series_id series_id then some spec else none)

or_else_put :
    (o old : Option SeriesSpec) (spec : SeriesSpec) (found : Bool)
    → or_else o (if found then some spec else old)
      ≡ or_else (or_else o (if found then some spec else none)) old
or_else_put none old spec found = ground arith
or_else_put (some s) old spec found = refl

get-upsert_specs :
    (table : SeriesTable) (specs : List SeriesSpec) (series_id : String)
    → Dict.get series_id (upsert_specs table specs)
      ≡ or_else (last_spec series_id specs) (Dict.get series_id table)
unfolding upsert_specs
get-upsert_specs table [] series_id = refl
get-upsert_specs table (spec ∷ specs) series_id =
    get-upsert_specs (Dict.put spec.series_id spec table) specs series_id
    ∙ (rw get-put (
        or_else_put (last_spec series_id specs) (Dict.get series_id table) spec
          (str_eq spec.series_id series_id)))

-- After a sync, the row of a series is the last spec of its name in the configuration, or the row
-- that was there if the configuration has none: a series taken out of the configuration stays.
pub get_series-sync :
    (table : SeriesTable) (specs : List SeriesSpec) (series_id : String)
    → get_series (sync table specs).0 series_id
      ≡ or_else (last_spec series_id specs) (get_series table series_id)
unfolding get_series sync
get_series-sync table specs series_id = get-upsert_specs table specs series_id
