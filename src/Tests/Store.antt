-- ===== src/Tests/Store.antt =====
-- Runs of mios/series/repo.py and mios/series/normalize.py.
use mathlib.Core.Bool.{false≢true}
use mathlib.Core.Option.{some-injective}
use invest.Base.Dict
use invest.Base.{
  inl, inr, sym, ◌∙◌, true, ℕ, ◌+◌, ◌≡◌, ◌≢◌, refl, Option, none, some, String, List, [], ◌∷◌, ◌++◌,
  All, arith, eq_iff, subst, ap, str_eq, IsAscending, if◌then◌else◌,
}
use invest.Base.Int.{pos}
use invest.Common.Decimal.{finite}
use invest.Ingestion.RawStore.{RawItem}
use invest.Series.Repo.{
  SeriesSpec, Observation, Table, Point, write_points, as_of, known_rows, date_of,
}
use invest.Series.Registry.{sync, get_series, get_series-sync}
use invest.Series.Repo.AsOf.{find_period, newest, of_period, find_period-as_of}
use invest.Series.Repo.Writes.{IsNews, is_written, write_points_counts, as_of-write_points}
use invest.Series.Normalize.{
  Parsed, points, parse_error, Db, Run, run, normalize_item, start, spec_of,
}
use invest.Series.Normalize.State.{is_processed, mark, is_processed-mark}
use invest.Series.Normalize.Keeps.{IsPendingNews, as_of-run}
use invest.Series.Normalize.Repeats.{item_read_again}

abbrev cpi : SeriesSpec
cpi = record {
  series_id = "ser_us_cpi";
  source_id = "src_fred";
  provider_code = "CPIAUCSL";
  parser = "fred_json";
  category = "inflation";
  revisable = true;
}

abbrev core_cpi : SeriesSpec
core_cpi = record {
  series_id = "ser_us_core_cpi";
  source_id = "src_fred";
  provider_code = "CPILFESL";
  parser = "fred_json";
  category = "inflation";
  revisable = true;
}

abbrev august : List Point
august = (20260801, some (finite (pos 3251) 1), none) ∷ (20260701, none, some 70) ∷ []

abbrev written : Table
written = (write_points [] cpi august "raw_1" 50).0

find_period-as_of_example :
    IsAscending date_of (as_of written "ser_us_cpi" 60 none none)
    × ((d : ℕ)
        → find_period d (as_of written "ser_us_cpi" 60 none none)
          ≡ newest (of_period d (known_rows written "ser_us_cpi" 60 none none)))
find_period-as_of_example = find_period-as_of written "ser_us_cpi" 60 none none

write_points_counts_run :
    (write_points [] cpi august "raw_1" 50).1.written
      + (write_points [] cpi august "raw_1" 50).1.skipped
    ≡ 2
write_points_counts_run = write_points_counts [] cpi august "raw_1" 50

as_of-write_points_example :
    ((later : List Observation) × ((write_points written cpi august "raw_2" 90).0
        ≡ written ++ later))
    × ((series_id : String) (start' end' : Option ℕ)
        → as_of (write_points written cpi august "raw_2" 90).0 series_id 60 start' end'
          ≡ as_of written series_id 60 start' end')
as_of-write_points_example = as_of-write_points written cpi august "raw_2" 90 60 (omega arith)

is_processed-mark_run :
    is_processed (mark "raw_1" "ser_b" 1 0 (mark "raw_1" "ser_a" 1 0 [])) "raw_1" "ser_a" ≡ (
      if str_eq "raw_1" "raw_1"
      then str_eq "ser_b" "ser_a"
      else is_processed (mark "raw_1" "ser_a" 1 0 []) "raw_1" "ser_a")
is_processed-mark_run =
    is_processed-mark (mark "raw_1" "ser_a" 1 0 []) "raw_1" "ser_b" "raw_1" "ser_a" 1 0

abbrev item : RawItem
item = record {
  raw_item_id = "raw_1";
  source_id = "src_fred";
  retrieved_at = 50;
  content_hash = "h";
  content_type = "application/json";
  payload_text = "{}";
  url = none;
}

abbrev registry : List SeriesSpec
registry = cpi ∷ core_cpi ∷ []

abbrev items : String → List RawItem
items source_id = item ∷ []

-- A feed that states an earlier vintage again, as the payloads of ALFRED do.
abbrev restated : List Point
restated = (20260701, some (finite (pos 3250) 1), some 30) ∷ august

abbrev parse : SeriesSpec → String → Parsed
parse spec payload =
    if str_eq payload "{}" then points restated else parse_error "payload is not valid JSON"

abbrev no_rows : Db
no_rows = record { observations = []; state = [] }

abbrev july_row : String → Observation
july_row series_id = record {
  series_id = series_id;
  observation_date = 20260701;
  vintage_at = 30;
  value = some (finite (pos 3250) 1);
  revision_n = 0;
  source_id = "src_fred";
  raw_item_id = "raw_0";
}

abbrev stored : Db
stored = record {
  observations = july_row "ser_us_cpi" ∷ july_row "ser_us_core_cpi" ∷ [];
  state = [];
}

abbrev points_of : Parsed → List Point
points_of (points ps) = ps
points_of _ = []

restated-IsNews :
    (s : SeriesSpec)
    → is_written stored.observations s.series_id 20260701 30 ≡ true
    → spec_of s.series_id registry ≡ some s
    → IsPendingNews registry items parse stored 40 s item
restated-IsNews s w found spec ps q new e =
    let same : s ≡ spec = some-injective _ _ (sym found ∙ q) in
    subst (All (IsNews stored.observations spec.series_id 40 50)) (ap points_of e) (
      inr (
          subst (λ (t : SeriesSpec). is_written stored.observations t.series_id 20260701 30 ≡ true)
            same w),
      (inl (omega arith), (inl (omega arith), tt)),
    )

as_of-run_example :
    as_of (run registry items parse stored none).0.observations "ser_us_cpi" 40 none none
    ≡ as_of stored.observations "ser_us_cpi" 40 none none
unfolding spec_of
as_of-run_example =
    as_of-run registry items parse stored 40
      ((restated-IsNews cpi refl refl, tt), ((restated-IsNews core_cpi refl refl, tt), tt)) none
      "ser_us_cpi" none none

ids_differ : ◌≢◌ {A = String} "ser_us_cpi" "ser_us_core_cpi"
ids_differ e = false≢true ((eq_iff "ser_us_cpi" "ser_us_core_cpi").1 e)

abbrev both : List String
both = "ser_us_cpi" ∷ "ser_us_core_cpi" ∷ []

abbrev first_run : Run
first_run = start registry items parse no_rows

item_read_again_example :
    (normalize_item registry items parse [] both item first_run).report.raw_items ≡ 1
unfolding spec_of
item_read_again_example =
    item_read_again registry items parse [] item both first_run "ser_us_cpi" "ser_us_core_cpi" cpi
      core_cpi ids_differ refl refl refl refl

get_series-sync_run : get_series (sync [] registry).0 "ser_us_cpi" ≡ some cpi
unfolding Dict.get
get_series-sync_run = get_series-sync [] registry "ser_us_cpi"
