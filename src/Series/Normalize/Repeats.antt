-- ===== src/Series/Normalize/Repeats.antt =====
-- `Normalizer.run` on raw items that feed two series.
use mathlib.Core.Bool.{false≢true}
use invest.Base.{
  ◌+◌, ◌≡◌, ◌≢◌, refl, inl, inr, true, false, some, String, List, [], ◌∷◌, str_eq, any, Bool-cases,
  Option-cases, eq_iff, subst, sym, ap, ◌∙◌,
}
use invest.Series.Repo.{SeriesSpec}
use invest.Ingestion.RawStore.{RawItem}
use invest.Series.Normalize.State.{ProcessedState, is_processed, one_series_processed}
use invest.Series.Normalize.{
  Parsed, points, parse_error, Run, spec_of, store_points, normalize_series, normalize_all,
  normalize_item,
}

module _ (registry : List SeriesSpec) (items : String → List RawItem)
    (parse : SeriesSpec → String → Parsed) where
  touched-store_points :
      (spec : SeriesSpec) (item : RawItem) (parsed : Parsed) (run : Run)
      → (store_points registry items parse spec item parsed run).touched ≡ true
  unfolding store_points
  touched-store_points spec item (parse_error m) run = refl
  touched-store_points spec item (points ps) run = refl

  touched-normalize_series :
      (done : ProcessedState) (item : RawItem) (s : String) (run : Run)
      → run.touched ≡ true
      → (normalize_series registry items parse done item s run).touched ≡ true
  unfolding normalize_series
  touched-normalize_series done item s run t =
      elim (Bool-cases (is_processed done item.raw_item_id s)) [
        | inl e ↦ rw e t
        | inr e ↦ elim (Option-cases (spec_of s registry)) [
          | inl q ↦ rw (e, q) t
          | inr (spec, q) ↦
              rw (e, q) (touched-store_points spec item (parse spec item.payload_text) run)
        ]
      ]

  touched-normalize_all :
      (done : ProcessedState) (item : RawItem) (ids : List String) (run : Run)
      → run.touched ≡ true
      → (normalize_all registry items parse done item ids run).touched ≡ true
  unfolding normalize_all
  touched-normalize_all done item [] run t = t
  touched-normalize_all done item (s ∷ ids) run t =
      touched-normalize_all done item ids (normalize_series registry items parse done item s run)
        (touched-normalize_series done item s run t)

  raw_items-store_points :
      (spec : SeriesSpec) (item : RawItem) (parsed : Parsed) (run : Run)
      → (store_points registry items parse spec item parsed run).report.raw_items
        ≡ run.report.raw_items
  unfolding store_points
  raw_items-store_points spec item (parse_error m) run = refl
  raw_items-store_points spec item (points ps) run = refl

  raw_items-normalize_series :
      (done : ProcessedState) (item : RawItem) (s : String) (run : Run)
      → (normalize_series registry items parse done item s run).report.raw_items
        ≡ run.report.raw_items
  unfolding normalize_series
  raw_items-normalize_series done item s run =
      elim (Bool-cases (is_processed done item.raw_item_id s)) [
        | inl e ↦ rw e refl
        | inr e ↦ elim (Option-cases (spec_of s registry)) [
          | inl q ↦ rw (e, q) refl
          | inr (spec, q) ↦
              rw (e, q) (raw_items-store_points spec item (parse spec item.payload_text) run)
        ]
      ]

  -- Only the end of an item counts it.
  raw_items-normalize_all :
      (done : ProcessedState) (item : RawItem) (ids : List String) (run : Run)
      → (normalize_all registry items parse done item ids run).report.raw_items
        ≡ run.report.raw_items
  unfolding normalize_all
  raw_items-normalize_all done item [] run = refl
  raw_items-normalize_all done item (s ∷ ids) run =
      raw_items-normalize_all done item ids (normalize_series registry items parse done item s run)
      ∙ raw_items-normalize_series done item s run

  -- A series that is not processed, and that the registry has, is read.
  reads_unprocessed :
      (done : ProcessedState) (item : RawItem) (s : String) (spec : SeriesSpec) (run : Run)
      → is_processed done item.raw_item_id s ≡ false
      → spec_of s registry ≡ some spec
      → (normalize_series registry items parse done item s run).touched ≡ true
  unfolding normalize_series
  reads_unprocessed done item s spec run e q =
      rw (e, q) (touched-store_points spec item (parse spec item.payload_text) run)

  reads_member :
      (done : ProcessedState) (item : RawItem) (ids : List String) (s : String) (spec : SeriesSpec)
      (run : Run)
      → any (λ t. str_eq t s) ids ≡ true
      → is_processed done item.raw_item_id s ≡ false
      → spec_of s registry ≡ some spec
      → (normalize_all registry items parse done item ids run).touched ≡ true
  unfolding normalize_all
  reads_member done item [] s spec run m e q = absurd (false≢true m)
  reads_member done item (t ∷ ids) s spec run m e q = elim (Bool-cases (str_eq t s)) [
    | inl same ↦ touched-normalize_all done item ids _ (
        subst (λ u. (normalize_series registry items parse done item u run).touched ≡ true)
          (sym ((eq_iff t s).0 same)) (reads_unprocessed done item s spec run e q))
    | inr other ↦
        let rest : any (λ u. str_eq u s) ids ≡ true = (rw other at m) in
        reads_member done item ids s spec (normalize_series registry items parse done item t run)
          rest e q
  ]

  module _ (done : ProcessedState) (item : RawItem) (ids : List String) (run : Run) (a b : String)
      (spec_a spec_b : SeriesSpec) (distinct : a ≢ b) (has_a : any (λ t. str_eq t a) ids ≡ true)
      (has_b : any (λ t. str_eq t b) ids ≡ true) (in_a : spec_of a registry ≡ some spec_a)
      (in_b : spec_of b registry ≡ some spec_b) where
    read_again :
        (normalize_all registry items parse done item ids (record run { touched = false })).touched
        ≡ true
    read_again = elim (Bool-cases (is_processed done item.raw_item_id a)) [
      | inr new ↦
          reads_member done item ids a spec_a (record run { touched = false }) has_a new in_a
      | inl old ↦
          let new : is_processed done item.raw_item_id b ≡ false =
            (rw old at (one_series_processed done item.raw_item_id a b distinct)) in
          reads_member done item ids b spec_b (record run { touched = false }) has_b new in_b
    ]

    -- A raw item that a run takes for a list of series with two different ones of the registry is
    -- read by the run, whatever earlier runs have recorded as processed: the run counts it as one
    -- more raw item.
    pub item_read_again :
        (normalize_item registry items parse done ids item run).report.raw_items
        ≡ run.report.raw_items + 1
    unfolding normalize_item
    item_read_again =
        rw read_again
          (ap (λ n. n + 1) (raw_items-normalize_all done item ids (record run { touched = false })))
