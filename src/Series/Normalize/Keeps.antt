-- ===== src/Series/Normalize/Keeps.antt =====
-- `Normalizer.run` against the reads of the past: mios/series/normalize.py.
use mathlib.Core.Bool.{false≢true}
use invest.Base.{
  All-sort_by_text, IsIn, All-get, All-append, All-filter, append_assoc, append-nil, sym, ◌++◌,
  true, arith, ℕ, ◌≡◌, refl, inl, inr, false, Option, none, some, String, List, [], ◌∷◌, str_eq,
  filter, sort_by_text, All, All-imp, Bool-cases, Option-cases, ◌∙◌, subst, ap, eq_iff,
}
use invest.Series.Repo.{SeriesSpec, Table, Point, write_points, vintage_or, as_of}
use invest.Series.Repo.Writes.{IsNews, is_written, as_of-write_points_news}
use invest.Ingestion.RawStore.{RawItem}
use invest.Series.Normalize.State.{ProcessedState, is_processed}
use invest.Series.Normalize.{
  Parsed, points, parse_error, Db, Run, spec_of, add_to_source, by_source_from, store_points,
  normalize_series, normalize_all, normalize_item, normalize_items, normalize_sources, run_wanted,
  run_on, run, count_touched, start,
}

All-self {ℓ} : {A : Type ℓ} (xs : List A) → All (λ x. IsIn x xs) xs
All-self [] = tt
All-self (x ∷ xs) = (inl refl, All-imp xs (λ y m. inr m) (All-self xs))

-- The series of the identifier is in the registry and reads from the source.
abbrev IsFedBy : List SeriesSpec → String → String → Type 0
IsFedBy registry source_id id =
    (s : SeriesSpec) × IsIn s registry × (s.series_id ≡ id) × (s.source_id ≡ source_id)

abbrev AreFed : List SeriesSpec → List (String × List String) → Type 0
AreFed registry sources = All (λ (g : String × List String). All (IsFedBy registry g.0) g.1) sources

add_to_source-AreFed :
    (registry : List SeriesSpec) (spec : SeriesSpec) (sources : List (String × List String))
    → IsIn spec registry
    → AreFed registry sources
    → AreFed registry (add_to_source spec sources)
unfolding add_to_source
add_to_source-AreFed registry spec [] m h = (((spec, m, refl, refl), tt), tt)
add_to_source-AreFed registry spec ((source_id, ids) ∷ sources) m h =
    elim (Bool-cases (str_eq source_id spec.source_id)) [
      | inl e ↦ rw e (
        All-append (IsFedBy registry source_id) ids _ h.0
            ((spec, m, refl, sym ((eq_iff source_id spec.source_id).0 e)), tt),
        h.1,
      )
      | inr e ↦ rw e (h.0, add_to_source-AreFed registry spec sources m h.1)
    ]

by_source_from-AreFed :
    (registry : List SeriesSpec) (wanted : List SeriesSpec) (sources : List (String × List String))
    → All (λ s. IsIn s registry) wanted
    → AreFed registry sources
    → AreFed registry (by_source_from sources wanted)
unfolding by_source_from
by_source_from-AreFed registry [] sources w h = h
by_source_from-AreFed registry (spec ∷ wanted) sources w h =
    by_source_from-AreFed registry wanted (add_to_source spec sources) w.1
      (add_to_source-AreFed registry spec sources w.0 h)

module _ (registry : List SeriesSpec) (items : String → List RawItem)
    (parse : SeriesSpec → String → Parsed) (done : ProcessedState) (P : Table → Type 0)
    (write : (table : Table) (s spec : SeriesSpec) (item : RawItem) (ps : List Point)
      → IsIn s registry
      → spec_of s.series_id registry ≡ some spec
      → IsIn item (items s.source_id)
      → is_processed done item.raw_item_id s.series_id ≡ false
      → parse spec item.payload_text ≡ points ps
      → P table
      → P (write_points table spec ps item.raw_item_id item.retrieved_at).0) where
  store_points-keeps :
      (s spec : SeriesSpec) (item : RawItem) (parsed : Parsed) (r : Run)
      → IsIn s registry
      → spec_of s.series_id registry ≡ some spec
      → IsIn item (items s.source_id)
      → is_processed done item.raw_item_id s.series_id ≡ false
      → parse spec item.payload_text ≡ parsed
      → P r.db.observations
      → P (store_points registry items parse spec item parsed r).db.observations
  unfolding store_points
  store_points-keeps s spec item (parse_error m) r i q f new e h = h
  store_points-keeps s spec item (points ps) r i q f new e h =
      write r.db.observations s spec item ps i q f new e h

  normalize_spec-keeps :
      (s : SeriesSpec) (item : RawItem) (r : Run)
      → IsIn s registry
      → IsIn item (items s.source_id)
      → P r.db.observations
      → P (normalize_series registry items parse done item s.series_id r).db.observations
  unfolding normalize_series
  normalize_spec-keeps s item r i f h =
      elim (Bool-cases (is_processed done item.raw_item_id s.series_id)) [
        | inl e ↦ rw e h
        | inr e ↦ elim (Option-cases (spec_of s.series_id registry)) [
          | inl q ↦ rw (e, q) h
          | inr (spec, q) ↦
              rw (e, q)
                (store_points-keeps s spec item (parse spec item.payload_text) r i q f e refl h)
        ]
      ]

  normalize_series-keeps :
      (source_id : String) (item : RawItem) (id : String) (r : Run)
      → IsIn item (items source_id)
      → IsFedBy registry source_id id
      → P r.db.observations
      → P (normalize_series registry items parse done item id r).db.observations
  normalize_series-keeps source_id item id r f (s, i, named, fed) h =
      subst (λ t. P (normalize_series registry items parse done item t r).db.observations) named
        (normalize_spec-keeps s item r i (subst (λ t. IsIn item (items t)) (sym fed) f) h)

  normalize_all-keeps :
      (source_id : String) (item : RawItem) (ids : List String) (r : Run)
      → IsIn item (items source_id)
      → All (IsFedBy registry source_id) ids
      → P r.db.observations
      → P (normalize_all registry items parse done item ids r).db.observations
  unfolding normalize_all
  normalize_all-keeps source_id item [] r f fed h = h
  normalize_all-keeps source_id item (id ∷ ids) r f fed h =
      normalize_all-keeps source_id item ids (normalize_series registry items parse done item id r)
        f fed.1 (normalize_series-keeps source_id item id r f fed.0 h)

  count_touched-keeps :
      (r : Run) → P r.db.observations → P (count_touched registry items parse r).db.observations
  count_touched-keeps r h = elim (Bool-cases r.touched) [ inl e ↦ rw e h | inr e ↦ rw e h ]

  normalize_items-keeps :
      (source_id : String) (ids : List String) (rest : List RawItem) (r : Run)
      → All (λ item. IsIn item (items source_id)) rest
      → All (IsFedBy registry source_id) ids
      → P r.db.observations
      → P (normalize_items registry items parse done ids rest r).db.observations
  unfolding normalize_items normalize_item
  normalize_items-keeps source_id ids [] r f fed h = h
  normalize_items-keeps source_id ids (item ∷ rest) r f fed h =
      normalize_items-keeps source_id ids rest _ f.1 fed (
        count_touched-keeps _
          (normalize_all-keeps source_id item ids (record r { touched = false }) f.0 fed h))

  pub normalize_sources-keeps :
      (sources : List (String × List String)) (r : Run)
      → AreFed registry sources
      → P r.db.observations
      → P (normalize_sources registry items parse done sources r).db.observations
  unfolding normalize_sources
  normalize_sources-keeps [] r fed h = h
  normalize_sources-keeps ((source_id, ids) ∷ sources) r fed h =
      normalize_sources-keeps sources _ fed.1 (
        normalize_items-keeps source_id ids (items source_id) r (All-self (items source_id)) fed.0
          h)

is_written-append :
    (table later : Table) (series_id : String) (d v : ℕ)
    → is_written table series_id d v ≡ true
    → is_written (table ++ later) series_id d v ≡ true
is_written-append [] later series_id d v h = absurd (false≢true h)
is_written-append (r ∷ table) later series_id d v h =
    ground (arith, is_written-append table later series_id d v)

-- What a run has still to process is news: each point that is read for a series of the registry from
-- an item of its source that the series has not processed is known after the instant, by its own
-- vintage or, without one, by when the item was fetched, or its period and vintage are stored.
abbrev pub IsPendingNews :
    List SeriesSpec
    → (String → List RawItem)
    → (SeriesSpec → String → Parsed)
    → Db
    → ℕ
    → SeriesSpec
    → RawItem
    → Type 0
IsPendingNews registry items parse db instant s item =
    (spec : SeriesSpec) (ps : List Point)
    → spec_of s.series_id registry ≡ some spec
    → is_processed db.state item.raw_item_id s.series_id ≡ false
    → parse spec item.payload_text ≡ points ps
    → All (IsNews db.observations spec.series_id instant item.retrieved_at) ps

module _ (registry : List SeriesSpec) (items : String → List RawItem)
    (parse : SeriesSpec → String → Parsed) (db : Db) (instant : ℕ)
    (pending : All
      (λ s. All (IsPendingNews registry items parse db instant s) (items s.source_id))
      registry) where
  abbrev Unchanged : Table → Type 0
  Unchanged table =
      ((later : Table) × (table ≡ db.observations ++ later))
      × ((series_id : String) (start' end' : Option ℕ)
          → as_of table series_id instant start' end'
            ≡ as_of db.observations series_id instant start' end')

  IsNews-append :
      (table later : Table) (series_id : String) (retrieved_at : ℕ) (p : Point)
      → table ≡ db.observations ++ later
      → IsNews db.observations series_id instant retrieved_at p
      → IsNews table series_id instant retrieved_at p
  IsNews-append table later series_id retrieved_at p e (inl lt) = inl lt
  IsNews-append table later series_id retrieved_at p e (inr m) = inr (
      subst (λ t. is_written t series_id p.0 (vintage_or p.2 retrieved_at) ≡ true) (sym e)
        (is_written-append db.observations later series_id p.0 _ m))

  write-Unchanged :
      (table : Table) (s spec : SeriesSpec) (item : RawItem) (ps : List Point)
      → IsIn s registry
      → spec_of s.series_id registry ≡ some spec
      → IsIn item (items s.source_id)
      → is_processed db.state item.raw_item_id s.series_id ≡ false
      → parse spec item.payload_text ≡ points ps
      → Unchanged table
      → Unchanged (write_points table spec ps item.raw_item_id item.retrieved_at).0
  write-Unchanged table s spec item ps i q f new e ((later, t), same) =
      let news = All-get _ item (items s.source_id) (All-get _ s registry pending i) f in
      let ((more, u), kept) =
        as_of-write_points_news table spec ps item.raw_item_id item.retrieved_at instant (
          All-imp ps (λ p k. IsNews-append table later spec.series_id item.retrieved_at p t k)
            (news spec ps q new e)) in
      (
        (later ++ more, u ∙ ap (λ x. x ++ more) t ∙ append_assoc db.observations later more),
        λ series_id start' end'. kept series_id start' end' ∙ same series_id start' end',
      )

  run_wanted-Unchanged :
      (wanted : List SeriesSpec)
      → All (λ s. IsIn s registry) wanted
      → Unchanged (run_wanted registry items parse db wanted).db.observations
  unfolding run_wanted
  run_wanted-Unchanged wanted w =
      normalize_sources-keeps registry items parse db.state Unchanged write-Unchanged
        (sort_by_text (λ s. s.0) (by_source_from [] wanted)) (start registry items parse db)
        (All-sort_by_text (λ s. s.0) _ (by_source_from [] wanted)
          (by_source_from-AreFed registry wanted [] w tt))
        (([], sym (append-nil db.observations)), λ series_id start' end'. refl)

  -- A run of the normalizer cannot rewrite the past. Where each point that is read for a series of the
  -- registry from an item of its source that it has still to process is known after an instant (by its
  -- own vintage or, without one, by when the item was fetched), or has its period and vintage stored
  -- already, every read as of the instant returns after the run what it returned before, for all series
  -- and whatever fails to parse.
  pub as_of-run :
      (wanted : Option String) (series_id : String) (start' end' : Option ℕ)
      → as_of (run registry items parse db wanted).0.observations series_id instant start' end'
        ≡ as_of db.observations series_id instant start' end'
  unfolding run
  as_of-run none series_id start' end' =
      (run_wanted-Unchanged registry (All-self registry)).1 series_id start' end'
  as_of-run (some id) series_id start' end' =
      go (filter (λ (spec : SeriesSpec). str_eq spec.series_id id) registry) (
        All-filter (λ s. IsIn s registry) _ registry
          (All-imp registry (λ s m _. m) (All-self registry)))
    where
      go :
          (wanted : List SeriesSpec)
          → All (λ s. IsIn s registry) wanted
          → as_of
              (run_on registry items parse db id wanted).0.observations
              series_id
              instant
              start'
              end'
            ≡ as_of db.observations series_id instant start' end'
      go [] w = refl
      go (spec ∷ specs) w = (run_wanted-Unchanged (spec ∷ specs) w).1 series_id start' end'
