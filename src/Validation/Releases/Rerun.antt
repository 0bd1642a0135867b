-- ===== src/Validation/Releases/Rerun.antt =====
-- `ReleaseBuilder.run`, once and twice: mios/validation/releases.py.
use invest.Base.{
  ℕ, ◌≡◌, refl, ◌∙◌, ◌⊎◌, inl, inr, true, none, String, List, [], ◌∷◌, All, All-imp, Bool-cases,
  Option-cases, Begins, Begins-refl, Begins-trans,
}
use invest.Common.Decimal.{Decimal}
use invest.Series.Repo.{SeriesSpec, Table}
use invest.Series.Normalize.{spec_of}
use invest.Validation.Scoring.{first_print}
use invest.Validation.Releases.{
  Release, Run, is_recorded, release_of, record_one, record_periods, record_series, periods, run,
}
use invest.Validation.Releases.Inserts.{
  Extends, key_or, release_from_key, record_release-Begins, record_release-Extends,
}

module _ (through_float : Decimal → Decimal) where
  module _ (table : Table) (registry : List SeriesSpec) (instant : ℕ) where
    key_release_of :
        (s : String) (d : ℕ)
        → key_or s d (release_of through_float table registry s d instant) ≡ (s, d)
    unfolding release_of
    key_release_of s d = elim (Option-cases (first_print table s d instant)) [
      | inl n ↦ rw n refl
      | inr (print, p) ↦ rw p (release_from_key through_float s d print _ _ (spec_of s registry))
    ]

    -- What a further run leaves as it is: a period that is recorded, or that has nothing to record.
    abbrev Quiet : List Release → String → ℕ → Type 0
    Quiet releases s d =
        (is_recorded releases s d ≡ true)
        ⊎ (release_of through_float table registry s d instant ≡ none)

    Quiet-Extends :
        (a b : List Release) (s : String) (d : ℕ) → Extends a b → Quiet a s d → Quiet b s d
    Quiet-Extends a b s d h (inl q) = inl (h s d q)
    Quiet-Extends a b s d h (inr q) = inr q

    record_one-Begins :
        (recorded : List Release) (s : String) (d : ℕ) (run : Run)
        → Begins run.releases
            (record_one through_float table registry instant recorded s d run).releases
    unfolding record_one
    record_one-Begins recorded s d run = elim (Bool-cases (is_recorded recorded s d)) [
      | inl q ↦ rw q (Begins-refl run.releases)
      | inr q ↦
          rw q (record_release-Begins (release_of through_float table registry s d instant) run)
    ]

    record_one-Extends :
        (recorded : List Release) (s : String) (d : ℕ) (run : Run)
        → Extends recorded run.releases
        → let after = (record_one through_float table registry instant recorded s d run).releases in
          Extends run.releases after × Quiet after s d
    unfolding record_one
    record_one-Extends recorded s d run h = elim (Bool-cases (is_recorded recorded s d)) [
      | inl q ↦ rw q ((λ _ _ k. k), inl (h s d q))
      | inr q ↦ rw q (
          record_release-Extends (release_of through_float table registry s d instant) s d run
            (key_release_of s d))
    ]

    record_periods-Begins :
        (recorded : List Release) (s : String) (ds : List ℕ) (run : Run)
        → Begins run.releases
            (record_periods through_float table registry instant recorded s ds run).releases
    unfolding record_periods
    record_periods-Begins recorded s [] run = Begins-refl run.releases
    record_periods-Begins recorded s (d ∷ ds) run =
        let mid = record_one through_float table registry instant recorded s d run in
        Begins-trans run.releases mid.releases _ (record_one-Begins recorded s d run)
          (record_periods-Begins recorded s ds mid)

    record_periods-Extends :
        (recorded : List Release) (s : String) (ds : List ℕ) (run : Run)
        → Extends recorded run.releases
        → let after =
            (record_periods through_float table registry instant recorded s ds run).releases in
          Extends run.releases after × All (Quiet after s) ds
    unfolding record_periods
    record_periods-Extends recorded s [] run h = ((λ _ _ k. k), tt)
    record_periods-Extends recorded s (d ∷ ds) run h =
        let mid = record_one through_float table registry instant recorded s d run in
        let (grown, quiet) = record_one-Extends recorded s d run h in
        let (rest, all) = record_periods-Extends recorded s ds mid (λ t e k. grown t e (h t e k)) in
        ((λ t e k. rest t e (grown t e k)), (Quiet-Extends mid.releases _ s d rest quiet, all))

    abbrev QuietSeries : List Release → String → Type 0
    QuietSeries releases s = All (Quiet releases s) (periods table s instant)

    record_series-Begins :
        (recorded : List Release) (ids : List String) (run : Run)
        → Begins run.releases
            (record_series through_float table registry instant recorded ids run).releases
    unfolding record_series
    record_series-Begins recorded [] run = Begins-refl run.releases
    record_series-Begins recorded (s ∷ ids) run =
        let mid =
          record_periods through_float table registry instant recorded s (periods table s instant)
            run in
        Begins-trans run.releases mid.releases _
          (record_periods-Begins recorded s (periods table s instant) run)
          (record_series-Begins recorded ids mid)

    record_series-Extends :
        (recorded : List Release) (ids : List String) (run : Run)
        → Extends recorded run.releases
        → let after =
            (record_series through_float table registry instant recorded ids run).releases in
          Extends run.releases after × All (QuietSeries after) ids
    unfolding record_series
    record_series-Extends recorded [] run h = ((λ _ _ k. k), tt)
    record_series-Extends recorded (s ∷ ids) run h =
        let mid =
          record_periods through_float table registry instant recorded s (periods table s instant)
            run in
        let (grown, quiet) = record_periods-Extends recorded s (periods table s instant) run h in
        let (rest, all) = record_series-Extends recorded ids mid (λ t e k. grown t e (h t e k)) in
        (
          (λ t e k. rest t e (grown t e k)),
          (
            All-imp (periods table s instant) (λ d. Quiet-Extends mid.releases _ s d rest) quiet,
            all,
          ),
        )

    -- A run that records nothing.
    abbrev Idle : Run → Run → Type 0
    Idle run after = (after.releases ≡ run.releases) × (after.report.written ≡ run.report.written)

    Idle-trans : (a b c : Run) → Idle a b → Idle b c → Idle a c
    Idle-trans a b c (p, q) (r, s) = (r ∙ p, s ∙ q)

    record_one-Idle :
        (releases : List Release) (s : String) (d : ℕ) (run : Run)
        → Quiet releases s d
        → Idle run (record_one through_float table registry instant releases s d run)
    unfolding record_one
    record_one-Idle releases s d run (inl q) = rw q (refl, refl)
    record_one-Idle releases s d run (inr q) = elim (Bool-cases (is_recorded releases s d)) [
      | inl k ↦ rw k (refl, refl)
      | inr k ↦ rw (k, q) (refl, refl)
    ]

    record_periods-Idle :
        (releases : List Release) (s : String) (ds : List ℕ) (run : Run)
        → All (Quiet releases s) ds
        → Idle run (record_periods through_float table registry instant releases s ds run)
    unfolding record_periods
    record_periods-Idle releases s [] run h = (refl, refl)
    record_periods-Idle releases s (d ∷ ds) run h =
        let mid = record_one through_float table registry instant releases s d run in
        Idle-trans run mid (record_periods through_float table registry instant releases s ds mid)
          (record_one-Idle releases s d run h.0) (record_periods-Idle releases s ds mid h.1)

    record_series-Idle :
        (releases : List Release) (ids : List String) (run : Run)
        → All (QuietSeries releases) ids
        → Idle run (record_series through_float table registry instant releases ids run)
    unfolding record_series
    record_series-Idle releases [] run h = (refl, refl)
    record_series-Idle releases (s ∷ ids) run h =
        let mid =
          record_periods through_float table registry instant releases s (periods table s instant)
            run in
        Idle-trans run mid (record_series through_float table registry instant releases ids mid)
          (record_periods-Idle releases s (periods table s instant) run h.0)
          (record_series-Idle releases ids mid h.1)

    -- A run of the builder adds rows at the end of `releases` and changes none, and a second run
    -- over the same observations at the same instant adds none and reports none as written.
    pub run_twice :
        (series_ids : List String) (releases : List Release)
        → let once = run through_float table registry instant series_ids releases in
          let twice = run through_float table registry instant series_ids once.releases in
          Begins releases once.releases
          × (twice.releases ≡ once.releases)
          × (twice.report.written ≡ 0)
    unfolding run
    run_twice series_ids releases =
        let quiet = (record_series-Extends releases series_ids _ (λ _ _ k. k)).1 in
        let idle = record_series-Idle _ series_ids _ quiet in
        (record_series-Begins releases series_ids _, idle.0, idle.1)
