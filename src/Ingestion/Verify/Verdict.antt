-- ===== src/Ingestion/Verify/Verdict.antt =====
-- What a report of mios/ingestion/verify.py says.
use mathlib.Core.Bool.{false≢true}
use invest.Base.{
  ◌≡◌, ◌↔◌, ◌⊎◌, inl, inr, refl, sym, ap₂, ◌∙◌, Bool, true, false, not, ◌&&◌, ◌||◌, Option, none,
  String, List, [], ◌∷◌, map, filter, if◌then◌else◌, All, any, arith, Bool-cases, Nothing,
  sort_by_text,
}
use invest.Common.Errors.{Raised, Result, ok, err, ◌>>=◌}
use invest.Series.Repo.{SeriesSpec, Point}
use invest.Series.Parsers.{Reading, read, parse_error, crashed}
use invest.Ingestion.Collector.{
  SourceSpec, RawDraft, Fetched, fetched, adapter_error, transport_error, other_error,
}
use invest.Ingestion.Verify.{
  SeriesCheck, SourceCheck, all_passed, is_ok, is_skipped, VerifyReport, failures, report_ok,
  has_value, check_reading, check_points, for_source, check_payload, check_drafts, check_fetched,
  check_one, check_all, wanted, check, id_of, no_values,
}

-- A payload from which a parser reads a figure.
abbrev pub ReadsSome : Reading (List Point) → Type 0
ReadsSome (read points) = any has_value points ≡ true
ReadsSome (parse_error e) = Nothing
ReadsSome crashed = Nothing

module _ (parse : SeriesSpec → String → Reading (List Point)) (fetch : SourceSpec → Fetched)
    (registry : List SeriesSpec) where
  abbrev pub IsReadable : SourceSpec → List RawDraft → Type 0
  IsReadable spec [] = Nothing
  IsReadable spec (draft ∷ drafts) =
      All (λ s. ReadsSome (parse s draft.payload_text)) (for_source registry spec.source_id)

  -- A source answers that nothing changed, or with a payload that the parser of each of its series reads
  -- a figure from.
  abbrev pub IsHealthy : SourceSpec → Fetched → Type 0
  IsHealthy spec (fetched result) =
      if result.not_modified then Unit else IsReadable spec result.drafts
  IsHealthy spec (adapter_error e) = Nothing
  IsHealthy spec (transport_error e) = Nothing
  IsHealthy spec (other_error e) = Nothing

  -- Why a run ends in an exception: the adapter of an enabled source raises another than its own, or a
  -- parser another than `ParseError`.
  abbrev pub IsFault : Raised → Type 0
  IsFault e =
      ((s : SourceSpec) × (s.enabled ≡ true) × (fetch s ≡ other_error e))
      ⊎ ((s : SeriesSpec) × (payload : String) × (parse s payload ≡ crashed))

  abbrev pub Concludes : {A : Type 0} → (A → Type 0) → Result A → Type 0
  Concludes P (ok a) = P a
  Concludes P (err e) = IsFault e

  -- A call, and what is done with its value.
  Concludes-bind :
      {A B : Type 0} (Before : A → Type 0) (After : B → Type 0) (call : Result A)
      (next : A → Result B)
      → Concludes Before call
      → ((value : A) → Before value → Concludes After (next value))
      → Concludes After (call >>= next)
  Concludes-bind Before After (ok value) next before step = step value before
  Concludes-bind Before After (err raised) next fault step = fault

  Concludes-imp :
      {A : Type 0} (P Q : A → Type 0) (r : Result A)
      → Concludes P r
      → ((a : A) → P a → Q a)
      → Concludes Q r
  Concludes-imp P Q (ok a) h k = k a h
  Concludes-imp P Q (err e) h k = h

  no_values-filter :
      (points : List Point) → no_values (filter has_value points) ≡ not (any has_value points)
  no_values-filter [] = refl
  no_values-filter (p ∷ points) = elim (Bool-cases (has_value p)) [
    | inl e ↦ rw e refl
    | inr e ↦ rw e (no_values-filter points)
  ]

  abbrev Passes : SeriesCheck → Type 0 → Type 0
  Passes c P = (c.passed ≡ true) ↔ P

  check_points-Passes :
      (spec : SeriesSpec) (points : List Point)
      → Passes (check_points spec points (filter has_value points)) (any has_value points ≡ true)
  check_points-Passes spec points = elim (Bool-cases (any has_value points)) [
    | inl e ↦ rw (no_values-filter points, e) (λ h. refl, λ h. refl)
    | inr e ↦ rw (no_values-filter points, e) (λ h. h, λ h. h)
  ]

  check_reading-Concludes :
      (spec : SeriesSpec) (payload : String) (r : Reading (List Point))
      → parse spec payload ≡ r
      → Concludes (λ c. Passes c (ReadsSome r)) (check_reading spec r)
  check_reading-Concludes spec payload (read points) e = check_points-Passes spec points
  check_reading-Concludes spec payload (parse_error f) e =
      (λ h. absurd (false≢true h), λ h. elim h [ ])
  check_reading-Concludes spec payload crashed e = inr (spec, payload, e)

  or_false : (b : Bool) → (b || false) ≡ b
  or_false true = refl
  or_false false = refl

  passed_cons :
      (c : SeriesCheck) (checks : List SeriesCheck) {P Q : Type 0}
      → Passes c P
      → (all_passed checks ≡ true) ↔ Q
      → (all_passed (c ∷ checks) ≡ true) ↔ (P × Q)
  passed_cons c checks p q = elim (Bool-cases c.passed) [
    | inl e ↦ rw e (λ h. (p.0 e, q.0 h), λ h. q.1 h.1)
    | inr e ↦ rw e (λ h. absurd (false≢true h), λ h. absurd (false≢true (sym e ∙ p.1 h.0)))
  ]

  abbrev PassAll : String → List SeriesSpec → List SeriesCheck → Type 0
  PassAll payload specs checks =
      (all_passed checks ≡ true) ↔ All (λ s. ReadsSome (parse s payload)) specs

  check_payload-Concludes :
      (payload : String) (specs : List SeriesSpec)
      → Concludes (PassAll payload specs) (check_payload parse fetch registry payload specs)
  unfolding check_payload
  check_payload-Concludes payload [] = (λ h. tt, λ h. refl)
  check_payload-Concludes payload (spec ∷ specs) =
      Concludes-bind (λ c. Passes c (ReadsSome (parse spec payload)))
        (PassAll payload (spec ∷ specs)) (check_reading spec (parse spec payload)) _
        (check_reading-Concludes spec payload (parse spec payload) refl)
        (λ c p.
          Concludes-bind (PassAll payload specs) (PassAll payload (spec ∷ specs))
            (check_payload parse fetch registry payload specs) _
            (check_payload-Concludes payload specs) (λ checks q. passed_cons c checks p q))

  -- A check is about its source, and is ok or skipped exactly when the source is disabled or healthy.
  abbrev Judges : SourceSpec → SourceCheck → Type 0
  Judges s c =
      (c.source_id ≡ s.source_id)
      × ((is_ok c || is_skipped c) ≡ true ↔ (s.enabled ≡ true → IsHealthy s (fetch s)))

  abbrev JudgesFetched : SourceSpec → Fetched → SourceCheck → Type 0
  JudgesFetched s f c =
      (c.source_id ≡ s.source_id) × ((is_ok c || is_skipped c) ≡ true ↔ IsHealthy s f)

  check_drafts-Concludes :
      (s : SourceSpec) (drafts : List RawDraft)
      → Concludes
          (λ c.
            (c.source_id ≡ s.source_id) × ((is_ok c || is_skipped c) ≡ true ↔ IsReadable s drafts))
          (check_drafts parse fetch registry s drafts)
  check_drafts-Concludes s [] = (refl, (λ h. absurd (false≢true h), λ h. elim h [ ]))
  check_drafts-Concludes s (draft ∷ drafts) =
      let specs = for_source registry s.source_id in
      Concludes-bind (PassAll draft.payload_text specs) _
        (check_payload parse fetch registry draft.payload_text specs) _
        (check_payload-Concludes draft.payload_text specs)
        (λ checks p.
          (refl, (λ h. p.0 (rw (or_false (all_passed checks)) at h), λ h. ground (arith, p.1 h))))

  check_fetched-Concludes :
      (s : SourceSpec) (f : Fetched)
      → s.enabled ≡ true
      → fetch s ≡ f
      → Concludes (JudgesFetched s f) (check_fetched parse fetch registry s f)
  check_fetched-Concludes s (adapter_error e) h k =
      (refl, (λ h. absurd (false≢true h), λ h. elim h [ ]))
  check_fetched-Concludes s (transport_error e) h k =
      (refl, (λ h. absurd (false≢true h), λ h. elim h [ ]))
  check_fetched-Concludes s (other_error e) h k = inl (s, h, k)
  check_fetched-Concludes s (fetched result) h k = elim (Bool-cases result.not_modified) [
    | inl e ↦ rw e (refl, (λ h. tt, λ h. refl))
    | inr e ↦ rw e (check_drafts-Concludes s result.drafts)
  ]

  enabled-Concludes :
      (s : SourceSpec) (enabled : Bool)
      → s.enabled ≡ enabled
      → Concludes (Judges s) (
          if enabled
          then check_fetched parse fetch registry s (fetch s)
          else ok (record { source_id = s.source_id; reachable = none; series = [] }))
  enabled-Concludes s false e = (refl, (λ h g. absurd (false≢true (sym e ∙ g)), λ h. refl))
  enabled-Concludes s true e =
      Concludes-imp (JudgesFetched s (fetch s)) (Judges s)
        (check_fetched parse fetch registry s (fetch s))
        (check_fetched-Concludes s (fetch s) e refl)
        (λ c j. (j.0, (λ h g. j.1.0 h, λ h. j.1.1 (h e))))

  check_one-Concludes : (s : SourceSpec) → Concludes (Judges s) (check_one parse fetch registry s)
  unfolding check_one
  check_one-Concludes s = enabled-Concludes s s.enabled refl

  abbrev pub IsFine : SourceSpec → Type 0
  IsFine s = s.enabled ≡ true → IsHealthy s (fetch s)

  -- A report has one check for each source, in order, and is ok exactly when every source is disabled or
  -- healthy.
  abbrev pub IsVerdict : List SourceSpec → VerifyReport → Type 0
  IsVerdict specs report =
      (map (λ (c : SourceCheck). c.source_id) report ≡ map id_of specs)
      × (report_ok report ≡ true ↔ All IsFine specs)

  not_or : (a b : Bool) → (not a && not b) ≡ not (a || b)
  not_or true b = refl
  not_or false b = refl

  IsVerdict-cons :
      (s : SourceSpec) (specs : List SourceSpec) (c : SourceCheck) (checks : VerifyReport)
      → Judges s c
      → IsVerdict specs checks
      → IsVerdict (s ∷ specs) (c ∷ checks)
  unfolding report_ok failures
  IsVerdict-cons s specs c checks j v = elim (Bool-cases (is_ok c || is_skipped c)) [
    | inl e ↦ (
      ap₂ (λ x xs. x ∷ xs) j.0 v.0,
      rw (not_or (is_ok c) (is_skipped c), e) (λ h. (j.1.0 e, v.1.0 h), λ h. v.1.1 h.1),
    )
    | inr e ↦ (
      ap₂ (λ x xs. x ∷ xs) j.0 v.0,
      rw (not_or (is_ok c) (is_skipped c), e)
          (λ h. absurd (false≢true h), λ h. absurd (false≢true (sym e ∙ j.1.1 h.0))),
    )
  ]

  check_all-Concludes :
      (specs : List SourceSpec) → Concludes (IsVerdict specs) (check_all parse fetch registry specs)
  unfolding check_all report_ok failures
  check_all-Concludes [] = (refl, (λ h. tt, λ h. refl))
  check_all-Concludes (s ∷ specs) =
      Concludes-bind (Judges s) (IsVerdict (s ∷ specs)) (check_one parse fetch registry s) _
        (check_one-Concludes s)
        (λ c j.
          Concludes-bind (IsVerdict specs) (IsVerdict (s ∷ specs))
            (check_all parse fetch registry specs) _ (check_all-Concludes specs)
            (λ checks v. IsVerdict-cons s specs c checks j v))

  -- A run gives one check for each wanted source, in the order of their identifiers, and its report is ok
  -- exactly when every enabled source among them answers that nothing changed, or with a payload from
  -- which the parser of each of its series reads a figure. It ends in an exception only where an adapter
  -- or a parser raises one that is not its own.
  pub check-IsVerdict :
      (sources : List SourceSpec) (source_id : Option String)
      → Concludes
          (IsVerdict (sort_by_text id_of (wanted sources source_id)))
          (check parse fetch registry sources source_id)
  unfolding check
  check-IsVerdict sources source_id =
      check_all-Concludes (sort_by_text id_of (wanted sources source_id))
