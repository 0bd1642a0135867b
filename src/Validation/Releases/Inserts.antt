-- ===== src/Validation/Releases/Inserts.antt =====
-- What the insert of a release does to the recorded pairs.

use invest.Base.{
  ℕ, ◌≡◌, refl, subst, ◌⊎◌, inl, inr, true, ◌&&◌, ◌||◌, ◌==◌, Option, none, some, String, List, [],
  ◌∷◌, ◌++◌, str_eq, Bool-cases, arith, eq_refl, Begins, Begins-refl,
}
use invest.Common.Decimal.{Decimal}
use invest.Series.Repo.{SeriesSpec}
use invest.Validation.Releases.{
  Release, Run, is_recorded, insert_release, release_from, record_release, run,
}

is_recorded-append :
    (releases : List Release) (r : Release) (s : String) (d : ℕ)
    → is_recorded (releases ++ r ∷ []) s d
      ≡ (is_recorded releases s d || (str_eq r.series_id s && (r.period == d)))
is_recorded-append [] r s d = ground arith
is_recorded-append (q ∷ releases) r s d = ground (arith, is_recorded-append releases r s d)

pub insert_release-Begins :
    (r : Release) (releases : List Release) → Begins releases (insert_release r releases)
unfolding insert_release
insert_release-Begins r releases = elim (Bool-cases (is_recorded releases r.series_id r.period)) [
  | inl e ↦ rw e (Begins-refl releases)
  | inr e ↦ rw e (r ∷ [], refl)
]

-- Every release that the first rows have, the second rows have.
abbrev pub Extends : List Release → List Release → Type 0
Extends a b = (s : String) (d : ℕ) → is_recorded a s d ≡ true → is_recorded b s d ≡ true

insert_release-Extends :
    (r : Release) (releases : List Release) → Extends releases (insert_release r releases)
unfolding insert_release
insert_release-Extends r releases s d h = ground (arith, is_recorded-append releases r s d, h)

is_recorded-insert_release :
    (r : Release) (releases : List Release)
    → is_recorded (insert_release r releases) r.series_id r.period ≡ true
unfolding insert_release
is_recorded-insert_release r releases =
    ground (arith, is_recorded-append releases r r.series_id r.period, eq_refl r.series_id)

abbrev pub key_or : String → ℕ → Option Release → String × ℕ
key_or s d none = (s, d)
key_or s d (some r) = (r.series_id, r.period)

pub record_release-Begins :
    (o : Option Release) (run : Run) → Begins run.releases (record_release o run).releases
record_release-Begins none run = Begins-refl run.releases
record_release-Begins (some r) run = insert_release-Begins r run.releases

-- The row is there, or there was none to record.
pub record_release-Extends :
    (o : Option Release) (s : String) (d : ℕ) (run : Run)
    → key_or s d o ≡ (s, d)
    → Extends run.releases (record_release o run).releases
      × ((is_recorded (record_release o run).releases s d ≡ true) ⊎ (o ≡ none))
record_release-Extends none s d run k = ((λ _ _ h. h), inr refl)
record_release-Extends (some r) s d run k = (
  insert_release-Extends r run.releases,
  inl (
      subst (λ (p : String × ℕ). is_recorded (insert_release r run.releases) p.0 p.1 ≡ true) k
        (is_recorded-insert_release r run.releases)),
)

module _ (through_float : Decimal → Decimal) where
  pub release_from_key :
      (s : String) (d : ℕ) (print : Decimal × ℕ) (before after : Option Decimal)
      (spec : Option SeriesSpec)
      → key_or s d (release_from through_float s d print before after spec) ≡ (s, d)
  release_from_key s d print none after spec = refl
  release_from_key s d print (some before) after none = refl
  release_from_key s d print (some before) after (some spec) = refl
