-- ===== src/Scheduler/Breaker/Laws.antt =====
-- A key's circuit after its failures and its successes.

use native.Mathlib.Nat.{add-zero}
use mathlib.Core.Option.{some-injective}
use invest.Base.{
  ℕ, suc, ◌+◌, ◌<◌, ◌≡◌, ◌↔◌, refl, ◌∙◌, Option, none, some, String, List, [], ◌∷◌, leb, is_some,
  if◌then◌else◌, length, arith, str_eq, eq_iff, eq_refl, Bool-cases, inl, inr, ap, subst, leb→le,
  leb→lt,
}
use invest.Base.Dict
use invest.Base.Dict.{Dict, get-put, get-remove}
use invest.Common.Errors.{Result, ok, err, breaker_open, ◌>>=◌}
use invest.Common.StateStore.{StateFile, load, missing, unreadable, stored}
use invest.Scheduler.Breaker.{
  Entry, Breaker, fresh_entry, or_fresh, entry, state_at, status, check, refuse, record_success,
  record_failure, failed_entry,
}

-- The key's entry in a file that can be read.
pub entry_in : StateFile Entry → String → Entry
entry_in missing key = fresh_entry
entry_in unreadable key = fresh_entry
entry_in (stored d) key = entry d key

-- The failures of one key at the instants of a list, oldest first.
pub fail_all : Breaker → StateFile Entry → String → List ℕ → Result (StateFile Entry)
fail_all b file key [] = ok file
fail_all b file key (now ∷ later) = do
  next ← record_failure b file key now
  fail_all b next key later

abbrev pub last_or : Option ℕ → List ℕ → Option ℕ
last_or last [] = last
last_or last (now ∷ later) = last_or (some now) later

-- An entry after `n` failures of which the last was at `last`.
abbrev pub IsCounted : Breaker → Entry → ℕ → Option ℕ → Type 0
IsCounted b e n last =
    (e.failures ≡ n) × (e.opened_at ≡ (if leb b.failure_threshold n then last else none))

failed_entry-IsCounted :
    (b : Breaker) (e : Entry) (n now : ℕ) (last : Option ℕ)
    → IsCounted b e n last
    → IsCounted b (failed_entry b now e) (suc n) (some now)
failed_entry-IsCounted b e n now none h = ground arith
failed_entry-IsCounted b e n now (some t) h = ground arith

entry-record_failure :
    (b : Breaker) (d : Dict Entry) (key : String) (now : ℕ)
    → entry (Dict.put key (failed_entry b now (entry d key)) d) key
      ≡ failed_entry b now (entry d key)
unfolding entry
entry-record_failure b d key now =
    ap or_fresh (get-put key key (failed_entry b now (entry d key)) d) ∙ (rw (eq_refl key))

fail_all-stored :
    (b : Breaker) (d : Dict Entry) (key : String) (times : List ℕ) (n : ℕ) (last : Option ℕ)
    → IsCounted b (entry d key) n last
    → (file : StateFile Entry) × (fail_all b (stored d) key times ≡ ok file)
      × IsCounted b (entry_in file key) (n + length times) (last_or last times)
unfolding fail_all record_failure entry_in
fail_all-stored b d key [] n last h = (stored d, refl, rw add-zero h)
fail_all-stored b d key (now ∷ later) n last h =
    let d' = Dict.put key (failed_entry b now (entry d key)) d in
    let (file, q, k) =
      fail_all-stored b d' key later (suc n) (some now)
        (rw entry-record_failure (failed_entry-IsCounted b (entry d key) n now last h)) in
    (
      file,
      q,
      subst (λ m. IsCounted b (entry_in file key) m (last_or (some now) later)) (omega arith) k,
    )

-- After the failures of a key at the instants of a list, from no state, the breaker has counted
-- each, and its circuit is closed while they are fewer than the threshold; from there on it was
-- opened at the last of them, so each further failure begins the cooldown again.
pub fail_all-IsCounted :
    (b : Breaker) (key : String) (times : List ℕ)
    → (file : StateFile Entry) × (fail_all b missing key times ≡ ok file)
      × IsCounted b (entry_in file key) (length times) (last_or none times)
unfolding fail_all record_failure entry_in entry
fail_all-IsCounted b key [] = (missing, refl, (refl, ground arith))
fail_all-IsCounted b key (now ∷ later) =
    let (file, q, k) =
      fail_all-stored b [] key (now ∷ later) 0 none
        (unfold entry Dict.get in (refl, ground arith)) in
    (
      file,
      q,
      subst (λ m. IsCounted b (entry_in file key) m (last_or none (now ∷ later))) (omega arith) k,
    )

-- A call for a key is refused exactly while its circuit is open and its cooldown has not passed.
pub check_refuses :
    (b : Breaker) (d : Dict Entry) (key : String) (now : ℕ)
    → (check b (stored d) key now ≡ err (breaker_open key))
      ↔ ((opened : ℕ) × ((entry d key).opened_at ≡ some opened) × (now < opened + b.cooldown))
unfolding check status load
check_refuses b d key now = go (entry d key).opened_at
  where
    go :
        (o : Option ℕ)
        → (refuse key (state_at b.cooldown now o) ≡ err (breaker_open key))
          ↔ ((opened : ℕ) × (o ≡ some opened) × (now < opened + b.cooldown))
    go none = ((λ e. absurd (cc e)), (λ h. absurd (cc h.1)))
    go (some t) = elim (Bool-cases (leb (t + b.cooldown) now)) [
      | inl e ↦ rw e (
        (λ q. absurd (cc q)),
        (λ h. absurd (omega (arith, leb→le (t + b.cooldown) now e, some-injective t h.0 h.1))),
      )
      | inr e ↦ rw e ((λ q. (t, refl, leb→lt (t + b.cooldown) now e)), (λ h. refl))
    ]

-- A success closes the circuit of its key, and leaves the entry of every other key.
pub entry-record_success :
    (d : Dict Entry) (key other : String)
    → (file : StateFile Entry) × (record_success (stored d) key ≡ ok file)
      × (entry_in file other ≡ (if str_eq key other then fresh_entry else entry d other))
unfolding record_success entry_in entry
entry-record_success d key other = elim (Bool-cases (is_some (Dict.get key d))) [
  | inl e ↦ (stored (Dict.remove key d), rw e, ap or_fresh (get-remove key other d) ∙ ground arith)
  | inr e ↦ (stored d, rw e, ground (arith, eq_iff key other))
]
