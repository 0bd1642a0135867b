-- ===== src/Scheduler/RateLimit.antt =====
-- mios/scheduler/ratelimit.py: a minimum interval between two uses of a key. Times are in
-- microseconds of the monotonic clock.
use invest.Base.{
  ℕ, ◌+◌, ◌-◌, ◌≤◌, ◌≡◌, Option, none, some, String, ltb, if◌then◌else◌, arith, ◌∙◌, eq_refl,
}
use invest.Base.Dict
use invest.Base.Dict.{Dict, get-put}

-- What is left to wait at `now`: `min_interval - (now - last)`, if it is positive.
unfoldable pub remaining : Option ℕ → ℕ → ℕ → ℕ
remaining none min_interval now = 0
remaining (some last) min_interval now =
    if ltb now (last + min_interval) then last + min_interval - now else 0

-- `acquire`, with the clock read at `now` and, after a sleep of `waited`, at `clock waited`. It
-- returns the table of last uses and the time waited.
unfoldable pub acquire : Dict ℕ → String → ℕ → ℕ → (ℕ → ℕ) → Dict ℕ × ℕ
unfolding remaining
acquire last_uses key min_interval now clock =
    let waited = remaining (Dict.get key last_uses) min_interval now in
    (Dict.put key (clock waited) last_uses, waited)

-- Where a sleep lasts at least as long as it is asked to, the use that `acquire` records for a key
-- is at least the interval after the use that was recorded before, and the wait is at most the
-- interval if the clock has not gone back.
pub acquire_spaces :
    (last_uses : Dict ℕ) (key : String) (min_interval now last : ℕ) (clock : ℕ → ℕ)
    → Dict.get key last_uses ≡ some last
    → last ≤ now
    → ((waited : ℕ) → now + waited ≤ clock waited)
    → (used : ℕ) × (Dict.get key (acquire last_uses key min_interval now clock).0 ≡ some used)
      × (last + min_interval ≤ used)
      × ((acquire last_uses key min_interval now clock).1 ≤ min_interval)
unfolding acquire
acquire_spaces last_uses key min_interval now last clock e le sleeps = rw e (
    let waited = remaining (some last) min_interval now in
    (
      clock waited,
      get-put key key (clock waited) last_uses ∙ (rw (eq_refl key)),
      ground (arith, sleeps waited),
      ground arith,
    ))
