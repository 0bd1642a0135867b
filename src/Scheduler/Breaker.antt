-- ===== src/Scheduler/Breaker.antt =====
-- mios/scheduler/breaker.py: a circuit breaker for each key, its state in a file.
pub mod Laws
use invest.Base.{
  ℕ, suc, ◌+◌, Bool, true, false, ◌||◌, Option, none, some, String, leb, is_some, if◌then◌else◌,
}
use invest.Base.Dict
use invest.Base.Dict.{Dict}
use invest.Common.Errors.{Result, ok, err, breaker_open, ◌>>=◌}
use invest.Common.StateStore.{StateFile, load, save}

pub data BreakerState : Type 0 where
  closed open_circuit half_open : BreakerState

pub record Entry : Type 0 where
  pub failures : ℕ
  pub opened_at : Option ℕ

-- The settings of a `CircuitBreaker`; the cooldown is in microseconds.
pub record Breaker : Type 0 where
  pub failure_threshold : ℕ
  pub cooldown : ℕ

abbrev pub fresh_entry : Entry
fresh_entry = record { failures = 0; opened_at = none }

abbrev pub or_fresh : Option Entry → Entry
or_fresh none = fresh_entry
or_fresh (some e) = e

-- `_entry`
unfoldable pub entry : Dict Entry → String → Entry
entry d key = or_fresh (Dict.get key d)

-- `clock() - opened_at >= cooldown`, with the clock's reading
abbrev pub state_at : ℕ → ℕ → Option ℕ → BreakerState
state_at cooldown now none = closed
state_at cooldown now (some opened_at) =
    if leb (opened_at + cooldown) now then half_open else open_circuit

unfoldable pub status : Breaker → StateFile Entry → String → ℕ → Result BreakerState
unfolding load entry
status b file key now = do d ← load file; ok (state_at b.cooldown now (entry d key).opened_at)

abbrev pub refuse : String → BreakerState → Result (Unit {0})
refuse key open_circuit = err (breaker_open key)
refuse key _ = ok tt

unfoldable pub check : Breaker → StateFile Entry → String → ℕ → Result (Unit {0})
unfolding status
check b file key now = do s ← status b file key now; refuse key s

unfoldable pub record_success : StateFile Entry → String → Result (StateFile Entry)
unfolding load save
record_success file key = do
  d ← load file
  if is_some (Dict.get key d) then ok (save (Dict.remove key d)) else ok file

abbrev pub failed_entry : Breaker → ℕ → Entry → Entry
failed_entry b now e = record {
  failures = suc e.failures;
  opened_at =
      if leb b.failure_threshold (suc e.failures) || is_some e.opened_at
      then some now
      else e.opened_at;
}

unfoldable pub record_failure : Breaker → StateFile Entry → String → ℕ → Result (StateFile Entry)
unfolding load save entry
record_failure b file key now = do
  d ← load file
  ok (save (Dict.put key (failed_entry b now (entry d key)) d))
