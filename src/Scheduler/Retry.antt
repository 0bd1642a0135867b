-- ===== src/Scheduler/Retry.antt =====
-- mios/scheduler/retry.py: a call that is made again after a `MiosError`, with growing delays.
use native.Mathlib.Nat.{add-zero}
use invest.Base.{
  ℕ, zero, suc, ◌+◌, ◌≤◌, ◌≡◌, ◌⊎◌, refl, inl, inr, Bool, true, false, List, [], ◌∷◌, length, take,
  All, if◌then◌else◌, arith, Bool-cases, ap, subst, ◌∙◌,
}
use invest.Common.Errors.{Raised, mios_error, breaker_open, crash, Result, ok, err}

-- `retry_on=(MiosError,)`
abbrev pub is_mios : Raised → Bool
is_mios (mios_error _) = true
is_mios (breaker_open _) = true
is_mios (crash _) = false

abbrev pub must_retry {ℓ} : {A : Type ℓ} → Result A → Bool
must_retry (ok _) = false
must_retry (err e) = is_mios e

-- The `n` attempts from `first` on.
abbrev pub range : ℕ → ℕ → List ℕ
range first zero = []
range first (suc n) = first ∷ range (suc first) n

module _ {Seconds : Type 0} where
  -- `max_attempts`
  abbrev pub max_attempts : List Seconds → ℕ
  max_attempts delays = suc (length delays)

  abbrev pub jitter_all : (Seconds → ℕ → Seconds) → ℕ → List Seconds → List Seconds
  jitter_all jittered draw [] = []
  jitter_all jittered draw (delay ∷ delays) =
      jittered delay draw ∷ jitter_all jittered (suc draw) delays

-- `delay * (1 + jitter * (2 * rng() - 1))` is floating point: `jittered` gives it for a delay and the
-- number of the draw.
module _ {ℓ} {A : Type ℓ} {Seconds : Type 0} (jittered : Seconds → ℕ → Seconds) where
  -- The loop from an attempt on, over the delays left; the call's results are given by their number.
  -- It returns what the call returned or raised at last, and the sleeps.
  unfoldable pub retry_from : (ℕ → Result A) → ℕ → List Seconds → Result A × List Seconds
  retry_from fn attempt [] = (fn attempt, [])
  retry_from fn attempt (delay ∷ delays) =
      let rest = retry_from fn (suc attempt) delays in
      if must_retry (fn attempt)
      then (rest.0, jittered delay attempt ∷ rest.1)
      else (fn attempt, [])

  -- `RetryPolicy.run`
  unfoldable pub run : (ℕ → Result A) → List Seconds → Result A × List Seconds
  unfolding retry_from
  run fn delays = retry_from fn 0 delays

  -- How a run that began with attempt `first` ends after `retries` more attempts.
  pub record EndsAfter (fn : ℕ → Result A) (first : ℕ) (delays : List Seconds)
      (outcome : Result A × List Seconds) (retries : ℕ) : Type ℓ where
    pub last_call : outcome.0 ≡ fn (first + retries)
    pub bounded : suc retries ≤ max_attempts delays
    pub slept : outcome.1 ≡ jitter_all jittered first (take retries delays)
    pub retried : All (λ i. must_retry (fn i) ≡ true) (range first retries)
    pub stopped : (retries ≡ length delays) ⊎ (must_retry (fn (first + retries)) ≡ false)

  retry_from-EndsAfter :
      (fn : ℕ → Result A) (attempt : ℕ) (delays : List Seconds)
      → (retries : ℕ) × EndsAfter fn attempt delays (retry_from fn attempt delays) retries
  unfolding retry_from
  retry_from-EndsAfter fn attempt [] = (
    0,
    record {
      last_call = rw add-zero refl;
      bounded = omega arith;
      slept = refl;
      retried = tt;
      stopped = inl refl;
    },
  )
  retry_from-EndsAfter fn attempt (delay ∷ delays) = elim (Bool-cases (must_retry (fn attempt))) [
    | inr e ↦ (
      0,
      record {
        last_call = rw (e, add-zero) refl;
        bounded = omega arith;
        slept = rw e refl;
        retried = tt;
        stopped = inr (rw add-zero e);
      },
    )
    | inl e ↦
        let (n, h) = retry_from-EndsAfter fn (suc attempt) delays in
        let next : suc attempt + n ≡ attempt + suc n = omega arith in
        (
          suc n,
          record {
            last_call = rw e (h.last_call ∙ ap fn next);
            bounded = omega (arith, h.bounded);
            slept = rw e (ap (λ s. jittered delay attempt ∷ s) h.slept);
            retried = (e, h.retried);
            stopped = elim h.stopped [
              | inl all ↦ inl (omega arith)
              | inr last ↦ inr (subst (λ m. must_retry (fn m) ≡ false) next last)
            ];
          },
        )
  ]

  -- A run returns or raises what its last call did. All calls before it raised a `MiosError`; it
  -- is the last because it did not, or because it is attempt `max_attempts`. Between the calls the
  -- run sleeps for the delays in order, each jittered.
  pub run-EndsAfter :
      (fn : ℕ → Result A) (delays : List Seconds)
      → (retries : ℕ) × EndsAfter fn 0 delays (run fn delays) retries
  unfolding run
  run-EndsAfter fn delays = retry_from-EndsAfter fn 0 delays
