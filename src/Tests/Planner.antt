-- ===== src/Tests/Planner.antt =====
-- Runs of mios/series/planner.py.
use invest.Base.{
  ℕ, ◌≡◌, refl, inl, true, false, Option, none, some, List, [], ◌∷◌, ◌==◌, if◌then◌else◌, sort_by,
  insert_by, All, arith, map,
}
use invest.Base.Int.{pos}
use invest.Common.Decimal.{Decimal, finite, nan, decimal_eq}
use invest.Series.Planner.{
  Vintage, vintage_of, same_value, value_before, changes_before, is_stored, plan_from,
  candidates_of, plan_writes,
}
use invest.Series.Planner.Agrees.{to_vintage}
use invest.Series.Planner.Stored.{stored_after}
use invest.Series.Planner.Settled.{rows_after, plan_writes-stored_after}
use invest.Series.Planner.Fidelity.{Recovers, value_before-rows_after}
use invest.Series.Planner.Numbering.{IsNumbered, plan_writes-IsNumbered}
use invest.Series.Planner.Live.{IsChanges, plan_writes-IsChanges}
use invest.Series.Planner.Backfill.{backfill_repeats, repeated_vintage}

-- 325.1, and then 325.6 twice, the second time written 325.60
abbrev early_figure : Option Decimal
early_figure = some (finite (pos 3251) 1)

abbrev restated : Option Decimal
restated = some (finite (pos 3256) 1)

abbrev reformatted : Option Decimal
reformatted = some (finite (pos 32560) 2)

abbrev feed : List Vintage
feed = (30, restated) ∷ (10, early_figure) ∷ (20, restated) ∷ []

reformatting_is_no_revision : same_value restated reformatted ≡ true
unfolding same_value decimal_eq
reformatting_is_no_revision = refl

plan_feed :
    plan_writes [] feed
    ≡ record { vintage_at = 10; value = early_figure; revision_n = 0; is_revision = false }
      ∷ record { vintage_at = 20; value = restated; revision_n = 1; is_revision = true }
      ∷ []
unfolding plan_writes plan_from candidates_of sort_by insert_by is_stored value_before
    changes_before same_value decimal_eq
plan_feed = refl

-- A decimal that is not a number is a change of itself.
nan_is_rewritten :
    map to_vintage (plan_writes ((10, some nan) ∷ []) ((20, some nan) ∷ [])) ≡ (20, some nan) ∷ []
unfolding plan_writes plan_from candidates_of sort_by insert_by is_stored value_before
    changes_before same_value decimal_eq
nan_is_rewritten = refl

abbrev published : ℕ → Option Decimal
published v = if v == 10 then early_figure else restated

value_before-rows_after_example :
    Recovers (value_before (sort_by vintage_of (rows_after [] feed)) 31) restated
unfolding is_stored
value_before-rows_after_example =
    value_before-rows_after published [] feed (refl, (refl, (refl, tt))) (30, restated) (inl refl)
      refl

plan_writes-stored_after_example : plan_writes (rows_after [] feed) feed ≡ []
plan_writes-stored_after_example =
    plan_writes-stored_after published [] feed (refl, (refl, (refl, tt)))

plan_writes-IsNumbered_example :
    All (IsNumbered (stored_after [] (plan_writes [] feed))) (plan_writes [] feed)
plan_writes-IsNumbered_example = plan_writes-IsNumbered [] feed (omega arith)

abbrev held : List Vintage
held = (5, none) ∷ []

held-IsChanges : IsChanges (sort_by vintage_of held)
unfolding sort_by insert_by
held-IsChanges = tt

plan_writes-IsChanges_example :
    IsChanges (stored_after (sort_by vintage_of held) (plan_writes held feed))
plan_writes-IsChanges_example =
    plan_writes-IsChanges held feed held-IsChanges (omega arith) (omega arith)

first_print_same : same_value early_figure early_figure ≡ true
unfolding same_value decimal_eq
first_print_same = refl

backfill_repeats_run :
    ¬ IsChanges
      (sort_by vintage_of (rows_after ((20, early_figure) ∷ []) ((10, early_figure) ∷ [])))
backfill_repeats_run = backfill_repeats 10 20 early_figure (omega arith) first_print_same

repeated_vintage_run :
    map to_vintage (plan_writes [] ((10, restated) ∷ (10, restated) ∷ []))
    ≡ (10, restated) ∷ (10, restated) ∷ []
repeated_vintage_run = repeated_vintage 10 restated
