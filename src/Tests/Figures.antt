-- ===== src/Tests/Figures.antt =====
-- Test data that the runs of the validation and of the prediction share.
use invest.Base.{ℕ, some}
use invest.Base.Int.{ℤ, pos, ◌-ℤ◌, pos_part, ltb_ℤ, eq_ℤ}
use invest.Common.Decimal.{Decimal, finite}
use invest.Common.Floats.{FloatOps}
use invest.Series.Repo.{Observation}

abbrev units : Decimal → ℤ
units (finite c s) = c
units _ = pos 0

-- Whole numbers in the place of floats.
abbrev pub whole : FloatOps ℤ
whole = record {
  of_decimal = units;
  minus = λ a b. a -ℤ b;
  divide = λ a b. a;
  absolute = λ a. pos (pos_part a);
  one = pos 1;
  is_zero = λ a. eq_ℤ a (pos 0);
  is_positive = λ a. ltb_ℤ (pos 0) a;
}

-- A row of one series, by its period, its vintage and its value.
abbrev pub figure : ℕ → ℕ → ℕ → Observation
figure period vintage n = record {
  series_id = "ser_us_nfp_level";
  observation_date = period;
  vintage_at = vintage;
  value = some (finite (pos n) 0);
  revision_n = 0;
  source_id = "src_fred";
  raw_item_id = "raw_1";
}
