-- ===== src/Tests/Forecasts.antt =====
-- Runs of mios/prediction/bridge.py and of mios/analysis/macro.py.
use invest.Base.{◌≡◌, ◌≤◌, ◌+◌, ◌/◌, ◌^◌, refl, [], ◌∷◌, ◌++◌, arith, true, List}
use invest.Base.Int.{ℤ, pos, negsuc, pos_part, neg_part, ◌+ℤ◌, ◌-ℤ◌, ltb_ℤ, eq_ℤ}
use invest.Common.Dates.{date}
use invest.Common.Decimal.{Decimal, finite}
use invest.Common.Labels.{monthly}
use invest.Common.Floats.{FloatOps}
use invest.Common.Numeric.{Numeric, OrderLaws}
use invest.Series.Repo.{Table}
use invest.Validation.Scoring.{diff}
use invest.Prediction.Features.{load, changes_of}
use invest.Prediction.Bridge.{TargetSpec, standard, level, forecast_target}
use invest.Prediction.Bridge.Known.{forecast_target-append_later}
use invest.Prediction.Bridge.Sound.{EndsSound, forecast_target-EndsSound}
use invest.Analysis.Records.{DimensionSpec, AssetViewSpec, level_z}
use invest.Analysis.Macro.{score_dimension, asset_view}
use invest.Analysis.Known.{score_dimension-append_later}
use invest.Analysis.Accounts.{AreSignals, AreLinks}
use invest.Analysis.Bounds.{RoundLaws, IsAccounted, score-IsAccounted}
use invest.Tests.Figures.{whole, figure}

-- Whole numbers in the place of floats, cut where a literal has a fraction.
abbrev cut : Decimal → ℤ
cut (finite (pos c) s) = pos (c / 10 ^ s)
cut x = pos 0

abbrev whole_numbers : FloatOps ℤ
whole_numbers = record whole { of_decimal = cut }

abbrev sum_of : List ℤ → ℤ
sum_of [] = pos 0
sum_of (x ∷ xs) = x +ℤ sum_of xs

abbrev pub numbers : Numeric ℤ
numbers = record {
  base = whole_numbers;
  plus = λ a b. a +ℤ b;
  times = λ a b. a;
  less = ltb_ℤ;
  equal = eq_ℤ;
  total = sum_of;
  mean = λ xs. pos 0;
  spread = λ xs. pos 1;
  erf = λ a. a;
  sqrt = λ a. a;
  rounded = λ places a. a;
  whole = λ a. a;
  of_whole = λ a. a;
}

numbers_order : OrderLaws numbers
numbers_order = record { irreflexive = λ x. ground arith; asymmetric = λ x y h. ground arith }

between_25 :
    (x : ℤ) → ltb_ℤ (negsuc 24) x ≡ true → ltb_ℤ x (pos 25) ≡ true → pos_part x + neg_part x ≤ 25
between_25 x h k = ground arith

numbers_round : RoundLaws numbers
unfolding ◌-ℤ◌
numbers_round = record { between = between_25; highest = omega arith; lowest = omega arith }

abbrev pub months : Table
months =
    figure (date 2026 1 1) 10 100
    ∷ figure (date 2026 2 1) 11 120
    ∷ figure (date 2026 3 1) 12 150
    ∷ figure (date 2026 4 1) 13 190
    ∷ figure (date 2026 5 1) 14 210
    ∷ []

abbrev restated : Table
restated = figure (date 2026 5 1) 30 215 ∷ []

abbrev pub payrolls : TargetSpec ℤ
payrolls = record {
  series_id = "ser_us_nfp_level";
  frequency = monthly;
  transform = diff;
  baseline_window = 3;
  max_adjustment = pos 50;
  drivers =
      record {
        series_id = "ser_us_claims_initial";
        label = "Initial claims";
        mode = standard;
        weight = negsuc 19;
        transform = level;
        window = 12;
      }
      ∷ [];
}

abbrev pub labor : DimensionSpec ℤ
labor = record {
  dimension = "labor";
  stance_words = record { positive = "hot"; neutral = "balanced"; negative = "cooling" };
  signals =
      record {
        series_id = "ser_us_nfp_level";
        label = "Payrolls";
        measure = level_z;
        weight = pos 10;
        min_history = 4;
      }
      ∷ [];
  blind_spots = [];
}

abbrev pub dollar : AssetViewSpec ℤ
dollar = record {
  view_id = "usd";
  asset_id = "ent_asset_usd";
  stance_words = record { positive = "bullish"; neutral = "neutral"; negative = "bearish" };
  links = record { dimension = "labor"; weight = pos 1 } ∷ [];
  blind_spots = [];
}

forecast_target-append_later_example :
    forecast_target numbers (months ++ restated) payrolls 25 27
    ≡ forecast_target numbers months payrolls 25 27
forecast_target-append_later_example =
    forecast_target-append_later numbers months restated 25 (omega arith, tt) payrolls 27

forecast_target-EndsSound_example :
    EndsSound numbers payrolls months 25
      (load whole_numbers months "ser_us_nfp_level" 25).periods
      (changes_of whole_numbers (load whole_numbers months "ser_us_nfp_level" 25) diff)
      (forecast_target numbers months payrolls 25 27)
unfolding ◌-ℤ◌
forecast_target-EndsSound_example =
    forecast_target-EndsSound numbers numbers_order payrolls refl months 25 27

score_dimension-append_later_example :
    score_dimension numbers (months ++ restated) labor 25 ≡ score_dimension numbers months labor 25
score_dimension-append_later_example =
    score_dimension-append_later numbers months restated 25 (omega arith, tt) labor

score-IsAccounted_example :
    IsAccounted numbers
      (AreSignals numbers months 25 labor.signals)
      (score_dimension numbers months labor 25)
    × IsAccounted numbers
        (AreLinks numbers (("labor", score_dimension numbers months labor 25) ∷ []) dollar.links)
        (asset_view numbers dollar (("labor", score_dimension numbers months labor 25) ∷ []) 25)
score-IsAccounted_example =
    score-IsAccounted numbers numbers_round months labor dollar
      (("labor", score_dimension numbers months labor 25) ∷ []) 25
