-- ===== src/Prediction/Bridge/Drivers.antt =====
-- What the loop of mios/prediction/bridge.py over the drivers makes of each.
use invest.Base.{
  ℕ, ◌≡◌, refl, sym, ◌∙◌, ◌⊎◌, inl, inr, List, [], ◌∷◌, ◌++◌, append_assoc, append-nil,
}
use invest.Common.Numeric.{Numeric}
use invest.Series.Repo.{Table}
use invest.Prediction.Features.{load}
use invest.Prediction.Bridge.{
  DriverSpec, Gap, Assembly, Reading, reading, gap, add_reading, Driver, history_reading,
  driver_reading, assemble,
}

module _ {Float : Type 0} (n : Numeric Float) where
  -- What each driver of a list comes to, in order: an entry of the forecast's drivers with its reading
  -- and its weight, or a gap.
  abbrev pub AreDrivers :
      Table → ℕ → List (DriverSpec Float) → List (Driver Float) → List Gap → Type 0
  AreDrivers table instant [] drivers gaps = (drivers ≡ []) × (gaps ≡ [])
  AreDrivers table instant (spec ∷ specs) drivers gaps =
      ((x : Float) × (rest : List (Driver Float)) × (history_reading n spec
            (load n.base table spec.series_id instant)
          ≡ reading x)
        × (drivers
            ≡ record {
              series_id = spec.series_id;
              label = spec.label;
              value = n.rounded 6 x;
              weight = spec.weight;
              contribution = n.rounded 6 (n.times x spec.weight);
            }
              ∷ rest)
        × AreDrivers table instant specs rest gaps)
      ⊎ ((g : Gap) × (rest : List Gap) × (history_reading n spec
              (load n.base table spec.series_id instant)
            ≡ gap g)
          × (gaps ≡ g ∷ rest)
          × AreDrivers table instant specs drivers rest)

  -- The loop adds its drivers and gaps after those it begins with.
  abbrev pub Adds : Table → ℕ → List (DriverSpec Float) → Assembly Float → Assembly Float → Type 0
  Adds table instant specs before after =
      (drivers : List (Driver Float)) × (gaps : List Gap) × (after.drivers
        ≡ before.drivers ++ drivers)
      × (after.gaps ≡ before.gaps ++ gaps)
      × AreDrivers table instant specs drivers gaps

  Adds-add_reading :
      (table : Table) (instant : ℕ) (spec : DriverSpec Float) (specs : List (DriverSpec Float))
      (r : Reading Float) (before after : Assembly Float)
      → history_reading n spec (load n.base table spec.series_id instant) ≡ r
      → Adds table instant specs (add_reading n spec r before) after
      → Adds table instant (spec ∷ specs) before after
  Adds-add_reading table instant spec specs (reading x) before after e (drivers, gaps, d, g, a) =
      (_, gaps, d ∙ append_assoc before.drivers (_ ∷ []) drivers, g, inl (x, drivers, e, refl, a))
  Adds-add_reading table instant spec specs (gap h) before after e (drivers, gaps, d, g, a) =
      (drivers, h ∷ gaps, d, g ∙ append_assoc before.gaps (h ∷ []) gaps, inr (h, gaps, e, refl, a))

  pub assemble-Adds :
      (table : Table) (instant : ℕ) (specs : List (DriverSpec Float)) (before : Assembly Float)
      → Adds table instant specs before (assemble n table instant specs before)
  unfolding assemble driver_reading
  assemble-Adds table instant [] before =
      ([], [], sym (append-nil before.drivers), sym (append-nil before.gaps), (refl, refl))
  assemble-Adds table instant (spec ∷ specs) before =
      Adds-add_reading table instant spec specs (driver_reading n table spec instant) before _ refl
        (assemble-Adds table instant specs
          (add_reading n spec (driver_reading n table spec instant) before))
