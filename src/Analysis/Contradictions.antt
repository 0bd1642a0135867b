-- ===== src/Analysis/Contradictions.antt =====
-- What the contradictions of mios/analysis/macro.py name.
use invest.Base.{
  ◌≤◌, ◌<◌, ◌≡◌, ◌≢◌, ◌⊎◌, refl, true, false, not, ◌&&◌, inl, inr, List, [], ◌∷◌, arith, Bool-cases,
  map, filter, any, leb, Bool, ap, if◌then◌else◌, leb→le, leb→lt,
}
use invest.Base.Int.{ℤ, pos, negsuc, eq_ℤ}
use invest.Common.Numeric.{Numeric, literal}
use invest.Analysis.Records.{
  Signal, Contradiction, balanced, opposing, magnitude, is_positive, is_negative,
}
use invest.Analysis.Macro.{contradictions_of, contradiction_of, pulls_against, is_material}

no_points : (p : ℤ) → eq_ℤ p (pos 0) ≡ true → p ≡ pos 0
no_points (pos k) e = ap pos (ground arith)
no_points (negsuc k) e = absurd (ground arith)

one_side : (a b : Bool) → (if a then not b else b) ≡ false → a ≡ b
one_side a b e = ground arith

module _ {Float : Type 0} (n : Numeric Float) where
  -- The signal has points on the other side of the score.
  abbrev pub IsAgainst : ℤ → Signal Float → Type 0
  IsAgainst score s = (s.points ≢ pos 0) × (is_positive s.points ≡ not (is_positive score))

  abbrev pub IsWith : ℤ → Signal Float → Type 0
  IsWith score s = (s.points ≡ pos 0) ⊎ (is_positive s.points ≡ is_positive score)

  -- Its points are fewer than a fifth of the score's.
  abbrev pub is_slight : ℤ → Signal Float → Bool
  is_slight score s =
      n.less (n.of_whole (pos (magnitude s.points)))
        (n.times (n.of_whole (pos (magnitude score))) (literal n 2 1))

  -- The contradictions are, in order, the signals against the score that are not slight, each by what
  -- it is about and its points.
  abbrev pub AreOpposing : ℤ → List (Signal Float) → List Contradiction → Type 0
  AreOpposing score [] named = named ≡ []
  AreOpposing score (s ∷ signals) named =
      (IsAgainst score s
        × (is_slight score s ≡ false)
        × ((rest : List Contradiction) × (named ≡ opposing s.about s.points ∷ rest)
            × AreOpposing score signals rest))
      ⊎ ((IsWith score s ⊎ (is_slight score s ≡ true)) × AreOpposing score signals named)

  abbrev pub on_both_sides : List (Signal Float) → Bool
  on_both_sides signals =
      any (λ (s : Signal Float). is_positive s.points) signals
      && any (λ (s : Signal Float). is_negative s.points) signals

  -- Within the band, the balance of inputs on both sides, if there are such; beyond it, the signals
  -- that oppose the score.
  abbrev pub AreContradictions : ℤ → List (Signal Float) → List Contradiction → Type 0
  AreContradictions score signals named =
      ((magnitude score ≤ 10)
        × (((on_both_sides signals ≡ true) × (named ≡ balanced ∷ []))
            ⊎ ((on_both_sides signals ≡ false) × (named ≡ []))))
      ⊎ ((10 < magnitude score) × AreOpposing score signals named)

  pulls_against-IsAgainst :
      (score : ℤ) (s : Signal Float) → pulls_against n score s ≡ true → IsAgainst score s
  pulls_against-IsAgainst score s e = ground arith

  pulls_against-IsWith :
      (score : ℤ) (s : Signal Float) → pulls_against n score s ≡ false → IsWith score s
  pulls_against-IsWith score s e = elim (Bool-cases (eq_ℤ s.points (pos 0))) [
    | inl zero_ ↦ inl (no_points s.points zero_)
    | inr some_ ↦ inr (one_side (is_positive s.points) (is_positive score) (rw some_ at e))
  ]

  slight : (b : Bool) → not b ≡ true → b ≡ false
  slight b e = ground arith

  slight_not : (b : Bool) → not b ≡ false → b ≡ true
  slight_not b e = ground arith

  opposed-AreOpposing :
      (score : ℤ) (signals : List (Signal Float))
      → AreOpposing score signals (
          map
            (contradiction_of n)
            (filter (λ s. is_material n score s) (filter (pulls_against n score) signals)))
  opposed-AreOpposing score [] = refl
  opposed-AreOpposing score (s ∷ signals) =
      let rest = opposed-AreOpposing score signals in
      elim (Bool-cases (pulls_against n score s)) [
        | inr e ↦ rw e (inr (inl (pulls_against-IsWith score s e), rest))
        | inl e ↦ elim (Bool-cases (is_material n score s)) [
          | inr f ↦ rw (e, f) (inr (inr (slight_not (is_slight score s) f), rest))
          | inl f ↦
              rw (e, f)
                (inl (
                  pulls_against-IsAgainst score s e,
                  slight (is_slight score s) f,
                  (_, refl, rest),
                ))
        ]
      ]

  pub contradictions_of-AreContradictions :
      (signals : List (Signal Float)) (score : ℤ)
      → AreContradictions score signals (contradictions_of n signals score)
  unfolding contradictions_of
  contradictions_of-AreContradictions signals score = elim (Bool-cases (leb (magnitude score) 10)) [
    | inr e ↦ rw e (inr (leb→lt _ _ e, opposed-AreOpposing score signals))
    | inl e ↦ elim (Bool-cases (on_both_sides signals)) [
      | inl both ↦ rw (e, both) (inl (leb→le _ _ e, inl (refl, refl)))
      | inr one ↦ rw (e, one) (inl (leb→le _ _ e, inr (refl, refl)))
    ]
  ]
