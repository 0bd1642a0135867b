-- ===== src/Base/Texts.antt =====
-- The order of texts that Python's `sorted` uses: by code points.
use invest.Base.Lists.{All}
use Prim.Native.Char.{code}
use Prim.Native.Nat.{ℕ}
use Prim.Native.String.{String}
use mathlib.Core.Bool.{Bool, true, false}
use mathlib.Core.List.{List, [], ◌∷◌}
use mathlib.Core.Logic.{inl, inr}
use invest.Base.Tests.{Bool-cases, ltb, ◌==◌, if◌then◌else◌}

abbrev pub codes : String → List ℕ
codes String.[] = []
codes (String.◌∷◌ c s) = code c ∷ codes s

unfoldable pub codes_leb : List ℕ → List ℕ → Bool
codes_leb [] ys = true
codes_leb (x ∷ xs) [] = false
codes_leb (x ∷ xs) (y ∷ ys) =
    let rest = codes_leb xs ys in if ltb x y then true else if x == y then rest else false

unfoldable pub text_leb : String → String → Bool
unfolding codes_leb
text_leb a b = codes_leb (codes a) (codes b)

-- `sorted` of pairs by a text, a stable sort.
module _ {ℓ} {A : Type ℓ} (key : A → String) where
  unfoldable pub insert_by_text : A → List A → List A
  insert_by_text x [] = x ∷ []
  insert_by_text x (y ∷ ys) =
      if text_leb (key x) (key y) then x ∷ y ∷ ys else y ∷ insert_by_text x ys

  unfoldable pub sort_by_text : List A → List A
  unfolding insert_by_text text_leb
  sort_by_text [] = []
  sort_by_text (x ∷ xs) = insert_by_text x (sort_by_text xs)

module _ {ℓ κ} {A : Type ℓ} (key : A → String) (P : A → Type κ) where
  pub All-insert_by_text : (x : A) (xs : List A) → P x → All P xs → All P (insert_by_text key x xs)
  unfolding insert_by_text
  All-insert_by_text x [] p h = (p, tt)
  All-insert_by_text x (y ∷ ys) p h = elim (Bool-cases (text_leb (key x) (key y))) [
    | inl e ↦ rw e (p, h)
    | inr e ↦ rw e (h.0, All-insert_by_text x ys p h.1)
  ]

  pub All-sort_by_text : (xs : List A) → All P xs → All P (sort_by_text key xs)
  unfolding sort_by_text
  All-sort_by_text [] h = tt
  All-sort_by_text (x ∷ xs) h =
      All-insert_by_text x (sort_by_text key xs) h.0 (All-sort_by_text xs h.1)
