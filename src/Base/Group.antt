-- ===== src/Base/Group.antt =====
-- `d.setdefault(key, []).append(value)` over a sequence of pairs, with numeric keys.
use Prim.Native.Nat.{ℕ, suc, ◌+◌}
use mathlib.Core.Path.{◌≡◌}
use mathlib.Core.List.{List, [], ◌∷◌, ◌++◌, append_assoc, append-nil}
use native.Mathlib.Omega.{arith}
use invest.Base.Tests.{◌==◌, if◌then◌else◌}
use invest.Base.Lists.{length, length-append}

module _ {ℓ} {A : Type ℓ} where
  unfoldable pub push : ℕ → A → List (ℕ × List A) → List (ℕ × List A)
  push k a [] = (k, a ∷ []) ∷ []
  push k a ((j, as') ∷ groups) =
      if j == k then (j, as' ++ a ∷ []) ∷ groups else (j, as') ∷ push k a groups

  unfoldable pub group_from : List (ℕ × List A) → List (ℕ × A) → List (ℕ × List A)
  group_from groups [] = groups
  group_from groups ((k, a) ∷ pairs) = group_from (push k a groups) pairs

  unfoldable pub group : List (ℕ × A) → List (ℕ × List A)
  unfolding group_from
  group pairs = group_from [] pairs

  -- `groups.get(k, [])`
  unfoldable pub members : ℕ → List (ℕ × List A) → List A
  members k [] = []
  members k ((j, as') ∷ groups) = if j == k then as' else members k groups

  -- The values of a key, in order.
  unfoldable pub values_of : ℕ → List (ℕ × A) → List A
  values_of k [] = []
  values_of k ((j, a) ∷ pairs) = let rest = values_of k pairs in if j == k then a ∷ rest else rest

  unfoldable pub total_length : List (ℕ × List A) → ℕ
  total_length [] = 0
  total_length ((_, as') ∷ groups) = length as' + total_length groups

  members-push :
      (k j : ℕ) (a : A) (groups : List (ℕ × List A))
      → members j (push k a groups)
        ≡ (if k == j then members j groups ++ a ∷ [] else members j groups)
  unfolding members push
  members-push k j a [] = ground arith
  members-push k j a ((i, as') ∷ groups) = ground (arith, members-push k j a groups)

  members-group_from :
      (k : ℕ) (groups : List (ℕ × List A)) (pairs : List (ℕ × A))
      → members k (group_from groups pairs) ≡ members k groups ++ values_of k pairs
  unfolding group_from values_of
  members-group_from k groups [] = ground (arith, append-nil (members k groups))
  members-group_from k groups ((j, a) ∷ pairs) = ground (
    arith,
    members-group_from k (push j a groups) pairs,
    members-push j k a groups,
    append_assoc (members k groups) (a ∷ []) (values_of k pairs),
  )

  -- The group of a key holds its values in order.
  pub members-group : (k : ℕ) (pairs : List (ℕ × A)) → members k (group pairs) ≡ values_of k pairs
  unfolding group members
  members-group k pairs = members-group_from k [] pairs

  total_length-push :
      (k : ℕ) (a : A) (groups : List (ℕ × List A))
      → total_length (push k a groups) ≡ suc (total_length groups)
  unfolding total_length push
  total_length-push k a [] = omega arith
  total_length-push k a ((j, as') ∷ groups) =
      ground (arith, total_length-push k a groups, length-append as' (a ∷ []))

  total_length-group_from :
      (groups : List (ℕ × List A)) (pairs : List (ℕ × A))
      → total_length (group_from groups pairs) ≡ total_length groups + length pairs
  unfolding group_from
  total_length-group_from groups [] = omega arith
  total_length-group_from groups ((k, a) ∷ pairs) =
      omega (arith, total_length-group_from (push k a groups) pairs, total_length-push k a groups)

  pub total_length-group : (pairs : List (ℕ × A)) → total_length (group pairs) ≡ length pairs
  unfolding group total_length
  total_length-group pairs = omega (arith, total_length-group_from [] pairs)
