-- ===== src/Config/Loader/Checks.antt =====
-- When a check of mios/config/loader.py passes.

use invest.Base.{
  ◌≡◌, ◌≢◌, ◌||◌, map-append, refl, sym, ap, ap₂, ◌∙◌, Bool, true, false, not, String, List, [],
  ◌∷◌, ◌++◌, map, str_eq, eq_iff, All, All-imp, All-of_filter, IsIn, inl, inr, arith, Bool-cases,
  append_assoc, append-nil, subst,
}
use invest.Config.Models.{
  ConfigError, Loaded, loaded, refused, ◌>>=◌, known, repeated, unknown, invalid,
}
use invest.Config.Loader.{require, none_of, check_each, load_distinct}

pub >>=-loaded {ℓ κ} :
    {A : Type ℓ} {B : Type κ} {b : B} (m : Loaded A) (f : A → Loaded B)
    → (m >>= f) ≡ loaded b
    → (a : A) × (m ≡ loaded a) × (f a ≡ loaded b)
>>=-loaded (loaded a) f h = (a, refl, h)
>>=-loaded (refused e) f h = cc

pub loaded-injective {ℓ} : {A : Type ℓ} {a b : A} → loaded a ≡ loaded b → a ≡ b
loaded-injective h = cc

refused-ne-loaded {ℓ} : {A : Type ℓ} (e : ConfigError) (a : A) → refused e ≢ loaded a
refused-ne-loaded e a h = cc

pub require-loaded : (e : ConfigError) (b : Bool) → require e b ≡ loaded tt → b ≡ true
require-loaded e true h = refl
require-loaded e false h = cc

pub known-IsIn : (ids : List String) (id : String) → known ids id ≡ true → IsIn id ids
known-IsIn [] id h = cc
known-IsIn (i ∷ ids) id h = elim (Bool-cases (str_eq i id)) [
  | inl e ↦ inl (ground (arith, eq_iff i id, e))
  | inr e ↦ inr (known-IsIn ids id (rw e at h))
]

pub IsIn-known : (ids : List String) (id : String) → IsIn id ids → known ids id ≡ true
IsIn-known [] id m = elim m [ ]
IsIn-known (i ∷ ids) id (inl e) = ground (arith, eq_iff i id, e)
IsIn-known (i ∷ ids) id (inr m) = ground (arith, IsIn-known ids id m)

none_of-loaded :
    (e : List String → ConfigError) (ids : List String) → none_of e ids ≡ loaded tt → ids ≡ []
none_of-loaded e [] h = refl
none_of-loaded e (id ∷ ids) h = cc

-- Nothing unknown is wanted.
pub unknown_sound :
    (e : List String → ConfigError) (ids wanted : List String)
    → none_of e (unknown ids wanted) ≡ loaded tt
    → All (λ id. IsIn id ids) wanted
unknown_sound e ids wanted h =
    let empty = none_of-loaded e (unknown ids wanted) h in
    let kept : All (λ id. IsIn id ids) (unknown ids wanted) = rw empty tt in
    All-imp wanted
      (λ id f. elim (Bool-cases (known ids id)) [
        | inl k ↦ known-IsIn ids id k
        | inr k ↦ f (ap not k)
      ])
      (All-of_filter (λ id. IsIn id ids) (λ id. not (known ids id)) wanted kept)

pub unknown_complete :
    (e : List String → ConfigError) (ids wanted : List String)
    → All (λ id. IsIn id ids) wanted
    → none_of e (unknown ids wanted) ≡ loaded tt
unknown_complete e ids [] h = refl
unknown_complete e ids (id ∷ wanted) h =
    rw (IsIn-known ids id h.0) (unknown_complete e ids wanted h.1)

pub check_each_sound :
    {A : Type 0} (check : A → Loaded (Unit {0})) (xs : List A)
    → check_each check xs ≡ loaded tt
    → All (λ x. check x ≡ loaded tt) xs
unfolding check_each
check_each_sound check [] h = tt
check_each_sound check (x ∷ xs) h =
    let (_, e, k) = >>=-loaded (check x) _ h in (e, check_each_sound check xs k)

pub check_each_complete :
    {A : Type 0} (check : A → Loaded (Unit {0})) (xs : List A)
    → All (λ x. check x ≡ loaded tt) xs
    → check_each check xs ≡ loaded tt
unfolding check_each
check_each_complete check [] h = refl
check_each_complete check (x ∷ xs) h = rw (h.0) (check_each_complete check xs h.1)

-- A file of entries, each checked after the validator of all.
abbrev pub checked :
    {A : Type 0} → (List A → Bool) → (A → Loaded (Unit {0})) → Loaded (List A) → Loaded (List A)
checked valid check file = do
  xs ← file
  _ ← require invalid (valid xs)
  _ ← check_each check xs
  loaded xs

pub checked_sound :
    {A : Type 0} (valid : List A → Bool) (check : A → Loaded (Unit {0})) (file : Loaded (List A))
    (xs : List A)
    → checked valid check file ≡ loaded xs
    → (file ≡ loaded xs) × (valid xs ≡ true) × All (λ x. check x ≡ loaded tt) xs
checked_sound valid check file xs h =
    let (ys, e, k) = >>=-loaded file _ h in
    let (_, v, l) = >>=-loaded (require invalid (valid ys)) _ k in
    let (_, c, m) = >>=-loaded (check_each check ys) _ l in
    let same : ys ≡ xs = cc in
    (
      e ∙ m,
      subst (λ zs. valid zs ≡ true) same (require-loaded invalid (valid ys) v),
      subst (λ zs. All (λ x. check x ≡ loaded tt) zs) same (check_each_sound check ys c),
    )

pub checked_complete :
    {A : Type 0} (valid : List A → Bool) (check : A → Loaded (Unit {0})) (file : Loaded (List A))
    (xs : List A)
    → file ≡ loaded xs
    → valid xs ≡ true
    → All (λ x. check x ≡ loaded tt) xs
    → checked valid check file ≡ loaded xs
checked_complete valid check file xs e v c = rw (e, v, check_each_complete check xs c) refl

known-append :
    (xs ys : List String) (id : String) → known (xs ++ ys) id ≡ (known xs id || known ys id)
known-append [] ys id = refl
known-append (x ∷ xs) ys id = ground (arith, known-append xs ys id)

repeated-append :
    (ids : List String) (id : String)
    → repeated ids ≡ false
    → known ids id ≡ false
    → repeated (ids ++ id ∷ []) ≡ false
unfolding repeated
repeated-append [] id h k = refl
repeated-append (i ∷ ids) id h k =
    ground (arith, known-append ids (id ∷ []) i, eq_iff i id, eq_iff id i, repeated-append ids id)

repeated-split :
    (ids : List String) (id : String) (more : List String)
    → repeated (ids ++ id ∷ more) ≡ false
    → known ids id ≡ false
unfolding repeated
repeated-split [] id more h = refl
repeated-split (i ∷ ids) id more h =
    ground
      (arith, known-append ids (id ∷ more) i, eq_iff i id, eq_iff id i, repeated-split ids id more)

module _ {A : Type 0} (id_of : A → String) (duplicate : String → ConfigError) where
  pub load_distinct_sound :
      (seen : List A) (files : List (Loaded A)) (xs : List A)
      → repeated (map id_of seen) ≡ false
      → load_distinct id_of duplicate seen files ≡ loaded xs
      → (repeated (map id_of xs) ≡ false)
        × ((new : List A) × (xs ≡ seen ++ new) × (files ≡ map loaded new))
  unfolding load_distinct
  load_distinct_sound seen [] xs h e =
      let same : seen ≡ xs = cc in
      (
        subst (λ zs. repeated (map id_of zs) ≡ false) same h,
        ([], sym same ∙ sym (append-nil seen), refl),
      )
  load_distinct_sound seen (file ∷ files) xs h e =
      let (a, l, k) = >>=-loaded file _ e in
      elim (Bool-cases (known (map id_of seen) (id_of a))) [
        | inl f ↦ absurd (refused-ne-loaded _ xs (rw f at k))
        | inr f ↦
            let unique : repeated (map id_of (seen ++ a ∷ [])) ≡ false =
              rw (map-append id_of seen (a ∷ []))
                (repeated-append (map id_of seen) (id_of a) h f) in
            let (r, (new, p, q)) =
              load_distinct_sound (seen ++ a ∷ []) files xs unique (rw f at k) in
            (r, (a ∷ new, p ∙ append_assoc seen (a ∷ []) new, ap₂ (λ x xs. x ∷ xs) l q))
      ]

  pub load_distinct_complete :
      (seen new : List A)
      → repeated (map id_of (seen ++ new)) ≡ false
      → load_distinct id_of duplicate seen (map loaded new) ≡ loaded (seen ++ new)
  unfolding load_distinct
  load_distinct_complete seen [] h = ap loaded (sym (append-nil seen))
  load_distinct_complete seen (a ∷ new) h =
      let fresh : known (map id_of seen) (id_of a) ≡ false =
        repeated-split (map id_of seen) (id_of a) (map id_of new)
          (rw (map-append id_of seen (a ∷ new)) at h) in
      rw fresh (
        load_distinct_complete (seen ++ a ∷ []) new (rw (append_assoc seen (a ∷ []) new) h)
        ∙ ap loaded (append_assoc seen (a ∷ []) new))
