-- ===== src/Ingestion/RawStore/Dedup.antt =====
-- `FileRawStore.put` and the contents that are stored: mios/ingestion/rawstore.py.
use mathlib.Core.Option.{some-injective}
use invest.Base.{
  ℕ, ◌≡◌, ◌⊎◌, refl, inl, inr, Bool, true, false, ◌&&◌, ◌||◌, some, String, List, [], ◌∷◌, ◌++◌,
  any, str_eq, Bool-cases, ap, ◌∙◌, sym, subst, eq_iff, eq_refl, arith,
}
use invest.Base.Dict
use invest.Base.Dict.{Dict, get-put, get-put_self, get-put_ne}
use invest.Common.Errors.{Result, ok, err}
use invest.Ingestion.RawStore.{
  RawItem, FileRawStore, or_none, hashes, contains, same_path, add_item, put_known, put,
}
use invest.Ingestion.RawStore.Consistent.{
  same_content, has_content, has_content-append, contains-append, CacheAgrees-intro,
  CacheAgrees-get, IsConsistent, hashes-Reads,
}

ledger_put :
    (d : Dict (List String)) (source s hash h : String)
    → contains
        (or_none (Dict.get s (Dict.put source (or_none (Dict.get source d) ++ hash ∷ []) d)))
        h
      ≡ (contains (or_none (Dict.get s d)) h || (str_eq source s && str_eq hash h))
ledger_put d source s hash h = elim (Bool-cases (str_eq source s)) [
  | inl same ↦
      subst
        (λ t.
          contains
            (or_none (Dict.get t (Dict.put source (or_none (Dict.get source d) ++ hash ∷ []) d))) h
          ≡ (contains (or_none (Dict.get t d)) h || (str_eq source t && str_eq hash h)))
        ((eq_iff source s).0 same)
        (rw (
          get-put_self source (or_none (Dict.get source d) ++ hash ∷ []) d,
          contains-append (or_none (Dict.get source d)) hash h,
          eq_refl source,
        ))
  | inr other ↦
      rw (get-put_ne source s (or_none (Dict.get source d) ++ hash ∷ []) d other, other)
        (ground arith)
]

cache_put :
    (files : List RawItem) (d : Dict (List String)) (item : RawItem) (known l : List String)
    (s h : String)
    → ((g : String) → contains known g ≡ has_content files item.source_id g)
    → ((l' : List String) → Dict.get s d ≡ some l' → contains l' h ≡ has_content files s h)
    → Dict.get s (Dict.put item.source_id (item.content_hash ∷ known) d) ≡ some l
    → contains l h ≡ (has_content files s h || same_content item s h)
cache_put files d item known l s h k c q = elim (Bool-cases (str_eq item.source_id s)) [
  | inl same ↦
      let st : item.source_id ≡ s = (eq_iff item.source_id s).0 same in
      let l_is : (item.content_hash ∷ known) ≡ l = some-injective _ _ (
        sym (get-put_self item.source_id (item.content_hash ∷ known) d)
        ∙ ap (λ t. Dict.get t (Dict.put item.source_id (item.content_hash ∷ known) d)) st
        ∙ q) in
      ap (λ u. contains u h) (sym l_is) ∙ ground (arith, k h, ap (λ t. has_content files t h) st)
  | inr other ↦
      c l (sym (get-put_ne item.source_id s (item.content_hash ∷ known) d other) ∙ q) ∙ ground arith
]

-- Two items of one source never have one content.
abbrev pub IsDeduplicated : List RawItem → Type 0
IsDeduplicated [] = Unit
IsDeduplicated (i ∷ files) =
    (has_content files i.source_id i.content_hash ≡ false) × IsDeduplicated files

IsDeduplicated-append :
    (files : List RawItem) (i : RawItem)
    → IsDeduplicated files
    → has_content files i.source_id i.content_hash ≡ false
    → IsDeduplicated (files ++ i ∷ [])
unfolding has_content
IsDeduplicated-append [] i d h = (refl, tt)
IsDeduplicated-append (f ∷ files) i d h = (
  ground (
    arith,
    has_content-append files i f.source_id f.content_hash,
    eq_iff f.source_id i.source_id,
    eq_iff i.source_id f.source_id,
    eq_iff f.content_hash i.content_hash,
    eq_iff i.content_hash f.content_hash,
  ),
  IsDeduplicated-append files i d.1 (ground arith),
)

abbrev path_taken : (ℕ → String) → RawItem → List RawItem → Bool
path_taken month item = any (λ f. same_path month f item)

-- How a `put` ends: a content that is stored is refused and nothing is written; another is written
-- after the files that were there if its path is free, and is an error if its path is taken.
abbrev pub PutEnds : (ℕ → String) → RawItem → List RawItem → Result Bool × FileRawStore → Type 0
PutEnds month item files (ok false, store) =
    (has_content files item.source_id item.content_hash ≡ true) × (store.files ≡ files)
PutEnds month item files (ok true, store) =
    (has_content files item.source_id item.content_hash ≡ false)
    × (store.files ≡ files ++ item ∷ [])
    × (path_taken month item files ≡ false)
PutEnds month item files (err e, store) =
    (has_content files item.source_id item.content_hash ≡ false)
    × (store.files ≡ files)
    × (path_taken month item files ≡ true)

module _ (month : ℕ → String) where
  add_item-IsConsistent :
      (store : FileRawStore) (item : RawItem) (known : List String)
      → IsConsistent store
      → ((h : String) → contains known h ≡ has_content store.files item.source_id h)
      → IsConsistent (add_item month item known store)
  unfolding add_item
  add_item-IsConsistent store item known c k = record {
    ledger = λ s h.
        ledger_put store.ledgers item.source_id s item.content_hash h
        ∙ ap (λ b. b || same_content item s h) (c.ledger s h)
        ∙ sym (has_content-append store.files item s h);
    cache = λ s. CacheAgrees-intro _ _ λ l q h.
        cache_put store.files store.hash_cache item known l s h k
          (λ l' e. CacheAgrees-get _ _ l' (c.cache s) e h) q
        ∙ sym (has_content-append store.files item s h);
  }

  put_known-PutEnds :
      (item : RawItem) (files : List RawItem) (known : List String) (store : FileRawStore)
      → store.files ≡ files
      → ((h : String) → contains known h ≡ has_content files item.source_id h)
      → PutEnds month item files (put_known month item known store)
  unfolding put_known add_item
  put_known-PutEnds item files known store e k =
      elim (Bool-cases (contains known item.content_hash)) [
        | inl old ↦ rw old (sym (k item.content_hash) ∙ old, e)
        | inr new ↦ elim (Bool-cases (any (λ f. same_path month f item) store.files)) [
          | inl taken ↦
              rw (new, taken)
                (sym (k item.content_hash) ∙ new, e, ap (path_taken month item) (sym e) ∙ taken)
          | inr free ↦
              rw (new, free)
                (
                  sym (k item.content_hash) ∙ new,
                  ap (λ f. f ++ item ∷ []) e,
                  ap (path_taken month item) (sym e) ∙ free,
                )
        ]
      ]

  put_known_store :
      (item : RawItem) (known : List String) (store : FileRawStore)
      → ((put_known month item known store).1 ≡ store)
        ⊎ ((put_known month item known store).1 ≡ add_item month item known store)
  unfolding put_known
  put_known_store item known store = elim (Bool-cases (contains known item.content_hash)) [
    | inl old ↦ rw old (inl refl)
    | inr new ↦ elim (Bool-cases (any (λ f. same_path month f item) store.files)) [
      | inl taken ↦ rw (new, taken) (inl refl)
      | inr free ↦ rw (new, free) (inr refl)
    ]
  ]

  put_known-IsConsistent :
      (item : RawItem) (known : List String) (store : FileRawStore)
      → IsConsistent store
      → ((h : String) → contains known h ≡ has_content store.files item.source_id h)
      → IsConsistent (put_known month item known store).1
  put_known-IsConsistent item known store c k = elim (put_known_store item known store) [
    | inl kept ↦ subst IsConsistent (sym kept) c
    | inr added ↦ subst IsConsistent (sym added) (add_item-IsConsistent store item known c k)
  ]

  IsDeduplicated-PutEnds :
      (item : RawItem) (files : List RawItem) (r : Result Bool) (store : FileRawStore)
      → PutEnds month item files (r, store)
      → IsDeduplicated files
      → IsDeduplicated store.files
  IsDeduplicated-PutEnds item files (ok true) store e d =
      subst IsDeduplicated (sym e.1) (IsDeduplicated-append files item d e.0)
  IsDeduplicated-PutEnds item files (ok false) store e d = subst IsDeduplicated (sym e.1) d
  IsDeduplicated-PutEnds item files (err x) store e d = subst IsDeduplicated (sym e.1) d

  -- From a store whose ledgers and cache agree with its files, of which no two have one source and
  -- content, a `put` reports a duplicate and writes nothing exactly if the source has an item of the
  -- same content; of a new content, it stores the item after the others exactly if no file has its
  -- path (source, month and identifier) and raises, writing nothing, exactly if one has. It leaves
  -- such a store.
  pub put-IsValid :
      (item : RawItem) (store : FileRawStore)
      → IsConsistent store
      → IsDeduplicated store.files
      → PutEnds month item store.files (put month item store)
        × IsConsistent (put month item store).1
        × IsDeduplicated (put month item store).1.files
  unfolding put
  put-IsValid item store c d =
      let r = hashes-Reads store item.source_id c in
      let read = hashes store item.source_id in
      let ends = put_known-PutEnds item store.files read.0 read.1 r.files r.known in
      (
        ends,
        put_known-IsConsistent item read.0 read.1 r.consistent
            (λ h. r.known h ∙ ap (λ f. has_content f item.source_id h) (sym r.files)),
        IsDeduplicated-PutEnds item store.files _ _ ends d,
      )
