-- ===== src/Ingestion/Collector/Drafts.antt =====
-- The loop over the drafts in `Collector.collect`: what it stores and counts.
use invest.Base.{
  ℕ, suc, ◌+◌, ◌≡◌, refl, sym, subst, Bool, true, false, String, List, [], ◌∷◌, ◌++◌, length,
  length-append, All, Begins, Begins-refl, Begins-trans, arith, eq_refl,
}
use invest.Common.Errors.{Result, ok, err}
use invest.Ingestion.RawStore
use invest.Ingestion.RawStore.{RawItem, FileRawStore}
use invest.Ingestion.RawStore.Consistent.{has_content, IsConsistent}
use invest.Ingestion.RawStore.Dedup.{IsDeduplicated, PutEnds, put-IsValid}
use invest.Ingestion.Collector.{RawDraft, Readings}
use invest.Ingestion.Collector.Collect.{build_raw_item, after_put, store_drafts}

has_content-Begins :
    (files later : List RawItem) (s h : String)
    → has_content files s h ≡ true
    → has_content (files ++ later) s h ≡ true
unfolding has_content
has_content-Begins [] later s h e = absurd (cc e)
has_content-Begins (f ∷ files) later s h e = ground (arith, has_content-Begins files later s h)

has_content-of_Begins :
    (files files' : List RawItem) (s h : String)
    → Begins files files'
    → has_content files s h ≡ true
    → has_content files' s h ≡ true
has_content-of_Begins files files' s h (later, q) e =
    subst (λ fs. has_content fs s h ≡ true) (sym q) (has_content-Begins files later s h e)

has_content_last :
    (files : List RawItem) (i : RawItem)
    → has_content (files ++ i ∷ []) i.source_id i.content_hash ≡ true
unfolding has_content
has_content_last [] i = ground (arith, eq_refl i.source_id, eq_refl i.content_hash)
has_content_last (f ∷ files) i = ground (arith, has_content_last files i)

-- What every way for the store to change keeps: the files that were there, and that the store is
-- consistent and without duplicates.
pub record IsKept (files : List RawItem) (store : FileRawStore) : Type 0 where
  pub begins : Begins files store.files
  pub consistent : IsConsistent store
  pub deduplicated : IsDeduplicated store.files

IsKept-Begins :
    (files files' : List RawItem) (store : FileRawStore)
    → Begins files files'
    → IsKept files' store
    → IsKept files store
IsKept-Begins files files' store b k = record {
  begins = Begins-trans files files' store.files b k.begins;
  consistent = k.consistent;
  deduplicated = k.deduplicated;
}

module _ (month : ℕ → String) (content_hash_of : String → String) (source_id : String) where
  abbrev pub IsStored : List RawItem → RawDraft → Type 0
  IsStored files d = has_content files source_id (content_hash_of d.payload_text) ≡ true

  -- How the loop over the drafts ends, from some files and counts.
  abbrev pub Stores :
      List RawDraft
      → List RawItem
      → List String × ℕ
      → Result (List String × ℕ) × FileRawStore
      → Type 0
  Stores drafts files counts (err e, store) = IsKept files store
  Stores drafts files (ids, duplicates) (ok (ids', duplicates'), store) =
      IsKept files store
      × (length ids' + duplicates' ≡ length ids + duplicates + length drafts)
      × (length store.files + length ids ≡ length files + length ids')
      × All (IsStored store.files) drafts

  Stores-cons :
      (d : RawDraft) (ds : List RawDraft) (files files' : List RawItem) (ids ids' : List String)
      (duplicates duplicates' : ℕ) (o : Result (List String × ℕ) × FileRawStore)
      → Begins files files'
      → length ids' + duplicates' ≡ suc (length ids + duplicates)
      → length files' + length ids ≡ length files + length ids'
      → IsStored files' d
      → Stores ds files' (ids', duplicates') o
      → Stores (d ∷ ds) files (ids, duplicates) o
  Stores-cons d ds files files' ids ids' n n' (err e, store) b counted grown has k =
      IsKept-Begins files files' store b k
  Stores-cons d ds files files' ids ids' n n' (ok (ids'', n''), store) b counted grown has
        (k, c, g, all) =
      (
        IsKept-Begins files files' store b k,
        omega (arith, c, counted),
        omega (arith, g, grown),
        (has_content-of_Begins files' store.files source_id _ k.begins has, all),
      )

  Stores-after_put :
      (d : RawDraft) (ds : List RawDraft) (item : RawItem) (id : String) (files : List RawItem)
      (ids : List String) (duplicates : ℕ) (o : Result Bool × FileRawStore)
      (rest : List String × ℕ → FileRawStore → Result (List String × ℕ) × FileRawStore)
      → item.source_id ≡ source_id
      → item.content_hash ≡ content_hash_of d.payload_text
      → PutEnds month item files o × IsConsistent o.1 × IsDeduplicated o.1.files
      → ((counts : List String × ℕ) (store : FileRawStore)
          → IsConsistent store
          → IsDeduplicated store.files
          → Stores ds store.files counts (rest counts store))
      → Stores
          (d ∷ ds)
          files
          (ids, duplicates)
          (after_put month content_hash_of o id (ids, duplicates) rest)
  Stores-after_put d ds item id files ids n (ok true, store) rest es eh (p, c, u) k =
      let has : has_content store.files item.source_id item.content_hash ≡ true =
        rw p.1 (has_content_last files item) in
      Stores-cons d ds files store.files ids (ids ++ id ∷ []) n n _ (item ∷ [], p.1)
        (omega (arith, length-append ids (id ∷ [])))
        (rw (p.1, length-append files (item ∷ []), length-append ids (id ∷ [])) (omega arith))
        (subst (λ h. has_content store.files source_id h ≡ true) eh
          (subst (λ s. has_content store.files s item.content_hash ≡ true) es has))
        (k (ids ++ id ∷ [], n) store c u)
  Stores-after_put d ds item id files ids n (ok false, store) rest es eh (p, c, u) k =
      let has : has_content store.files item.source_id item.content_hash ≡ true = rw p.1 p.0 in
      Stores-cons d ds files store.files ids ids n (suc n) _
        (subst (Begins files) (sym p.1) (Begins-refl files)) (omega arith) (rw p.1 refl)
        (subst (λ h. has_content store.files source_id h ≡ true) eh
          (subst (λ s. has_content store.files s item.content_hash ≡ true) es has))
        (k (ids, suc n) store c u)
  Stores-after_put d ds item id files ids n (err e, store) rest es eh (p, c, u) k = record {
    begins = subst (Begins files) (sym p.1) (Begins-refl files);
    consistent = c;
    deduplicated = u;
  }

  -- The loop over the drafts, from a store whose ledgers and cache agree with its files and that has
  -- no duplicates: whether or not it raises, it keeps the files and such a store. If it does not
  -- raise, it counts each draft once, as stored or as a duplicate, writes as many files as it says,
  -- and the content of each draft is in the store.
  pub store_drafts-Stores :
      (t : Readings) (n : ℕ) (drafts : List RawDraft) (counts : List String × ℕ)
      (store : FileRawStore)
      → IsConsistent store
      → IsDeduplicated store.files
      → Stores drafts store.files counts
          (store_drafts month content_hash_of t source_id n drafts counts store)
  unfolding store_drafts
  store_drafts-Stores t n [] (ids, k) store c u = (
    record { begins = Begins-refl store.files; consistent = c; deduplicated = u },
    omega arith,
    refl,
    tt,
  )
  store_drafts-Stores t n (d ∷ ds) (ids, k) store c u =
      let item =
        build_raw_item month content_hash_of source_id d (t.raw_item_id n) (t.retrieved_at n) in
      Stores-after_put d ds item (t.raw_item_id n) store.files ids k (RawStore.put month item store)
        _ refl refl (put-IsValid month item store c u) (store_drafts-Stores t (suc n) ds)
