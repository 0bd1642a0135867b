-- ===== src/Ingestion/RawStore/Consistent.antt =====
-- The ledgers and the cache of `FileRawStore` against its files.
use mathlib.Core.Option.{some-injective, none-ne-some}
use invest.Base.{
  ◌≡◌, refl, inl, inr, Bool, false, ◌&&◌, ◌||◌, Option, none, some, String, List, [], ◌∷◌, ◌++◌,
  str_eq, Bool-cases, ap, ◌∙◌, sym, subst, eq_iff, arith,
}
use invest.Base.Dict
use invest.Base.Dict.{Dict, get-put, get-put_self, get-put_ne}
use invest.Ingestion.RawStore.{
  RawItem, FileRawStore, or_none, hashes, contains, cached_or_read, reopen, empty_store,
}

abbrev pub same_content : RawItem → String → String → Bool
same_content i source_id hash = str_eq i.source_id source_id && str_eq i.content_hash hash

-- A content of a source is among the files.
unfoldable pub has_content : List RawItem → String → String → Bool
has_content [] source_id hash = false
has_content (i ∷ files) source_id hash =
    same_content i source_id hash || has_content files source_id hash

pub has_content-append :
    (files : List RawItem) (i : RawItem) (s h : String)
    → has_content (files ++ i ∷ []) s h ≡ (has_content files s h || same_content i s h)
unfolding has_content
has_content-append [] i s h = ground arith
has_content-append (f ∷ files) i s h = ground (arith, has_content-append files i s h)

pub contains-append :
    (hs : List String) (g h : String) → contains (hs ++ g ∷ []) h ≡ (contains hs h || str_eq g h)
contains-append [] g h = ground arith
contains-append (f ∷ hs) g h = ground (arith, contains-append hs g h)

-- What is cached for a source, if anything is, has the hashes of the source's files.
abbrev pub CacheAgrees : Option (List String) → (String → Bool) → Type 0
CacheAgrees none stored = Unit
CacheAgrees (some cached) stored = (h : String) → contains cached h ≡ stored h

pub CacheAgrees-intro :
    (o : Option (List String)) (stored : String → Bool)
    → ((l : List String) → o ≡ some l → (h : String) → contains l h ≡ stored h)
    → CacheAgrees o stored
CacheAgrees-intro none stored f = tt
CacheAgrees-intro (some l) stored f = f l refl

pub CacheAgrees-get :
    (o : Option (List String)) (stored : String → Bool) (l : List String)
    → CacheAgrees o stored
    → o ≡ some l
    → (h : String) → contains l h ≡ stored h
CacheAgrees-get none stored l c e = absurd (none-ne-some _ e)
CacheAgrees-get (some k) stored l c e =
    subst (λ m. (h : String) → contains m h ≡ stored h) (some-injective _ _ e) c

pub record IsConsistent (store : FileRawStore) : Type 0 where
  pub ledger :
      (s h : String) → contains (or_none (Dict.get s store.ledgers)) h ≡ has_content store.files s h
  pub cache : (s : String) → CacheAgrees (Dict.get s store.hash_cache) (has_content store.files s)

pub empty_store-IsConsistent : IsConsistent empty_store
unfolding has_content Dict.get
empty_store-IsConsistent = record { ledger = λ s h. refl; cache = λ s. tt }

-- A restart keeps the consistency: the cache is read again from the ledgers.
pub reopen-IsConsistent : (store : FileRawStore) → IsConsistent store → IsConsistent (reopen store)
unfolding Dict.get
reopen-IsConsistent store c = record { ledger = c.ledger; cache = λ s. tt }

-- The hashes read are those of the files, and reading them changes the cache alone.
pub record Reads (store : FileRawStore) (s : String) (read : List String × FileRawStore)
    : Type 0 where
  pub known : (h : String) → contains read.0 h ≡ has_content store.files s h
  pub files : read.1.files ≡ store.files
  pub consistent : IsConsistent read.1

pub cached_or_read-Reads :
    (store : FileRawStore) (s : String) (o : Option (List String))
    → Dict.get s store.hash_cache ≡ o
    → IsConsistent store
    → Reads store s (cached_or_read store s o)
cached_or_read-Reads store s (some cached) e c = record {
  known = CacheAgrees-get _ _ cached (c.cache s) e;
  files = refl;
  consistent = c;
}
cached_or_read-Reads store s none e c = record {
  known = c.ledger s;
  files = refl;
  consistent = record {
    ledger = c.ledger;
    cache = λ t. CacheAgrees-intro _ _ λ l q h. elim (Bool-cases (str_eq s t)) [
      | inl same ↦
          let read = or_none (Dict.get s store.ledgers) in
          let st : s ≡ t = (eq_iff s t).0 same in
          let got : some read ≡ some l =
            sym (get-put_self s read store.hash_cache)
            ∙ ap (λ u. Dict.get u (Dict.put s read store.hash_cache)) st
            ∙ q in
          ap (λ u. contains u h) (sym (some-injective _ _ got))
          ∙ c.ledger s h
          ∙ ap (λ u. has_content store.files u h) st
      | inr other ↦
          CacheAgrees-get _ _ l (c.cache t) (sym (get-put_ne s t _ store.hash_cache other) ∙ q) h
    ];
  };
}

pub hashes-Reads :
    (store : FileRawStore) (s : String) → IsConsistent store → Reads store s (hashes store s)
unfolding hashes
hashes-Reads store s c = cached_or_read-Reads store s (Dict.get s store.hash_cache) refl c
