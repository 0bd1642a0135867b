-- ===== src/Ingestion/RawStore.antt =====
-- mios/ingestion/rawstore.py: `FileRawStore`, append-only files with a ledger of content hashes.
pub mod Consistent
pub mod Dedup
use invest.Base.{
  ℕ, Bool, true, false, ◌&&◌, ◌||◌, Option, none, some, String, List, [], ◌∷◌, ◌++◌, any, filter,
  last?, str_eq, sort_by_text, if◌then◌else◌,
}
use invest.Base.Dict
use invest.Base.Dict.{Dict}
use invest.Common.Errors.{Result, ok, err, mios_error}

-- mios/ingestion/rawitem.py: `RawItem`.
pub record RawItem : Type 0 where
  pub raw_item_id : String
  pub source_id : String
  pub retrieved_at : ℕ
  pub content_hash : String
  pub content_type : String
  pub payload_text : String
  pub url : Option String

-- The item files below the root, in the order of their writing, the lines of each source's
-- `_hashes.txt`, and the object's cache of the ledgers it has read.
pub record FileRawStore : Type 0 where
  pub files : List RawItem
  pub ledgers : Dict (List String)
  pub hash_cache : Dict (List String)

abbrev pub or_none : Option (List String) → List String
or_none none = []
or_none (some hashes) = hashes

-- `_hashes`, by what the cache has: the set, and the store with the set in its cache.
abbrev pub cached_or_read :
    FileRawStore → String → Option (List String) → List String × FileRawStore
cached_or_read store source_id (some cached) = (cached, store)
cached_or_read store source_id none =
    let read = or_none (Dict.get source_id store.ledgers) in
    (read, record store { hash_cache = Dict.put source_id read store.hash_cache })

unfoldable pub hashes : FileRawStore → String → List String × FileRawStore
hashes store source_id = cached_or_read store source_id (Dict.get source_id store.hash_cache)

abbrev pub contains : List String → String → Bool
contains hs h = any (λ g. str_eq g h) hs

unfoldable pub seen : FileRawStore → String → String → Bool × FileRawStore
unfolding hashes
seen store source_id content_hash =
    let (known, store') = hashes store source_id in (contains known content_hash, store')

-- `retrieved_at.strftime("%Y-%m")`
module _ (month : ℕ → String) where
  -- The path of an item below the root, as its parts.
  abbrev pub same_path : RawItem → RawItem → Bool
  same_path a b =
      str_eq a.source_id b.source_id
      && (str_eq (month a.retrieved_at) (month b.retrieved_at)
          && str_eq a.raw_item_id b.raw_item_id)

  -- The file, the ledger's line and the cache's entry of a new item.
  unfoldable pub add_item : RawItem → List String → FileRawStore → FileRawStore
  add_item item known store = record {
    files = store.files ++ item ∷ [];
    ledgers =
        Dict.put item.source_id
          (or_none (Dict.get item.source_id store.ledgers) ++ item.content_hash ∷ []) store.ledgers;
    hash_cache = Dict.put item.source_id (item.content_hash ∷ known) store.hash_cache;
  }

  -- `put`, once the hashes are read.
  unfoldable pub put_known : RawItem → List String → FileRawStore → Result Bool × FileRawStore
  unfolding add_item
  put_known item known store =
      if contains known item.content_hash
      then (ok false, store)
      else if any (λ f. same_path f item) store.files
      then (err (mios_error "raw item collision (should be impossible)"), store)
      else (ok true, add_item item known store)

  unfoldable pub put : RawItem → FileRawStore → Result Bool × FileRawStore
  unfolding hashes put_known
  put item store = let (known, store') = hashes store item.source_id in put_known item known store'

  -- `sorted(base.rglob("raw_*.json"))` orders by month and name; the two sorts are stable.
  unfoldable pub items : FileRawStore → String → List RawItem
  unfolding sort_by_text
  items store source_id =
      sort_by_text (λ i. month i.retrieved_at)
        (sort_by_text (λ i. i.raw_item_id) (filter (λ i. str_eq i.source_id source_id) store.files))

  unfoldable pub latest : FileRawStore → String → Option RawItem
  unfolding items
  latest store source_id = last? (items store source_id)

-- A process that starts has the files and an empty cache.
abbrev pub reopen : FileRawStore → FileRawStore
reopen store = record store { hash_cache = [] }

abbrev pub empty_store : FileRawStore
empty_store = record { files = []; ledgers = []; hash_cache = [] }
