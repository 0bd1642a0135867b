-- ===== src/Tests/Raw.antt =====
-- Runs of mios/ingestion/rawstore.py.
use invest.Base.{ℕ, ◌≡◌, refl, false, none, String, []}
use invest.Base.Dict
use invest.Common.Errors.{ok}
use invest.Ingestion.RawStore.{RawItem, empty_store, put}
use invest.Ingestion.RawStore.Consistent.{IsConsistent, empty_store-IsConsistent}
use invest.Ingestion.RawStore.Dedup.{IsDeduplicated, PutEnds, put-IsValid}

abbrev payload : RawItem
payload = record {
  raw_item_id = "raw_1";
  source_id = "src_fred";
  retrieved_at = 50;
  content_hash = "h1";
  content_type = "application/json";
  payload_text = "{}";
  url = none;
}

abbrev month : ℕ → String
month instant = "2026-11"

put-IsValid_example :
    PutEnds month payload [] (put month payload empty_store)
    × IsConsistent (put month payload empty_store).1
    × IsDeduplicated (put month payload empty_store).1.files
put-IsValid_example = put-IsValid month payload empty_store empty_store-IsConsistent tt

put_twice : (put month payload (put month payload empty_store).1).0 ≡ ok false
unfolding put Dict.get Dict.put
put_twice = refl
