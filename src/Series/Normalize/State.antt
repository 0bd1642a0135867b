-- ===== src/Series/Normalize/State.antt =====
-- `NormalizeState` of mios/series/repo.py, over the table `normalize_state` whose primary key is
-- `raw_item_id` alone.
use invest.Base.{
  ℕ, ◌≡◌, ◌≢◌, Bool, false, ◌&&◌, Option, none, some, String, str_eq, if◌then◌else◌, arith, eq_iff,
}
use invest.Base.Dict
use invest.Base.Dict.{Dict, get-put}

pub record Mark : Type 0 where
  pub series_id : String
  pub written : ℕ
  pub skipped : ℕ

abbrev pub ProcessedState : Type 0
ProcessedState = Dict Mark

abbrev marks : Option Mark → String → Bool
marks none series_id = false
marks (some m) series_id = str_eq m.series_id series_id

-- `(raw_item_id, series_id) in processed()`
unfoldable pub is_processed : ProcessedState → String → String → Bool
is_processed state raw_item_id series_id = marks (Dict.get raw_item_id state) series_id

-- INSERT ... ON CONFLICT (raw_item_id) DO UPDATE
unfoldable pub mark : String → String → ℕ → ℕ → ProcessedState → ProcessedState
mark raw_item_id series_id written skipped state =
    Dict.put raw_item_id (record { series_id = series_id; written = written; skipped = skipped })
      state

-- A mark makes its pair processed, takes every other series of its item out of the processed
-- pairs, and leaves the pairs of the other items as they were.
pub is_processed-mark :
    (state : ProcessedState) (item series_id other_item other : String) (written skipped : ℕ)
    → is_processed (mark item series_id written skipped state) other_item other ≡ (
        if str_eq item other_item
        then str_eq series_id other
        else is_processed state other_item other)
unfolding is_processed mark
is_processed-mark state item series_id other_item other written skipped = ground (
  arith,
  get-put item other_item (record { series_id = series_id; written = written; skipped = skipped })
      state,
)

-- Of two series of one item at most one is processed.
pub one_series_processed :
    (state : ProcessedState) (item a b : String)
    → a ≢ b
    → (is_processed state item a && is_processed state item b) ≡ false
unfolding is_processed
one_series_processed state item a b ne = go (Dict.get item state)
  where
    go : (m : Option Mark) → (marks m a && marks m b) ≡ false
    go none = ground arith
    go (some m) = ground (arith, eq_iff m.series_id a, eq_iff m.series_id b)
