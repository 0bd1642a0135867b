-- ===== src/Analysis/Repo.antt =====
-- mios/analysis/repo.py: the table `macro_scores`, the list of its rows in the order of insertion.
pub mod Kept
use invest.Base.{
  ℕ, Bool, ◌&&◌, Option, none, some, String, List, leb, ltb, ◌==◌, str_eq, filter, sort_by,
  sort_by_text,
}
use invest.Common.Errors.{Result}
use invest.Storage.Rows.{insert_once, insert_each, find_id}
use invest.Storage.Newest.{newest_where, last_of_each}
use invest.Analysis.Records.{MacroScore}

-- A row, with its identifier.
pub record StoredScore (Float : Type 0) : Type 0 where
  pub score_id : String
  pub score : MacroScore Float

module _ {Float : Type 0} where
  abbrev pub score_id_of : StoredScore Float → String
  score_id_of r = r.score_id

  abbrev pub dimension_of : StoredScore Float → String
  dimension_of r = r.score.dimension

  abbrev pub as_of_of : StoredScore Float → ℕ
  as_of_of r = r.score.as_of

  -- DISTINCT ON (dimension)
  abbrev pub same_dimension : StoredScore Float → StoredScore Float → Bool
  same_dimension a b = str_eq (dimension_of a) (dimension_of b)

  -- UNIQUE (dimension, as_of)
  abbrev pub same_cutoff : StoredScore Float → StoredScore Float → Bool
  same_cutoff a b = same_dimension a b && (as_of_of a == as_of_of b)

  -- `save`: the table, and whether the score is new.
  unfoldable pub save :
      List (StoredScore Float) → StoredScore Float → List (StoredScore Float) × Result Bool
  save table score = insert_once score_id_of same_cutoff table score

  -- One call of `save` after another.
  unfoldable pub save_each :
      List (StoredScore Float) → List (StoredScore Float) → List (StoredScore Float)
  save_each table scores = insert_each score_id_of same_cutoff table scores

  abbrev pub is_at : String → ℕ → StoredScore Float → Bool
  is_at dimension as_of r = str_eq (dimension_of r) dimension && leb (as_of_of r) as_of

  unfoldable pub latest : List (StoredScore Float) → String → ℕ → Option (StoredScore Float)
  latest table dimension as_of = newest_where as_of_of (is_at dimension as_of) table

  unfoldable pub all_latest : List (StoredScore Float) → ℕ → List (StoredScore Float)
  all_latest table as_of =
      last_of_each same_dimension
        (sort_by_text dimension_of (sort_by as_of_of (filter (λ r. leb (as_of_of r) as_of) table)))

  abbrev pub stood_before : String → ℕ → StoredScore Float → Bool
  stood_before dimension before r = str_eq (dimension_of r) dimension && ltb (as_of_of r) before

  unfoldable pub previous : List (StoredScore Float) → String → ℕ → Option (StoredScore Float)
  previous table dimension before = newest_where as_of_of (stood_before dimension before) table
