-- ===== src/Analysis/Repo/Kept.antt =====
-- What the table `macro_scores` of mios/analysis/repo.py keeps.
use invest.Base.{
  ℕ, ◌<◌, ◌≡◌, ap, sym, subst, Bool, false, String, List, ◌++◌, All, All-imp, arith, leb, last?,
  sort_by, sort_by_text,
}
use invest.Storage.Rows.{insert_each_adds, kept}
use invest.Storage.Newest.{newest_where, last_of_each, IsNewestOf, newest_where-IsNewestOf}
use invest.Analysis.Repo.{
  StoredScore, score_id_of, dimension_of, as_of_of, same_dimension, same_cutoff, save_each, is_at,
  latest, all_latest, stood_before, previous,
}

module _ {Float : Type 0} where
  newest_kept :
      (wanted : StoredScore Float → Bool) (table new : List (StoredScore Float))
      {after : List (StoredScore Float)}
      → after ≡ table ++ new
      → All (λ r. wanted r ≡ false) new
      → newest_where as_of_of wanted after ≡ newest_where as_of_of wanted table
  unfolding newest_where
  newest_kept wanted table new e h =
      ap (λ rows. last? (sort_by as_of_of rows)) (kept wanted table new e h)

  -- The latest score of a dimension at an instant is the newest of its scores up to it, and the
  -- previous one the newest before it; there is none only where the table has none. Scores of later
  -- instants that are saved change nothing of both, or of the latest of every dimension.
  pub latest-IsNewestOf :
      (table scores : List (StoredScore Float)) (dimension : String) (instant : ℕ)
      → All (λ r. instant < as_of_of r) scores
      → let after = save_each table scores in
        IsNewestOf as_of_of (is_at dimension instant) table (latest after dimension instant)
        × IsNewestOf as_of_of
            (stood_before dimension instant)
            table
            (previous after dimension instant)
        × (all_latest after instant ≡ all_latest table instant)
  unfolding latest previous all_latest save_each
  latest-IsNewestOf table scores dimension instant h =
      let (new, e, later) = insert_each_adds score_id_of same_cutoff _ table scores h in
      let now : StoredScore Float → Bool = is_at dimension instant in
      let before : StoredScore Float → Bool = stood_before dimension instant in
      let outside : All (λ r. now r ≡ false) new = All-imp new (λ r lt. ground (arith, lt)) later in
      let earlier : All (λ r. before r ≡ false) new =
        All-imp new (λ r lt. ground (arith, lt)) later in
      (
        subst (IsNewestOf as_of_of now table) (sym (newest_kept now table new e outside))
            (newest_where-IsNewestOf as_of_of now table),
        subst (IsNewestOf as_of_of before table) (sym (newest_kept before table new e earlier))
            (newest_where-IsNewestOf as_of_of before table),
        ap (λ rows. last_of_each same_dimension (sort_by_text dimension_of (sort_by as_of_of rows)))
            (kept (λ r. leb (as_of_of r) instant) table new e
              (All-imp new (λ r lt. ground (arith, lt)) later)),
      )
