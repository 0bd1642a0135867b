-- ===== src/Analysis/Run.antt =====
-- `mios analyze` of mios/cli.py: the dimensions of the configuration scored, then its views, each saved;
-- what is printed is left out.
pub mod Computed
use invest.Base.{ℕ, String, List, [], ◌∷◌, ◌++◌, map}
use invest.Base.Dict.{Dict, put}
use invest.Common.Numeric.{Numeric}
use invest.Series.Repo.{Table}
use invest.Analysis.Records.{DimensionSpec, AssetViewSpec, MacroScore}
use invest.Analysis.Macro.{score_dimension, asset_view}
use invest.Analysis.Repo.{StoredScore, save_each}
use invest.Config.Loader.{AnalysisConfig}

module _ {Float : Type 0} (n : Numeric Float) (table : Table) (instant : ℕ) where
  -- `scores`, after the loop over the dimensions.
  unfoldable pub score_all :
      Dict (MacroScore Float) → List (DimensionSpec Float) → Dict (MacroScore Float)
  score_all scores [] = scores
  score_all scores (d ∷ dimensions) =
      score_all (put d.dimension (score_dimension n table d instant) scores) dimensions

  unfoldable pub view_all : AnalysisConfig Float → List (MacroScore Float)
  unfolding score_all
  view_all config =
      let scores = score_all [] config.dimensions in
      map (λ v. asset_view n v scores instant) config.views

  -- The table of scores afterwards; `score_id` names a dimension's and `view_score_id` a view's row.
  unfoldable pub analyze :
      (DimensionSpec Float → ℕ → String)
      → (AssetViewSpec Float → ℕ → String)
      → AnalysisConfig Float
      → List (StoredScore Float)
      → List (StoredScore Float)
  unfolding score_all
  analyze score_id view_score_id config stored =
      let scores = score_all [] config.dimensions in
      save_each
        (save_each stored (
          map
            (λ (d : DimensionSpec Float). record {
              score_id = score_id d instant;
              score = score_dimension n table d instant;
            })
            config.dimensions))
        (map
          (λ (v : AssetViewSpec Float). record {
            score_id = view_score_id v instant;
            score = asset_view n v scores instant;
          })
          config.views)
