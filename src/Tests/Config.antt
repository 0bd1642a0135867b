-- ===== src/Tests/Config.antt =====
-- Runs of mios/config/loader.py, and of `mios analyze` on the tree that it loads.
use invest.Base.{◌≡◌, ◌↔◌, refl, true, some, String, [], ◌∷◌, All}
use invest.Base.Int.{ℤ}
use invest.Series.Repo.{SeriesSpec}
use invest.Series.Calendar.{WatchedRelease}
use invest.Scheduler.Jobs.{JobSpec}
use invest.Ingestion.Collector.{SourceSpec}
use invest.Analysis.Run.{view_all}
use invest.Analysis.Run.Computed.{IsComputed, view_all-IsComputed}
use invest.Config.Models.{
  loaded, refused, unknown_source, valid_series, valid_targets, valid_analysis, valid_jobs,
  valid_types, repeated,
}
use invest.Config.Loader.{
  AssetConfig, Files, ConfigRoot, load_config, load_distinct, load_assets, load_series,
  load_targets, load_calendar, load_analysis, load_jobs, load_events, check_each,
}
use invest.Config.Loader.Closed.{IsReadOf, IsClosed, load_config_iff}
use invest.Tests.Forecasts.{numbers, months, payrolls, labor, dollar}

abbrev pub fred : SourceSpec
fred = record { source_id = "src_fred"; enabled = true; min_interval = 1000000 }

abbrev pub payroll_series : String → SeriesSpec
payroll_series source_id = record {
  series_id = "ser_us_nfp_level";
  source_id = source_id;
  provider_code = "PAYEMS";
  parser = "fred_json";
  category = "inflation";
  revisable = true;
}

abbrev pub claims_series : SeriesSpec
claims_series = record {
  series_id = "ser_us_claims_initial";
  source_id = "src_fred";
  provider_code = "ICSA";
  parser = "fred_json";
  category = "inflation";
  revisable = true;
}

abbrev employment : WatchedRelease
employment = record {
  release_name = "Employment Situation";
  country = "US";
  importance = 5;
  clock = λ d. d;
  event_type = "release.labor.payrolls";
  series = "ser_us_nfp_level" ∷ [];
}

abbrev collect_fred : JobSpec
collect_fred = record {
  job_id = "collect_fred";
  task = "collect";
  source_id = some "src_fred";
  interval_minutes = 60;
  enabled = true;
}

abbrev usd : AssetConfig
usd = record { asset_id = "ent_asset_usd"; drivers = [] }

abbrev files_with : String → Files ℤ String
files_with source_id = record {
  assets = some (loaded usd ∷ []);
  sources = loaded fred ∷ [];
  series = loaded (payroll_series source_id ∷ claims_series ∷ []);
  forecast = loaded (payrolls ∷ []);
  calendar = loaded (employment ∷ []);
  analysis = loaded (record { dimensions = labor ∷ []; views = dollar ∷ [] });
  pipelines = loaded (collect_fred ∷ []);
  events = loaded ("release.labor.payrolls" ∷ []);
  entities = loaded "entities";
  relationships = loaded "relationships";
  scoring = loaded "scoring";
}

abbrev root : ConfigRoot ℤ String
root = record {
  assets = usd ∷ [];
  sources = fred ∷ [];
  series = payroll_series "src_fred" ∷ claims_series ∷ [];
  targets = payrolls ∷ [];
  watch = employment ∷ [];
  analysis = record { dimensions = labor ∷ []; views = dollar ∷ [] };
  jobs = collect_fred ∷ [];
  types = "release.labor.payrolls" ∷ [];
  entities = "entities";
  relationships = "relationships";
  scoring = "scoring";
}

root_loads : load_config (files_with "src_fred") ≡ loaded root
unfolding load_config load_distinct load_assets load_series load_targets load_calendar load_analysis
    load_jobs load_events check_each valid_series valid_targets valid_analysis valid_jobs
    valid_types repeated
root_loads = refl

unknown_source_refused :
    load_config (files_with "src_fredd") ≡ refused (unknown_source "ser_us_nfp_level" "src_fredd")
unfolding load_config load_distinct load_assets load_series check_each valid_series repeated
unknown_source_refused = refl

load_config_iff_example :
    load_config (files_with "src_fred") ≡ loaded root
    ↔ IsReadOf (files_with "src_fred") root × IsClosed root
load_config_iff_example = load_config_iff (files_with "src_fred") root

view_all-IsComputed_example :
    All (λ view. All IsComputed view.data_gaps) (view_all numbers months 25 root.analysis)
view_all-IsComputed_example =
    view_all-IsComputed numbers months 25 (files_with "src_fred") root root_loads
