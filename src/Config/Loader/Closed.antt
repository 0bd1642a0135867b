-- ===== src/Config/Loader/Closed.antt =====
-- What the tree that mios/config/loader.py loads refers to.

use invest.Base.{
  ◌≡◌, ◌↔◌, refl, sym, ap, ◌∙◌, true, false, some, [], ◌∷◌, map, str_eq, All, IsIn, subst,
}
use invest.Config.Models.{
  loaded, repeated, is_empty, series_id_of, driver_id_of, signal_id_of, dimension_id_of, links_of,
  valid_series, valid_targets, valid_analysis, valid_jobs, valid_types, duplicate_source,
}
use invest.Config.Loader.{
  Files, ConfigRoot, asset_id_of, source_id_of, release_name_of, load_distinct, load_assets,
  load_series, load_targets, load_analysis, load_calendar, load_jobs, event_types, load_events,
  load_config,
}
use invest.Config.Loader.Links.{
  load_calendar_sound, load_calendar_complete, load_analysis_sound, load_analysis_complete,
  load_events_sound, load_events_complete,
}
use invest.Config.Loader.Stages.{
  AllIn, IsSourced, load_assets_sound, load_assets_complete, load_series_sound,
  load_series_complete, load_targets_sound, load_targets_complete, load_jobs_sound,
  load_jobs_complete,
}
use invest.Config.Loader.Checks.{
  >>=-loaded, loaded-injective, load_distinct_sound, load_distinct_complete,
}

module _ {Float Other : Type 0} where
  -- Every reference resolves, and what identifies an entry stands once in its list.
  pub record IsClosed (c : ConfigRoot Float Other) : Type 0 where
    pub assets_once : repeated (map asset_id_of c.assets) ≡ false
    pub assets_some : is_empty c.assets ≡ false
    pub sources_once : repeated (map source_id_of c.sources) ≡ false
    pub series_valid : valid_series c.series ≡ true
    pub series_sources : All (λ s. IsIn s.source_id (map source_id_of c.sources)) c.series
    pub targets_valid : valid_targets c.targets ≡ true
    pub targets_series :
        All
          (λ t. AllIn (map series_id_of c.series) (t.series_id ∷ map driver_id_of t.drivers))
          c.targets
    pub watch_once : repeated (map release_name_of c.watch) ≡ false
    pub watch_series : All (λ w. AllIn (map series_id_of c.series) w.series) c.watch
    pub analysis_valid : valid_analysis c.analysis.dimensions c.analysis.views ≡ true
    pub signals_series :
        All
          (λ d. AllIn (map series_id_of c.series) (map signal_id_of d.signals))
          c.analysis.dimensions
    pub views_resolve :
        All
          (λ v.
            IsIn v.asset_id (map asset_id_of c.assets)
            × AllIn (map dimension_id_of c.analysis.dimensions) (links_of v))
          c.analysis.views
    pub jobs_valid : valid_jobs c.jobs ≡ true
    pub jobs_sources :
        All
          (λ j. str_eq j.task "collect" ≡ true → IsSourced (map source_id_of c.sources) j.source_id)
          c.jobs
    pub types_valid : valid_types c.types ≡ true
    pub watch_types : AllIn ("release.other.uncategorised" ∷ c.types) (event_types c.watch)

  -- The tree is what its files give.
  pub record IsReadOf (files : Files Float Other) (c : ConfigRoot Float Other) : Type 0 where
    pub assets : files.assets ≡ some (map loaded c.assets)
    pub sources : files.sources ≡ map loaded c.sources
    pub series : files.series ≡ loaded c.series
    pub forecast : files.forecast ≡ loaded c.targets
    pub calendar : files.calendar ≡ loaded c.watch
    pub analysis : files.analysis ≡ loaded c.analysis
    pub pipelines : files.pipelines ≡ loaded c.jobs
    pub events : files.events ≡ loaded c.types
    pub entities : files.entities ≡ loaded c.entities
    pub relationships : files.relationships ≡ loaded c.relationships
    pub scoring : files.scoring ≡ loaded c.scoring

  -- Every part loads, each with the parts that it refers to.
  record IsStaged (files : Files Float Other) (c : ConfigRoot Float Other) : Type 0 where
    assets : load_assets files.assets ≡ loaded c.assets
    sources : load_distinct source_id_of duplicate_source [] files.sources ≡ loaded c.sources
    series : load_series (map source_id_of c.sources) files.series ≡ loaded c.series
    targets : load_targets (map series_id_of c.series) files.forecast ≡ loaded c.targets
    watch : load_calendar (map series_id_of c.series) files.calendar ≡ loaded c.watch
    analysis :
        load_analysis (map series_id_of c.series) (map asset_id_of c.assets) files.analysis
        ≡ loaded c.analysis
    jobs : load_jobs (map source_id_of c.sources) files.pipelines ≡ loaded c.jobs
    types : load_events c.watch files.events ≡ loaded c.types
    entities : files.entities ≡ loaded c.entities
    relationships : files.relationships ≡ loaded c.relationships
    scoring : files.scoring ≡ loaded c.scoring

  load_config-IsStaged :
      (files : Files Float Other) (c : ConfigRoot Float Other)
      → load_config files ≡ loaded c
      → IsStaged files c
  unfolding load_config
  load_config-IsStaged files c h =
      let (assets, e1, k1) = >>=-loaded (load_assets files.assets) _ h in
      let (sources, e2, k2) =
        >>=-loaded (load_distinct source_id_of duplicate_source [] files.sources) _ k1 in
      let source_ids = map source_id_of sources in
      let (series, e3, k3) = >>=-loaded (load_series source_ids files.series) _ k2 in
      let registered = map series_id_of series in
      let (targets, e4, k4) = >>=-loaded (load_targets registered files.forecast) _ k3 in
      let (watch, e5, k5) = >>=-loaded (load_calendar registered files.calendar) _ k4 in
      let (analysis, e6, k6) =
        >>=-loaded (load_analysis registered (map asset_id_of assets) files.analysis) _ k5 in
      let (jobs, e7, k7) = >>=-loaded (load_jobs source_ids files.pipelines) _ k6 in
      let (types, e8, k8) = >>=-loaded (load_events watch files.events) _ k7 in
      let (entities, e9, k9) = >>=-loaded files.entities _ k8 in
      let (relationships, e10, k10) = >>=-loaded files.relationships _ k9 in
      let (scoring, e11, k11) = >>=-loaded files.scoring _ k10 in
      subst (IsStaged files) (loaded-injective k11) (record {
        assets = e1;
        sources = e2;
        series = e3;
        targets = e4;
        watch = e5;
        analysis = e6;
        jobs = e7;
        types = e8;
        entities = e9;
        relationships = e10;
        scoring = e11;
      })

  IsStaged-load_config :
      (files : Files Float Other) (c : ConfigRoot Float Other)
      → IsStaged files c
      → load_config files ≡ loaded c
  unfolding load_config
  IsStaged-load_config files c s =
      rw
        (
          s.assets, s.sources, s.series, s.targets, s.watch, s.analysis, s.jobs, s.types,
          s.entities, s.relationships, s.scoring,
        )
        refl

  IsStaged-IsClosed :
      (files : Files Float Other) (c : ConfigRoot Float Other)
      → IsStaged files c
      → IsReadOf files c × IsClosed c
  unfolding repeated
  IsStaged-IsClosed files c s =
      let source_ids = map source_id_of c.sources in
      let registered = map series_id_of c.series in
      let asset_ids = map asset_id_of c.assets in
      let (a1, a2, a3) = load_assets_sound files.assets c.assets s.assets in
      let (b2, (new, p, q)) =
        load_distinct_sound source_id_of duplicate_source [] files.sources c.sources refl
          s.sources in
      let (s1, s2, s3) = load_series_sound source_ids files.series c.series s.series in
      let (t1, t2, t3) = load_targets_sound registered files.forecast c.targets s.targets in
      let (w1, w2, w3) = load_calendar_sound registered files.calendar c.watch s.watch in
      let (n1, n2, n3, n4) =
        load_analysis_sound registered asset_ids files.analysis c.analysis s.analysis in
      let (j1, j2, j3) = load_jobs_sound source_ids files.pipelines c.jobs s.jobs in
      let (v1, v2, v3) = load_events_sound c.watch files.events c.types s.types in
      (
        record {
          assets = a1;
          sources = q ∙ ap (map loaded) (sym p);
          series = s1;
          forecast = t1;
          calendar = w1;
          analysis = n1;
          pipelines = j1;
          events = v1;
          entities = s.entities;
          relationships = s.relationships;
          scoring = s.scoring;
        },
        record {
          assets_once = a2;
          assets_some = a3;
          sources_once = b2;
          series_valid = s2;
          series_sources = s3;
          targets_valid = t2;
          targets_series = t3;
          watch_once = w2;
          watch_series = w3;
          analysis_valid = n2;
          signals_series = n3;
          views_resolve = n4;
          jobs_valid = j2;
          jobs_sources = j3;
          types_valid = v2;
          watch_types = v3;
        },
      )

  IsClosed-IsStaged :
      (files : Files Float Other) (c : ConfigRoot Float Other)
      → IsReadOf files c
      → IsClosed c
      → IsStaged files c
  IsClosed-IsStaged files c r k =
      let source_ids = map source_id_of c.sources in
      let registered = map series_id_of c.series in
      let asset_ids = map asset_id_of c.assets in
      record {
        assets = rw r.assets (load_assets_complete c.assets k.assets_once k.assets_some);
        sources =
            rw r.sources
              (load_distinct_complete source_id_of duplicate_source [] c.sources k.sources_once);
        series =
            rw r.series (load_series_complete source_ids c.series k.series_valid k.series_sources);
        targets =
            rw r.forecast
              (load_targets_complete registered c.targets k.targets_valid k.targets_series);
        watch =
            rw r.calendar (load_calendar_complete registered c.watch k.watch_once k.watch_series);
        analysis = rw r.analysis (
            load_analysis_complete registered asset_ids c.analysis k.analysis_valid k.signals_series
              k.views_resolve);
        jobs = rw r.pipelines (load_jobs_complete source_ids c.jobs k.jobs_valid k.jobs_sources);
        types = rw r.events (load_events_complete c.watch c.types k.types_valid k.watch_types);
        entities = r.entities;
        relationships = r.relationships;
        scoring = r.scoring;
      }

  -- The tree loads, and as this root, exactly when every file gives this root's part of it, every
  -- reference resolves, no list repeats what identifies its entries, and the other checks pass. The
  -- references are the source of each series and of each job that collects, the series of targets,
  -- drivers, watched releases and signals, the asset and the dimensions of each view, and the types of
  -- the watched releases. What stands once is each asset, source, series, target, driver of a target,
  -- watched release, dimension, signal of a dimension, link of a view, job and event type (the
  -- identifiers of views are not compared). The other checks: there is some asset, series, target,
  -- dimension and view, with some driver, signal or link in each of the last three; no target drives
  -- itself; each link's dimension is there; no series of fx, commodity or risk is revisable.
  pub load_config_iff :
      (files : Files Float Other) (c : ConfigRoot Float Other)
      → load_config files ≡ loaded c ↔ IsReadOf files c × IsClosed c
  load_config_iff files c = (
    λ h. IsStaged-IsClosed files c (load_config-IsStaged files c h),
    λ h. IsStaged-load_config files c (IsClosed-IsStaged files c h.0 h.1),
  )
