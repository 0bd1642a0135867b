-- ===== src/Lib.antt =====
-- MIOS, the macro research platform of this repository: the data path from a fetched payload to a
-- read of a series as it was known at an instant, and the scheduler that drives it.
--
-- The parts, and how they interact. A job of config/pipelines.yaml runs behind a circuit breaker
-- with retries (scheduler). It fetches a source, and each new payload becomes a raw item of an
-- append-only store (ingestion). The normalizer hands every raw item that it has not processed to
-- the parsers of the series of its source, and the repository writes the points that the planner
-- finds to be changes, as rows keyed by (series, period, vintage) (series). Readers ask for a series
-- as of an instant and see only the vintages up to it: forecasts are scored, and releases recorded,
-- against the first print of a period (validation). The calendar holds the dates of the releases.
-- A forecast is made of the history known at its instant (prediction), and so are the scores of the
-- macro dimensions and the views of assets built on them (analysis); both are kept in append-only tables
-- (storage). The configuration names the sources, series, targets, dimensions, views and jobs (config).
--
-- Which file models what:
--   Base, Base.*           helpers: Boolean tests, lists, stable sorts, grouping, dicts, integers
--   Common.Decimal         Python's Decimal, as far as `==` sees it
--   Common.Dates           dates as numbers YYYYMMDD
--   Common.Floats          the float operations that scoring uses, as parameters
--   Common.Errors          src/mios/common/errors.py; Result is what a call returns or raises
--   Common.Labels          src/mios/common/labels.py (RunStatus, Frequency)
--   Common.Text            texts as lists of code points, with the functions of str that the code calls
--   Common.Numerals        what int, Decimal and date.fromisoformat read
--   Common.Json            the values of json.loads, or the exceptions that it raises
--   Common.Ids             src/mios/common/ids.py
--   Common.StateStore      src/mios/common/statestore.py (JsonStateStore.load, save)
--   Series.Planner         src/mios/series/planner.py (plan_writes, _value_before, _changes_before);
--                          Series.Planner.Stored has the rows of a period once a plan is inserted
--   Series.Repo            src/mios/series/repo.py (ObservationRepo: write_points, write_vintage,
--                          as_of, latest_as_of, revisions); the table `observations` is the list of
--                          its rows in insertion order, each statement of SQL a function on it
--   Series.Registry        SeriesRepo of repo.py (sync, get)
--   Series.Normalize       src/mios/series/normalize.py (Normalizer.run), with NormalizeState of
--                          repo.py in Series.Normalize.State
--   Series.Parsers         src/mios/series/parsers.py: fred_json, alfred_json, twelvedata_json; the
--                          Treasury's CSV in Series.Parsers.Treasury, get_parser in .Named
--   Series.Calendar        src/mios/series/calendar.py (scheduled_at, CalendarRepo.upsert,
--                          CalendarIngestor.run) and WatchedRelease of config/calendar.py
--   Scheduler.Breaker      src/mios/scheduler/breaker.py (CircuitBreaker)
--   Scheduler.Retry        src/mios/scheduler/retry.py (RetryPolicy.run)
--   Scheduler.RateLimit    src/mios/scheduler/ratelimit.py (RateLimiter.acquire)
--   Scheduler.Jobs         src/mios/scheduler/jobs.py (JobRunner)
--   Ingestion.RawStore     src/mios/ingestion/rawstore.py (FileRawStore) and RawItem of rawitem.py
--   Ingestion.Health       src/mios/ingestion/health.py (HealthTracker)
--   Ingestion.Collector    src/mios/ingestion/collector.py (Collector), with the records of adapter.py,
--                          the queue of dlq.py and build_raw_item; Collector.Collect has `collect`
--   Ingestion.Verify       src/mios/ingestion/verify.py (SourceVerifier)
--   Validation.Scoring     src/mios/validation/scoring.py (first_print, actual_change, score, Scorer)
--   Validation.Metrics     src/mios/validation/metrics.py (MetricsReader.accuracy, calibration)
--   Validation.Releases    src/mios/validation/releases.py (ReleaseBuilder)
--   Common.Numeric         the rest of the float arithmetic, as parameters
--   Prediction.Features    src/mios/prediction/features.py (load, changes_of, next_period)
--   Prediction.Stats       the statistics of features.py, and src/mios/prediction/probability.py
--   Prediction.Bridge      src/mios/prediction/bridge.py (forecast_target), with the records of
--                          prediction/models.py and config/forecast.py
--   Prediction.Repo        src/mios/prediction/repo.py (ForecastRepo), on the tables of Storage.Rows
--                          and the reads of Storage.Newest
--   Analysis.Records       the records of src/mios/config/analysis.py and analysis/macro.py
--   Analysis.Macro         src/mios/analysis/macro.py (score_dimension, asset_view)
--   Analysis.Repo          src/mios/analysis/repo.py (MacroScoreRepo)
--   Analysis.Run           _cmd_analyze of src/mios/cli.py
--   Config.Models          the validators of series.py, forecast.py, analysis.py and models.py of
--                          src/mios/config
--   Config.Loader          src/mios/config/loader.py (load_config)
--   Tests.*                runs at concrete inputs
-- The children of a component's module hold its theorems.
--
-- State is passed explicitly: an operation takes the table, store or file and returns it beside its
-- result, and keeps what was written before it raised. A `datetime` with its zone is a number of
-- microseconds since the year 1; a clock's reading, a task's result and a parser's result are
-- arguments, since they come from outside. No recursion is on fuel: every loop of the code is over a
-- list, and the retries are over the list of delays.
--
-- Not modelled: the network, the environment, logging, reports, and of the command line all but
-- `analyze`. Taken as parameters: what pydantic reads of a YAML document, the parsers in the
-- normalizer, what an adapter's fetch gives in the collector, json.loads, csv.reader, the dates by
-- week of date.fromisoformat and the normalisation NFKD, the arithmetic of floats, and the
-- jittered delay of the retries. Left out of forecasts and scores are identifiers, the validators
-- of the records, and the texts of rationales, contradictions and gaps, of which the model keeps
-- what each is about. A database transaction is one step: `write_points` is not interleaved with
-- another writer.
pub mod Base
pub mod Common
pub mod Series
pub mod Scheduler
pub mod Ingestion
pub mod Validation
pub mod Prediction
mod Tests
pub mod Analysis
pub mod Storage
pub mod Config
