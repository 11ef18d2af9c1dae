-- ===== src/Lib.antt =====
-- The package service: it collects which versions of an Android package its sources list,
-- downloads packages through providers with a fallback, and runs the downloads as jobs of a
-- database.
--
-- How the parts interact. The API (Api) puts a request for a package into the table of jobs
-- (Jobs); the slots of the workers claim the jobs, keep their leases alive and report how the
-- download ended (Worker). A download completes the request from the ledger and the catalogue
-- (Completion), reuses an artifact or tries the providers in the order of their priority
-- (Orchestrator), fetches and verifies the files (Download), keeps the artifact (Artifacts), and
-- tells the ledger what version its manifest has (Manifest, Ledger). The catalogue (Catalog) takes
-- the lease of a package, asks the collectors of all sources, merges what they answered into its
-- tables and gives the lease back; it serves the listings, and new versions are downloaded at once
-- (Archiver). One scheduler of all processes refreshes the tracked packages (Scheduler). The pages
-- and the API are behind gates on sessions and keys (Auth).
--
-- Which file models what:
--   Base.antt: the statements that the program runs on a table, as functions on the list of its
--   rows, tests on numbers and texts, and lemmas on both.
--   Domain.antt: app/domain/models.py (requests, files and plans) and app/domain/errors.py.
--   Jobs.antt: app/download/jobs.py; Jobs/Table.antt the rows and keys, one function per method of
--   DownloadJobStore in Jobs.antt.
--   Worker.antt: app/download/worker.py, run_job from the end of the download on, and the
--   transactions of all processes on the table as a sequence of calls.
--   Ledger.antt: app/catalog/ledger.py (upsert, _upsert_sync, _warn_if_non_monotonic); Ledger/Keys.antt
--   version_sort_key and the order of its keys.
--   Ledger/Facts.antt: the set of facts that the ledger stands for.
--   Catalog/State.antt: the collection states and leases of app/catalog/catalog.py.
--   Catalog/Versions.antt, Catalog/Persist.antt: _persist of app/catalog/catalog.py with both upserts.
--   Catalog/Listing.antt: list_downloadable and list_known_only.
--   Catalog/Collect.antt: _gather, _collect_once and ensure_collected.
--   Scheduler.antt: app/catalog/scheduler.py (_acquire_leadership, _tracked_packages, run_once).
--   Completion.antt: _complete, _lookup_code and _lookup_name of app/catalog/orchestrator.py.
--   Orchestrator.antt: download, existing and _existing_artifact of app/catalog/orchestrator.py, and
--   resolve of app/providers/factory.py; Orchestrator/Plans.antt plan and _first_success.
--   Manifest.antt: app/catalog/manifest.py on the bytes of a file; Manifest/Bytes.antt the reads with
--   struct.
--   Filenames.antt: app/utils/filenames.py.
--   Artifacts.antt: app/download/verifier.py, app/download/artifact_store.py and app/storage/base.py;
--   Artifacts/Fake.antt app/storage/fake.py.
--   Download.antt: app/download/downloader.py; Download/Web.antt the check of URLs and the transfers,
--   Download/Fetch.antt the files of a plan, Download/Bundles.antt the expansion of APKM bundles,
--   Download/Xapk.antt app/download/xapk_builder.py.
--   Json.antt: JSON values as the clients of the sources read them.
--   Aptoide.antt: app/providers/aptoide.py; Aptoide/Payload.antt what is read of a payload,
--   Aptoide/Requests.antt the requests, Aptoide/Entries.antt and Aptoide/Files.antt the files,
--   Aptoide/Provider.antt the plan.
--   Collectors.antt: app/catalog/collectors/aptoide.py and appmagic.py.
--   Archiver.antt: app/catalog/archiver.py.
--   Api.antt: the routes of app/api/routes.py that download; Api/Replies.antt its replies and
--   app/api/errors.py.
--   Monitor.antt: app/api/monitor.py; Monitor/Jobs.antt the rows that it reads, Monitor/Durations.antt,
--   Monitor/Flow.antt, Monitor/Packages.antt and Monitor/Board.antt the parts, Monitor/Overview.antt
--   the snapshot.
--   Auth.antt: app/auth/service.py on the tables of app/auth/store.py; Auth/Gates.antt app/auth/deps.py.
--   Tests: runs of the models at concrete inputs. The modules below a component hold its proofs.
--
-- State. A table is the list of its rows in the order of insertion; a method that is one
-- transaction is a function from the rows to the new rows and the result. Interleavings are lists
-- of such calls. A time is a number of microseconds since the epoch: the program stores ISO 8601
-- texts in UTC, whose order as texts is that of the instants. A version code is a natural number.
--
-- Parameters. `dumps` is json.dumps, `str` Python's decimal notation, `decimal` the value of a
-- digit for Python's re and int, `hash_key` the hash of a key, `lower` and `quote` functions of
-- texts. `tenths` rounds microseconds to tenths of a millisecond, `Floats` is the arithmetic of
-- the percentiles, and `parts` is Path(text).parts. `Python` has the decoders of UTF-8 and UTF-16
-- and the conversions of integers, `FileReader` what is read of a file with hashlib, zipfile and
-- json, and `Backend` is a storage backend with the laws that the program relies on: an upload
-- that did not fail is found with its size, and the sidecar {prefix}/metadata.json is read as it
-- was written and is no artifact; both writes can fail, a read does not, and the store in memory
-- keeps the laws. `Network` has the parser of URLs, the resolver, the HTTP client and wget, `Disk`
-- the copies of local files from outside the directory of a download, and `Library` the ZIP files
-- and JSON of a download and what parse_artifact makes of an artifact. `Texts` has the functions
-- of texts that the Aptoide provider takes from Python, and `fetch` is its HTTP client. What a
-- collection does to the database is a parameter of a scheduler's round, and the providers, the
-- downloader and the state that they act on are parameters of the orchestrator.
--
-- Bounds. The loop over the chunks of a manifest runs on fuel, one more than the file has bytes:
-- each turn passes over eight bytes at least. Every other loop of the modelled code is over a list
-- or over the number of retries that are left (3 for a network error, as NETWORK_ERROR_RETRIES).
-- Bytes are below 256 where a theorem says so; words of 16 and 32 bits are read little-endian, and
-- a signed word is negative from 2 ^ 31 on.
--
-- Not modelled: HTTP clients and browsers, and the providers and collectors of APKPure, APKMirror
-- and Google Play with their parsers (app/providers, app/catalog/collectors), the pages and the
-- routes that only pass on answers (app/api, app/admin, app/auth/routes.py), the SDKs of the
-- clouds and the file system (app/storage/gcs.py, s3.py, local.py), the directories under way of a
-- download but the one of its files, the ZIP files of a manifest, configuration and logging, the
-- connection and the schema of SQLite, and the asyncio loops that call what is modelled.
pub mod Base
pub mod Domain
pub mod Jobs
pub mod Worker
pub mod Ledger
pub mod Catalog
pub mod Scheduler
pub mod Auth
pub mod Completion
pub mod Orchestrator
pub mod Manifest
pub mod Json
pub mod Aptoide
pub mod Collectors
pub mod Filenames
pub mod Artifacts
pub mod Download
pub mod Archiver
pub mod Api
pub mod Monitor
mod Tests
