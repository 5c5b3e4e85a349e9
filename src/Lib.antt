-- ===== src/Lib.antt =====
-- Sentinel: the core of the backend that judges files and processes, and acts on the judgement.
--
-- A scan of a file ends in a score and a verdict. The decision engine turns them into one final
-- decision; the real-time protection derives an enforcement plan from it for each new process,
-- kills the process and hands its file to the quarantine vault, which has guards of its own.
--
-- Files:
--   Prelude (Tests, Lists, Int, Text, Dict, Float): Boolean tests, lists, integers, texts and
--   dictionaries over the native numbers, and floating-point numbers as exact fractions.
--   Value: the dynamic values of the dictionaries: bool(v), str(v), int(v), list(v), d.get(k).
--   Decision (backend/engines/scanning/decision.py): build_final_decision and to_dict; in
--   Decision.Rules extract_triggered_rules, in Decision.Reread decision_from_scan_result. A
--   FinalDecision is a record with the fields of the dataclass.
--   Platform: what the operating system answers about paths, and the path classes of
--   backend/engines/scanning/quarantine_manager.py.
--   Quarantine (backend/engines/scanning/quarantine_manager.py): the cipher (Xor), the guards
--   (Guards), ledger and files (Vault), quarantine_file, restore_file, delete_permanently and
--   list_quarantined (Ops). The state is a Vault: the files by path, the folders, the ledger. Every
--   fault of the file system is a field of Env, so the theorems hold for each way an operation
--   can fail.
--   Rtp (backend/core/realtime_protection.py): whom the worker trusts (Trust), the enforcement
--   plan (Plan, Decide), the process and the file action (Processes, Enforce), the scan cache
--   (Cache), the scan (Scan), the handling of one process on Windows (Watch) and one round of the
--   Linux loop (Polling). The state is a Worker: counters, cache and the vault.
--   FileScorer (backend/engines/scanning/scoring.py): what a finding adds (Findings), the static part
--   (Static), the sandbox part (Sandbox), the sentences (Report) and ThreatScorer.score (Score). The
--   state is Findings: points, breakdown, explanations. An exception is `none`.
--   UrlScanner (backend/engines/scanning/url_scanner.py): addresses (Address), the validation (Validate),
--   the structure of a URL (Structure, Tables), the fetch (Fetch), the verdict (Verdict), the cache
--   (Cache) and scan_static (Scan). The answer to a request, the name of a cache entry and the searches
--   of a page by regular expressions are fields of its Env.
--   UrlScorer (backend/engines/scanning/url_scoring.py): the domain of a URL, with what it needs of
--   urlparse (Domain), the points of an item of evidence (Points), the score (Score).
--   Session (backend/engines/scanning/sandbox_session.py): the types of events (EventType), start,
--   add_event, the batches and stop (Run), and the summary (Summary). A call that waits for a lock that
--   its own thread holds is `none`; add_event and stop, which one thread calls, do not overlap.
--   Startup (backend/core/startup_orchestrator.py): the tasks (Tasks) and phases (Phases); calls, timers
--   and reports are the constructors of Reachable in Completion, which counts the outstanding tasks.
--   Notifications (backend/api/notification_service.py): the slots of NotificationService.
--   ActionLog (backend/engines/ai/action_record.py): the sessions of ActionLog (Log) and their
--   dictionaries (Record).
--   Correlation (backend/engines/ai/knowledge/soc_correlation.py): the tables (Tables), the context
--   factors (Factors) and EventScoringEngine (Engine). An exception is `none`.
--   IntelCache (backend/engines/intel/cache.py): the rows by key; Env says which statements succeed.
--   ScanCenter (backend/engines/scancenter/scanner_orchestrator.py): _compute_weighted_score and
--   _build_explanation. The average of two scores is exact: a half goes to the even neighbour.
--   Workers (backend/core/workers.py): CancellableWorker.run (Task) and WorkerWatchdog (Watchdog); the
--   states that any sequence of its calls leads to are the data type Reachable.
--   ResultCache (backend/core/result_cache.py): get, set, invalidate and cleanup_expired, and the file
--   of a cache (Disk). A time to live is a natural number of seconds; a file that cannot be read or
--   written, and clear, are not modelled.
--   The other children hold the theorems that they are named for, and each Tests the runs.
--
-- Parameters: what urllib.parse refuses of a location beyond unpaired brackets, the redirects that
-- requests follows, path resolution, environment variables, file fingerprints, parent processes and
-- signatures (Platform, Host), the hash, the clock, keys and ids (Env, Store), the result of a
-- static scan (ScanRun), and a live process (LiveProcess). One handling of one process sees one
-- Host: the file system does not change under it.
--
-- Conventions: lower-casing maps the ASCII letters; int() of a text reads ASCII digits; any object
-- that is no text, integer, Boolean or None is known by its truth value, whether it is a float, its
-- text, integer and list of texts. Log lines, signals and the sentences of the vault's results are left out; each sentence
-- is a constructor of an outcome instead. There is no fuel but the digits of show_nat: all loops
-- run over lists and texts.
--
-- Not modelled: the static scanner and its third-party analysers, the sandboxes but for the session
-- of a run, the AI assistant but for its action log and its event scores, the bridges to the user
-- interface and the front end, and the infrastructure that only calls the operating system.
pub mod Prelude
pub mod Value
pub mod Decision
pub mod Platform
pub mod Quarantine
pub mod Rtp
pub mod FileScorer
pub mod UrlScanner
pub mod UrlScorer
pub mod Session
pub mod Startup
pub mod Workers
pub mod ResultCache
pub mod Notifications
pub mod ActionLog
pub mod Correlation
pub mod IntelCache
pub mod ScanCenter
