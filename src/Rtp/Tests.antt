-- ===== src/Rtp/Tests.antt =====
-- Runs of backend/core/realtime_protection.py, and each theorem about it at an input.
use graduationp.Rtp.Judged.{only_malicious_terminated}
use graduationp.Prelude.{
  not, not, ◌&&◌, elem, leb_ℤ, ◌≤◌, ◌↔◌, List, ◌≢◌, arith, true, false, [], ◌∷◌, none, some, pos,
  ◌≡◌, refl,
}
use graduationp.Prelude.Dict.{remove, insert, Dict}
use graduationp.Value.{list_value, list_value, bool, Value, null, int, text}
use graduationp.Platform.{Platform}
use graduationp.Decision.{
  clamp_score, coerce_int, score_band, clamp_score, coerce_int, score_band, clamp_score, coerce_int,
  Input, build_final_decision, to_dict, default_block_threshold,
}
use graduationp.Quarantine.Vault.{
  key_path, payload_path, Vault, ReadFault, WriteFault, DeleteFault, UnlinkFault,
}
use graduationp.Rtp.Trust.{
  is_windows_system_path, is_protected_browser_install, is_trusted_sentinel_internal_helper,
  is_sentinel_internal_helper_path, is_windows_system_path, is_protected_browser_install,
  is_trusted_sentinel_internal_helper, is_sentinel_internal_helper_path, Host,
}
use graduationp.Rtp.Plan.{
  quarantine_file, verdict_word, supports_destructive_enforcement, verdict_word, score_of,
  supports_destructive_enforcement, kill_process, ScanContext, has_explicit_override,
}
use graduationp.Rtp.Decide.{build_enforcement_plan}
use graduationp.Rtp.Processes.{execute_process_action, gives, exe, LiveProcess, Stats, terminated}
use graduationp.Rtp.Enforce.{
  shown_verdict, shown_verdict, Store, Launch, FileResult, apply_enforcement,
}
use graduationp.Prelude.{ap}
use graduationp.Prelude.Dict.{has_key}
use graduationp.Decision.{clamp_score, coerce_int, score_band}
use graduationp.Decision.Rules.{ScanResult}
use graduationp.Quarantine.Guards.{refusal, normalize_source_key, as_optional_int}
use graduationp.Quarantine.Vault.{request_of}
use graduationp.Rtp.Trust.{
  is_trusted_sentinel_internal_helper, is_sentinel_internal_helper_path,
  is_protected_browser_install, is_windows_system_path, is_true, is_not_false,
}
use graduationp.Rtp.Plan.{
  get_word, score_of, verdict_word, incomplete_verdicts, supports_destructive_enforcement,
}
use graduationp.Rtp.Processes.{ProcessResult}
use graduationp.Rtp.Guardrails.{kill_needs_evidence, quarantine_needs_strong_evidence}
use graduationp.Rtp.Kills.{
  killed_iff_same_process, vault_changed_after_kill, names_process, shows_path,
}
use graduationp.Rtp.Cache.{Cache, CacheEntry, entry_of, get_cached_scan_entry}
use graduationp.Rtp.Scan.{returns}
use graduationp.Rtp.Watch.{
  Event, Worker, handle_launch, scan_or_fail, with_parent, plan_for, judge_scanned,
}
use graduationp.Rtp.Coherence.{WellFormed, handle_launch-WellFormed, cached_plan_same}
use graduationp.Rtp.Polling.{Listed, Polled}
use graduationp.Rtp.Agreement.{plan_complete_for_vault}
use graduationp.Rtp.Enforce.{metadata_with}
use graduationp.Quarantine.Guards.{incomplete_decision}
use graduationp.Quarantine.Vault.{request_of}

abbrev linux : Platform
linux = record {
  is_windows = false;
  is_linux = true;
  sep = "/";
  canonical = λ path. path;
  resolve = λ path. path;
  base_name = λ path. path;
  system_root = "";
  program_files = "";
  program_files_x86 = "";
  local_programs = "Programs";
  probe = λ path. (none, "");
}

abbrev host : Host
host = record {
  platform = linux;
  app_roots = "/opt/sentinel" ∷ [];
  own_pid = pos 4;
  parent_exe = λ pid. none;
  fingerprint = λ path. some (100, 7);
  file_exists = λ path. true;
  authenticode = λ path. none;
}

abbrev store : Store
store = record {
  hash = λ bytes. "h";
  env = record {
    vault_dir = "/vault";
    new_id = "q1";
    new_key = 7 ∷ [];
    now = "2026-01-01";
    read = ReadFault.reads;
    write = WriteFault.writes;
    delete = DeleteFault.deletes;
    load_fails = false;
    reload_fails = false;
    save_fails = false;
    save_tears = false;
    vault_read_fails = false;
    write_back_fails = false;
    left_behind = none;
    unlink = UnlinkFault.unlinks;
  };
}

abbrev input : Input
input = record {
  score = int (pos 91);
  verdict = text "Malicious";
  confidence = null;
  policy = "static";
  block_threshold = default_block_threshold;
  triggered_rules = "ClamAV:Eicar" ∷ [];
  scan_failed = false;
  explicit_action = "";
  override_type = "";
  action_reason = "";
  enforcement_source = "";
}

abbrev decision : Dict Value
decision = to_dict (build_final_decision input)

abbrev context : ScanContext
context = record {
  signature_valid = none;
  publisher = "";
  strong_evidence = true;
  fingerprint = some (100, 7);
  parent_pid = some (pos 1);
}

abbrev launch : Launch
launch = record { name = "m"; path = "/tmp/m"; pid = pos 9 }

abbrev process : LiveProcess
process = record { name = gives "M"; exe_read = exe (gives "/tmp/m"); kill_fault = none }

abbrev vault : Vault
vault = record { files = ("/tmp/m", 1 ∷ 2 ∷ []) ∷ []; folders = []; ledger = [] }

abbrev stats : Stats
stats = record { threats_found = 0; threats_killed = 0 }

decision_plain : has_explicit_override decision ≡ false
unfolding has_explicit_override to_dict build_final_decision clamp_score coerce_int
decision_plain = refl

plan_kills :
    (build_enforcement_plan host "m" "/tmp/m" decision context).process_action ≡ kill_process
unfolding build_enforcement_plan to_dict build_final_decision clamp_score coerce_int
    is_trusted_sentinel_internal_helper is_sentinel_internal_helper_path
    supports_destructive_enforcement score_of verdict_word score_band is_protected_browser_install
    is_windows_system_path
plan_kills = refl

process_terminated :
    (apply_enforcement host store launch
      (build_enforcement_plan host "m" "/tmp/m" decision context)
      decision
      ""
      false
      (gives process)
      stats
      vault).2
    ≡ terminated
unfolding apply_enforcement build_enforcement_plan to_dict build_final_decision clamp_score
    coerce_int is_trusted_sentinel_internal_helper is_sentinel_internal_helper_path
    supports_destructive_enforcement verdict_word score_band is_protected_browser_install
    is_windows_system_path score_of
process_terminated = refl

abbrev outcome : Stats × Vault × ProcessResult × FileResult
outcome =
    apply_enforcement host store launch (build_enforcement_plan host "m" "/tmp/m" decision context)
      decision "" false (gives process) stats vault

file_quarantined : outcome.3 ≡ FileResult.quarantined
unfolding apply_enforcement build_enforcement_plan to_dict build_final_decision clamp_score
    coerce_int is_trusted_sentinel_internal_helper is_sentinel_internal_helper_path
    supports_destructive_enforcement verdict_word score_band is_protected_browser_install
    is_windows_system_path refusal request_of normalize_source_key as_optional_int score_of
    list_value shown_verdict
file_quarantined = refl

file_gone : has_key "/tmp/m" outcome.1.files ≡ false
unfolding apply_enforcement build_enforcement_plan to_dict build_final_decision clamp_score
    coerce_int is_trusted_sentinel_internal_helper is_sentinel_internal_helper_path
    supports_destructive_enforcement verdict_word score_band is_protected_browser_install
    is_windows_system_path refusal request_of normalize_source_key as_optional_int has_key remove
    insert payload_path key_path score_of list_value shown_verdict
file_gone = refl

file_there : has_key "/tmp/m" vault.files ≡ true
unfolding has_key
file_there = refl

vault_changed : outcome.1 ≢ vault
vault_changed h = cc (ap (λ (v : Vault). has_key "/tmp/m" v.files) h, file_gone, file_there)

only_malicious_terminated_example :
    (input.scan_failed ≡ false)
    × (60 ≤ (build_final_decision input).score)
    × ((build_final_decision input).verdict_code ≡ "malicious")
    × ((is_windows_system_path host "/tmp/m" && is_not_false context.signature_valid) ≡ false)
    × (is_trusted_sentinel_internal_helper host "m" "/tmp/m" context.parent_pid ≡ false)
only_malicious_terminated_example =
    only_malicious_terminated host store launch input context "" false (gives process) stats vault
      refl refl refl decision_plain process_terminated

kill_needs_evidence_example :
    (get_word "action" decision ≡ "block")
    × (is_trusted_sentinel_internal_helper host "m" "/tmp/m" context.parent_pid ≡ false)
    × (leb_ℤ (score_of decision) (pos 0) ≡ false)
    × (elem (verdict_word decision) incomplete_verdicts ≡ false)
    × ((is_windows_system_path host "/tmp/m" && is_not_false context.signature_valid) ≡ false)
    × ((is_true context.signature_valid && not context.strong_evidence) ≡ false)
kill_needs_evidence_example =
    kill_needs_evidence host "m" "/tmp/m" decision context plan_kills decision_plain

plan_quarantines :
    (build_enforcement_plan host "m" "/tmp/m" decision context).file_action ≡ quarantine_file
unfolding build_enforcement_plan to_dict build_final_decision clamp_score coerce_int
    is_trusted_sentinel_internal_helper is_sentinel_internal_helper_path
    supports_destructive_enforcement score_of verdict_word score_band is_protected_browser_install
    is_windows_system_path
plan_quarantines = refl

quarantine_needs_strong_evidence_example :
    ((build_enforcement_plan host "m" "/tmp/m" decision context).process_action ≡ kill_process)
    × (context.strong_evidence ≡ true)
quarantine_needs_strong_evidence_example =
    quarantine_needs_strong_evidence host "m" "/tmp/m" decision context plan_quarantines

killed_iff_same_process_example :
    ((execute_process_action host true "m" "/tmp/m" kill_process (gives process) stats).1
      ≡ terminated)
    ↔ ((kill_process ≡ kill_process)
        × (names_process "m" process.name ≡ true)
        × (shows_path host true "/tmp/m" process.exe_read ≡ true)
        × (process.kill_fault ≡ none))
killed_iff_same_process_example =
    killed_iff_same_process host true "m" "/tmp/m" kill_process process stats

vault_changed_after_kill_example :
    ((build_enforcement_plan host "m" "/tmp/m" decision context).file_action ≡ quarantine_file)
    × (outcome.2 ≡ terminated)
vault_changed_after_kill_example =
    vault_changed_after_kill host store launch
      (build_enforcement_plan host "m" "/tmp/m" decision context) decision "" false (gives process)
      stats vault vault_changed

abbrev scan : ScanResult
scan = record {
  attributes = ("score", int (pos 91)) ∷ ("verdict", text "Malicious") ∷ [];
  clamav = ("infected", bool true) ∷ [];
  groq_analysis = [];
  finding_titles = [];
  final_decision = [];
}

abbrev event : Event
event = record {
  launch = launch;
  parent_pid = some (pos 1);
  scan = returns (record {
    result = scan;
    sha256 = null;
    signature_valid = none;
    subject = null;
    list_error = "";
  });
  process = gives process;
}

abbrev worker : Worker
worker = record { total_scanned = 0; stats = stats; cache = []; vault = vault }

worker-WellFormed : WellFormed worker
worker-WellFormed = (omega arith, omega arith)

abbrev entry : CacheEntry
entry = entry_of host "/tmp/m" decision "" context

abbrev cached : Cache
cached = ("/tmp/m", entry) ∷ []

handle_launch-WellFormed_example : WellFormed (handle_launch host store ("other" ∷ []) event worker)
handle_launch-WellFormed_example =
    handle_launch-WellFormed host store ("other" ∷ []) event worker worker-WellFormed

cached_plan_same_example :
    let (d, sha256, c) = scan_or_fail host event in
    let stored = entry_of host "/tmp/m" d sha256 (with_parent event c) in
    ((get_cached_scan_entry host "/tmp/m" (judge_scanned host store event worker).cache).1
      ≡ some stored)
    × (plan_for host event stored.decision stored.scan_context ≡ plan_for host event d c)
cached_plan_same_example = cached_plan_same host store event worker (100, 7) refl

abbrev listing : List Listed
listing = record { event = event; is_zombie = false } ∷ []

abbrev polled : Polled
polled = record { seen = pos 3 ∷ []; worker = worker }

plan_complete_for_vault_example :
    incomplete_decision (
      request_of linux "/tmp/m" (
        metadata_with launch
          (build_enforcement_plan host "m" "/tmp/m" decision context)
          decision
          ""
          ("ClamAV:Eicar" ∷ [])))
    ≡ none
plan_complete_for_vault_example =
    plan_complete_for_vault host launch input context linux "" ("ClamAV:Eicar" ∷ []) refl refl refl
      plan_kills plan_quarantines
