-- ===== src/Quarantine/Tests.antt =====
-- Runs of backend/engines/scanning/quarantine_manager.py, and each theorem about it at an input.
use graduationp.Quarantine.Refusals.{automatic_quarantine_needs_decision, system_file_protected}
use graduationp.Prelude.{
  strip, lower, ap, elem, starts_with, ℕ, String, ◌≡◌, ◌≢◌, refl, none, some, List, [], ◌∷◌, true,
  false, arith, eq_iff, pos,
}
use graduationp.Prelude.Dict.{remove, insert, lookup}
use graduationp.Value.{to_str, get, is_text, text, int}
use graduationp.Platform.{is_windows_system_path, Platform}
use graduationp.Quarantine.Xor.{xor_bytes}
use graduationp.Quarantine.Guards.{
  weak_verdicts, is_positive, as_optional_int, as_optional_bool, normalize_source_key, refusal,
}
use graduationp.Quarantine.Vault.{
  has_id, has_id, has_id, Vault, Env, Entry, ReadFault, WriteFault, DeleteFault, UnlinkFault,
  payload_path, key_path, request_of, find_entry,
}
use graduationp.Quarantine.Ops.{
  Deleted, Restored, new_entry, Outcome, delete_permanently, quarantined, restored, quarantine_file,
  restore_file,
}
use graduationp.Quarantine.Safety.{Kept, quarantine_file-Kept}
use graduationp.Quarantine.Runs.{Smooth, quarantine_file-runs}
use graduationp.Quarantine.RoundTrip.{Untouched, Accepted, restore-quarantine}
use graduationp.Quarantine.Lifecycle.{deleted_once, restored_once, Refused, LedgerWorks}

abbrev linux : Platform
linux = record {
  is_windows = false;
  is_linux = true;
  sep = "/";
  canonical = λ path. path;
  resolve = λ path. path;
  base_name = λ path. path;
  system_root = "";
  program_files = "";
  program_files_x86 = "";
  local_programs = "Programs";
  probe = λ path. (none, "");
}

abbrev windows : Platform
windows = record linux { is_windows = true; is_linux = false; sep = "\\" }

abbrev env : Env
env = record {
  vault_dir = "/vault";
  new_id = "q1";
  new_key = 7 ∷ 255 ∷ [];
  now = "2026-01-01";
  read = ReadFault.reads;
  write = WriteFault.writes;
  delete = DeleteFault.deletes;
  load_fails = false;
  reload_fails = false;
  save_fails = false;
  save_tears = false;
  vault_read_fails = false;
  write_back_fails = false;
  left_behind = none;
  unlink = UnlinkFault.unlinks;
}

-- the write of the key fails
abbrev full_disk : Env
full_disk = record env { write = WriteFault.no_key }

abbrev sample : List ℕ
sample = 77 ∷ 90 ∷ 144 ∷ []

abbrev vault : Vault
vault = record { files = ("/tmp/a", sample) ∷ []; folders = []; ledger = [] }

abbrev verdict : Entry
verdict =
    ("enforcement_source", text "RTP")
    ∷ ("decision_action", text "block")
    ∷ ("decision_score", int (pos 91))
    ∷ ("decision_verdict", text "Malicious")
    ∷ ("file_action", text "quarantine_file")
    ∷ []

abbrev hash : List ℕ → String
hash bytes = "h"

env-Smooth : Smooth env
env-Smooth = record {
  reads_file = refl;
  writes_vault = refl;
  loads = refl;
  reloads = refl;
  saves = refl;
  reads_vault = refl;
  writes_back = refl;
}

env-LedgerWorks : LedgerWorks env
env-LedgerWorks = record { loads = refl; reloads = refl; saves = refl }

vault_path_ne :
    (◌≢◌ {A = String} "/tmp/a" (payload_path linux env "q1"))
    × (◌≢◌ {A = String} "/tmp/a" (key_path linux env "q1"))
unfolding payload_path key_path
vault_path_ne = (
  ground (arith, eq_iff "/tmp/a" "/vault/q1.quarantine"),
  ground (arith, eq_iff "/tmp/a" "/vault/q1.key"),
)

accepted : Accepted linux env "/tmp/a" verdict vault
unfolding refusal request_of find_entry normalize_source_key as_optional_int
accepted = record {
  allowed = refl;
  resolved = refl;
  not_payload = vault_path_ne.0;
  not_key = vault_path_ne.1;
  fresh = refl;
}

untouched : Untouched verdict
unfolding lookup
untouched = record { no_id = refl; no_path = refl; no_status = refl; no_hash = refl }

found : lookup "/tmp/a" vault.files ≡ some sample
unfolding lookup
found = refl

restore-quarantine_example :
    let w = (quarantine_file linux hash env "/tmp/a" verdict vault).0 in
    let (w', outcome) = restore_file linux hash env "q1" w in
    (lookup "/tmp/a" w'.files ≡ some sample) × (outcome ≡ restored "/tmp/a" "h" true)
restore-quarantine_example =
    restore-quarantine linux hash env env "/tmp/a" sample verdict vault env-Smooth env-Smooth refl
      found untouched accepted

quarantine_file-Kept_example :
    Kept linux full_disk "/tmp/a" sample
      (quarantine_file linux hash full_disk "/tmp/a" verdict vault).0
unfolding payload_path key_path
quarantine_file-Kept_example =
    quarantine_file-Kept linux hash full_disk "/tmp/a" sample verdict vault vault_path_ne.0
      vault_path_ne.1 found

abbrev holding : Vault
holding = record {
  files = ("/vault/q1.quarantine", 74 ∷ 165 ∷ []) ∷ ("/vault/q1.key", 7 ∷ 255 ∷ []) ∷ [];
  folders = [];
  ledger =
      (("id", text "q1")
        ∷ ("original_path", text "/tmp/a")
        ∷ ("sha256", text "h")
        ∷ ("status", text "quarantined")
        ∷ [])
      ∷ [];
}

abbrev after_restore : Vault
after_restore = (restore_file linux hash env "q1" holding).0

abbrev after_delete : Vault
after_delete = (delete_permanently linux env "q1" holding).0

restores : restore_file linux hash env "q1" holding ≡ (after_restore, restored "/tmp/a" "h" true)
unfolding restore_file payload_path key_path is_text get to_str find_entry lookup xor_bytes has_id
restores = refl

restored_bytes : lookup "/tmp/a" after_restore.files ≡ some (77 ∷ 90 ∷ [])
unfolding restore_file payload_path key_path is_text get to_str find_entry lookup xor_bytes insert
    remove has_id
restored_bytes = refl

deletes : delete_permanently linux env "q1" holding ≡ (after_delete, Deleted.deleted)
unfolding delete_permanently is_text get find_entry lookup has_id
deletes = refl

restored_once_example :
    Refused linux hash "q1" Restored.already_restored Deleted.already_restored after_restore
restored_once_example =
    restored_once linux hash "q1" env holding after_restore env-LedgerWorks restores

deleted_once_example :
    Refused linux hash "q1" Restored.already_deleted Deleted.already_deleted after_delete
deleted_once_example = deleted_once linux hash "q1" env holding after_delete env-LedgerWorks deletes

abbrev finished : Vault × Outcome
finished = quarantine_file linux hash env "/tmp/a" verdict vault

goes_through : finished.1 ≡ quarantined "q1" (new_entry linux hash env "/tmp/a" sample verdict)
goes_through =
    ap (λ (r : Vault × Outcome). r.1)
      (quarantine_file-runs linux hash env "/tmp/a" sample verdict vault env-Smooth found
        accepted.allowed)

automatic_quarantine_needs_decision_example :
    let r = request_of linux "/tmp/a" verdict in
    (r.decision_action ≡ "block")
    × (is_positive r.decision_score ≡ true)
    × (elem (lower (strip r.decision_verdict)) weak_verdicts ≡ false)
    × (r.file_action ≡ "quarantine_file")
unfolding request_of normalize_source_key
automatic_quarantine_needs_decision_example =
    automatic_quarantine_needs_decision linux hash env "/tmp/a" verdict vault "q1"
      (new_entry linux hash env "/tmp/a" sample verdict) refl refl goes_through

system_file_protected_example :
    ((quarantine_file windows hash env "C:\\Windows\\a.exe" verdict vault).0 ≡ vault)
    × ((id : String) (entry : Entry)
        → (quarantine_file windows hash env "C:\\Windows\\a.exe" verdict vault).1
          ≢ quarantined id entry)
unfolding request_of as_optional_bool is_windows_system_path starts_with get lookup
system_file_protected_example =
    system_file_protected windows hash env "C:\\Windows\\a.exe" verdict vault refl refl
      (λ h. ground arith) refl refl
