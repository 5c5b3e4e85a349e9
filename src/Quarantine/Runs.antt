-- ===== src/Quarantine/Runs.antt =====
-- quarantine_file and restore_file of backend/engines/scanning/quarantine_manager.py without a fault.
use graduationp.Quarantine.Paths.{ne-eq_false}
use graduationp.Quarantine.Xor.{xor_bytes}
use graduationp.Quarantine.Safety.{both_written}
use graduationp.Quarantine.Guards.{refusal}
use graduationp.Quarantine.Ops.{
  restored, restored_updates, restore_file, unlink_both, quarantined, delete_original,
  quarantine_file, new_entry,
}
use graduationp.Value.{to_str, is_text, text, get}
use graduationp.Prelude.{
  eq_refl, ◌∙◌, ◌≢◌, ◌++◌, some, true, false, ℕ, String, ◌≡◌, none, List, [], ◌∷◌, arith,
}
use graduationp.Prelude.Dict.{remove, lookup-remove, lookup, insert, lookup-insert}
use graduationp.Platform.{Platform}
use graduationp.Quarantine.Vault.{
  key_path, payload_path, update_entry, append_entry, request_of, WriteFault, has_id, ReadFault,
  Vault, find_entry, Env, Entry,
}

-- a call that no fault meets
pub record Smooth (e : Env) : Type 0 where
  pub reads_file : e.read ≡ ReadFault.reads
  pub writes_vault : e.write ≡ WriteFault.writes
  pub loads : e.load_fails ≡ false
  pub reloads : e.reload_fails ≡ false
  pub saves : e.save_fails ≡ false
  pub reads_vault : e.vault_read_fails ≡ false
  pub writes_back : e.write_back_fails ≡ false

pub find_entry-append :
    (id : String) (entries : List Entry) (entry : Entry)
    → find_entry id entries ≡ none
    → has_id id entry ≡ true
    → find_entry id (entries ++ entry ∷ []) ≡ some entry
unfolding find_entry
find_entry-append id [] entry h same = ground arith
find_entry-append id (x ∷ entries) entry h same = ground (arith, find_entry-append id entries entry)

module _ (p : Platform) (sha256 : List ℕ → String) (e : Env) (path : String) (bytes : List ℕ)
    (raw : Entry) (v : Vault) (smooth : Smooth e) where
  pub quarantine_file-runs :
      lookup path v.files ≡ some bytes
      → refusal p path (request_of p path raw) ≡ none
      → quarantine_file p sha256 e path raw v ≡ (
        append_entry e
            (new_entry p sha256 e path bytes raw)
            (delete_original p e path bytes (record v { files = both_written p e bytes v })),
        quarantined e.new_id (new_entry p sha256 e path bytes raw),
      )
  unfolding quarantine_file
  quarantine_file-runs found allowed = ground arith

  pub ledger-quarantine_file :
      (append_entry e
        (new_entry p sha256 e path bytes raw)
        (delete_original p e path bytes (record v { files = both_written p e bytes v }))).ledger
      ≡ v.ledger ++ new_entry p sha256 e path bytes raw ∷ []
  unfolding append_entry delete_original
  ledger-quarantine_file = ground (arith, smooth.reloads, smooth.saves)

module _ (p : Platform) (e : Env) (id target : String) where
  lookup-unlink_both :
      (v : Vault)
      → payload_path p e id ≢ target
      → key_path p e id ≢ target
      → lookup target (unlink_both p e id v).0.files ≡ lookup target v.files
  unfolding unlink_both
  lookup-unlink_both v a b = ground (
    arith,
    lookup-remove (payload_path p e id) target v.files,
    lookup-remove (key_path p e id) target (remove (payload_path p e id) v.files),
    ne-eq_false (payload_path p e id) target a,
    ne-eq_false (key_path p e id) target b,
  )

  files-update_entry : (updates : Entry) (v : Vault) → (update_entry e id updates v).files ≡ v.files
  unfolding update_entry
  files-update_entry updates v = ground arith

  pub written_back :
      (updates : Entry) (v : Vault) (bytes : List ℕ)
      → payload_path p e id ≢ target
      → key_path p e id ≢ target
      → lookup target
          (update_entry e id updates
            (unlink_both p e id (record v { files = insert target bytes v.files })).0).files
        ≡ some bytes
  written_back updates v bytes a b = rw files-update_entry (
      lookup-unlink_both (record v { files = insert target bytes v.files }) a b
      ∙ simp (lookup-insert, eq_refl))

module _ (p : Platform) (sha256 : List ℕ → String) (e : Env) (id : String) (w : Vault) where
  pub restore_file-runs :
      (entry : Entry) (encrypted key : List ℕ) (target : String)
      → Smooth e
      → find_entry id w.ledger ≡ some entry
      → get "status" entry ≡ text "quarantined"
      → get "original_path" entry ≡ text target
      → lookup (payload_path p e id) w.files ≡ some encrypted
      → lookup (key_path p e id) w.files ≡ some key
      → restore_file p sha256 e id w ≡ (
          let bytes = xor_bytes encrypted key in
          (
            update_entry e id
                (restored_updates e)
                (unlink_both p e id (record w { files = insert target bytes w.files })).0,
            restored target (sha256 bytes) (is_text (sha256 bytes) (get "sha256" entry)),
          ))
  unfolding restore_file is_text to_str
  restore_file-runs entry encrypted key target smooth found status original payload kept =
      ground arith
