-- ===== src/Quarantine/RoundTrip.antt =====
-- A file that is quarantined and then restored has the bytes that it had.
use graduationp.Quarantine.Lifecycle.{has_id_lem}
use graduationp.Quarantine.Xor.{xor_bytes_twice, xor_bytes}
use graduationp.Quarantine.Safety.{stored_files, both_written}
use graduationp.Quarantine.Guards.{refusal}
use graduationp.Quarantine.Ops.{
  restored, restored_updates, restore_file, unlink_both, delete_original, quarantine_file,
  new_entry,
}
use graduationp.Value.{is_text, text, get}
use graduationp.Prelude.{ap, sym, eq_refl, ◌∙◌, ◌≢◌, some, true, ℕ, String, ◌≡◌, refl, none, List}
use graduationp.Prelude.Dict.{lookup, insert}
use graduationp.Platform.{Platform}
use graduationp.Quarantine.Vault.{
  key_path, payload_path, update_entry, append_entry, request_of, Vault, find_entry, Env, Entry,
}
use graduationp.Quarantine.OwnKeys.{
  new_entry-id, new_entry-status, new_entry-original_path, new_entry-sha256,
}
use graduationp.Quarantine.Runs.{
  Smooth, find_entry-append, quarantine_file-runs, ledger-quarantine_file, written_back,
  restore_file-runs,
}

-- What a caller passes about the file touches none of the entry's own keys.
pub record Untouched (raw : Entry) : Type 0 where
  pub no_id : lookup "id" raw ≡ none
  pub no_path : lookup "original_path" raw ≡ none
  pub no_status : lookup "status" raw ≡ none
  pub no_hash : lookup "sha256" raw ≡ none

-- A file outside the vault, at its resolved path, whose quarantine no guard refuses.
pub record Accepted (p : Platform) (e : Env) (path : String) (raw : Entry) (v : Vault)
    : Type 0 where
  pub allowed : refusal p path (request_of p path raw) ≡ none
  pub resolved : p.resolve path ≡ path
  pub not_payload : path ≢ payload_path p e e.new_id
  pub not_key : path ≢ key_path p e e.new_id
  pub fresh : find_entry e.new_id v.ledger ≡ none

is_text_self : (s : String) → is_text s (text s) ≡ true
unfolding is_text
is_text_self s = eq_refl s

module _ (p : Platform) (e e' : Env) (id : String) (same : e'.vault_dir ≡ e.vault_dir) where
  payload_path_same : payload_path p e' id ≡ payload_path p e id
  unfolding payload_path
  payload_path_same = rw same

  key_path_same : key_path p e' id ≡ key_path p e id
  unfolding key_path
  key_path_same = rw same

module _ (p : Platform) (sha256 : List ℕ → String) (e e' : Env) (path : String) (bytes : List ℕ)
    (raw : Entry) (v : Vault) where
  abbrev entry : Entry
  entry = new_entry p sha256 e path bytes raw

  abbrev stored : Vault
  stored =
      append_entry e entry
        (delete_original p e path bytes (record v { files = both_written p e bytes v }))

  entry_found :
      Smooth e
      → Untouched raw
      → find_entry e.new_id v.ledger ≡ none
      → find_entry e.new_id stored.ledger ≡ some entry
  entry_found smooth untouched fresh =
      rw (ledger-quarantine_file p sha256 e path bytes raw v smooth) (
        find_entry-append e.new_id v.ledger entry fresh (
          has_id_lem e.new_id entry
          ∙ rw (new_entry-id p sha256 e path bytes raw untouched.no_id) (is_text_self e.new_id)))

  entry_path : Untouched raw → p.resolve path ≡ path → get "original_path" entry ≡ text path
  entry_path untouched resolved =
      new_entry-original_path p sha256 e path bytes raw untouched.no_path ∙ ap text resolved

  -- the second call finds the payload and the key of the first
  payload_found :
      e'.vault_dir ≡ e.vault_dir
      → Accepted p e path raw v
      → (lookup (payload_path p e' e.new_id) stored.files ≡ some (xor_bytes bytes e.new_key))
        × (lookup (key_path p e' e.new_id) stored.files ≡ some e.new_key)
  payload_found same accepted =
      rw (payload_path_same p e e' e.new_id same, key_path_same p e e' e.new_id same)
        (stored_files p sha256 e path bytes entry v accepted.not_payload accepted.not_key)

  restore_runs :
      Smooth e
      → Smooth e'
      → e'.vault_dir ≡ e.vault_dir
      → Untouched raw
      → Accepted p e path raw v
      → restore_file p sha256 e' e.new_id stored ≡ (
        update_entry e' e.new_id
            (restored_updates e')
            (unlink_both p e' e.new_id
              (record stored { files = insert path bytes stored.files })).0,
        restored path (sha256 bytes) true,
      )
  restore_runs smooth smooth' same untouched accepted =
      let (payload, key) = payload_found same accepted in
      restore_file-runs p sha256 e' e.new_id stored entry (xor_bytes bytes e.new_key) e.new_key path
        smooth' (entry_found smooth untouched accepted.fresh)
        (new_entry-status p sha256 e path bytes raw untouched.no_status)
        (entry_path untouched accepted.resolved) payload key
      ∙ rw
          (
            xor_bytes_twice bytes e.new_key,
            new_entry-sha256 p sha256 e path bytes raw untouched.no_hash,
            is_text_self (sha256 bytes),
          )
          refl

  -- A file that was quarantined and is then restored, both without a fault, has its bytes back at
  -- its path, and the restore reports that path, their hash, and that it is the recorded one. The
  -- path is its own resolved path (so it goes through no link), and is neither of the two vault files
  -- that the quarantine writes. The two calls have one vault folder, the id is new to the ledger, no
  -- guard refuses the request, and the metadata has none of the keys "id", "original_path", "status"
  -- and "sha256".
  pub restore-quarantine :
      Smooth e
      → Smooth e'
      → e'.vault_dir ≡ e.vault_dir
      → lookup path v.files ≡ some bytes
      → Untouched raw
      → Accepted p e path raw v
      → let w = (quarantine_file p sha256 e path raw v).0 in
        let (w', outcome) = restore_file p sha256 e' e.new_id w in
        (lookup path w'.files ≡ some bytes) × (outcome ≡ restored path (sha256 bytes) true)
  restore-quarantine smooth smooth' same found untouched accepted =
      rw
        (
          quarantine_file-runs p sha256 e path bytes raw v smooth found accepted.allowed,
          restore_runs smooth smooth' same untouched accepted,
        )
        (
          written_back p e' e.new_id path (restored_updates e') stored bytes
              (λ h. accepted.not_payload (sym h ∙ payload_path_same p e e' e.new_id same))
              (λ h. accepted.not_key (sym h ∙ key_path_same p e e' e.new_id same)),
          refl,
        )
