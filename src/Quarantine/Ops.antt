-- ===== src/Quarantine/Ops.antt =====
-- `quarantine_file`, `restore_file`, `delete_permanently` and `list_quarantined` of
-- backend/engines/scanning/quarantine_manager.py. Every `return` is a constructor of the outcome;
-- the sentences that it carries in the source are left out.
use graduationp.Prelude.{
  ℕ, Bool, true, false, not, String, ◌++ˢ◌, List, [], ◌∷◌, none, some, elem, length, if◌then◌else◌,
  pos,
}
use graduationp.Prelude.Dict.{lookup, insert, remove}
use graduationp.Value.{int, text, get, to_str, is_text}
use graduationp.Platform.{Platform}
use graduationp.Quarantine.Xor.{xor_bytes}
use graduationp.Quarantine.Guards.{Refusal, refusal}
use graduationp.Quarantine.Vault.{
  Vault, Env, Entry, UnlinkFault, ReadFault, WriteFault, DeleteFault, payload_path, key_path,
  update, append_entry, update_entry, load_ledger, find_entry, request_of, normalized_metadata,
}

pub data Outcome : Type 0 where
  not_found not_regular unreadable write_failed : Outcome
  refused : Refusal → Outcome
  quarantined : String → Entry → Outcome

abbrev cannot_read : ReadFault → Bool
cannot_read ReadFault.reads = false
cannot_read ReadFault.denied_once = false
cannot_read ReadFault.denied = true
cannot_read ReadFault.unreadable = true

-- the target of a write that failed
unfoldable pub leave_behind : Env → String → Vault → Vault
leave_behind e target v = elim e.left_behind [
  | none ↦ v
  | some bytes ↦ record v { files = insert target bytes v.files }
]

-- The payload is written first, then the key; the flag says that neither write raised.
unfoldable pub write_payload : Platform → Env → List ℕ → Vault → Vault × Bool
unfolding leave_behind
write_payload p e bytes v =
    let with_payload = record v {
      files = insert (payload_path p e e.new_id) (xor_bytes bytes e.new_key) v.files;
    } in
    elim e.write [
      | WriteFault.no_payload ↦ (leave_behind e (payload_path p e e.new_id) v, false)
      | WriteFault.no_key ↦ (leave_behind e (key_path p e e.new_id) with_payload, false)
      | WriteFault.writes ↦ (
        record v {
          files =
              insert (key_path p e e.new_id) e.new_key
                (insert (payload_path p e e.new_id) (xor_bytes bytes e.new_key) v.files);
        },
        true,
      )
    ]

unfoldable pub delete_original : Platform → Env → String → List ℕ → Vault → Vault
delete_original p e path bytes v = elim e.delete [
  | DeleteFault.deletes ↦ record v { files = remove path v.files }
  | DeleteFault.moves ↦ record v {
    files = insert (payload_path p e e.new_id ++ˢ ".bak") bytes (remove path v.files);
  }
  | DeleteFault.stays ↦ v
]

pub data Restored : Type 0 where
  no_entry already_restored already_deleted not_active : Restored
  payload_missing key_missing vault_unreadable not_written : Restored
  -- where to, the hash of what was written, and whether it is the recorded one
  restored : String → String → Bool → Restored

-- `unlink` of the payload, then of the key; the flag says that neither raised
unfoldable pub unlink_both : Platform → Env → String → Vault → Vault × Bool
unlink_both p e id v =
    let without_payload = record v { files = remove (payload_path p e id) v.files } in
    elim e.unlink [
      | UnlinkFault.no_payload ↦ (v, false)
      | UnlinkFault.no_key ↦ (without_payload, false)
      | UnlinkFault.unlinks ↦ (
        record v { files = remove (key_path p e id) (remove (payload_path p e id) v.files) },
        true,
      )
    ]

abbrev pub restored_updates : Env → Entry
restored_updates e = ("status", text "restored") ∷ ("restored_at", text e.now) ∷ []

pub data Deleted : Type 0 where
  no_entry already_deleted already_restored not_active not_unlinked deleted : Deleted

abbrev pub deleted_updates : Env → Entry
deleted_updates e = ("status", text "deleted") ∷ ("deleted_at", text e.now) ∷ []

module _ (p : Platform) (sha256 : List ℕ → String) where
  -- what the ledger entry records of its own
  abbrev own_fields : Env → String → List ℕ → Entry
  own_fields e path bytes =
      ("id", text e.new_id)
      ∷ ("original_path", text (p.resolve path))
      ∷ ("original_name", text (p.base_name path))
      ∷ ("sha256", text (sha256 bytes))
      ∷ ("size_bytes", int (pos (length bytes)))
      ∷ ("quarantined_at", text e.now)
      ∷ ("vault_file", text (payload_path p e e.new_id))
      ∷ ("status", text "quarantined")
      ∷ []

  -- the ledger entry: what the caller passed wins over what was computed
  unfoldable pub new_entry : Env → String → List ℕ → Entry → Entry
  new_entry e path bytes raw = update (own_fields e path bytes) (normalized_metadata p path raw)

  -- from the encryption on
  unfoldable pub store_file : Env → String → List ℕ → Entry → Vault → Vault × Outcome
  unfolding write_payload delete_original append_entry
  store_file e path bytes raw v =
      let (written, done) = write_payload p e bytes v in
      let entry = new_entry e path bytes raw in
      if done
      then (
        append_entry e entry (delete_original p e path bytes written),
        quarantined e.new_id entry,
      )
      else (written, write_failed)

  unfoldable pub quarantine_file : Env → String → Entry → Vault → Vault × Outcome
  unfolding store_file lookup
  quarantine_file e path raw v = elim (lookup path v.files) [
    | none ↦ (v, if elem path v.folders then not_regular else not_found)
    | some bytes ↦
        if cannot_read e.read
        then (v, unreadable)
        else elim (refusal p path (request_of p path raw)) [
          | some why ↦ (v, refused why)
          | none ↦ store_file e path bytes raw v
        ]
  ]

  -- from the decryption on
  unfoldable pub write_back : Env → String → Entry → List ℕ → Vault → Vault × Restored
  unfolding unlink_both update_entry leave_behind
  write_back e id entry bytes v =
      let target = to_str (get "original_path" entry) in
      if e.write_back_fails then (leave_behind e target v, not_written) else (
        update_entry e id (restored_updates e)
            (unlink_both p e id (record v { files = insert target bytes v.files })).0,
        restored target (sha256 bytes) (is_text (sha256 bytes) (get "sha256" entry)),
      )

  unfoldable pub restore_payload : Env → String → Entry → Vault → Vault × Restored
  unfolding write_back
  restore_payload e id entry v = elim (lookup (payload_path p e id) v.files) [
    | none ↦ (v, payload_missing)
    | some encrypted ↦ elim (lookup (key_path p e id) v.files) [
      | none ↦ (v, key_missing)
      | some key ↦
          if e.vault_read_fails
          then (v, vault_unreadable)
          else write_back e id entry (xor_bytes encrypted key) v
    ]
  ]

  unfoldable pub restore_file : Env → String → Vault → Vault × Restored
  unfolding restore_payload load_ledger
  restore_file e id v = elim (find_entry id (load_ledger e.load_fails v)) [
    | none ↦ (v, no_entry)
    | some entry ↦
        let status = get "status" entry in
        if is_text "restored" status
        then (v, already_restored)
        else if is_text "deleted" status
        then (v, already_deleted)
        else if not (is_text "quarantined" status)
        then (v, not_active)
        else restore_payload e id entry v
  ]

unfoldable pub delete_permanently : Platform → Env → String → Vault → Vault × Deleted
unfolding unlink_both update_entry load_ledger
delete_permanently p e id v = elim (find_entry id (load_ledger e.load_fails v)) [
  | none ↦ (v, Deleted.no_entry)
  | some entry ↦
      let status = get "status" entry in
      if is_text "deleted" status
      then (v, Deleted.already_deleted)
      else if is_text "restored" status
      then (v, Deleted.already_restored)
      else if not (is_text "quarantined" status)
      then (v, Deleted.not_active)
      else (let (unlinked, done) = unlink_both p e id v in
          if done
          then (update_entry e id (deleted_updates e) unlinked, deleted)
          else (unlinked, not_unlinked))
]

-- `list_quarantined`
active_of : List Entry → List Entry
active_of [] = []
active_of (entry ∷ entries) =
    let rest = active_of entries in
    if is_text "quarantined" (get "status" entry) then entry ∷ rest else rest

unfoldable pub list_quarantined : Env → Vault → List Entry
unfolding active_of load_ledger
list_quarantined e v = active_of (load_ledger e.load_fails v)
