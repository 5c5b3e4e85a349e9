-- ===== src/Quarantine/Lifecycle.antt =====
-- The status of a ledger entry of backend/engines/scanning/quarantine_manager.py: a quarantined
-- entry is closed by a restore or a deletion, and the next call does not open it again.
use graduationp.Prelude.{
  inr, inl, Option-cases, Bool, refl, arith, ◌==◌, true, [], false, ◌∷◌, ℕ, String, List, some, ◌≡◌,
}
use graduationp.Value.{get-insert, get, is_text, text}
use graduationp.Platform.{Platform}
use graduationp.Quarantine.Vault.{update_first, update, has_id, Vault, Env, Entry, find_entry}
use graduationp.Quarantine.Ops.{
  restored_updates, restored, deleted_updates, Restored, Deleted, restore_file, delete_permanently,
}

module _ (id : String) (updates : Entry) where
  find-update_first :
      (entries : List Entry) (entry : Entry)
      → find_entry id entries ≡ some entry
      → has_id id (update entry updates) ≡ true
      → find_entry id (update_first id updates entries) ≡ some (update entry updates)
  unfolding find_entry update_first
  find-update_first [] entry found same = cc
  find-update_first (x ∷ entries) entry found same = ground (arith, find-update_first entries entry)

find-has_id :
    (id : String) (entries : List Entry) (entry : Entry)
    → find_entry id entries ≡ some entry
    → has_id id entry ≡ true
unfolding find_entry
find-has_id id [] entry found = cc
find-has_id id (x ∷ entries) entry found = ground (arith, find-has_id id entries entry)

pub has_id_lem : (id : String) (entry : Entry) → has_id id entry ≡ is_text id (get "id" entry)
unfolding has_id
has_id_lem id entry = refl

abbrev closing : String → String → String → Entry
closing status stamp now = ("status", text status) ∷ (stamp, text now) ∷ []

-- closing an entry sets its status and keeps its id
module _ (entry : Entry) (status stamp now : String) where
  status-closing :
      (stamp == "status") ≡ false
      → get "status" (update entry (closing status stamp now)) ≡ text status
  unfolding update
  status-closing h = simp (get-insert, h)

  id-closing :
      (id : String)
      → (stamp == "id") ≡ false
      → has_id id (update entry (closing status stamp now)) ≡ has_id id entry
  unfolding update
  id-closing id h = simp (has_id_lem, get-insert, h)

-- a call whose ledger accesses all succeed
pub record LedgerWorks (e : Env) : Type 0 where
  pub loads : e.load_fails ≡ false
  pub reloads : e.reload_fails ≡ false
  pub saves : e.save_fails ≡ false

module _ (p : Platform) (sha256 : List ℕ → String) (id : String) where
  -- what the next call answers about an entry that has this status
  abbrev pub Refused : Restored → Deleted → Vault → Type 0
  Refused on_restore on_delete w =
      (e : Env)
      → e.load_fails ≡ false
      → (restore_file p sha256 e id w ≡ (w, on_restore))
        × (delete_permanently p e id w ≡ (w, on_delete))

  restored-Refused :
      (w : Vault) (entry : Entry)
      → find_entry id w.ledger ≡ some entry
      → get "status" entry ≡ text "restored"
      → Refused Restored.already_restored Deleted.already_restored w
  unfolding restore_file delete_permanently is_text
  restored-Refused w entry found status e loads = (ground arith, ground arith)

  deleted-Refused :
      (w : Vault) (entry : Entry)
      → find_entry id w.ledger ≡ some entry
      → get "status" entry ≡ text "deleted"
      → Refused Restored.already_deleted Deleted.already_deleted w
  unfolding restore_file delete_permanently is_text
  deleted-Refused w entry found status e loads = (ground arith, ground arith)

  -- what a successful call leaves in the ledger
  abbrev Closes : Env → Entry → Vault → Vault → Type 0
  Closes e updates v w =
      (entry : Entry) × (find_entry id v.ledger ≡ some entry)
      × (w.ledger ≡ update_first id updates v.ledger)

  restored-Closes :
      (e : Env) (v w : Vault) {target hash : String} {verified : Bool}
      → LedgerWorks e
      → restore_file p sha256 e id v ≡ (w, restored target hash verified)
      → Closes e (restored_updates e) v w
  unfolding restore_file
  restored-Closes e v w works h = elim (Option-cases (find_entry id v.ledger)) [
    | inl missing ↦ absurd (ground arith)
    | inr (entry, found) ↦ (entry, found, ground arith)
  ]

  deleted-Closes :
      (e : Env) (v w : Vault)
      → LedgerWorks e
      → delete_permanently p e id v ≡ (w, Deleted.deleted)
      → Closes e (deleted_updates e) v w
  unfolding delete_permanently
  deleted-Closes e v w works h = elim (Option-cases (find_entry id v.ledger)) [
    | inl missing ↦ absurd (ground arith)
    | inr (entry, found) ↦ (entry, found, ground arith)
  ]

  closed_entry :
      (e : Env) (v w : Vault) (status stamp : String)
      → (stamp == "status") ≡ false
      → (stamp == "id") ≡ false
      → Closes e (closing status stamp e.now) v w
      → (entry : Entry) × (find_entry id w.ledger ≡ some entry) × (get "status" entry ≡ text status)
  closed_entry e v w status stamp a b (entry, found, ledger) = (
    update entry (closing status stamp e.now),
    rw ledger (
        find-update_first id (closing status stamp e.now) v.ledger entry found
          (rw (id-closing entry status stamp e.now id b) (find-has_id id v.ledger entry found))),
    status-closing entry status stamp e.now a,
  )

  -- In the state that a restore leaves which succeeded while the ledger could be read and written,
  -- the entry is closed: a restore or permanent deletion of it that follows directly, and can read the
  -- ledger, answers that it was restored already, and changes neither the disk nor the ledger.
  pub restored_once :
      (e : Env) (v w : Vault) {target hash : String} {verified : Bool}
      → LedgerWorks e
      → restore_file p sha256 e id v ≡ (w, restored target hash verified)
      → Refused Restored.already_restored Deleted.already_restored w
  restored_once e v w works h =
      let (entry, found, status) =
        closed_entry e v w "restored" "restored_at" refl refl (restored-Closes e v w works h) in
      restored-Refused w entry found status

  -- In the state that a permanent deletion leaves which succeeded while the ledger could be read and
  -- written, the entry is closed: a restore or permanent deletion of it that follows directly, and can
  -- read the ledger, answers that it was deleted already, and changes neither the disk nor the ledger.
  pub deleted_once :
      (e : Env) (v w : Vault)
      → LedgerWorks e
      → delete_permanently p e id v ≡ (w, Deleted.deleted)
      → Refused Restored.already_deleted Deleted.already_deleted w
  deleted_once e v w works h =
      let (entry, found, status) =
        closed_entry e v w "deleted" "deleted_at" refl refl (deleted-Closes e v w works h) in
      deleted-Refused w entry found status
