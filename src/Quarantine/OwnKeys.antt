-- ===== src/Quarantine/OwnKeys.antt =====
-- What the ledger entry of backend/engines/scanning/quarantine_manager.py records of its own.
use graduationp.Quarantine.Ops.{new_entry}
use graduationp.Value.{text, get, Value}
use graduationp.Prelude.{ℕ, String, ◌≡◌, refl, none, List, [], ◌∷◌, arith}
use graduationp.Prelude.Dict.{lookup, insert, lookup-insert}
use graduationp.Platform.{Platform}
use graduationp.Quarantine.Vault.{
  Env, normalized_metadata, Entry, update, keep_others, plain_metadata,
}

-- `d.update(updates)` changes nothing under a key that `updates` lacks.
lookup-update :
    (k : String) (d updates : Entry)
    → lookup k updates ≡ none
    → lookup k (update d updates) ≡ lookup k d
unfolding update lookup
lookup-update k d [] h = refl
lookup-update k d ((j, v) ∷ updates) h =
    ground (arith, lookup-update k (insert j v d) updates, lookup-insert j k v d)

get-update :
    (k : String) (d updates : Entry) → lookup k updates ≡ none → get k (update d updates) ≡ get k d
unfolding get
get-update k d updates h = rw (lookup-update k d updates h, get)

lookup-keep_others :
    (k : String) (d raw : Entry) → lookup k raw ≡ none → lookup k (keep_others d raw) ≡ lookup k d
unfolding keep_others lookup
lookup-keep_others k d [] h = refl
lookup-keep_others k d ((j, v) ∷ raw) h = ground (
  arith,
  lookup-keep_others k (insert j v d) raw,
  lookup-keep_others k d raw,
  lookup-insert j k v d,
)

-- an own key of the ledger entry, which no normalised metadata has
pub data OwnKey : String → Type 0 where
  own_id : OwnKey "id"
  own_path : OwnKey "original_path"
  own_status : OwnKey "status"
  own_hash : OwnKey "sha256"

pub plain_metadata-OwnKey :
    (p : Platform) (path : String) (raw : Entry) {k : String}
    → OwnKey k
    → lookup k (plain_metadata p path raw) ≡ none
unfolding plain_metadata lookup
plain_metadata-OwnKey p path raw own_id = ground arith
plain_metadata-OwnKey p path raw own_path = ground arith
plain_metadata-OwnKey p path raw own_status = ground arith
plain_metadata-OwnKey p path raw own_hash = ground arith

pub quality_keys-OwnKey :
    {k : String} (d : Entry) (note quality : Value)
    → OwnKey k
    → lookup k (insert "metadata_note" note (insert "metadata_quality" quality d)) ≡ lookup k d
quality_keys-OwnKey d note quality own_id = simp lookup-insert
quality_keys-OwnKey d note quality own_path = simp lookup-insert
quality_keys-OwnKey d note quality own_status = simp lookup-insert
quality_keys-OwnKey d note quality own_hash = simp lookup-insert

normalized_metadata-OwnKey :
    (p : Platform) (path : String) (raw : Entry) {k : String}
    → OwnKey k
    → lookup k raw ≡ none
    → lookup k (normalized_metadata p path raw) ≡ none
unfolding normalized_metadata
normalized_metadata-OwnKey p path raw own h =
    rw (lookup-keep_others _ _ raw h, quality_keys-OwnKey _ _ _ own)
      (plain_metadata-OwnKey p path raw own)

module _ (p : Platform) (sha256 : List ℕ → String) (e : Env) (path : String) (bytes : List ℕ)
    (raw : Entry) where
  -- what the new entry records under an own key that the metadata leaves alone
  pub new_entry-id :
      lookup "id" raw ≡ none → get "id" (new_entry p sha256 e path bytes raw) ≡ text e.new_id
  unfolding new_entry get
  new_entry-id h = get-update _ _ _ (normalized_metadata-OwnKey p path raw own_id h)

  pub new_entry-status :
      lookup "status" raw ≡ none
      → get "status" (new_entry p sha256 e path bytes raw) ≡ text "quarantined"
  unfolding new_entry get
  new_entry-status h = get-update _ _ _ (normalized_metadata-OwnKey p path raw own_status h)

  pub new_entry-original_path :
      lookup "original_path" raw ≡ none
      → get "original_path" (new_entry p sha256 e path bytes raw) ≡ text (p.resolve path)
  unfolding new_entry get
  new_entry-original_path h = get-update _ _ _ (normalized_metadata-OwnKey p path raw own_path h)

  pub new_entry-sha256 :
      lookup "sha256" raw ≡ none
      → get "sha256" (new_entry p sha256 e path bytes raw) ≡ text (sha256 bytes)
  unfolding new_entry get
  new_entry-sha256 h = get-update _ _ _ (normalized_metadata-OwnKey p path raw own_hash h)
