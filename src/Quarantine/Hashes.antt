-- ===== src/Quarantine/Hashes.antt =====
-- Which hash a ledger entry of backend/engines/scanning/quarantine_manager.py records.
use graduationp.Quarantine.OwnKeys.{plain_metadata-OwnKey, own_hash, quality_keys-OwnKey}
use graduationp.Quarantine.Ops.{new_entry}
use graduationp.Prelude.{
  if◌then◌else◌, ℕ, List, ◌∙◌, String, false, [], ◌∷◌, some, none, ◌≡◌, refl, arith, eq_iff,
  if_cases,
}
use graduationp.Prelude.Dict.{Distinct, lookup, insert, has_key, lookup-insert, insert-Distinct}
use graduationp.Value.{get, Value}
use graduationp.Platform.{Platform}
use graduationp.Quarantine.Vault.{
  Env, normalized_metadata, Entry, update, keep_others, plain_metadata,
}

keep_others-kept :
    (k : String) (v : Value) (d raw : Entry)
    → lookup k d ≡ some v
    → lookup k (keep_others d raw) ≡ some v
unfolding keep_others has_key
keep_others-kept k v d [] h = h
keep_others-kept k v d ((j, w) ∷ raw) h = ground (
  arith,
  h,
  keep_others-kept k v (insert j w d) raw,
  keep_others-kept k v d raw,
  lookup-insert j k w d,
  eq_iff j k,
)

keep_others-new :
    (k : String) (v : Value) (d raw : Entry)
    → lookup k d ≡ none
    → lookup k raw ≡ some v
    → lookup k (keep_others d raw) ≡ some v
unfolding keep_others has_key lookup
keep_others-new k v d [] h f = ground (arith, f)
keep_others-new k v d ((j, w) ∷ raw) h f = ground (
  arith,
  h,
  f,
  keep_others-kept k v (insert j w d) raw,
  keep_others-new k v (insert j w d) raw,
  keep_others-new k v d raw,
  lookup-insert j k w d,
  eq_iff j k,
)

keep_others-Distinct : (raw d : Entry) → Distinct d → Distinct (keep_others d raw)
unfolding keep_others
keep_others-Distinct [] d h = h
keep_others-Distinct ((j, w) ∷ raw) d h =
    keep_others-Distinct raw (if has_key j d then d else insert j w d)
      (if_cases Distinct (has_key j d) h (insert-Distinct j w d h))

get-found : (k : String) (v : Value) (d : Entry) → lookup k d ≡ some v → get k d ≡ v
unfolding get
get-found k v d h = ground (arith, h)

update-absent :
    (k : String) (d updates : Entry)
    → has_key k updates ≡ false
    → lookup k (update d updates) ≡ lookup k d
unfolding update has_key lookup
update-absent k d [] h = refl
update-absent k d ((j, v) ∷ updates) h =
    ground (arith, h, update-absent k (insert j v d) updates, lookup-insert j k v d)

update-found :
    (k : String) (v : Value) (d updates : Entry)
    → Distinct updates
    → lookup k updates ≡ some v
    → lookup k (update d updates) ≡ some v
unfolding update lookup
update-found k v d [] h f = ground (arith, f)
update-found k v d ((j, w) ∷ updates) (fresh, h) f = ground (
  arith,
  f,
  fresh,
  update-found k v (insert j w d) updates h,
  update-absent k (insert j w d) updates,
  lookup-insert j k w d,
  eq_iff j k,
)

plain_metadata-Distinct :
    (p : Platform) (path : String) (raw : Entry) → Distinct (plain_metadata p path raw)
unfolding plain_metadata has_key
plain_metadata-Distinct p path raw = ground arith

normalized_metadata-Distinct :
    (p : Platform) (path : String) (raw : Entry) → Distinct (normalized_metadata p path raw)
unfolding normalized_metadata
normalized_metadata-Distinct p path raw = keep_others-Distinct raw _ (
    insert-Distinct "metadata_note" _ _
      (insert-Distinct "metadata_quality" _ _ (plain_metadata-Distinct p path raw)))

normalized_metadata-hash :
    (p : Platform) (path : String) (raw : Entry) (v : Value)
    → lookup "sha256" raw ≡ some v
    → lookup "sha256" (normalized_metadata p path raw) ≡ some v
unfolding normalized_metadata
normalized_metadata-hash p path raw v h =
    keep_others-new "sha256" v _ raw
      (quality_keys-OwnKey _ _ _ own_hash ∙ plain_metadata-OwnKey p path raw own_hash) h

-- The ledger entry of a quarantined file records the hash that the caller passed in its metadata,
-- whatever it is, and not the hash of the bytes that were read.
caller_hash_recorded :
    (p : Platform) (sha256 : List ℕ → String) (e : Env) (path : String) (bytes : List ℕ)
    (raw : Entry) (v : Value)
    → lookup "sha256" raw ≡ some v
    → get "sha256" (new_entry p sha256 e path bytes raw) ≡ v
unfolding new_entry
caller_hash_recorded p sha256 e path bytes raw v h = get-found "sha256" v _ (
    update-found "sha256" v _ (normalized_metadata p path raw)
      (normalized_metadata-Distinct p path raw) (normalized_metadata-hash p path raw v h))
