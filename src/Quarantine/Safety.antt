-- ===== src/Quarantine/Safety.antt =====
-- No fault in `quarantine_file` of backend/engines/scanning/quarantine_manager.py loses a file.
use graduationp.Prelude.{
  sym, Option-cases, ◌∙◌, ◌++ˢ◌, ℕ, String, List, some, ◌≡◌, ◌≢◌, ◌⊎◌, inl, inr, refl, arith,
  eq_refl,
}
use graduationp.Prelude.Dict.{Dict, lookup, insert, remove, lookup-insert, lookup-remove}
use graduationp.Platform.{Platform}
use graduationp.Quarantine.Xor.{xor_bytes}
use graduationp.Quarantine.Vault.{
  WriteFault, Vault, Env, Entry, payload_path, key_path, append_entry,
}
use graduationp.Quarantine.Paths.{ne-eq_false, payload-ne-key, moved-ne-payload, moved-ne-key}
use graduationp.Quarantine.Ops.{leave_behind, delete_original, store_file, quarantine_file}

ruleset dict_laws = (lookup-insert, lookup-remove)

-- the files once both writes are done
abbrev pub both_written : Platform → Env → List ℕ → Vault → Dict (List ℕ)
both_written p e bytes v =
    insert (key_path p e e.new_id) e.new_key
      (insert (payload_path p e e.new_id) (xor_bytes bytes e.new_key) v.files)

-- the file is still where it was, or the vault holds its payload and its key
abbrev pub Kept : Platform → Env → String → List ℕ → Vault → Type 0
Kept p e path bytes v =
    (lookup path v.files ≡ some bytes)
    ⊎ (lookup (payload_path p e e.new_id) v.files ≡ some (xor_bytes bytes e.new_key))
      × (lookup (key_path p e e.new_id) v.files ≡ some e.new_key)

module _ (p : Platform) (sha256 : List ℕ → String) (e : Env) (path : String) (bytes : List ℕ) where
  -- deleting the original touches neither of the two vault files
  delete_original-payload :
      (v : Vault)
      → path ≢ payload_path p e e.new_id
      → lookup (payload_path p e e.new_id) (delete_original p e path bytes v).files
        ≡ lookup (payload_path p e e.new_id) v.files
  unfolding delete_original
  delete_original-payload v a =
      let target = payload_path p e e.new_id in
      ground (
        arith,
        lookup-remove path target v.files,
        lookup-insert (target ++ˢ ".bak") target bytes (remove path v.files),
        ne-eq_false path target a,
        ne-eq_false (target ++ˢ ".bak") target (moved-ne-payload p e e.new_id),
      )

  delete_original-key :
      (v : Vault)
      → path ≢ key_path p e e.new_id
      → lookup (key_path p e e.new_id) (delete_original p e path bytes v).files
        ≡ lookup (key_path p e e.new_id) v.files
  unfolding delete_original
  delete_original-key v a =
      let target = key_path p e e.new_id in
      let moved = payload_path p e e.new_id ++ˢ ".bak" in
      ground (
        arith,
        lookup-remove path target v.files,
        lookup-insert moved target bytes (remove path v.files),
        ne-eq_false path target a,
        ne-eq_false moved target (moved-ne-key p e e.new_id),
      )

  files-append_entry : (entry : Entry) (v : Vault) → (append_entry e entry v).files ≡ v.files
  unfolding append_entry
  files-append_entry entry v = ground arith

  payload_written :
      (v : Vault)
      → lookup (payload_path p e e.new_id) (both_written p e bytes v)
        ≡ some (xor_bytes bytes e.new_key)
  payload_written v =
      simp (lookup-insert, eq_refl, ne-eq_false _ _ (λ h. payload-ne-key p e e.new_id (sym h)))

  key_written :
      (v : Vault) → lookup (key_path p e e.new_id) (both_written p e bytes v) ≡ some e.new_key
  key_written v = simp (lookup-insert, eq_refl)

  -- what a finished call leaves on the disk
  pub stored_files :
      (entry : Entry) (v : Vault)
      → path ≢ payload_path p e e.new_id
      → path ≢ key_path p e e.new_id
      → let w =
          append_entry e entry
            (delete_original p e path bytes (record v { files = both_written p e bytes v })) in
        (lookup (payload_path p e e.new_id) w.files ≡ some (xor_bytes bytes e.new_key))
        × (lookup (key_path p e e.new_id) w.files ≡ some e.new_key)
  stored_files entry v a b =
      let w = record v { files = both_written p e bytes v } in
      (
        rw files-append_entry (delete_original-payload w a ∙ payload_written v),
        rw files-append_entry (delete_original-key w b ∙ key_written v),
      )

  key_not_written :
      (v : Vault)
      → path ≢ payload_path p e e.new_id
      → lookup path v.files ≡ some bytes
      → lookup path (insert (payload_path p e e.new_id) (xor_bytes bytes e.new_key) v.files)
        ≡ some bytes
  key_not_written v a h =
      simp (lookup-insert, ne-eq_false _ _ (λ (k : payload_path p e e.new_id ≡ path). a (sym k))) h

  lookup-leave_behind :
      (target : String) (v : Vault)
      → path ≢ target
      → lookup path v.files ≡ some bytes
      → lookup path (leave_behind e target v).files ≡ some bytes
  unfolding leave_behind
  lookup-leave_behind target v a h = elim (Option-cases e.left_behind) [
    | inl nothing ↦ rw (nothing) h
    | inr (left, some_left) ↦
        rw (some_left) (simp (lookup-insert, ne-eq_false _ _ (λ (k : target ≡ path). a (sym k))) h)
  ]

  -- the outcome of the writes decides
  after_write :
      (fault : WriteFault) (raw : Entry) (v : Vault)
      → e.write ≡ fault
      → path ≢ payload_path p e e.new_id
      → path ≢ key_path p e e.new_id
      → lookup path v.files ≡ some bytes
      → Kept p e path bytes (store_file p sha256 e path bytes raw v).0
  unfolding store_file key_path lookup payload_path
  after_write WriteFault.no_payload raw v f a b h = rw f (inl (lookup-leave_behind _ v a h))
  after_write WriteFault.no_key raw v f a b h =
      rw f (inl (lookup-leave_behind _ _ b (key_not_written v a h)))
  after_write WriteFault.writes raw v f a b h = rw f (inr (stored_files _ v a b))

  -- Whatever the metadata and whichever calls of the file system fail, after `quarantine_file`
  -- the file's bytes are at its path, or the vault holds its payload and its key. The file is
  -- none of the two vault files that this call writes.
  pub quarantine_file-Kept :
      (raw : Entry) (v : Vault)
      → path ≢ payload_path p e e.new_id
      → path ≢ key_path p e e.new_id
      → lookup path v.files ≡ some bytes
      → Kept p e path bytes (quarantine_file p sha256 e path raw v).0
  unfolding quarantine_file
  quarantine_file-Kept raw v a b h = ground (arith, after_write e.write raw v refl a b h)
