-- ===== src/ResultCache/Disk.antt =====
-- The file of backend/core/result_cache.py: `_save_to_disk` and `_load_from_disk`.
use graduationp.Prelude.{
  ℕ, ◌≤◌, false, String, [], ◌∷◌, Option, none, some, ltb, if◌then◌else◌, ◌≡◌, refl, arith, eq_iff,
}
use graduationp.Prelude.Dict.{Distinct, Dict, lookup, insert, has_key, lookup-insert}
use graduationp.ResultCache.{Entry, get}

-- The text of the file is taken for the dictionary that it holds: `encode value` is what the value
-- is read back as from its JSON, none where `json.dumps` raises; expiries are read back as they are.
-- an entry of the file, which a value that `json.dumps` refuses does not get
unfoldable pub write_entry {ℓ} :
    {A : Type ℓ} → String → ℕ → Option A → Dict (Entry A) → Dict (Entry A)
write_entry key expiry none rest = rest
write_entry key expiry (some value) rest = (key, (value, expiry)) ∷ rest

module _ {ℓ} {A : Type ℓ} (encode : A → Option A) where
  -- what `_save_to_disk` writes
  unfoldable pub saved : Dict (Entry A) → Dict (Entry A)
  saved [] = []
  saved ((key, (value, expiry)) ∷ cache) = write_entry key expiry (encode value) (saved cache)

module _ {ℓ} {A : Type ℓ} where
  -- the loop of `_load_from_disk`, over what the file holds
  unfoldable pub load : ℕ → Dict (Entry A) → Dict (Entry A) → Dict (Entry A)
  load now [] cache = cache
  load now ((key, (value, expiry)) ∷ file) cache =
      let kept = load now file (insert key (value, expiry) cache) in
      let skipped = load now file cache in if ltb now expiry then kept else skipped

write_entry-Distinct {ℓ} :
    {A : Type ℓ} (key : String) (expiry : ℕ) (value : Option A) (rest : Dict (Entry A))
    → has_key key rest ≡ false
    → Distinct rest
    → Distinct (write_entry key expiry value rest)
unfolding write_entry
write_entry-Distinct key expiry none rest fresh distinct = distinct
write_entry-Distinct key expiry (some value) rest fresh distinct = (fresh, distinct)

module _ {ℓ} {A : Type ℓ} (encode : A → Option A) where
  abbrev stored : Option (Entry A) → Option (Entry A)
  stored none = none
  stored (some (value, expiry)) = elim (encode value) [
    | none ↦ none
    | some value' ↦ some (value', expiry)
  ]

  saved-fresh :
      (key : String) (cache : Dict (Entry A))
      → has_key key cache ≡ false
      → has_key key (saved encode cache) ≡ false
  unfolding saved write_entry has_key lookup
  saved-fresh key [] h = h
  saved-fresh key ((k, (value, expiry)) ∷ cache) h =
      ground (arith, saved-fresh key cache, eq_iff k key)

  saved-Distinct : (cache : Dict (Entry A)) → Distinct cache → Distinct (saved encode cache)
  unfolding saved
  saved-Distinct [] distinct = distinct
  saved-Distinct ((k, (value, expiry)) ∷ cache) (fresh, distinct) =
      write_entry-Distinct k expiry (encode value) (saved encode cache) (saved-fresh k cache fresh)
        (saved-Distinct cache distinct)

  lookup-saved :
      (key : String) (cache : Dict (Entry A))
      → Distinct cache
      → lookup key (saved encode cache) ≡ stored (lookup key cache)
  unfolding saved write_entry lookup has_key
  lookup-saved key [] distinct = refl
  lookup-saved key ((k, (value, expiry)) ∷ cache) (fresh, distinct) =
      ground (arith, lookup-saved key cache distinct, saved-fresh k cache, eq_iff k key)

module _ {ℓ} {A : Type ℓ} where
  lookup_nothing : (key : String) → lookup {V = Entry A} key [] ≡ none
  unfolding lookup
  lookup_nothing key = refl

  lookup-load :
      (now : ℕ) (key : String) (file cache : Dict (Entry A))
      → Distinct file
      → lookup key (load now file cache) ≡ elim (lookup key file) [
        | none ↦ lookup key cache
        | some e ↦ if ltb now e.1 then some e else lookup key cache
      ]
  unfolding load lookup has_key
  lookup-load now key [] cache distinct = refl
  lookup-load now key ((k, (value, expiry)) ∷ file) cache (fresh, distinct) = ground (
    arith,
    lookup-load now key file (insert k (value, expiry) cache) distinct,
    lookup-load now key file cache distinct,
    lookup-insert k key (value, expiry) cache,
    eq_iff k key,
  )

module _ {ℓ} {A : Type ℓ} (encode : A → Option A) where
  abbrev recoded : Option A → Option A
  recoded none = none
  recoded (some value) = encode value

  -- A cache with each key once that is read back from its file hands out, then or later, what the
  -- saved one would have handed out, as its JSON gives it back; values that JSON cannot hold are
  -- missing.
  pub get-load :
      (now later : ℕ) (key : String) (cache : Dict (Entry A))
      → Distinct cache
      → now ≤ later
      → (get later key (load now (saved encode cache) [])).1 ≡ recoded (get later key cache).1
  unfolding get
  get-load now later key cache distinct le = ground (
    arith,
    le,
    lookup_nothing {A = A} key,
    lookup-load now key (saved encode cache) [] (saved-Distinct encode cache distinct),
    lookup-saved encode key cache distinct,
  )
