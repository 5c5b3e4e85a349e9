-- ===== src/ResultCache.antt =====
-- backend/core/result_cache.py: results by key, each with the time at which it expires. The
-- children: what is true of get, set and the rest (Expiry), the file that a cache is kept in (Disk).
pub mod Expiry
pub mod Disk
mod Tests
use graduationp.Prelude.{
  ℕ, ◌+◌, Bool, true, false, not, String, List, [], ◌∷◌, Option, none, some, ltb, ◌==ℕ◌,
  if◌then◌else◌,
}
use graduationp.Prelude.Dict.{Dict, lookup, insert, remove}

-- A value and its expiry. Times are whole seconds.
abbrev pub Entry {ℓ} : Type ℓ → Type ℓ
Entry A = A × ℕ

-- `timedelta(seconds=ttl_seconds) if ttl_seconds else default`: none and 0 both mean the default
abbrev pub ttl_or : ℕ → Option ℕ → ℕ
ttl_or default none = default
ttl_or default (some ttl) = if ttl ==ℕ 0 then default else ttl

module _ {ℓ} {A : Type ℓ} where
  -- `get`: the cache afterwards, and the value
  unfoldable pub get : ℕ → String → Dict (Entry A) → Dict (Entry A) × Option A
  get now key cache = elim (lookup key cache) [
    | none ↦ (cache, none)
    | some (value, expiry) ↦
        if ltb now expiry then (cache, some value) else (remove key cache, none)
  ]

  -- `set`, in memory
  unfoldable pub set : ℕ → ℕ → String → A → Option ℕ → Dict (Entry A) → Dict (Entry A)
  set default now key value ttl cache = insert key (value, now + ttl_or default ttl) cache

  unfoldable pub invalidate : String → Dict (Entry A) → Dict (Entry A)
  invalidate key cache = remove key cache

  -- `cleanup_expired`
  unfoldable pub cleanup_expired : ℕ → Dict (Entry A) → Dict (Entry A)
  cleanup_expired now [] = []
  cleanup_expired now ((key, (value, expiry)) ∷ cache) =
      let rest = cleanup_expired now cache in
      if ltb now expiry then (key, (value, expiry)) ∷ rest else rest
