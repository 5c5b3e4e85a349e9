-- ===== src/ResultCache/Expiry.antt =====
-- When an entry of backend/core/result_cache.py is handed out.
use graduationp.Prelude.{
  if_cases, ℕ, ◌+◌, ◌≤◌, false, String, ◌==◌, [], ◌∷◌, Option, none, some, ltb, if◌then◌else◌, ◌≡◌,
  refl, arith, eq_iff,
}
use graduationp.Prelude.Dict.{
  Distinct, insert-Distinct, remove-Distinct, Dict, lookup, has_key, lookup-insert,
}
use graduationp.ResultCache.{invalidate, Entry, get, set, ttl_or, cleanup_expired}

module _ {ℓ} {A : Type ℓ} where
  -- A value that was set under a key is handed out by a later get of that key exactly as long as
  -- its time to live lasts, where a time to live that is missing or 0 is the default; a get of
  -- another key is not affected.
  get-set :
      (default now later : ℕ) (key other : String) (value : A) (ttl : Option ℕ)
      (cache : Dict (Entry A))
      → (get later other (set default now key value ttl cache)).1 ≡ (
          if key == other
          then (if ltb later (now + ttl_or default ttl) then some value else none)
          else (get later other cache).1)
  unfolding get set
  get-set default now later key other value ttl cache =
      ground (arith, lookup-insert key other (value, now + ttl_or default ttl) cache)

  lookup-cleanup :
      (now : ℕ) (key : String) (cache : Dict (Entry A))
      → Distinct cache
      → lookup key (cleanup_expired now cache)
        ≡ elim (lookup key cache) [ none ↦ none | some e ↦ if ltb now e.1 then some e else none ]
  unfolding cleanup_expired lookup has_key
  lookup-cleanup now key [] distinct = refl
  lookup-cleanup now key ((k, (value, expiry)) ∷ cache) (fresh, distinct) =
      ground (arith, lookup-cleanup now key cache distinct, eq_iff k key)

  -- In a cache with each key once, a clean-up drops nothing that a get would still hand out:
  -- afterwards each get, at that time or later, gives what it would have given.
  get-cleanup :
      (now later : ℕ) (key : String) (cache : Dict (Entry A))
      → Distinct cache
      → now ≤ later
      → (get later key (cleanup_expired now cache)).1 ≡ (get later key cache).1
  unfolding get
  get-cleanup now later key cache distinct le =
      ground (arith, lookup-cleanup now key cache distinct, le)

  cleanup-fresh :
      (now : ℕ) (key : String) (cache : Dict (Entry A))
      → has_key key cache ≡ false
      → has_key key (cleanup_expired now cache) ≡ false
  unfolding cleanup_expired has_key lookup
  cleanup-fresh now key [] h = h
  cleanup-fresh now key ((k, (value, expiry)) ∷ cache) h =
      ground (arith, cleanup-fresh now key cache, eq_iff k key)

  cleanup-Distinct :
      (now : ℕ) (cache : Dict (Entry A)) → Distinct cache → Distinct (cleanup_expired now cache)
  unfolding cleanup_expired
  cleanup-Distinct now [] distinct = distinct
  cleanup-Distinct now ((k, (value, expiry)) ∷ cache) (fresh, distinct) =
      if_cases Distinct (ltb now expiry)
        (cleanup-fresh now k cache fresh, cleanup-Distinct now cache distinct)
        (cleanup-Distinct now cache distinct)

  get-Distinct :
      (now : ℕ) (key : String) (cache : Dict (Entry A))
      → Distinct cache
      → Distinct (get now key cache).0
  unfolding get
  get-Distinct now key cache distinct = ground (arith, remove-Distinct key cache)

  -- Every operation keeps each key of the cache once: a get, a set, an invalidation and a clean-up.
  operations-Distinct :
      (default now : ℕ) (key : String) (value : A) (ttl : Option ℕ) (cache : Dict (Entry A))
      → Distinct cache
      → Distinct (get now key cache).0
        × Distinct (set default now key value ttl cache)
        × Distinct (invalidate key cache)
        × Distinct (cleanup_expired now cache)
  unfolding set invalidate
  operations-Distinct default now key value ttl cache distinct = (
    get-Distinct now key cache distinct,
    insert-Distinct key (value, now + ttl_or default ttl) cache distinct,
    remove-Distinct key cache distinct,
    cleanup-Distinct now cache distinct,
  )
