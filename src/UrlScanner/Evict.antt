-- ===== src/UrlScanner/Evict.antt =====
-- How the cache of backend/engines/scanning/url_scanner.py keeps its size.
use graduationp.UrlScanner.Validate.{validate}
use graduationp.UrlScanner.Scan.{
  UrlScanResult, Env, Outcome, scan_static, on_lookup, scan_fresh, store,
}
use graduationp.Prelude.{
  none, ◌==ℕ◌, ◌&&◌, List, ◌-◌, some, sym, Bool, take, Option, if_split, ◌∙◌, false, ◌<◌, refl, ℕ,
  suc, ◌≤◌, true, String, [], ◌∷◌, length, All, ltb, ◌≡◌, arith, if_cases, eq_iff,
}
use graduationp.Prelude.Dict.{
  length-insert-le, has_key-remove, has_key-insert, Dict, has_key, lookup, remove,
}
use graduationp.UrlScanner.Cache.{
  cache_ttl_seconds, time_or_zero, get_cached, found, remove_all, Cache, set_cached, trim, by_time,
  place_time,
}

remove-le {ℓ} : {V : Type ℓ} (k : String) (d : Dict V) → length (remove k d) ≤ length d
unfolding remove
remove-le k [] = omega arith
remove-le k ((j, v) ∷ d) = ground (arith, remove-le k d)

remove-shorter {ℓ} :
    {V : Type ℓ} (k : String) (d : Dict V)
    → has_key k d ≡ true
    → suc (length (remove k d)) ≤ length d
unfolding remove has_key lookup
remove-shorter k [] here = ground (arith, here)
remove-shorter k ((j, v) ∷ d) here = ground (arith, here, remove-le k d, remove-shorter k d)

place-All :
    (P : String × ℕ → Type 0) (e : String × ℕ) (d : Dict ℕ) → P e → All P d → All P (place_time e d)
unfolding place_time
place-All P e [] p ps = (p, tt)
place-All P e (x ∷ d) p (q, ps) =
    if_cases (All P) (ltb x.1 e.1) (q, place-All P e d p ps) (p, (q, ps))

by_time-All : (P : String × ℕ → Type 0) (d : Dict ℕ) → All P d → All P (by_time d)
unfolding by_time
by_time-All P [] ps = tt
by_time-All P (e ∷ d) (p, ps) = place-All P e (by_time d) p (by_time-All P d ps)

-- the key of an entry is in a dictionary
unfoldable KeyIn : Dict ℕ → String × ℕ → Type 0
KeyIn d e = has_key e.0 d ≡ true

keep-All : (x : String × ℕ) (d es : Dict ℕ) → All (KeyIn d) es → All (KeyIn (x ∷ d)) es
unfolding KeyIn has_key lookup
keep-All x d [] ks = tt
keep-All x d (e ∷ es) (k, ks) = (ground (arith, k), keep-All x d es ks)

own_key : (e : String × ℕ) (d : Dict ℕ) → KeyIn (e ∷ d) e
unfolding KeyIn has_key lookup
own_key e d = ground (arith, eq_iff e.0 e.0)

own-All : (d : Dict ℕ) → All (KeyIn d) d
own-All [] = tt
own-All (e ∷ d) = (own_key e d, keep-All e d d (own-All d))

place-length : (e : String × ℕ) (d : Dict ℕ) → length (place_time e d) ≡ suc (length d)
unfolding place_time
place-length e [] = refl
place-length e (x ∷ d) = ground (arith, place-length e d)

by_time-length : (d : Dict ℕ) → length (by_time d) ≡ length d
unfolding by_time
by_time-length [] = refl
by_time-length (e ∷ d) = omega (arith, place-length e (by_time d), by_time-length d)

key_nonempty {ℓ} : {V : Type ℓ} (k : String) (d : Dict V) → has_key k d ≡ true → 0 < length d
unfolding has_key lookup
key_nonempty k [] here = ground (arith, here)
key_nonempty k (x ∷ d) here = omega arith

first_key {ℓ} : {V : Type ℓ} (d : Dict V) → 0 < length d → (k : String) × (has_key k d ≡ true)
unfolding has_key lookup
first_key [] some_left = ground arith
first_key ((k, v) ∷ d) some_left = (k, ground (arith, eq_iff k k))

over_lt : (n : ℕ) → ltb 100 n ≡ true → 0 < n
over_lt n h = ground arith

under_le : (n : ℕ) → ltb 100 n ≡ false → n ≤ 100
under_le n h = ground arith

module _ {ℓ} {R : Type ℓ} where
  -- The two dictionaries have the same keys.
  unfoldable pub Same : Cache R → Type 0
  Same c = (k : String) → has_key k c.times ≡ has_key k c.results

  -- At most 100 results, each with its time.
  pub record Bounded (c : Cache R) : Type 0 where
    pub same : Same c
    pub short : length c.results ≤ 100

  abbrev without : String → Cache R → Cache R
  without key c = record { results = remove key c.results; times = remove key c.times }

  without-Same : (key : String) (c : Cache R) → Same c → Same (without key c)
  unfolding Same
  without-Same key c same k =
      ground (arith, same k, has_key-remove key k c.times, has_key-remove key k c.results)

  remove_all-Same : (es : Dict ℕ) (c : Cache R) → Same c → Same (remove_all es c)
  unfolding remove_all
  remove_all-Same [] c same = same
  remove_all-Same ((key, t) ∷ es) c same = remove_all-Same es _ (without-Same key c same)

  remove_all-le : (es : Dict ℕ) (c : Cache R) → length (remove_all es c).results ≤ length c.results
  unfolding remove_all
  remove_all-le [] c = omega arith
  remove_all-le ((key, t) ∷ es) c =
      omega (arith, remove_all-le es (without key c), remove-le key c.results)

  -- the first of some keys that the cache has is gone
  first_gone :
      (es : Dict ℕ) (c : Cache R)
      → Same c
      → All (KeyIn c.times) es
      → 0 < length es
      → suc (length (remove_all (take 20 es) c).results) ≤ length c.results
  unfolding remove_all KeyIn Same
  first_gone [] c same keys some_left = ground arith
  first_gone ((key, t) ∷ es) c same (here, keys) some_left = omega (
    arith,
    remove_all-le (take 19 es) (without key c),
    remove-shorter key c.results (sym (same key) ∙ here),
  )

  times_nonempty : (c : Cache R) → Same c → 0 < length c.results → 0 < length c.times
  unfolding Same
  times_nonempty c same some_left =
      let (k, here) = first_key c.results some_left in key_nonempty k c.times (same k ∙ here)

  trim-Bounded : (c : Cache R) → Same c → length c.results ≤ 101 → Bounded (trim c)
  unfolding trim
  trim-Bounded c same le =
      if_split Bounded (ltb 100 (length c.results))
        (λ over. record {
          same = remove_all-Same (take 20 (by_time c.times)) c same;
          short =
              let left = times_nonempty c same (over_lt (length c.results) over) in
              omega (
                arith,
                le,
                first_gone (by_time c.times) c same
                    (by_time-All (KeyIn c.times) c.times (own-All c.times))
                    (omega (arith, by_time-length c.times, left)),
              );
        })
        (λ under. record { same = same; short = under_le (length c.results) under })

  set_cached-Bounded :
      (now : ℕ) (key : String) (r : R) (c : Cache R) → Bounded c → Bounded (set_cached now key r c)
  unfolding set_cached Same
  set_cached-Bounded now key r c b =
      trim-Bounded _
        (λ k.
          ground
            (arith, b.same k, has_key-insert key k now c.times, has_key-insert key k r c.results))
        (omega (arith, length-insert-le key r c.results, b.short))

  found-Bounded :
      (now : ℕ) (key : String) (c : Cache R) (o : Option R)
      → Bounded c
      → Bounded (found now key c o).1
  unfolding found
  found-Bounded now key c none b = b
  found-Bounded now key c (some r) b =
      if_cases (λ (p : Option R × Cache R). Bounded p.1)
        (ltb (now - time_or_zero (lookup key c.times)) cache_ttl_seconds) b
        (record {
          same = without-Same key c b.same;
          short = omega (arith, remove-le key c.results, b.short);
        })

-- the cache after a scan
store-Bounded :
    (env : Env) (use_cache : Bool) (url : String) (r : UrlScanResult × List String)
    (c : Cache UrlScanResult)
    → Bounded c
    → Bounded (store env use_cache url r c).cache
unfolding store
store-Bounded env use_cache url (result, requested) c b =
    if_cases Bounded (use_cache && length result.errors ==ℕ 0)
      (set_cached-Bounded env.now (env.cache_key url) result c b) b

KeptOutcome : Outcome → Type 0
KeptOutcome o = Bounded o.cache

scan_fresh-Bounded :
    (env : Env) (url : String) (block downloads use_cache : Bool) (c : Cache UrlScanResult)
    → Bounded c
    → Bounded (scan_fresh env url block downloads use_cache c).cache
unfolding scan_fresh KeptOutcome
scan_fresh-Bounded env url block downloads use_cache c b =
    if_cases KeptOutcome (validate env.refuses url block).valid
      (store-Bounded env use_cache url _ c b) b

on_lookup-Bounded :
    (env : Env) (url : String) (block downloads use_cache : Bool) (hit : Option UrlScanResult)
    (c : Cache UrlScanResult)
    → Bounded c
    → Bounded (on_lookup env url block downloads use_cache hit c).cache
unfolding on_lookup
on_lookup-Bounded env url block downloads use_cache (some r) c b = b
on_lookup-Bounded env url block downloads use_cache none c b =
    scan_fresh-Bounded env url block downloads use_cache c b

-- A scan keeps the cache at no more than 100 results, each with its time, whatever the URL and the
-- answer are.
pub scan_static-Bounded :
    (env : Env) (url : String) (block downloads use_cache : Bool) (c : Cache UrlScanResult)
    → Bounded c
    → Bounded (scan_static env url block downloads use_cache c).cache
unfolding scan_static get_cached KeptOutcome
scan_static-Bounded env url block downloads use_cache c b =
    if_cases KeptOutcome use_cache
      (on_lookup-Bounded env url block downloads use_cache _ _
        (found-Bounded env.now (env.cache_key url) c _ b))
      (scan_fresh-Bounded env url block downloads use_cache c b)
