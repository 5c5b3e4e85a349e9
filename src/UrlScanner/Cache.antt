-- ===== src/UrlScanner/Cache.antt =====
-- The cache of backend/engines/scanning/url_scanner.py: `_get_cached` and `_set_cached`.
use graduationp.Prelude.{
  ℕ, ◌-◌, String, [], ◌∷◌, Option, none, some, length, take, ltb, if◌then◌else◌,
}
use graduationp.Prelude.Dict.{Dict, lookup, insert, remove}

-- `_cache` and `_cache_times`, in seconds.
pub record Cache {ℓ} (R : Type ℓ) : Type ℓ where
  pub results : Dict R
  pub times : Dict ℕ

abbrev pub cache_ttl_seconds : ℕ
cache_ttl_seconds = 3600

abbrev pub time_or_zero : Option ℕ → ℕ
time_or_zero none = 0
time_or_zero (some t) = t

-- `sorted(items, key=lambda x: x[1])`: the earliest first, and equal ones in their order
unfoldable pub place_time : String × ℕ → Dict ℕ → Dict ℕ
place_time e [] = e ∷ []
place_time e (x ∷ d) = let rest = place_time e d in if ltb x.1 e.1 then x ∷ rest else e ∷ x ∷ d

unfoldable pub by_time : Dict ℕ → Dict ℕ
unfolding place_time
by_time [] = []
by_time (e ∷ d) = place_time e (by_time d)

module _ {ℓ} {R : Type ℓ} where
  unfoldable pub found : ℕ → String → Cache R → Option R → Option R × Cache R
  found now key c none = (none, c)
  found now key c (some r) =
      if ltb (now - time_or_zero (lookup key c.times)) cache_ttl_seconds
      then (some r, c)
      else (none, record { results = remove key c.results; times = remove key c.times })

  -- `_get_cached`, for a clock that does not go backwards
  unfoldable pub get_cached : ℕ → String → Cache R → Option R × Cache R
  get_cached now key c = found now key c (lookup key c.results)

  unfoldable pub remove_all : Dict ℕ → Cache R → Cache R
  remove_all [] c = c
  remove_all ((key, t) ∷ rest) c =
      remove_all rest (record { results = remove key c.results; times = remove key c.times })

  unfoldable pub trim : Cache R → Cache R
  unfolding by_time remove_all
  trim c = if ltb 100 (length c.results) then remove_all (take 20 (by_time c.times)) c else c

  -- `_set_cached`
  unfoldable pub set_cached : ℕ → String → R → Cache R → Cache R
  set_cached now key r c =
      trim (record { results = insert key r c.results; times = insert key now c.times })
