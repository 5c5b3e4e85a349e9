-- ===== src/Rtp/Cache.antt =====
-- The scan cache of backend/core/realtime_protection.py: `_cache_scan_decision` and
-- `_get_cached_scan_entry`.
use graduationp.Prelude.{
  eq_refl, length-drop, ◌↔◌, is_some, ℕ, ◌/◌, ◌+◌, ◌≤◌, Bool, true, false, ◌&&◌, not, String, ◌==◌,
  Option, none, some, lower, length, drop, leb, ◌==ℕ◌, if◌then◌else◌, ◌≡◌, arith, eq_iff,
}
use graduationp.Prelude.Dict.{
  lookup-insert, Dict, lookup, insert, remove, lookup-remove, length-insert-le,
}
use graduationp.Value.{Value}
use graduationp.Rtp.Trust.{Host}
use graduationp.Rtp.Plan.{ScanContext, or_fingerprint}

pub record CacheEntry : Type 0 where
  pub decision : Dict Value
  pub sha256 : String
  pub scan_context : ScanContext
  pub fingerprint : Option (ℕ × ℕ)

abbrev pub Cache : Type 0
Cache = Dict CacheEntry

abbrev pub cache_max : ℕ
cache_max = 5000

-- the first half of the keys goes, in the order of insertion
unfoldable pub make_room : Cache → Cache
make_room cache = if leb cache_max (length cache) then drop (length cache / 2) cache else cache

-- the entry that is stored
unfoldable pub entry_of : Host → String → Dict Value → String → ScanContext → CacheEntry
entry_of h path decision sha256 c =
    let fingerprint = or_fingerprint c.fingerprint (h.fingerprint path) in
    record {
      decision = decision;
      sha256 = sha256;
      scan_context = record c { fingerprint = fingerprint };
      fingerprint = fingerprint;
    }

unfoldable pub cache_scan_decision :
    Host → String → Dict Value → String → ScanContext → Cache → Cache
unfolding make_room entry_of insert lower
cache_scan_decision h path decision sha256 c cache =
    insert (lower path) (entry_of h path decision sha256 c) (make_room cache)

-- `tuple(a) == tuple(b)`
abbrev same_fingerprint : ℕ × ℕ → ℕ × ℕ → Bool
same_fingerprint a b = a.0 ==ℕ b.0 && a.1 ==ℕ b.1

-- An entry is fresh where both fingerprints are known and the same.
unfoldable pub is_fresh : Host → String → CacheEntry → Bool
is_fresh h path entry = elim (h.fingerprint path) [
  | none ↦ false
  | some current ↦ elim entry.fingerprint [ none ↦ false | some old ↦ same_fingerprint old current ]
]

-- The cache afterwards, and the entry.
unfoldable pub get_cached_scan_entry : Host → String → Cache → Cache × Option CacheEntry
unfolding is_fresh lookup remove lower
get_cached_scan_entry h path cache = elim (lookup (lower path) cache) [
  | none ↦ (cache, none)
  | some entry ↦
      if is_fresh h path entry then (cache, some entry) else (remove (lower path) cache, none)
]

make_room_lt : (cache : Cache) → length cache ≤ cache_max → length (make_room cache) + 1 ≤ cache_max
unfolding make_room
make_room_lt cache h = ground (arith, length-drop (length cache / 2) cache)

module _ (h : Host) (path : String) where
  -- The cache never grows past 5000 entries.
  pub cache_bounded :
      (decision : Dict Value) (sha256 : String) (c : ScanContext) (cache : Cache)
      → length cache ≤ cache_max
      → length (cache_scan_decision h path decision sha256 c cache) ≤ cache_max
  unfolding cache_scan_decision
  cache_bounded decision sha256 c cache small = ground (
    arith,
    make_room_lt cache small,
    length-insert-le (lower path) (entry_of h path decision sha256 c) (make_room cache),
  )

  lookup_after_get :
      (cache : Cache) (j : String)
      → lookup j (get_cached_scan_entry h path cache).0 ≡ (
          if lower path == j && not (is_some (get_cached_scan_entry h path cache).1)
          then none
          else lookup j cache)
  unfolding get_cached_scan_entry
  lookup_after_get cache j =
      ground (arith, lookup-remove (lower path) j cache, eq_iff (lower path) j)

  handed_out :
      (cache : Cache) (entry : CacheEntry)
      → ((get_cached_scan_entry h path cache).1 ≡ some entry)
        ↔ ((lookup (lower path) cache ≡ some entry) × (is_fresh h path entry ≡ true))
  unfolding get_cached_scan_entry
  handed_out cache entry = ground arith

  -- An entry is handed out exactly when it is cached under the path, in lower case, and its
  -- recorded fingerprint is the file's present one. Where none is handed out, the entry under the
  -- path is dropped; every other entry stays.
  hit_iff_fresh :
      (cache : Cache) (entry : CacheEntry) (j : String)
      → (((get_cached_scan_entry h path cache).1 ≡ some entry)
          ↔ ((lookup (lower path) cache ≡ some entry) × (is_fresh h path entry ≡ true)))
        × (lookup j (get_cached_scan_entry h path cache).0 ≡ (
            if lower path == j && not (is_some (get_cached_scan_entry h path cache).1)
            then none
            else lookup j cache))
  hit_iff_fresh cache entry j = (handed_out cache entry, lookup_after_get cache j)

  pub hit_after_store :
      (decision : Dict Value) (sha256 : String) (c : ScanContext) (cache : Cache)
      (fingerprint : ℕ × ℕ)
      → h.fingerprint path ≡ some fingerprint
      → c.fingerprint ≡ some fingerprint
      → (get_cached_scan_entry h path (cache_scan_decision h path decision sha256 c cache)).1
        ≡ some (entry_of h path decision sha256 c)
  unfolding get_cached_scan_entry cache_scan_decision is_fresh entry_of
  hit_after_store decision sha256 c cache fingerprint a b = ground (
    arith,
    eq_refl (lower path),
    lookup-insert (lower path) (lower path) (entry_of h path decision sha256 c) (make_room cache),
  )
