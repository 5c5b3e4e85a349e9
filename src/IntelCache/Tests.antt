-- ===== src/IntelCache/Tests.antt =====
-- Runs of backend/engines/intel/cache.py, and the theorem about it at an input.
use graduationp.Prelude.{
  ◌+◌, ◌*◌, true, String, [], none, some, pos, ◌≡◌, refl, arith, leb, lower, strip, if◌then◌else◌,
}
use graduationp.Prelude.Dict.{insert}
use graduationp.IntelCache.{
  Table, Env, is_expired, ttl_of, normalized, delete_expired, make_key, entry_of, get_entry, put,
  set_entry, cleanup_expired,
}
use graduationp.IntelCache.Lookup.{at, written, get-cleanup-set}

-- a hash without collisions, and results that are texts themselves
abbrev host : Env String
host = record {
  sha256 = λ s. s;
  dumps = λ s. some s;
  loads = λ s. some s;
  reads = true;
  writes = true;
  now = 100;
}

abbrev stored : Table
stored = set_entry host "virustotal" "url" "Example.com " "{}" "unknown" (pos 0) none []

same_value : normalized "Example.com " ≡ normalized "example.com"
unfolding normalized lower strip
same_value = refl

cleaned : (cleanup_expired (at host 3701) stored).1 ≡ 1
unfolding cleanup_expired delete_expired set_entry put insert is_expired ttl_of
cleaned = refl

get-cleanup-set_example :
    (get_entry
      (at host 3700)
      "virustotal"
      "url"
      "example.com"
      (cleanup_expired
        (at host 200)
        (set_entry host "virustotal" "url" "Example.com " "{}" "unknown" (pos 0) none [])).0).1
    ≡ (if leb 3700 (100 + ttl_of none "unknown" * 3600)
        then some (
            entry_of
              (make_key host "virustotal" "url" "Example.com ")
              (written host "virustotal" "url" "{}" "unknown" (pos 0) none)
              "{}")
        else none)
get-cleanup-set_example =
    get-cleanup-set host 200 3700 "virustotal" "url" "Example.com " "example.com" "{}" "{}"
      "unknown" (pos 0) none [] refl refl refl refl same_value (omega arith) tt
