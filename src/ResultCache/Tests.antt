-- ===== src/ResultCache/Tests.antt =====
-- Runs of backend/core/result_cache.py, and each theorem about it at an input.
use graduationp.Prelude.{◌==ℕ◌, ℕ, [], ◌∷◌, Option, none, some, if◌then◌else◌, ◌≡◌, refl, arith}
use graduationp.Prelude.Dict.{Distinct, lookup, insert, Dict, has_key}
use graduationp.ResultCache.{Entry, get, set}
use graduationp.ResultCache.Disk.{saved, load, get-load}

abbrev cache : Dict (Entry ℕ)
cache = ("a", (1, 50)) ∷ ("b", (2, 10)) ∷ []

cache-Distinct : Distinct cache
unfolding has_key
cache-Distinct = ground arith

-- JSON holds every value but 2
abbrev encode : ℕ → Option ℕ
encode n = if n ==ℕ 2 then none else some n

zero_is_default : (get 99 "c" (set 3600 0 "c" 7 (some 0) cache)).1 ≡ some 7
unfolding get lookup set insert
zero_is_default = refl

get-load_example :
    (get 30 "a" (load 20 (saved encode cache) [])).1
    ≡ elim (get 30 "a" cache).1 [ none ↦ none | some value ↦ encode value ]
get-load_example = get-load encode 20 30 "a" cache cache-Distinct (omega arith)
