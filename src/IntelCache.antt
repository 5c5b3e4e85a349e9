-- ===== src/IntelCache.antt =====
-- backend/engines/intel/cache.py: answers of threat intelligence services, kept in a table of
-- SQLite. The children: what a later lookup hands out (Lookup).
pub mod Lookup
mod Tests
use graduationp.Prelude.{
  ℕ, ◌+◌, ◌*◌, Bool, true, false, String, ◌==◌, ◌++ˢ◌, List, [], ◌∷◌, Option, none, some, ℤ, ltb,
  suc, not, lower, strip, if◌then◌else◌,
}
use graduationp.Prelude.Dict.{Dict, lookup, insert, remove}

-- A row but for its key, which is the primary one. Times are whole seconds, and a time to live is
-- not negative; `result` is the JSON text.
pub record Row : Type 0 where
  pub provider : String
  pub lookup_type : String
  pub result : String
  pub verdict : String
  pub score : ℤ
  pub timestamp : ℕ
  pub ttl_hours : ℕ

-- The rows by their keys.
abbrev pub Table : Type 0
Table = Dict Row

pub record CacheEntry {ℓ} (A : Type ℓ) : Type ℓ where
  pub key : String
  pub provider : String
  pub lookup_type : String
  pub result : A
  pub verdict : String
  pub score : ℤ
  pub timestamp : ℕ
  pub ttl_hours : ℕ

-- The hash (hexdigest of SHA-256), and JSON, where a text or an object that it does not know
-- raises. `reads` and `writes` say whether the statements of the call succeed.
pub record Env {ℓ} (A : Type ℓ) : Type ℓ where
  pub sha256 : String → String
  pub dumps : A → Option String
  pub loads : String → Option A
  pub reads : Bool
  pub writes : Bool
  pub now : ℕ

-- `is_expired` and the condition of `cleanup_expired`: age / 3600 > ttl_hours, without rounding
unfoldable pub is_expired : ℕ → Row → Bool
is_expired now row = ltb (row.timestamp + row.ttl_hours * 3600) now

-- `UNKNOWN_TTL_HOURS` and `DEFAULT_TTL_HOURS`
unfoldable pub ttl_of : Option ℕ → String → ℕ
ttl_of none verdict = if verdict == "unknown" then 1 else 24
ttl_of (some ttl) verdict = ttl

-- `value.lower().strip()`
unfoldable pub normalized : String → String
normalized value = strip (lower value)

-- the rows that have not expired, and the number of the others
unfoldable pub delete_expired : ℕ → Table → Table × ℕ
delete_expired now [] = ([], 0)
delete_expired now ((key, row) ∷ rows) =
    let (kept, count) = delete_expired now rows in
    if is_expired now row then (kept, suc count) else ((key, row) ∷ kept, count)

module _ {ℓ} {A : Type ℓ} where
  -- `_make_key`
  unfoldable pub make_key : Env A → String → String → String → String
  make_key e provider lookup_type value =
      e.sha256 (provider ++ˢ ":" ++ˢ lookup_type ++ˢ ":" ++ˢ normalized value)

  unfoldable pub entry_of : String → Row → A → CacheEntry A
  entry_of key row result = record {
    key = key;
    provider = row.provider;
    lookup_type = row.lookup_type;
    result = result;
    verdict = row.verdict;
    score = row.score;
    timestamp = row.timestamp;
    ttl_hours = row.ttl_hours;
  }

  -- an expired row is deleted; a deletion that fails is rolled back
  unfoldable pub hand_out : Env A → String → Row → Option A → Table → Table × Option (CacheEntry A)
  hand_out e key row none rows = (rows, none)
  hand_out e key row (some result) rows =
      if is_expired e.now row
      then (if e.writes then remove key rows else rows, none)
      else (rows, some (entry_of key row result))

  unfoldable pub on_row : Env A → String → Option Row → Table → Table × Option (CacheEntry A)
  on_row e key none rows = (rows, none)
  on_row e key (some row) rows = hand_out e key row (e.loads row.result) rows

  -- `get`
  unfoldable pub get_entry :
      Env A → String → String → String → Table → Table × Option (CacheEntry A)
  get_entry e provider lookup_type value rows =
      let key = make_key e provider lookup_type value in
      if e.reads then on_row e key (lookup key rows) rows else (rows, none)

  unfoldable pub put : Env A → String → Option String → (String → Row) → Table → Table
  put e key none row rows = rows
  put e key (some text) row rows = if e.writes then insert key (row text) rows else rows

  -- `set`
  unfoldable pub set_entry :
      Env A → String → String → String → A → String → ℤ → Option ℕ → Table → Table
  set_entry e provider lookup_type value result verdict score ttl rows =
      put e (make_key e provider lookup_type value) (e.dumps result)
        (λ text. record {
          provider = provider;
          lookup_type = lookup_type;
          result = text;
          verdict = verdict;
          score = score;
          timestamp = e.now;
          ttl_hours = ttl_of ttl verdict;
        })
        rows

  -- `cleanup_expired`, with the number of rows that it deleted
  unfoldable pub cleanup_expired : Env A → Table → Table × ℕ
  cleanup_expired e rows = if e.writes then delete_expired e.now rows else (rows, 0)

  -- `clear`
  unfoldable pub clear : Env A → Table → Table
  clear e rows = if e.writes then [] else rows
