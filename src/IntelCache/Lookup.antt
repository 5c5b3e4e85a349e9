-- ===== src/IntelCache/Lookup.antt =====
-- What a lookup of backend/engines/intel/cache.py hands out after other calls.
use mathlib.Core.Path.{subst}
use graduationp.Prelude.{
  ◌++ˢ◌, ◌*◌, eq_refl, ◌+◌, leb, ap, ℕ, ◌≤◌, true, false, String, eq_iff, [], ◌∷◌, Option, none,
  some, ◌≡◌, refl, arith, ◌∙◌, sym, if◌then◌else◌, if_split, Bool-cases, inl, inr,
}
use graduationp.Prelude.Dict.{insert-Distinct, lookup-insert, lookup, has_key, Distinct}
use graduationp.IntelCache.{
  normalized, ltb, ttl_of, insert, put, ℤ, set_entry, Bool, Row, Table, CacheEntry, Env, is_expired,
  delete_expired, make_key, entry_of, hand_out, on_row, get_entry, cleanup_expired,
}

-- a row that a cleanup leaves
unfoldable pub fresh : ℕ → Option Row → Option Row
fresh now none = none
fresh now (some row) = if is_expired now row then none else some row

lookup_absent : (k : String) (rows : Table) → has_key k rows ≡ false → lookup k rows ≡ none
unfolding has_key
lookup_absent k rows absent = ground (arith, absent)

lookup-delete_expired :
    (now : ℕ) (k : String) (rows : Table)
    → Distinct rows
    → lookup k (delete_expired now rows).0 ≡ fresh now (lookup k rows)
unfolding lookup delete_expired fresh
lookup-delete_expired now k [] distinct = refl
lookup-delete_expired now k ((j, row) ∷ rows) (single, distinct) =
    ground
      (arith, lookup-delete_expired now k rows distinct, lookup_absent j rows single, eq_iff j k)

stays_expired :
    (c now : ℕ) (row : Row) → c ≤ now → is_expired c row ≡ true → is_expired now row ≡ true
unfolding is_expired
stays_expired c now row earlier old = ground (arith, earlier, old)

until {ℓ} :
    {A : Type ℓ} (now end : ℕ) (x y : A)
    → (if ltb end now then y else x) ≡ (if leb now end then x else y)
until now end x y = ground arith

same_result {ℓ κ} :
    {A : Type ℓ} {B : Type κ} (b : Bool) (x y x' y' : A × B)
    → x.1 ≡ y.1
    → x'.1 ≡ y'.1
    → (if b then x else x').1 ≡ (if b then y else y').1
same_result true x y x' y' there else_there = there
same_result false x y x' y' there else_there = else_there

module _ {ℓ} {A : Type ℓ} where
  -- The same database at another time.
  abbrev pub at : Env A → ℕ → Env A
  at e now = record e { now = now }

  -- what is handed out of a row
  unfoldable pub shown : Env A → String → Row → Option A → Option (CacheEntry A)
  shown e key row none = none
  shown e key row (some result) =
      if is_expired e.now row then none else some (entry_of key row result)

  hand_out_shown :
      (e : Env A) (key : String) (row : Row) (o : Option A) (rows : Table)
      → (hand_out e key row o rows).1 ≡ shown e key row o
  unfolding hand_out shown
  hand_out_shown e key row none rows = refl
  hand_out_shown e key row (some result) rows = ground arith

  shown_expired :
      (e : Env A) (key : String) (row : Row) (o : Option A)
      → is_expired e.now row ≡ true
      → shown e key row o ≡ none
  unfolding shown
  shown_expired e key row none old = refl
  shown_expired e key row (some result) old = ground (arith, old)

  on_row_fresh :
      (e : Env A) (key : String) (c : ℕ) (o : Option Row) (rows rows' : Table)
      → c ≤ e.now
      → (on_row e key (fresh c o) rows').1 ≡ (on_row e key o rows).1
  unfolding fresh on_row
  on_row_fresh e key c none rows rows' earlier = refl
  on_row_fresh e key c (some row) rows rows' earlier = elim (Bool-cases (is_expired c row)) [
    | inl old ↦ rw (old) (
        sym (
          hand_out_shown e key row (e.loads row.result) rows
          ∙ shown_expired e key row (e.loads row.result) (stays_expired c e.now row earlier old)))
    | inr young ↦ rw (young) (
        hand_out_shown e key row (e.loads row.result) rows'
        ∙ sym (hand_out_shown e key row (e.loads row.result) rows))
  ]

  get_entry_of :
      (e : Env A) (provider lookup_type value : String) (rows rows' : Table) (c : ℕ)
      → c ≤ e.now
      → lookup (make_key e provider lookup_type value) rows'
        ≡ fresh c (lookup (make_key e provider lookup_type value) rows)
      → (get_entry e provider lookup_type value rows').1
        ≡ (get_entry e provider lookup_type value rows).1
  unfolding get_entry
  get_entry_of e provider lookup_type value rows rows' c earlier left =
      let key = make_key e provider lookup_type value in
      same_result e.reads _ _ _ _
        (ap (λ o. (on_row e key o rows').1) left
          ∙ on_row_fresh e key c (lookup key rows) rows rows' earlier)
        refl

  -- A cleanup is never noticed by a later lookup.
  cleanup_unseen :
      (e : Env A) (c : ℕ) (provider lookup_type value : String) (rows : Table)
      → c ≤ e.now
      → Distinct rows
      → (get_entry e provider lookup_type value (cleanup_expired (at e c) rows).0).1
        ≡ (get_entry e provider lookup_type value rows).1
  unfolding cleanup_expired
  cleanup_unseen e c provider lookup_type value rows earlier distinct =
      if_split
        (λ (t : Table × ℕ).
          (get_entry e provider lookup_type value t.0).1
          ≡ (get_entry e provider lookup_type value rows).1)
        e.writes
        (λ writes.
          get_entry_of e provider lookup_type value rows (delete_expired c rows).0 c earlier
            (lookup-delete_expired c _ rows distinct))
        (λ fails. refl)

  put-written :
      (e : Env A) (key text : String) (o : Option String) (row : String → Row) (rows : Table)
      → e.writes ≡ true
      → o ≡ some text
      → put e key o row rows ≡ insert key (row text) rows
  unfolding put
  put-written e key text o row rows writes is =
      ap (λ p. put e key p row rows) is
      ∙ ap (λ b. if b then insert key (row text) rows else rows) writes

  get_entry-reads :
      (e : Env A) (provider lookup_type value : String) (rows : Table) (row : Row)
      → e.reads ≡ true
      → lookup (make_key e provider lookup_type value) rows ≡ some row
      → (get_entry e provider lookup_type value rows).1
        ≡ shown e (make_key e provider lookup_type value) row (e.loads row.result)
  unfolding get_entry on_row
  get_entry-reads e provider lookup_type value rows row reads is =
      let key = make_key e provider lookup_type value in
      ap (λ b. (if b then on_row e key (lookup key rows) rows else (rows, none)).1) reads
      ∙ ap (λ o. (on_row e key o rows).1) is
      ∙ hand_out_shown e key row (e.loads row.result) rows

  -- The row that `set` writes.
  abbrev pub written : Env A → String → String → String → String → ℤ → Option ℕ → Row
  written e provider lookup_type text verdict score ttl = record {
    provider = provider;
    lookup_type = lookup_type;
    result = text;
    verdict = verdict;
    score = score;
    timestamp = e.now;
    ttl_hours = ttl_of ttl verdict;
  }

  lookup-set :
      (e : Env A) (provider lookup_type value text : String) (r : A) (verdict : String) (score : ℤ)
      (ttl : Option ℕ) (rows : Table)
      → e.writes ≡ true
      → e.dumps r ≡ some text
      → lookup
          (make_key e provider lookup_type value)
          (set_entry e provider lookup_type value r verdict score ttl rows)
        ≡ some (written e provider lookup_type text verdict score ttl)
  unfolding set_entry
  lookup-set e provider lookup_type value text r verdict score ttl rows writes dumped =
      let key = make_key e provider lookup_type value in
      ap (lookup key) (put-written e key text (e.dumps r) _ rows writes dumped)
      ∙ lookup-insert key key _ rows
      ∙ ap
          (λ b.
            if b
            then some (written e provider lookup_type text verdict score ttl)
            else lookup key rows)
          (eq_refl key)

  shown_until :
      (e : Env A) (key : String) (row : Row) (o : Option A) (r : A)
      → o ≡ some r
      → shown e key row o ≡ (
          if leb e.now (row.timestamp + row.ttl_hours * 3600)
          then some (entry_of key row r)
          else none)
  unfolding shown is_expired
  shown_until e key row o r is =
      ap (shown e key row) is
      ∙ until e.now (row.timestamp + row.ttl_hours * 3600) (some (entry_of key row r)) none

  set_entry-Distinct :
      (e : Env A) (provider lookup_type value text : String) (r : A) (verdict : String) (score : ℤ)
      (ttl : Option ℕ) (rows : Table)
      → e.writes ≡ true
      → e.dumps r ≡ some text
      → Distinct rows
      → Distinct (set_entry e provider lookup_type value r verdict score ttl rows)
  unfolding set_entry
  set_entry-Distinct e provider lookup_type value text r verdict score ttl rows writes dumped
        single =
      let key = make_key e provider lookup_type value in
      subst Distinct (sym (put-written e key text (e.dumps r) _ rows writes dumped))
        (insert-Distinct key _ rows single)

  same_key :
      (e : Env A) (later : ℕ) (provider lookup_type value value' : String)
      → normalized value ≡ normalized value'
      → make_key e provider lookup_type value ≡ make_key (at e later) provider lookup_type value'
  unfolding make_key
  same_key e later provider lookup_type value value' same =
      ap (λ v. e.sha256 (provider ++ˢ ":" ++ˢ lookup_type ++ˢ ":" ++ˢ v)) same

  -- An answer that was stored while the table could be written, and that JSON reads back, is handed
  -- out for every value that differs from its own in case and outer spaces only, whatever cleanup
  -- came in between, until its time to live has passed, and never after that.
  pub get-cleanup-set :
      (e : Env A) (c later : ℕ) (provider lookup_type value value' text : String) (r : A)
      (verdict : String) (score : ℤ) (ttl : Option ℕ) (rows : Table)
      → e.reads ≡ true
      → e.writes ≡ true
      → e.dumps r ≡ some text
      → e.loads text ≡ some r
      → normalized value ≡ normalized value'
      → c ≤ later
      → Distinct rows
      → (get_entry
          (at e later)
          provider
          lookup_type
          value'
          (cleanup_expired
            (at e c)
            (set_entry e provider lookup_type value r verdict score ttl rows)).0).1
        ≡ (if leb later (e.now + ttl_of ttl verdict * 3600)
            then some (
                entry_of
                  (make_key e provider lookup_type value)
                  (written e provider lookup_type text verdict score ttl)
                  r)
            else none)
  get-cleanup-set e c later provider lookup_type value value' text r verdict score ttl rows reads
        writes dumped loaded same earlier distinct =
      let rows' = set_entry e provider lookup_type value r verdict score ttl rows in
      let row = written e provider lookup_type text verdict score ttl in
      let keys = same_key e later provider lookup_type value value' same in
      cleanup_unseen (at e later) c provider lookup_type value' rows' earlier (
        set_entry-Distinct e provider lookup_type value text r verdict score ttl rows writes dumped
          distinct)
      ∙ get_entry-reads (at e later) provider lookup_type value' rows' row reads (
          subst (λ k. lookup k rows' ≡ some row) keys
            (lookup-set e provider lookup_type value text r verdict score ttl rows writes dumped))
      ∙ shown_until (at e later) _ row (e.loads text) r loaded
      ∙ ap
          (λ k.
            if leb later (e.now + ttl_of ttl verdict * 3600) then some (entry_of k row r) else none)
          (sym keys)
