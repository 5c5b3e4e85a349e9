-- ===== src/UrlScorer/Sums.antt =====
-- What the breakdown of backend/engines/scanning/url_scoring.py adds up to.
use Prim.Native.Nat.{zero}
use graduationp.Prelude.{
  ℕ, suc, ◌+◌, true, false, ◌||◌, not, String, ◌==◌, List, [], ◌∷◌, All, all, ◌≡◌, arith, eq_iff, ℤ,
  pos, negsuc, pos_part, neg_part,
}
use graduationp.Prelude.Dict.{has_key-insert, Dict, insert, has_key}
use graduationp.UrlScorer.Points.{add_nat, book}
use graduationp.UrlScorer.Score.{Tally, minus}

-- the points of a breakdown, and what is taken off
abbrev pub gains : Dict ℤ → ℕ
gains [] = 0
gains ((k, z) ∷ d) = pos_part z + gains d

abbrev pub losses : Dict ℤ → ℕ
losses [] = 0
losses ((k, z) ∷ d) = neg_part z + losses d

-- The total is what the breakdown adds up to.
abbrev pub Balanced : Tally → Type 0
Balanced t = t.1 + losses t.0 ≡ gains t.0

-- None of some keys is in the breakdown.
abbrev pub Without : List String → Dict ℤ → Type 0
Without keys d = All (λ k. has_key k d ≡ false) keys

add_nat_parts :
    (z : ℤ) (n : ℕ) → pos_part (add_nat z n) + neg_part z ≡ pos_part z + n + neg_part (add_nat z n)
unfolding add_nat
add_nat_parts (pos m) n = omega arith
add_nat_parts (negsuc m) zero = omega arith
add_nat_parts (negsuc zero) (suc n) = omega arith
add_nat_parts (negsuc (suc m)) (suc n) = omega (arith, add_nat_parts (negsuc m) n)

pub book-gains :
    (k : String) (n : ℕ) (d : Dict ℤ)
    → gains (book k n d) + losses d ≡ gains d + n + losses (book k n d)
unfolding book
book-gains k n [] = omega arith
book-gains k n ((j, z) ∷ d) = ground (arith, book-gains k n d, add_nat_parts z n)

pub book-has_key :
    (k j : String) (n : ℕ) (d : Dict ℤ) → has_key j (book k n d) ≡ (k == j || has_key j d)
unfolding book has_key
book-has_key k j n [] = ground (arith, eq_iff k j)
book-has_key k j n ((i, z) ∷ d) =
    ground (arith, book-has_key k j n d, eq_iff i k, eq_iff i j, eq_iff k j)

insert-gains :
    (k : String) (z : ℤ) (d : Dict ℤ)
    → has_key k d ≡ false
    → (gains (insert k z d) ≡ gains d + pos_part z)
      × (losses (insert k z d) ≡ losses d + neg_part z)
unfolding insert has_key
insert-gains k z [] h = (omega arith, omega arith)
insert-gains k z ((j, w) ∷ d) h = ground (arith, insert-gains k z d)

-- a new key that is not in the breakdown yet
insert-Balanced :
    (k : String) (z : ℤ) (d : Dict ℤ) (total total' : ℕ)
    → has_key k d ≡ false
    → Balanced (d, total)
    → total' + neg_part z ≡ total + pos_part z
    → Balanced (insert k z d, total')
insert-Balanced k z d total total' fresh b change =
    let (more, less) = insert-gains k z d fresh in omega (arith, more, less, b, change)

pub minus_parts : (n : ℕ) → (pos_part (minus n) ≡ 0) × (neg_part (minus n) ≡ n)
minus_parts zero = (omega arith, omega arith)
minus_parts (suc n) = (omega arith, omega arith)

insert-Without :
    (keys : List String) (k : String) (z : ℤ) (d : Dict ℤ)
    → all (λ j. not (k == j)) keys ≡ true
    → Without keys d
    → Without keys (insert k z d)
insert-Without [] k z d other free = free
insert-Without (j ∷ keys) k z d other (one, free) =
    let differ : ((k == j) ≡ false) × (all (λ j. not (k == j)) keys ≡ true) =
      ground (arith, other) in
    (ground (arith, has_key-insert k j z d, differ, one), insert-Without keys k z d differ.1 free)

-- some keys are not in the breakdown yet, and the total is what it adds up to
abbrev pub Awaits : List String → Tally → Type 0
Awaits keys t = Balanced t × Without keys t.0

pub insert-Awaits :
    (k : String) (keys : List String) (z : ℤ) (d : Dict ℤ) (total total' : ℕ)
    → all (λ j. not (k == j)) keys ≡ true
    → total' + neg_part z ≡ total + pos_part z
    → Awaits (k ∷ keys) (d, total)
    → Awaits keys (insert k z d, total')
insert-Awaits k keys z d total total' other change (balanced, (fresh, free)) =
    (insert-Balanced k z d total total' fresh balanced change, insert-Without keys k z d other free)

pub skip-Awaits :
    (k : String) (keys : List String) (t : Tally) → Awaits (k ∷ keys) t → Awaits keys t
skip-Awaits k keys t (balanced, (fresh, free)) = (balanced, free)
