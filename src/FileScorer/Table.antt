-- ===== src/FileScorer/Table.antt =====
-- The table of the breakdown in the explanation of backend/engines/scanning/scoring.py.
use graduationp.Prelude.{
  true, false, ℕ, ◌≤◌, String, [], ◌∷◌, ◌≡◌, refl, arith, ltb, if_cases, Bool-cases, inl, inr,
}
use graduationp.Prelude.Dict.{Dict}
use mathlib.Core.List.{Perm, Permᴰ}
use mathlib.Core.List.Permᴰ
use graduationp.FileScorer.Report.{place, sorted_items}

-- Each entry has at least the points of the next one.
abbrev Descending : Dict ℕ → Type 0
Descending [] = Unit
Descending (x ∷ []) = Unit
Descending (x ∷ y ∷ d) = (y.1 ≤ x.1) × Descending (y ∷ d)

place-perm : (e : String × ℕ) (d : Dict ℕ) → Permᴰ (e ∷ d) (place e d)
unfolding place
place-perm e [] = Permᴰ.refl _
place-perm e (x ∷ d) =
    if_cases (Permᴰ (e ∷ x ∷ d)) (ltb e.1 x.1)
      (Permᴰ.trans (Permᴰ.swap refl refl) (Permᴰ.cons refl (place-perm e d))) (Permᴰ.refl _)

sorted-perm : (d : Dict ℕ) → Permᴰ d (sorted_items d)
unfolding sorted_items
sorted-perm [] = Permᴰ.nil
sorted-perm (e ∷ d) = Permᴰ.trans (Permᴰ.cons refl (sorted-perm d)) (place-perm e (sorted_items d))

less_le : (a b : ℕ) → ltb a b ≡ true → a ≤ b
less_le a b h = ground arith

more_le : (a b : ℕ) → ltb a b ≡ false → b ≤ a
more_le a b h = ground arith

abbrev Below : String × ℕ → Dict ℕ → Type 0
Below x [] = Unit
Below x (y ∷ d) = y.1 ≤ x.1

cons-Descending : (x : String × ℕ) (d : Dict ℕ) → Below x d → Descending d → Descending (x ∷ d)
cons-Descending x [] below desc = tt
cons-Descending x (y ∷ d) below desc = (below, desc)

tail-Descending : (x : String × ℕ) (d : Dict ℕ) → Descending (x ∷ d) → Below x d × Descending d
tail-Descending x [] desc = (tt, tt)
tail-Descending x (y ∷ d) desc = desc

place-Below : (e x : String × ℕ) (d : Dict ℕ) → e.1 ≤ x.1 → Below x d → Below x (place e d)
unfolding place
place-Below e x [] le below = le
place-Below e x (y ∷ d) le below = if_cases (Below x) (ltb e.1 y.1) below le

place-Descending : (e : String × ℕ) (d : Dict ℕ) → Descending d → Descending (place e d)
unfolding place
place-Descending e [] desc = tt
place-Descending e (x ∷ d) desc =
    let (below, rest) = tail-Descending x d desc in
    elim (Bool-cases (ltb e.1 x.1)) [
      | inl less ↦ rw (less) (
          cons-Descending x (place e d) (place-Below e x d (less_le e.1 x.1 less) below)
            (place-Descending e d rest))
      | inr more ↦ rw (more) (more_le e.1 x.1 more, desc)
    ]

sorted-Descending : (d : Dict ℕ) → Descending (sorted_items d)
unfolding sorted_items
sorted-Descending [] = tt
sorted-Descending (e ∷ d) = place-Descending e (sorted_items d) (sorted-Descending d)

-- The table shows each entry of the breakdown exactly once, the ones with the most points first.
table_sorted : (d : Dict ℕ) → Perm d (sorted_items d) × Descending (sorted_items d)
table_sorted d = (∣ sorted-perm d ∣₁, sorted-Descending d)
