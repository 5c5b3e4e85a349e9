-- ===== src/Prelude/Dict.antt =====
-- Python's `dict` with text keys, as an association list in insertion order.
use mathlib.Core.Path.{◌≡◌, refl}
use mathlib.Core.Bool.{Bool, false, ◌&&◌, ◌||◌}
use mathlib.Core.Option.{Option, none, some}
use mathlib.Core.List.{List, [], ◌∷◌}
use Prim.Native.Nat.{◌+◌, ◌≤◌}
use mathlib.Core.Logic.{inl, inr}
use native.Mathlib.Omega.{arith}
use graduationp.Prelude.Tests.{if◌then◌else◌, is_some, not, Bool-cases, if_cases}
use graduationp.Prelude.Lists.{length}
use graduationp.Prelude.Text.{String, ◌==◌, eq_iff}

abbrev pub Dict {ℓ} : Type ℓ → Type ℓ
Dict V = List (String × V)

module _ {ℓ} {V : Type ℓ} where
  -- `d.get(k)`
  unfoldable pub lookup : String → Dict V → Option V
  lookup k [] = none
  lookup k ((j, v) ∷ d) = if j == k then some v else lookup k d

  -- `d[k] = v`: a key that is there keeps its place
  unfoldable pub insert : String → V → Dict V → Dict V
  insert k v [] = (k, v) ∷ []
  insert k v ((j, w) ∷ d) = if j == k then (j, v) ∷ d else (j, w) ∷ insert k v d

  -- `d.pop(k, None)`
  unfoldable pub remove : String → Dict V → Dict V
  remove k [] = []
  remove k ((j, v) ∷ d) = let rest = remove k d in if j == k then rest else (j, v) ∷ rest

  -- `k in d`
  unfoldable pub has_key : String → Dict V → Bool
  unfolding lookup
  has_key k d = is_some (lookup k d)

  pub lookup-insert :
      (k j : String) (v : V) (d : Dict V)
      → lookup j (insert k v d) ≡ (if k == j then some v else lookup j d)
  unfolding lookup insert
  lookup-insert k j v [] = refl
  lookup-insert k j v ((i, w) ∷ d) =
      ground (arith, eq_iff k j, eq_iff i k, eq_iff i j, lookup-insert k j v d)

  pub lookup-remove :
      (k j : String) (d : Dict V) → lookup j (remove k d) ≡ (if k == j then none else lookup j d)
  unfolding lookup remove
  lookup-remove k j [] = ground arith
  lookup-remove k j ((i, v) ∷ d) =
      ground (arith, lookup-remove k j d, eq_iff i k, eq_iff i j, eq_iff k j)

  pub length-insert-le : (k : String) (v : V) (d : Dict V) → length (insert k v d) ≤ length d + 1
  unfolding insert
  length-insert-le k v [] = omega arith
  length-insert-le k v ((j, w) ∷ d) = ground (arith, length-insert-le k v d)

  pub has_key-insert :
      (k j : String) (v : V) (d : Dict V) → has_key j (insert k v d) ≡ (k == j || has_key j d)
  unfolding has_key
  has_key-insert k j v d = ground (arith, lookup-insert k j v d)

  pub has_key-remove :
      (k j : String) (d : Dict V) → has_key j (remove k d) ≡ (not (k == j) && has_key j d)
  unfolding has_key
  has_key-remove k j d = ground (arith, lookup-remove k j d)

  -- Each key stands once.
  abbrev pub Distinct : Dict V → Type 0
  Distinct [] = Unit
  Distinct ((k, v) ∷ d) = (has_key k d ≡ false) × Distinct d

  pub insert-Distinct : (k : String) (v : V) (d : Dict V) → Distinct d → Distinct (insert k v d)
  unfolding insert has_key lookup
  insert-Distinct k v [] distinct = (refl, distinct)
  insert-Distinct k v ((j, w) ∷ d) (fresh, distinct) = elim (Bool-cases (j == k)) [
    | inl same ↦ rw (same) (fresh, distinct)
    | inr differ ↦ rw (differ) (
      ground (arith, differ, fresh, has_key-insert k j v d, eq_iff j k, eq_iff k j),
      insert-Distinct k v d distinct,
    )
  ]

  pub remove-Distinct : (k : String) (d : Dict V) → Distinct d → Distinct (remove k d)
  unfolding remove
  remove-Distinct k [] distinct = distinct
  remove-Distinct k ((j, w) ∷ d) (fresh, distinct) =
      if_cases Distinct (j == k) (remove-Distinct k d distinct)
        (ground (arith, fresh, has_key-remove k j d), remove-Distinct k d distinct)
