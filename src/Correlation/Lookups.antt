-- ===== src/Correlation/Lookups.antt =====
-- The tables of backend/engines/ai/knowledge/soc_correlation.py, and the sum over the factors.
use graduationp.Prelude.{
  refl, none, inr, inl, Option-cases, ◌≤◌, ◌<◌, ℕ, ◌+◌, Bool, true, false, List, [], ◌∷◌, some, ◌≡◌,
  arith, ==ℕ_iff, all, if◌then◌else◌,
}
use graduationp.Correlation.Factors.{ContextFactor, Context}
use graduationp.Correlation.{Option, Event}
use graduationp.Correlation.Engine.{adjusted, add_to, adjustment, sum_factors, find, applies_to}

-- A test that each entry of a table passes is passed by what is found in it.
pub find-all {ℓ} :
    {A : Type ℓ} (p : ℕ → A → Bool) (table : List (ℕ × A)) (id : ℕ) (v : A)
    → all (λ e. p e.0 e.1) table ≡ true
    → find id table ≡ some v
    → p id v ≡ true
unfolding find
find-all p [] id v passed found = ground arith
find-all p ((key, w) ∷ table) id v passed found =
    ground (arith, passed, found, ==ℕ_iff key id, find-all p table id v)

-- what a factor can add at most to an event
unfoldable pub share : ContextFactor → ℕ → ℕ
share f id = if applies_to id f.applies_to_events then f.score_adjustment else 0

unfoldable pub most : List ContextFactor → ℕ → ℕ
most [] id = 0
most (f ∷ fs) id = share f id + most fs id

-- The factor matches where it applies.
abbrev Matches : ContextFactor → ℕ → Event → Context → Type 0
Matches f id event context =
    applies_to id f.applies_to_events ≡ true → f.matches event context ≡ some true

abbrev pub AllMatch : List ContextFactor → ℕ → Event → Context → Type 0
AllMatch [] id event context = Unit
AllMatch (f ∷ fs) id event context = Matches f id event context × AllMatch fs id event context

-- Each factor adds something.
abbrev pub Raising : List ContextFactor → Type 0
Raising [] = Unit
Raising (f ∷ fs) = (0 < f.score_adjustment) × Raising fs

adjustment-le :
    (f : ContextFactor) (id a : ℕ) (event : Event) (context : Context)
    → adjustment f id event context ≡ some a
    → a ≤ share f id
unfolding adjustment adjusted share
adjustment-le f id a event context added = elim (Option-cases (f.matches event context)) [
  | inl raises ↦ ground (arith, added, raises)
  | inr (m, is) ↦ ground (arith, added, is)
]

full_only : (o : Option Bool) (n a : ℕ) → 0 < n → adjusted n o ≡ some a → a ≡ n → o ≡ some true
unfolding adjusted
full_only none n a raising added full = ground (arith, added)
full_only (some true) n a raising added full = refl
full_only (some false) n a raising added full = ground (arith, added, raising, full)

adjustment-full :
    (f : ContextFactor) (id a : ℕ) (event : Event) (context : Context)
    → 0 < f.score_adjustment
    → adjustment f id event context ≡ some a
    → a ≡ share f id
    → Matches f id event context
unfolding adjustment share
adjustment-full f id a event context raising added full applies =
    full_only (f.matches event context) f.score_adjustment a raising
      (ground (arith, added, applies)) (ground (arith, full, applies))

pub sum_factors_raised :
    (fs : List ContextFactor) (id : ℕ) (event : Event) (context : Context)
    → sum_factors fs id event context none ≡ none
unfolding sum_factors
sum_factors_raised [] id event context = refl
sum_factors_raised (f ∷ fs) id event context = refl

-- a sum that is there comes from a first factor that did not raise
first_added :
    (fs : List ContextFactor) (id n t : ℕ) (event : Event) (context : Context) (o : Option ℕ)
    → sum_factors fs id event context (add_to n o) ≡ some t
    → (a : ℕ) × (o ≡ some a) × (sum_factors fs id event context (some (n + a)) ≡ some t)
unfolding add_to
first_added fs id n t event context none sums =
    ground (arith, sums, sum_factors_raised fs id event context)
first_added fs id n t event context (some a) sums = (a, refl, sums)

pub sum_factors-le :
    (fs : List ContextFactor) (id n t : ℕ) (event : Event) (context : Context)
    → sum_factors fs id event context (some n) ≡ some t
    → t ≤ n + most fs id
unfolding sum_factors most
sum_factors-le [] id n t event context sums = ground (arith, sums)
sum_factors-le (f ∷ fs) id n t event context sums =
    let (a, added, sums') =
      first_added fs id n t event context (adjustment f id event context) sums in
    omega (
      arith,
      adjustment-le f id a event context added,
      sum_factors-le fs id (n + a) t event context sums',
    )

-- A sum that is as large as it can be has each factor match that applies.
pub sum_factors-full :
    (fs : List ContextFactor) (id n t : ℕ) (event : Event) (context : Context)
    → Raising fs
    → sum_factors fs id event context (some n) ≡ some t
    → n + most fs id ≤ t
    → AllMatch fs id event context
unfolding sum_factors most
sum_factors-full [] id n t event context raising sums full = raising
sum_factors-full (f ∷ fs) id n t event context (raising, others) sums full =
    let (a, added, sums') =
      first_added fs id n t event context (adjustment f id event context) sums in
    let here = adjustment-le f id a event context added in
    let rest = sum_factors-le fs id (n + a) t event context sums' in
    (
      adjustment-full f id a event context raising added (omega (arith, here, rest, full)),
      sum_factors-full fs id (n + a) t event context others sums' (omega (arith, here, rest, full)),
    )
