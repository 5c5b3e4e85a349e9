-- ===== src/Correlation/Critical.antt =====
-- Which events backend/engines/ai/knowledge/soc_correlation.py calls critical by themselves.
use graduationp.Correlation.{
  EventScore, min, threat_level, ThreatLevel, Event, total_score, level_of,
}
use graduationp.Prelude.{
  ap, inl, if_some, inr, IfSome, ◌⊎◌, [], pos, ℕ, ◌+◌, ◌≤◌, ◌<◌, false, Option, none, some, ◌≡◌,
  refl, arith, leb, ◌==ℕ◌, ==ℕ_iff, if◌then◌else◌,
}
use mathlib.Core.Path.{subst}
use graduationp.Correlation.Factors.{Context, context_factors}
use graduationp.Correlation.Tables.{event_base_scores}
use graduationp.Correlation.Engine.{
  score_event, sum_factors, pattern_of, scored, is_in, applies_to, find, base_score_of,
}
use graduationp.Correlation.Lookups.{
  sum_factors-full, Raising, sum_factors-le, AllMatch, find-all, most, share,
}

raising : Raising context_factors
raising = (omega arith, (omega arith, (omega arith, (omega arith, tt))))

cap : ℕ → ℕ
cap id = if id ==ℕ 1116 then 60 else 45

base-le : (id : ℕ) (o : Option ℕ) → find id event_base_scores ≡ o → base_score_of id ≤ cap id
unfolding base_score_of cap
base-le id none found = ground (arith, found)
base-le id (some v) found =
    ground (arith, found, find-all (λ i w. leb w (cap i)) event_base_scores id v refl found)

base_score_of_success : base_score_of 4624 ≡ 5
unfolding base_score_of find
base_score_of_success = refl

base_score_of_failure : base_score_of 4625 ≡ 25
unfolding base_score_of find
base_score_of_failure = refl

most_of_failure : most context_factors 4625 ≡ 55
unfolding most share applies_to is_in
most_of_failure = refl

most-le :
    (id : ℕ)
    → (id ==ℕ 4625) ≡ false
    → most context_factors id ≤ 10 + (if id ==ℕ 4624 then 30 else if id ==ℕ 1116 then 0 else 10)
unfolding most share applies_to is_in
most-le id other = ground (arith, other)

-- without a failed logon, no event reaches 80 by its type and its context
alone_low : (id : ℕ) → (id ==ℕ 4625) ≡ false → base_score_of id + most context_factors id < 80
unfolding cap
alone_low id other =
    ground (arith, most-le id other, base-le id _ refl, base_score_of_success, ==ℕ_iff id 4624)

critical-le : (t : ℕ) → level_of t ≡ ThreatLevel.critical → 80 ≤ t
unfolding level_of
critical-le t is = ground (arith, is)

-- what a failed logon whose four factors match is scored
pub total_of_parts :
    (id b c p : ℕ)
    → total_score
        (record { event_id = id; base_score = pos b; context_score = pos c; pattern_score = pos p })
      ≡ min 100 (b + c + p)
unfolding total_score
total_of_parts id b c p = ground arith

-- The event is a failed logon that all four factors match, and its score is exactly 80.
abbrev pub FullFailure : Event → Context → EventScore → Type 0
FullFailure event context s =
    (s.event_id ≡ 4625) × (total_score s ≡ 80) × AllMatch context_factors 4625 event context

critical_parts :
    (id t total : ℕ) (event : Event) (context : Context)
    → total ≡ min 100 (base_score_of id + t + 0)
    → (id ≡ 4625) ⊎ ((id ==ℕ 4625) ≡ false)
    → sum_factors context_factors id event context (some 0) ≡ some t
    → 80 ≤ total
    → (id ≡ 4625) × (total ≡ 80) × AllMatch context_factors 4625 event context
critical_parts id t total event context is_total (inr other) sums grave = absurd (
    omega (
      arith,
      grave,
      is_total,
      alone_low id other,
      sum_factors-le context_factors id 0 t event context sums,
    ))
critical_parts id t total event context is_total (inl is) sums grave =
    let sums' =
      subst (λ i. sum_factors context_factors i event context (some 0) ≡ some t) is sums in
    let low = sum_factors-le context_factors 4625 0 t event context sums' in
    let base = ap base_score_of is in
    (
      is,
      omega (arith, grave, is_total, low, base, base_score_of_failure, most_of_failure),
      sum_factors-full context_factors 4625 0 t event context raising sums'
          (omega (arith, grave, is_total, base, base_score_of_failure, most_of_failure)),
    )

is_failure : (id : ℕ) → (id ≡ 4625) ⊎ ((id ==ℕ 4625) ≡ false)
is_failure id = ground arith

critical_scored :
    (id : ℕ) (event : Event) (context : Context) (o : Option ℕ)
    → sum_factors context_factors id event context (some 0) ≡ o
    → IfSome
        (λ s. threat_level s ≡ ThreatLevel.critical → FullFailure event context s)
        (scored id [] o)
unfolding scored threat_level pattern_of
critical_scored id event context none sums = tt
critical_scored id event context (some t) sums = λ grave.
    critical_parts id t _ event context (total_of_parts id (base_score_of id) t 0) (is_failure id)
      sums (critical-le _ grave)

-- Without related events, the only event that is critical is a failed logon (4625) that each of the
-- four context factors matches, and its score is then exactly 80.
pub critical_alone :
    (event : Event) (context : Context) (s : EventScore)
    → score_event event [] context ≡ some s
    → threat_level s ≡ ThreatLevel.critical
    → FullFailure event context s
unfolding score_event
critical_alone event context s found =
    if_some (λ s. threat_level s ≡ ThreatLevel.critical → FullFailure event context s)
      (score_event event [] context) s (critical_scored _ event context _ refl) found
