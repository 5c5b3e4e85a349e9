-- ===== src/Correlation/Engine.antt =====
-- EventScoringEngine of backend/engines/ai/knowledge/soc_correlation.py.
use graduationp.Prelude.{
  ℕ, suc, ◌+◌, Bool, true, false, ◌==ℕ◌, List, [], ◌∷◌, Option, none, some, leb, any, pos,
  if◌then◌else◌,
}
use graduationp.Correlation.{CorrelationRule, Event, EventScore}
use graduationp.Correlation.Tables.{correlation_rules, event_base_scores}
use graduationp.Correlation.Factors.{ContextFactor, Context, context_factors}

-- a table by event id
unfoldable pub find {ℓ} : {A : Type ℓ} → ℕ → List (ℕ × A) → Option A
find id [] = none
find id ((key, v) ∷ table) = if key ==ℕ id then some v else find id table

unfoldable pub is_in : ℕ → List ℕ → Bool
is_in id ids = any (λ i. i ==ℕ id) ids

-- `e.get("event_id", e.get("eventId"))`
unfoldable pub id_of : Event → Option ℕ
id_of e = elim e.snake_id [ none ↦ e.camel_id | some id ↦ some id ]

abbrev pub or_default : ℕ → Option ℕ → ℕ
or_default d none = d
or_default d (some n) = n

-- `_base_scores.get(event_id, 15)`
unfoldable pub base_score_of : ℕ → ℕ
unfolding find
base_score_of id = or_default 15 (find id event_base_scores)

-- `not factor.applies_to_events or event_id in factor.applies_to_events`
unfoldable pub applies_to : ℕ → List ℕ → Bool
applies_to id [] = true
applies_to id (i ∷ ids) = is_in id (i ∷ ids)

unfoldable pub adjusted : ℕ → Option Bool → Option ℕ
adjusted n none = none
adjusted n (some matched) = some (if matched then n else 0)

-- what one factor adds; it is only asked where it applies
unfoldable pub adjustment : ContextFactor → ℕ → Event → Context → Option ℕ
unfolding adjusted
adjustment f id event context =
    if applies_to id f.applies_to_events
    then adjusted f.score_adjustment (f.matches event context)
    else some 0

unfoldable pub add_to : ℕ → Option ℕ → Option ℕ
add_to sum none = none
add_to sum (some n) = some (sum + n)

-- the loop over the factors
unfoldable pub sum_factors : List ContextFactor → ℕ → Event → Context → Option ℕ → Option ℕ
sum_factors [] id event context sum = sum
sum_factors (f ∷ fs) id event context none = none
sum_factors (f ∷ fs) id event context (some sum) =
    sum_factors fs id event context (add_to sum (adjustment f id event context))

-- whether an event has one of the ids
unfoldable pub is_related : List ℕ → Event → Bool
is_related ids e = elim (id_of e) [ none ↦ false | some id ↦ is_in id ids ]

unfoldable pub count_related : List ℕ → List Event → ℕ
count_related ids [] = 0
count_related ids (e ∷ es) =
    if is_related ids e then suc (count_related ids es) else count_related ids es

-- `_check_pattern`
unfoldable pub check_pattern : List Event → CorrelationRule → ℕ
check_pattern related rule =
    if leb rule.count_threshold (count_related rule.related_event_ids related)
    then rule.threat_score_bonus
    else 0

-- `get_correlation_info`
unfoldable pub get_correlation_info : ℕ → Option CorrelationRule
get_correlation_info id = find id correlation_rules

-- `get_related_events_to_check`
unfoldable pub get_related_events_to_check : ℕ → List ℕ
get_related_events_to_check id = elim (get_correlation_info id) [
  | none ↦ []
  | some rule ↦ rule.related_event_ids
]

-- the pattern part; no related events, or an empty list of them, is `[]`
unfoldable pub pattern_of : ℕ → List Event → ℕ
pattern_of id [] = 0
pattern_of id (e ∷ es) = elim (find id correlation_rules) [
  | none ↦ 0
  | some rule ↦ check_pattern (e ∷ es) rule
]

unfoldable pub scored : ℕ → List Event → Option ℕ → Option EventScore
scored id related none = none
scored id related (some context_score) = some (record {
  event_id = id;
  base_score = pos (base_score_of id);
  context_score = pos context_score;
  pattern_score = pos (pattern_of id related);
})

-- `score_event`; `none` is the AttributeError of a factor
unfoldable pub score_event : Event → List Event → Context → Option EventScore
score_event event related context =
    let id = or_default 0 (id_of event) in
    scored id related (sum_factors context_factors id event context (some 0))
