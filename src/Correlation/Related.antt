-- ===== src/Correlation/Related.antt =====
-- What the related events and the fields of an event do to its score, in
-- backend/engines/ai/knowledge/soc_correlation.py.
use graduationp.Prelude.{
  false, ==ℕ_iff, ◌==ℕ◌, true, ℕ, ◌+◌, ◌≤◌, Bool, not, ◌&&◌, ◌||◌, List, [], ◌∷◌, ◌++◌, Option,
  none, some, is_some, ◌≡◌, refl, arith, IfSome, all, ap, ◌∙◌, if_some,
}
use graduationp.Value.{Value, truthy}
use graduationp.Correlation.Factors.{
  Context, ContextFactor, context_factors, network_login_factor, admin_account_factor,
  after_hours_factor, external_ip_factor, admin_account, external_ip, network_login, after_hours,
  first_user, is_admin, is_public, field_of,
}
use graduationp.Correlation.Tables.{correlation_rules}
use graduationp.Correlation.{CorrelationRule, Event, EventScore, total_score}
use graduationp.Correlation.Engine.{
  find, is_in, id_of, or_default, base_score_of, sum_factors, adjustment, adjusted, add_to,
  applies_to, scored, score_event, pattern_of, check_pattern, count_related,
}
use graduationp.Correlation.Lookups.{sum_factors_raised}
use graduationp.Correlation.Critical.{total_of_parts}

count_related-le :
    (ids : List ℕ) (xs ys : List Event) → count_related ids xs ≤ count_related ids (xs ++ ys)
unfolding count_related
count_related-le ids [] ys = omega arith
count_related-le ids (x ∷ xs) ys = ground (arith, count_related-le ids xs ys)

check_pattern-le :
    (rule : CorrelationRule) (xs ys : List Event)
    → check_pattern xs rule ≤ check_pattern (xs ++ ys) rule
unfolding check_pattern
check_pattern-le rule xs ys = ground (arith, count_related-le rule.related_event_ids xs ys)

found_pattern-le :
    (o : Option CorrelationRule) (x : Event) (xs ys : List Event)
    → elim o [ none ↦ 0 | some rule ↦ check_pattern (x ∷ xs) rule ]
      ≤ elim o [ none ↦ 0 | some rule ↦ check_pattern (x ∷ (xs ++ ys)) rule ]
found_pattern-le none x xs ys = omega arith
found_pattern-le (some rule) x xs ys = check_pattern-le rule (x ∷ xs) ys

pattern_of-le : (id : ℕ) (xs ys : List Event) → pattern_of id xs ≤ pattern_of id (xs ++ ys)
unfolding pattern_of
pattern_of-le id [] ys = omega arith
pattern_of-le id (x ∷ xs) ys = found_pattern-le (find id correlation_rules) x xs ys

-- There is a score with the further events, and it is no lower.
abbrev pub Higher : Option EventScore → EventScore → Type 0
Higher o a = (b : EventScore) × (o ≡ some b) × (total_score a ≤ total_score b)

scored-le :
    (id : ℕ) (xs ys : List Event) (o : Option ℕ)
    → IfSome (Higher (scored id (xs ++ ys) o)) (scored id xs o)
unfolding scored
scored-le id xs ys none = tt
scored-le id xs ys (some c) = (
  _,
  refl,
  omega (
    arith,
    total_of_parts id (base_score_of id) c (pattern_of id xs),
    total_of_parts id (base_score_of id) c (pattern_of id (xs ++ ys)),
    pattern_of-le id xs ys,
  ),
)

-- An event that is scored with some related events is also scored with further ones behind them, and
-- its total score is then no lower.
pub related_only_raise :
    (event : Event) (xs ys : List Event) (context : Context) (s : EventScore)
    → score_event event xs context ≡ some s
    → Higher (score_event event (xs ++ ys) context) s
unfolding score_event
related_only_raise event xs ys context s found =
    if_some (Higher (score_event event (xs ++ ys) context)) (score_event event xs context) s
      (scored-le _ xs ys _) found

abbrev pub is_text_value : Value → Bool
is_text_value (Value.text s) = true
is_text_value _ = false

-- A logon, successful or not.
abbrev pub is_logon : ℕ → Bool
is_logon id = id ==ℕ 4624 || id ==ℕ 4625

-- The name of the user is a text and, for a logon, the address is a text or false as a condition.
unfoldable pub readable : Event → Bool
readable event =
    let address = field_of "IpAddress" event in
    let is_fine = is_text_value address || not (truthy address) in
    is_text_value (first_user event) && (not (is_logon (or_default 0 (id_of event))) || is_fine)

admin_returns : (v : Value) → is_some (is_admin v) ≡ is_text_value v
unfolding is_admin
admin_returns Value.null = refl
admin_returns (Value.bool b) = refl
admin_returns (Value.int z) = refl
admin_returns (Value.text s) = refl
admin_returns (Value.object o) = refl

public_returns : (v : Value) → is_some (is_public v) ≡ (is_text_value v || not (truthy v))
unfolding is_public
public_returns Value.null = ground arith
public_returns (Value.bool b) = ground arith
public_returns (Value.int z) = ground arith
public_returns (Value.text s) = refl
public_returns (Value.object o) = ground arith

logon_listed : (id : ℕ) → is_in id (4624 ∷ 4625 ∷ []) ≡ is_logon id
unfolding is_in
logon_listed id = ground (arith, ==ℕ_iff id 4624, ==ℕ_iff id 4625)

scored_returns :
    (id : ℕ) (related : List Event) (o : Option ℕ) → is_some (scored id related o) ≡ is_some o
unfolding scored
scored_returns id related none = refl
scored_returns id related (some c) = refl

added_returns :
    (fs : List ContextFactor) (id n : ℕ) (event : Event) (context : Context) (o : Option ℕ)
    → ((m : ℕ)
        → is_some (sum_factors fs id event context (some m))
          ≡ all (λ f. is_some (adjustment f id event context)) fs)
    → is_some (sum_factors fs id event context (add_to n o))
      ≡ (is_some o && all (λ f. is_some (adjustment f id event context)) fs)
unfolding add_to
added_returns fs id n event context none rest = ap is_some (sum_factors_raised fs id event context)
added_returns fs id n event context (some a) rest = rest (n + a)

sum_returns :
    (fs : List ContextFactor) (id n : ℕ) (event : Event) (context : Context)
    → is_some (sum_factors fs id event context (some n))
      ≡ all (λ f. is_some (adjustment f id event context)) fs
unfolding sum_factors
sum_returns [] id n event context = refl
sum_returns (f ∷ fs) id n event context =
    added_returns fs id n event context (adjustment f id event context)
      (λ m. sum_returns fs id m event context)

adjusted_returns : (n : ℕ) (o : Option Bool) → is_some (adjusted n o) ≡ is_some o
unfolding adjusted
adjusted_returns n none = refl
adjusted_returns n (some b) = refl

adjustment_returns :
    (f : ContextFactor) (id : ℕ) (event : Event) (context : Context)
    → is_some (adjustment f id event context)
      ≡ (not (applies_to id f.applies_to_events) || is_some (f.matches event context))
unfolding adjustment
adjustment_returns f id event context =
    ground (arith, adjusted_returns f.score_adjustment (f.matches event context))

factors_return :
    (id : ℕ) (event : Event) (context : Context)
    → is_some (sum_factors context_factors id event context (some 0)) ≡ (
        is_some (admin_account event context)
        && (not (is_in id (4624 ∷ 4625 ∷ [])) || is_some (external_ip event context)))
unfolding applies_to is_in network_login after_hours
factors_return id event context = ground (
  arith,
  sum_returns context_factors id 0 event context,
  adjustment_returns network_login_factor id event context,
  adjustment_returns admin_account_factor id event context,
  adjustment_returns after_hours_factor id event context,
  adjustment_returns external_ip_factor id event context,
)

-- An event is scored, whatever the related events and the context are, exactly if the name of its
-- user (the target's, or else the subject's) is a text and, for a logon (4624 or 4625), its address is
-- a text or false as a condition; the scoring of any other event raises.
pub score_event_returns :
    (event : Event) (related : List Event) (context : Context)
    → is_some (score_event event related context) ≡ readable event
unfolding score_event readable admin_account external_ip
score_event_returns event related context =
    scored_returns _ related _
    ∙ factors_return _ event context
    ∙ rw
        (
          admin_returns (first_user event),
          public_returns (field_of "IpAddress" event),
          logon_listed (or_default 0 (id_of event)),
        )
        refl
