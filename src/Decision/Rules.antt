-- ===== src/Decision/Rules.antt =====
-- `extract_triggered_rules` of backend/engines/scanning/decision.py.
use graduationp.Prelude.{
  Bool, true, ◌≡◌, refl, arith, eq_iff, eq_refl, ◌&&◌, List, [], ◌∷◌, ◌++◌, String, ◌==◌, ◌++ˢ◌,
  strip, elem, take, not, if◌then◌else◌,
}
use graduationp.Prelude.Dict.{Dict}
use graduationp.Value.{Value, get, truthy, str_or_empty, to_str}

-- A scan result, dictionary or object. `clamav`, `groq_analysis` and `final_decision` are empty
-- where they are missing or no dictionary; `finding_titles` has each finding's `title`, and is
-- empty where `findings` is no list. `attributes` are the plain attributes that it has.
pub record ScanResult : Type 0 where
  pub attributes : Dict Value
  pub clamav : Dict Value
  pub groq_analysis : Dict Value
  pub finding_titles : List Value
  pub final_decision : Dict Value

abbrev clamav_rules : Dict Value → List String
clamav_rules clamav =
    if truthy (get "infected" clamav)
    then ("ClamAV:"
        ++ˢ strip (
            let signature = get "signature" clamav in
            if truthy signature then to_str signature else "detected"))
      ∷ []
    else []

abbrev groq_rules : Dict Value → List String
groq_rules groq =
    if truthy (get "verdict" groq) then ("Groq:" ++ˢ to_str (get "verdict" groq)) ∷ [] else []

unfoldable pub title_rules : List Value → List String
title_rules [] = []
title_rules (title ∷ titles) =
    let shown = strip (str_or_empty title) in
    let rest = title_rules titles in if shown == "" then rest else shown ∷ rest

-- The loop that drops empty rules and repetitions.
unfoldable pub dedupe_from : List String → List String → List String
dedupe_from seen [] = []
dedupe_from seen (rule ∷ rules) =
    let first_seen = rule ∷ dedupe_from (rule ∷ seen) rules in
    let skipped = dedupe_from seen rules in
    if not (rule == "") && not (elem rule seen) then first_seen else skipped

unfoldable pub extract_triggered_rules : ScanResult → List String
unfolding title_rules dedupe_from
extract_triggered_rules r =
    dedupe_from []
      (clamav_rules r.clamav ++ groq_rules r.groq_analysis ++ title_rules (take 3 r.finding_titles))

-- no text twice
abbrev is_distinct : List String → Bool
is_distinct [] = true
is_distinct (x ∷ xs) = not (elem x xs) && is_distinct xs

-- every rule that was collected, before repetitions are dropped
abbrev collected : ScanResult → List String
collected r =
    clamav_rules r.clamav ++ groq_rules r.groq_analysis ++ title_rules (take 3 r.finding_titles)

elem-dedupe_from :
    (x : String) (seen rules : List String)
    → elem x (dedupe_from seen rules) ≡ (not (x == "") && not (elem x seen) && elem x rules)
unfolding dedupe_from elem
elem-dedupe_from x seen [] = ground arith
elem-dedupe_from x seen (rule ∷ rules) = ground (
  arith,
  eq_iff x rule,
  eq_iff rule "",
  eq_iff x "",
  elem-dedupe_from x (rule ∷ seen) rules,
  elem-dedupe_from x seen rules,
)

dedupe_from-is_distinct : (seen rules : List String) → is_distinct (dedupe_from seen rules) ≡ true
unfolding dedupe_from elem
dedupe_from-is_distinct seen [] = refl
dedupe_from-is_distinct seen (rule ∷ rules) = ground (
  arith,
  eq_refl rule,
  elem-dedupe_from rule (rule ∷ seen) rules,
  dedupe_from-is_distinct (rule ∷ seen) rules,
  dedupe_from-is_distinct seen rules,
)

-- The triggered rules hold no text twice, and a text is among them exactly when it is not empty
-- and was collected from the ClamAV hit, the Groq verdict or the first three findings.
extract_distinct :
    (r : ScanResult) (x : String)
    → (is_distinct (extract_triggered_rules r) ≡ true)
      × (elem x (extract_triggered_rules r) ≡ (not (x == "") && elem x (collected r)))
unfolding extract_triggered_rules elem
extract_distinct r x =
    (dedupe_from-is_distinct [] (collected r), ground (arith, elem-dedupe_from x [] (collected r)))
