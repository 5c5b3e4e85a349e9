-- ===== src/UrlScanner/Verdict.antt =====
-- `_calculate_verdict` of backend/engines/scanning/url_scanner.py.
use graduationp.Prelude.{
  ℕ, ◌+◌, Bool, String, ◌++ˢ◌, List, [], ◌∷◌, ◌++◌, Option, none, some, length, ltb, leb, show_nat,
  join, if◌then◌else◌,
}
use graduationp.Prelude.Dict.{Dict, lookup}
use graduationp.UrlScanner.{Evidence}

-- What the verdict reads of the sandbox result.
pub record SandboxSigns : Type 0 where
  pub has_connections : Bool
  pub dom_mutations : ℕ

-- the points of a severity that has some, and the severity in capitals
abbrev pub severity_weights : Dict (ℕ × String)
severity_weights =
    ("critical", (25, "CRITICAL"))
    ∷ ("high", (15, "HIGH"))
    ∷ ("medium", (8, "MEDIUM"))
    ∷ ("low", (3, "LOW"))
    ∷ []

-- the score and the explanations so far
abbrev pub Account : Type 0
Account = ℕ × List String

abbrev pub add_item : Option (ℕ × String) → String → Account → Account
add_item none title a = a
add_item (some (pts, capitals)) title (score, explanations) =
    (score + pts, explanations ++ ("[" ++ˢ capitals ++ˢ "] " ++ˢ title) ∷ [])

-- the loop over the evidence
unfoldable pub weigh : List Evidence → Account → Account
unfolding lookup
weigh [] a = a
weigh (e ∷ evidence) a = weigh evidence (add_item (lookup e.severity severity_weights) e.title a)

abbrev pub add_if : Bool → ℕ → String → Account → Account
add_if b pts text (score, explanations) =
    if b then (score + pts, explanations ++ text ∷ []) else (score, explanations)

unfoldable pub add_sandbox : Option SandboxSigns → Account → Account
add_sandbox none a = a
add_sandbox (some s) a =
    add_if (ltb 50 s.dom_mutations) 5 "Sandbox: excessive DOM mutations"
      (add_if s.has_connections 10 "Sandbox: network connections detected" a)

unfoldable pub band : ℕ → String × String
band score =
    if leb score 10
    then ("safe", "Safe")
    else if leb score 30
    then ("low_risk", "Low Risk")
    else if leb score 55
    then ("suspicious", "Suspicious")
    else if leb score 80
    then ("dangerous", "Dangerous")
    else ("malicious", "Malicious")

pub record Verdict : Type 0 where
  pub score : ℕ
  pub verdict : String
  pub verdict_label : String
  pub summary : String
  pub explanation : String

abbrev pub capped : ℕ → ℕ
capped n = if leb n 100 then n else 100

-- `_calculate_verdict`; the sandbox result is `none` where the sandbox was not used
unfoldable pub calculate_verdict : List Evidence → Option SandboxSigns → Verdict
calculate_verdict evidence sandbox =
    let (points, explanations) = add_sandbox sandbox (weigh evidence (0, [])) in
    let (verdict, label) = band (capped points) in
    record {
      score = capped points;
      verdict = verdict;
      verdict_label = label;
      summary =
          label
          ++ˢ " (score: "
          ++ˢ show_nat (capped points)
          ++ˢ "/100). "
          ++ˢ show_nat (length evidence)
          ++ˢ " indicators analyzed.";
      explanation =
          if ltb 0 (length explanations)
          then join "\n" explanations
          else "No suspicious indicators found.";
    }
