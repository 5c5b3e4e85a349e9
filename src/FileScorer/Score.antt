-- ===== src/FileScorer/Score.antt =====
-- `ThreatScorer.score` of backend/engines/scanning/scoring.py.
use graduationp.Prelude.{ℕ, String, Option, none, some, leb, if◌then◌else◌}
use graduationp.FileScorer.{StaticResult, SandboxResult, ScoringResult}
use graduationp.FileScorer.Findings.{Findings, no_findings}
use graduationp.FileScorer.Static.{at_most, score_static}
use graduationp.FileScorer.Sandbox.{score_sandbox}
use graduationp.FileScorer.Report.{build_summary, build_explanation}

-- `_get_verdict`
unfoldable pub get_verdict : ℕ → String × String
get_verdict score =
    if leb score 20
    then ("safe", "Safe")
    else if leb score 50
    then ("suspicious", "Suspicious")
    else if leb score 80
    then ("likely_malicious", "Likely Malicious")
    else ("malicious", "Malicious")

-- from the cap on
unfoldable pub result_of : Findings → ScoringResult
result_of f =
    let total = at_most 100 f.points in
    let (verdict, label) = get_verdict total in
    record {
      score = total;
      verdict = verdict;
      verdict_label = label;
      summary = build_summary total;
      explanation = build_explanation total label f;
      breakdown = f.breakdown;
    }

unfoldable pub static_findings : Option StaticResult → Option Findings
static_findings none = some no_findings
static_findings (some r) = score_static r no_findings

unfoldable pub add_sandbox : Option SandboxResult → Findings → Findings
add_sandbox none f = f
add_sandbox (some r) f = score_sandbox r f

unfoldable pub after_static : Option SandboxResult → Option Findings → Option ScoringResult
after_static sandbox none = none
after_static sandbox (some f) = some (result_of (add_sandbox sandbox f))

-- `score`; an analysis that is None or empty is `none`, and so is the result where it raises
unfoldable pub score_file : Option StaticResult → Option SandboxResult → Option ScoringResult
score_file static sandbox = after_static sandbox (static_findings static)
