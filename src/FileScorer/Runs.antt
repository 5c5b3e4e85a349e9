-- ===== src/FileScorer/Runs.antt =====
-- What a run in the sandbox changes in a score of backend/engines/scanning/scoring.py, and when the
-- scorer raises an exception.
use graduationp.FileScorer.Sandbox.{add_note, score_sandbox}
use graduationp.FileScorer.Static.{is_readable, groq_int}
use graduationp.Prelude.{
  ◌==◌, ℕ, ◌≤◌, Bool, true, false, String, Option, none, some, is_some, ◌≡◌, refl, ap, arith,
  if_cases,
}
use graduationp.Prelude.Dict.{Dict}
use mathlib.Core.Option as Option
use graduationp.FileScorer.{Groq, PeInfo, StaticResult, SandboxResult, ScoringResult}
use graduationp.FileScorer.Findings.{Findings}
use graduationp.FileScorer.Bounds.{score_run-le}
use graduationp.FileScorer.Score.{result_of, after_static, static_findings, add_sandbox, score_file}

-- what the score is made of; the sentences are left out
unfoldable pub rating : ScoringResult → ℕ × String × String × Dict ℕ
rating r = (r.score, r.verdict, r.verdict_label, r.breakdown)

note-rating :
    (run : SandboxResult) (f : Findings)
    → rating (result_of (add_note run f)) ≡ rating (result_of f)
unfolding add_note result_of rating
note-rating run f =
    if_cases (λ g. rating (result_of g) ≡ rating (result_of f)) (run.error_message == "") refl refl

after_static-failed :
    (run : SandboxResult) (o : Option Findings)
    → run.success ≡ false
    → Option.map rating (after_static (some run) o) ≡ Option.map rating (after_static none o)
unfolding after_static add_sandbox score_sandbox add_note
after_static-failed run none failed = refl
after_static-failed run (some f) failed = rw (failed) (ap some (note-rating run f))

-- A run in the sandbox that did not succeed changes neither the score, nor the verdict, nor the
-- breakdown: they are those of the static analysis alone.
failed_run_ignored :
    (static : Option StaticResult) (run : SandboxResult)
    → run.success ≡ false
    → Option.map rating (score_file static (some run)) ≡ Option.map rating (score_file static none)
unfolding score_file
failed_run_ignored static run failed = after_static-failed run (static_findings static) failed

-- No lower score, where there is one.
unfoldable pub NoLower : Option ScoringResult → Option ScoringResult → Type 0
NoLower none none = Unit
NoLower none (some s) = ⊥
NoLower (some r) none = ⊥
NoLower (some r) (some s) = r.score ≤ s.score

result_of-le : (f g : Findings) → f.points ≤ g.points → (result_of f).score ≤ (result_of g).score
unfolding result_of
result_of-le f g le = ground arith

add_sandbox-le : (run : SandboxResult) (f : Findings) → f.points ≤ (add_sandbox (some run) f).points
unfolding add_sandbox score_sandbox add_note
add_sandbox-le run f = ground (arith, score_run-le run f)

after_static-NoLower :
    (run : SandboxResult) (o : Option Findings)
    → NoLower (after_static none o) (after_static (some run) o)
unfolding after_static NoLower add_sandbox
after_static-NoLower run none = tt
after_static-NoLower run (some f) = result_of-le f (add_sandbox (some run) f) (add_sandbox-le run f)

-- A run in the sandbox never lowers the score of the static analysis alone, and neither brings nor
-- avoids an exception.
run_only_adds :
    (static : Option StaticResult) (run : SandboxResult)
    → NoLower (score_file static none) (score_file static (some run))
unfolding score_file
run_only_adds static run = after_static-NoLower run (static_findings static)

-- the score of the Groq classifier can be read as an integer
unfoldable pub groq_readable : Option Groq → Bool
groq_readable none = true
groq_readable (some g) = is_some (groq_int g)

-- the header of a PE file is there, and its two lists can be gone through
unfoldable pub header_readable : Option PeInfo → Bool
header_readable none = false
header_readable (some pe) = is_readable pe
