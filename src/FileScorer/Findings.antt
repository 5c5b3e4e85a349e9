-- ===== src/FileScorer/Findings.antt =====
-- What a finding adds in backend/engines/scanning/scoring.py: points, an entry of the breakdown and a
-- sentence.
use graduationp.Prelude.{ℕ, ◌+◌, Bool, String, List, [], ◌∷◌, ◌++◌, if◌then◌else◌}
use graduationp.Prelude.Dict.{Dict, insert}

-- `points`, `self._breakdown` and `self._explanations`.
pub record Findings : Type 0 where
  pub points : ℕ
  pub breakdown : Dict ℕ
  pub explanations : List String

abbrev pub no_findings : Findings
no_findings = record { points = 0; breakdown = []; explanations = [] }

-- the body of a test: `points += pts`, `self._breakdown[key] = pts` and
-- `self._explanations.append(text)`
unfoldable pub add : String → ℕ → String → Findings → Findings
add key pts text f = record {
  points = f.points + pts;
  breakdown = insert key pts f.breakdown;
  explanations = f.explanations ++ text ∷ [];
}

-- a test, with its body
unfoldable pub add_if : Bool → String → ℕ → String → Findings → Findings
add_if b key pts text f = if b then add key pts text f else f
