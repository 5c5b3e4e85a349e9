-- ===== src/FileScorer/Report.antt =====
-- The sentences of a score of backend/engines/scanning/scoring.py: `_build_summary` and
-- `_build_explanation`.
use graduationp.Prelude.{
  ℕ, suc, String, ◌++ˢ◌, List, [], ◌∷◌, ◌++◌, leb, ltb, ◌==ℕ◌, show_nat, join, length,
  if◌then◌else◌,
}
use graduationp.Prelude.Dict.{Dict}
use graduationp.FileScorer.Findings.{Findings}

unfoldable pub build_summary : ℕ → String
build_summary score =
    if score ==ℕ 0
    then "No threats detected. File appears clean."
    else if leb score 20
    then "Low risk (score: "
      ++ˢ show_nat score
      ++ˢ "/100). Minor indicators found but likely benign."
    else if leb score 50
    then "Moderate risk (score: "
      ++ˢ show_nat score
      ++ˢ "/100). Some concerning behaviors detected."
    else if leb score 80
    then "High risk (score: " ++ˢ show_nat score ++ˢ "/100). Multiple threat indicators present."
    else "Critical risk (score: "
      ++ˢ show_nat score
      ++ˢ "/100). Strong evidence of malicious behavior."

-- `sorted(d.items(), key=lambda x: -x[1])`: the largest first, and equal ones in their order
unfoldable pub place : String × ℕ → Dict ℕ → Dict ℕ
place e [] = e ∷ []
place e (x ∷ d) = let rest = place e d in if ltb e.1 x.1 then x ∷ rest else e ∷ x ∷ d

unfoldable pub sorted_items : Dict ℕ → Dict ℕ
unfolding place
sorted_items [] = []
sorted_items (e ∷ d) = place e (sorted_items d)

-- the sentences, with their numbers
unfoldable pub numbered : ℕ → List String → List String
numbered i [] = []
numbered i (text ∷ texts) = (show_nat i ++ˢ ". " ++ˢ text) ∷ "" ∷ numbered (suc i) texts

abbrev table_lines : Dict ℕ → List String
table_lines [] = []
table_lines ((category, pts) ∷ d) =
    ("  " ++ˢ category ++ˢ ": +" ++ˢ show_nat pts ++ˢ " points") ∷ table_lines d

abbrev finding_lines : List String → List String
finding_lines texts =
    if ltb 0 (length texts)
    then "The following indicators contributed to this assessment:" ∷ "" ∷ numbered 1 texts
    else "No concerning indicators were found during analysis."
      ∷ "The file appears to be safe based on available evidence." ∷ []

abbrev breakdown_lines : Dict ℕ → List String
breakdown_lines d =
    if ltb 0 (length d)
    then "--- Score Breakdown ---" ∷ table_lines (sorted_items d) ++ "" ∷ []
    else []

unfoldable pub recommendation : ℕ → List String
recommendation score =
    if leb score 20
    then "This file is likely safe to use. No action required." ∷ []
    else if leb score 50
    then "Exercise caution. Consider scanning with additional tools "
      ∷ "or researching the file's origin before running it." ∷ []
    else if leb score 80
    then "This file shows significant threat indicators. "
      ∷ "Do NOT run this file unless you are certain of its safety. "
      ∷ "Consider deleting or quarantining it." ∷ []
    else "This file is almost certainly malicious. "
      ∷ "DELETE this file immediately and scan your system for infections. "
      ∷ "Do not share or execute this file under any circumstances." ∷ []

unfoldable pub build_explanation : ℕ → String → Findings → String
build_explanation score verdict_label f = join "\n" (
    ("=== Threat Assessment: " ++ˢ verdict_label ++ˢ " (Score: " ++ˢ show_nat score ++ˢ "/100) ===")
      ∷ ""
      ∷ finding_lines f.explanations
    ++ breakdown_lines f.breakdown
    ++ "--- Recommendation ---" ∷ recommendation score)
