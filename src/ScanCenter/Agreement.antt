-- ===== src/ScanCenter/Agreement.antt =====
-- How the score of backend/engines/scancenter/scanner_orchestrator.py and its template of an explanation
-- agree.
use graduationp.Prelude.{
  if_split, ℕ, ◌≤◌, true, String, ◌==◌, Option, none, some, leb, ◌≡◌, refl, arith, elem,
}
use graduationp.ScanCenter.{
  AiExplanation, EngineResult, SandboxSection, FileInfo, Verdict, compute_weighted_score,
  verdict_of, risk_of, advice, build_explanation, cap_trusted, is_trusted, AiExplanation,
}

abbrev pub dangerous : String
dangerous = "This file appears dangerous. Do not open or run it."

advice_of_score : (score : ℕ) → ((advice (risk_of score).0).0 == dangerous) ≡ leb 40 score
unfolding advice risk_of elem
advice_of_score score =
    let Agree = λ (r : String × String). ((advice r.0).0 == dangerous) ≡ leb 40 score in
    if_split Agree (leb score 19) (λ low. ground (arith, low))
      (λ above_low.
        if_split Agree (leb score 39) (λ medium. ground (arith, medium))
          (λ above_medium.
            if_split Agree (leb score 69) (λ high. ground (arith, above_medium))
              (λ critical. ground (arith, above_medium))))

advice_of_verdict :
    (file : Option FileInfo) (weighted : Option ℕ)
    → ((advice (verdict_of file weighted).1).0 == dangerous) ≡ leb 40 (verdict_of file weighted).0
unfolding verdict_of advice elem
advice_of_verdict file none = refl
advice_of_verdict file (some weighted) = advice_of_score (cap_trusted file weighted)

-- The explanation of a scan: what Groq answered, or else the one from the template.
abbrev pub explain : Option AiExplanation → EngineResult → SandboxSection → Verdict → AiExplanation
explain none clamav sandbox v = build_explanation clamav sandbox v.0 v.1
explain (some ai) clamav sandbox v = ai

-- Where Groq gives no explanation, the summary that the template then gives warns of a dangerous file
-- exactly if the score of the scan is at least 40, whatever was scanned. What Groq writes is not
-- covered.
pub dangerous_iff :
    (clamav : EngineResult) (sandbox : SandboxSection) (file : Option FileInfo)
    → ((explain none clamav sandbox (compute_weighted_score clamav sandbox file)).one_line_summary
        == dangerous)
      ≡ leb 40 (compute_weighted_score clamav sandbox file).0
unfolding compute_weighted_score build_explanation
dangerous_iff clamav sandbox file = advice_of_verdict file _

capped :
    (f : FileInfo) (weighted : Option ℕ)
    → is_trusted f ≡ true
    → (verdict_of (some f) weighted).0 ≤ 60
unfolding verdict_of cap_trusted
capped f none trusted = omega arith
capped f (some weighted) trusted = ground (arith, trusted)

-- The score of a file that is signed or a known tool is at most 60.
trusted_capped_at_sixty :
    (clamav : EngineResult) (sandbox : SandboxSection) (f : FileInfo)
    → is_trusted f ≡ true
    → (compute_weighted_score clamav sandbox (some f)).0 ≤ 60
unfolding compute_weighted_score
trusted_capped_at_sixty clamav sandbox f trusted = capped f _ trusted
