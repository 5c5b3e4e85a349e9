-- ===== src/ScanCenter/Tests.antt =====
-- Runs of backend/engines/scancenter/scanner_orchestrator.py, and the theorem about it at an input.
use graduationp.Prelude.{true, false, ◌==◌, [], ◌∷◌, none, some, pos, leb, ◌≡◌, refl, elem}
use graduationp.Value.{Value, as_int}
use graduationp.ScanCenter.{
  EngineResult, SandboxSection, safe_int, sandbox_score, clamav_source, sandbox_source, round_half,
  weighted_score, cap_trusted, risk_of, verdict_of, compute_weighted_score, advice,
  build_explanation,
}
use graduationp.ScanCenter.Agreement.{dangerous, explain, dangerous_iff}

abbrev detected : EngineResult
detected = record { status = "detected"; score = Value.int (pos 85); details = "Eicar" }

abbrev unavailable : EngineResult
unavailable = record detected { status = "unavailable" }

abbrev clean_run : SandboxSection
clean_run = record { enabled = true; executed = true; exit_code = some (pos 0); errors = [] }

abbrev failed_run : SandboxSection
failed_run = record clean_run { errors = "timeout" ∷ [] }

abbrev no_run : SandboxSection
no_run = record clean_run { enabled = false; executed = false }

-- 52.5 goes to 52
diluted : compute_weighted_score detected clean_run none ≡ (52, "High", "Likely Malicious")
unfolding compute_weighted_score verdict_of weighted_score clamav_source sandbox_source
    sandbox_score safe_int as_int round_half cap_trusted risk_of elem
diluted = refl

-- a sandbox that fails makes a file malicious
failure_counts : compute_weighted_score unavailable failed_run none ≡ (70, "Critical", "Malicious")
unfolding compute_weighted_score verdict_of weighted_score clamav_source sandbox_source
    sandbox_score safe_int as_int round_half cap_trusted risk_of elem
failure_counts = refl

-- no source at all is explained as safe
called_safe :
    (explain none unavailable no_run
      (compute_weighted_score unavailable no_run none)).one_line_summary
    ≡ "This file appears safe based on our analysis."
unfolding compute_weighted_score verdict_of weighted_score clamav_source sandbox_source elem
    build_explanation advice
called_safe = refl

dangerous_iff_example :
    ((explain none detected clean_run
        (compute_weighted_score detected clean_run none)).one_line_summary
      == dangerous)
    ≡ leb 40 (compute_weighted_score detected clean_run none).0
dangerous_iff_example = dangerous_iff detected clean_run none
