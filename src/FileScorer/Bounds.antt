-- ===== src/FileScorer/Bounds.antt =====
-- Bounds on a score of backend/engines/scanning/scoring.py, and its verdict.
use graduationp.FileScorer.{StaticResult, ScoringResult, SandboxResult, Iocs, PeInfo}
use graduationp.FileScorer.Static.{
  is_readable, score_rest, score_groq, after_groq, score_static, unusual_sections, suspicious_found,
  ioc_sum, at_most, score_entropy, score_imports, score_sections, score_iocs,
}
use graduationp.FileScorer.Sandbox.{
  score_children, score_network, score_registry, score_files, score_memory, score_cpu,
  score_timeout, score_exit, score_run,
}
use graduationp.Prelude.{
  none, some, eq_iff, ◌*◌, length, ◌≢◌, true, ℕ, ◌+◌, ◌≤◌, Bool, String, ◌≡◌, arith,
}
use graduationp.Decision.{first_band, bands_of, score_band}
use graduationp.FileScorer.Findings.{no_findings, Findings, add, add_if}
use graduationp.FileScorer.Score.{
  add_sandbox, after_static, static_findings, score_file, result_of, get_verdict,
}

-- The verdict of the file scorer is the one that the decision engine gives the score under its policy
-- "scoring", for every score.
verdict_is_decision_band : (score : ℕ) → get_verdict score ≡ score_band "scoring" score
unfolding get_verdict score_band bands_of first_band
verdict_is_decision_band score = ground arith

-- A test adds its points or none.
add_if-range :
    (b : Bool) (k : String) (n : ℕ) (t : String) (f : Findings)
    → (f.points ≤ (add_if b k n t f).points) × ((add_if b k n t f).points ≤ f.points + n)
unfolding add_if add
add_if-range b k n t f = ground arith

at_most-le : (bound n : ℕ) → at_most bound n ≤ bound
at_most-le bound n = ground arith

score_entropy-most : (pe : PeInfo) (f : Findings) → (score_entropy pe f).points ≤ f.points + 10
unfolding score_entropy
score_entropy-most pe f = omega (arith, add_if-range _ _ 10 _ f)

score_imports-most : (pe : PeInfo) (f : Findings) → (score_imports pe f).points ≤ f.points + 25
unfolding score_imports
score_imports-most pe f = omega (
  arith,
  add_if-range _ _ (at_most 25 (length (suspicious_found pe) * 5)) _ f,
  at_most-le 25 (length (suspicious_found pe) * 5),
)

score_sections-most : (pe : PeInfo) (f : Findings) → (score_sections pe f).points ≤ f.points + 20
unfolding score_sections
score_sections-most pe f = omega (
  arith,
  add_if-range _ _ (at_most 20 (length (unusual_sections pe) * 8)) _ f,
  at_most-le 20 (length (unusual_sections pe) * 8),
)

score_iocs_pe-most : (i : Iocs) (f : Findings) → (score_iocs true i f).points ≤ f.points + 10
unfolding score_iocs
score_iocs_pe-most i f =
    omega (
      arith,
      add_if-range _ _ (at_most 10 (ioc_sum true i).0) _ f,
      at_most-le 10 (ioc_sum true i).0,
    )

score_pe-most :
    (pe : PeInfo) (i : Iocs) (f : Findings)
    → (score_iocs true i (score_sections pe (score_imports pe (score_entropy pe f)))).points
      ≤ f.points + 65
score_pe-most pe i f =
    let entropy = score_entropy pe f in
    let imports = score_imports pe entropy in
    omega (
      arith,
      score_entropy-most pe f,
      score_imports-most pe entropy,
      score_sections-most pe imports,
      score_iocs_pe-most i (score_sections pe imports),
    )

result_of_small :
    (f : Findings)
    → f.points ≤ 65
    → ((result_of f).score ≤ 65) × ((result_of f).verdict ≢ "malicious")
unfolding result_of get_verdict
result_of_small f small = ground (
  arith,
  eq_iff "safe" "malicious",
  eq_iff "suspicious" "malicious",
  eq_iff "likely_malicious" "malicious",
)

score_exit-le : (r : SandboxResult) (f : Findings) → f.points ≤ (score_exit r f).points
unfolding score_exit
score_exit-le r f = (add_if-range _ _ _ _ f).0

score_timeout-le : (r : SandboxResult) (f : Findings) → f.points ≤ (score_timeout r f).points
unfolding score_timeout
score_timeout-le r f = (add_if-range _ _ _ _ f).0

score_cpu-le : (r : SandboxResult) (f : Findings) → f.points ≤ (score_cpu r f).points
unfolding score_cpu
score_cpu-le r f = (add_if-range _ _ _ _ f).0

score_memory-le : (r : SandboxResult) (f : Findings) → f.points ≤ (score_memory r f).points
unfolding score_memory
score_memory-le r f = (add_if-range _ _ _ _ f).0

score_files-le : (r : SandboxResult) (f : Findings) → f.points ≤ (score_files r f).points
unfolding score_files
score_files-le r f = (add_if-range _ _ _ _ f).0

score_registry-le : (r : SandboxResult) (f : Findings) → f.points ≤ (score_registry r f).points
unfolding score_registry
score_registry-le r f = (add_if-range _ _ _ _ f).0

score_network-le : (r : SandboxResult) (f : Findings) → f.points ≤ (score_network r f).points
unfolding score_network
score_network-le r f = (add_if-range _ _ _ _ f).0

score_children-le : (r : SandboxResult) (f : Findings) → f.points ≤ (score_children r f).points
unfolding score_children
score_children-le r f = (add_if-range _ _ _ _ f).0

pub score_run-le : (r : SandboxResult) (f : Findings) → f.points ≤ (score_run r f).points
unfolding score_run
score_run-le r f =
    let a = score_exit r f in
    let b = score_timeout r a in
    let c = score_cpu r b in
    let d = score_memory r c in
    let e = score_files r d in
    let g = score_registry r e in
    let h = score_network r g in
    omega (
      arith,
      score_exit-le r f,
      score_timeout-le r a,
      score_cpu-le r b,
      score_memory-le r c,
      score_files-le r d,
      score_registry-le r e,
      score_network-le r g,
      score_children-le r h,
    )

abbrev Small : ScoringResult → Type 0
Small res = (res.score ≤ 65) × (res.verdict ≢ "malicious")

-- A PE file with a header that can be read, for which there is neither an answer of the Groq classifier nor a run in the sandbox
-- gets a result with a score of at most 65, whatever its header and its indicators are, so the
-- verdict is never "malicious".
pe_alone_capped :
    (r : StaticResult) (pe : PeInfo) (i : Iocs)
    → r.groq_analysis ≡ none
    → r.pe_info ≡ some pe
    → r.iocs ≡ some i
    → pe.is_pe ≡ true
    → is_readable pe ≡ true
    → (res : ScoringResult) × (score_file (some r) none ≡ some res) × Small res
unfolding score_file static_findings score_static after_groq score_groq score_rest after_static
    add_sandbox
pe_alone_capped r pe i groq info iocs is_pe reads =
    let f =
      score_iocs true i (score_sections pe (score_imports pe (score_entropy pe no_findings))) in
    (
      result_of f,
      ground (arith, groq, info, iocs, is_pe, reads),
      result_of_small f (score_pe-most pe i no_findings),
    )
