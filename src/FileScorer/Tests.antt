-- ===== src/FileScorer/Tests.antt =====
-- Runs of backend/engines/scanning/scoring.py, and each theorem about it at an input.
use graduationp.FileScorer.Sandbox.{
  is_above, score_children, score_network, score_registry, score_files, score_memory, score_cpu,
  score_timeout, score_exit, score_run, score_sandbox,
}
use graduationp.FileScorer.Findings.{add, add_if}
use graduationp.FileScorer.Static.{
  is_readable, is_packed, score_entropy, suspicious_found, score_imports, unusual_sections,
  score_sections, ioc_sum, score_iocs, groq_findings, score_rest, groq_int, score_groq,
  score_static, after_groq,
}
use graduationp.FileScorer.Account.{score_file-Explained, Explained}
use graduationp.FileScorer.Report.{sorted_items}
use graduationp.FileScorer.Score.{add_sandbox, result_of, static_findings, after_static, score_file}
use graduationp.Prelude.{
  starts_with, lower, elem, strip, parse_nat, ℕ, true, false, [], ◌∷◌, none, some, IfSome, ◌≡◌,
  refl, negsuc,
}
use graduationp.Prelude.Float.{above, Float, show_fixed}
use graduationp.Value.{as_int, Value}
use mathlib.Core.Option as Option
use graduationp.FileScorer.{Section, Dict, PeInfo, Iocs, StaticResult, SandboxResult}

-- 7.125
abbrev entropy : Float
entropy = record { numerator = 57; exponent = 3 }

abbrev packed : PeInfo
packed = record {
  entropy = some entropy;
  imports = some ("send" ∷ "printf" ∷ "recv" ∷ []);
  sections = some (Section.named "UPX0" ∷ Section.named ".TEXT" ∷ Section.named " " ∷ []);
  is_pe = true;
}

abbrev indicators : Iocs
indicators = record {
  ips = "192.0.2.1" ∷ [];
  urls = [];
  domains = "a.example" ∷ "b.example" ∷ [];
  registry_paths = [];
  registry_keys = "HKLM" ∷ [];
  emails = [];
}

abbrev tool : StaticResult
tool = record { groq_analysis = none; pe_info = some packed; iocs = some indicators }

abbrev broken : StaticResult
broken = record tool {
  groq_analysis = some (record { score = some (Value.text "high"); verdict = none });
}

abbrev crash : SandboxResult
crash = record {
  success = true;
  error_message = "";
  timed_out = false;
  exit_code = some (negsuc 4);
  peak_cpu_percent = some (record { numerator = 161; exponent = 1 });
  peak_memory_mb = none;
  files_created = "a" ∷ "b" ∷ [];
  files_modified = [];
  files_deleted = "c" ∷ [];
  registry_modifications = [];
  network_connections = "192.0.2.1:80" ∷ [];
  child_processes = [];
}

abbrev unavailable : SandboxResult
unavailable = record crash { success = false; error_message = "Sandbox not available" }

shown_entropy : show_fixed 2 entropy ≡ "7.12"
unfolding show_fixed
shown_entropy = refl

tool_scores : Option.map (λ r. r.score) (score_file (some tool) none) ≡ some 36
unfolding score_file after_static static_findings score_static after_groq score_groq score_rest
    is_readable result_of add_sandbox score_iocs add_if ioc_sum add score_sections unusual_sections
    strip elem lower starts_with score_imports suspicious_found score_entropy is_packed above
tool_scores = refl

run_scores : Option.map (λ r. r.score) (score_file (some tool) (some crash)) ≡ some 87
unfolding score_file after_static static_findings score_static after_groq score_groq score_rest
    is_readable result_of add_sandbox score_iocs add_if ioc_sum add score_sections unusual_sections
    strip elem lower starts_with score_imports suspicious_found score_entropy is_packed above
    score_sandbox score_run score_exit score_timeout score_cpu score_memory score_files
    score_registry score_network score_children is_above
run_scores = refl

broken_raises : score_file (some broken) none ≡ none
unfolding score_file after_static static_findings score_static after_groq score_groq groq_findings
    groq_int as_int parse_nat strip
broken_raises = refl

score_file-Explained_example : IfSome Explained (score_file (some tool) (some crash))
score_file-Explained_example = score_file-Explained (some tool) (some crash)

abbrev entries : Dict ℕ
entries = ("iocs", 8) ∷ ("high_entropy", 10) ∷ ("unusual_sections", 8) ∷ []

sorted_entries :
    sorted_items entries ≡ ("high_entropy", 10) ∷ ("iocs", 8) ∷ ("unusual_sections", 8) ∷ []
unfolding sorted_items
sorted_entries = refl
