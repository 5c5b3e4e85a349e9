-- ===== src/FileScorer/Sandbox.antt =====
-- `_score_sandbox` of backend/engines/scanning/scoring.py.
use graduationp.Prelude.{
  ℕ, ◌+◌, ◌*◌, Bool, true, false, ◌&&◌, not, String, ◌==◌, ◌++ˢ◌, List, [], ◌∷◌, ◌++◌, Option, none,
  some, length, take, ltb, ◌==ℕ◌, show_nat, join, if◌then◌else◌, ℤ, pos, negsuc,
}
use graduationp.Prelude.Float.{Float, above, show_fixed}
use graduationp.Value.{show_int}
use graduationp.FileScorer.{SandboxResult}
use graduationp.FileScorer.Findings.{Findings, add_if}
use graduationp.FileScorer.Static.{at_most}

-- `exit_code != 0 and exit_code is not None`
abbrev is_error_code : Option ℤ → Bool
is_error_code none = false
is_error_code (some (pos n)) = not (n ==ℕ 0)
is_error_code (some (negsuc n)) = true

abbrev exit_text : SandboxResult → String
exit_text r =
    "Process exited abnormally with code "
    ++ˢ (elim r.exit_code [ none ↦ "None" | some z ↦ show_int z ])
    ++ˢ ". This could indicate a crash, anti-analysis behavior, or "
    ++ˢ "the program requires specific conditions to run."

-- a forced kill on timeout is expected
unfoldable pub score_exit : SandboxResult → Findings → Findings
score_exit r f =
    add_if (not r.timed_out && is_error_code r.exit_code) "abnormal_exit" 20 (exit_text r) f

abbrev timeout_text : String
timeout_text =
    "Process exceeded the allowed execution time. This may indicate an infinite loop, sleep-based "
    ++ˢ "evasion, or waiting for user interaction."

unfoldable pub score_timeout : SandboxResult → Findings → Findings
score_timeout r f = add_if r.timed_out "timeout" 10 timeout_text f

-- `x and x > n`
unfoldable pub is_above : ℕ → Option Float → Bool
unfolding above
is_above n none = false
is_above n (some x) = above n x

abbrev one_decimal : Option Float → String
one_decimal x = elim x [ none ↦ "" | some y ↦ show_fixed 1 y ]

unfoldable pub score_cpu : SandboxResult → Findings → Findings
score_cpu r f =
    add_if (is_above 80 r.peak_cpu_percent) "high_cpu" 5
      ("High CPU usage detected ("
        ++ˢ one_decimal r.peak_cpu_percent
        ++ˢ "%). Could indicate cryptomining, intensive computation, or DoS behavior.")
      f

unfoldable pub score_memory : SandboxResult → Findings → Findings
score_memory r f =
    add_if (is_above 500 r.peak_memory_mb) "high_memory" 5
      ("High memory consumption ("
        ++ˢ one_decimal r.peak_memory_mb
        ++ˢ " MB). May indicate memory-based attacks or resource exhaustion attempts.")
      f

-- the points of the file operations before the cap
abbrev file_points : SandboxResult → ℕ
file_points r =
    length r.files_created * 3 + length r.files_modified * 4 + length r.files_deleted * 5

-- one of `file_details`
abbrev file_detail : String → List String → List String
file_detail word files =
    if ltb 0 (length files) then (word ++ˢ show_nat (length files)) ∷ [] else []

unfoldable pub score_files : SandboxResult → Findings → Findings
score_files r f =
    add_if (ltb 0 (file_points r)) "file_operations" (at_most 25 (file_points r))
      ("File system activity detected: "
        ++ˢ join ", " (
            file_detail "created " r.files_created
            ++ file_detail "modified " r.files_modified
            ++ file_detail "deleted " r.files_deleted)
        ++ˢ " file(s). Programs that modify many files could be droppers, installers, or ransomware.")
      f

unfoldable pub score_registry : SandboxResult → Findings → Findings
score_registry r f =
    let n = length r.registry_modifications in
    add_if (ltb 0 n) "registry_modifications" (at_most 20 (n * 8))
      ("Registry modifications detected: "
        ++ˢ show_nat n
        ++ˢ " operation(s). Registry changes can establish persistence, modify system settings, "
        ++ˢ "or disable security features.")
      f

unfoldable pub score_network : SandboxResult → Findings → Findings
score_network r f =
    let n = length r.network_connections in
    add_if (ltb 0 n) "network_attempts" 15
      ("Network connection attempts: "
        ++ˢ show_nat n
        ++ˢ ". Even blocked attempts indicate the program wants to "
        ++ˢ "communicate externally, possibly for C2 or data exfiltration.")
      f

unfoldable pub score_children : SandboxResult → Findings → Findings
score_children r f =
    let n = length r.child_processes in
    add_if (ltb 0 n) "process_spawning" (at_most 15 (n * 5))
      ("Child processes created: "
        ++ˢ join ", " (take 3 r.child_processes)
        ++ˢ ". Spawning additional processes can indicate multi-stage payloads "
        ++ˢ "or attempts to elevate privileges.")
      f

-- the run that did not succeed: no points, and a note where there is a message
unfoldable pub add_note : SandboxResult → Findings → Findings
add_note r f = if r.error_message == "" then f else record f {
  explanations = f.explanations ++ ("Sandbox analysis note: " ++ˢ r.error_message) ∷ [];
}

-- the run that succeeded
unfoldable pub score_run : SandboxResult → Findings → Findings
score_run r f = score_children r (
    score_network r (
      score_registry r
        (score_files r (score_memory r (score_cpu r (score_timeout r (score_exit r f)))))))

unfoldable pub score_sandbox : SandboxResult → Findings → Findings
score_sandbox r f = if r.success then score_run r f else add_note r f
