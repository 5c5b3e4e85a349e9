-- ===== src/FileScorer.antt =====
-- backend/engines/scanning/scoring.py: a threat score for a file, from its static analysis and from
-- its run in the sandbox.
-- The children: the points and the texts that a finding adds (Findings), the static part (Static), the
-- run (Sandbox), the sentences (Report), the score (Score), and what is true of it.
pub mod Findings
pub mod Static
pub mod Sandbox
pub mod Report
pub mod Score
pub mod Account
pub mod Bounds
pub mod Runs
pub mod Table
mod Tests
use graduationp.Prelude.{ℕ, Bool, String, List, Option, ℤ}
use graduationp.Prelude.Dict.{Dict}
use graduationp.Prelude.Float.{Float}
use graduationp.Value.{Value}

-- `result["groq_analysis"]` where it is a dictionary that is not empty. A key that is missing is
-- `none`.
pub record Groq : Type 0 where
  pub score : Option Value
  pub verdict : Option String

-- An entry of "sections": a dictionary, with "" for a name that is missing, or something else, on
-- which `.get("name", "").strip()` raises.
pub data Section : Type 0 where
  named : String → Section
  other : Section

-- `result["pe_info"]`, where it is a dictionary. A missing list is an empty one; None, or another value
-- that cannot be gone through, is `none`.
pub record PeInfo : Type 0 where
  pub entropy : Option Float
  pub imports : Option (List String)
  pub sections : Option (List Section)
  pub is_pe : Bool

-- `result["iocs"]`, which the code turns into a dictionary first; a list that is missing or None is
-- an empty one.
pub record Iocs : Type 0 where
  pub ips : List String
  pub urls : List String
  pub domains : List String
  pub registry_paths : List String
  pub registry_keys : List String
  pub emails : List String

-- What `_score_static` reads. A missing "pe_info" or "iocs" is one with nothing in it; None is
-- `none`.
pub record StaticResult : Type 0 where
  pub groq_analysis : Option Groq
  pub pe_info : Option PeInfo
  pub iocs : Option Iocs

-- What `_score_sandbox` reads. `exit_code` is 0 where the key is missing, and `none` for None; a
-- process is known by its name, "unknown" where that is missing.
pub record SandboxResult : Type 0 where
  pub success : Bool
  pub error_message : String
  pub timed_out : Bool
  pub exit_code : Option ℤ
  pub peak_cpu_percent : Option Float
  pub peak_memory_mb : Option Float
  pub files_created : List String
  pub files_modified : List String
  pub files_deleted : List String
  pub registry_modifications : List String
  pub network_connections : List String
  pub child_processes : List String

pub record ScoringResult : Type 0 where
  pub score : ℕ
  pub verdict : String
  pub verdict_label : String
  pub summary : String
  pub explanation : String
  pub breakdown : Dict ℕ
