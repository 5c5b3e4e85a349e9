-- ===== src/ScanCenter.antt =====
-- backend/engines/scancenter/scanner_orchestrator.py: the score of a scan and its explanation. The
-- child: how the two agree (Agreement).
pub mod Agreement
mod Tests
use graduationp.Prelude.{
  ℕ, ◌+◌, ◌/◌, ◌%◌, Bool, true, false, ◌&&◌, ◌||◌, not, String, ◌==◌, ◌++ˢ◌, List, [], ◌∷◌, Option,
  none, some, ℤ, pos, ◌+ℤ◌, pos_part, neg_part, leb, ◌==ℕ◌, min, max, elem, lower, if◌then◌else◌,
}
use graduationp.Value.{Value, as_int}

pub record EngineResult : Type 0 where
  pub status : String
  pub score : Value
  pub details : String

-- What the score reads of a run in the sandbox.
pub record SandboxSection : Type 0 where
  pub enabled : Bool
  pub executed : Bool
  pub exit_code : Option ℤ
  pub errors : List String

pub record FileInfo : Type 0 where
  pub name : String
  pub signed : Option Bool

-- The score, the risk and the label.
abbrev pub Verdict : Type 0
Verdict = ℕ × String × String

-- `_safe_int(v, 0)`
unfoldable pub safe_int : Value → ℤ
safe_int v = elim (as_int v) [ none ↦ pos 0 | some z ↦ z ]

abbrev known_safe_tools : List String
known_safe_tools =
    "rufus.exe" ∷ "7z.exe" ∷ "putty.exe" ∷ "winscp.exe" ∷ "sysinternals" ∷ "procmon.exe"
    ∷ "autoruns.exe" ∷ "wireshark.exe" ∷ "nmap.exe" ∷ "wget.exe" ∷ "curl.exe" ∷ []

abbrev is_empty {ℓ} : {A : Type ℓ} → List A → Bool
is_empty [] = true
is_empty (x ∷ xs) = false

-- `exit_code == 0`, and `exit_code and exit_code != 0`
abbrev pub is_zero : ℤ → Bool
is_zero z = pos_part z + neg_part z ==ℕ 0

abbrev exited_zero : Option ℤ → Bool
exited_zero none = false
exited_zero (some z) = is_zero z

abbrev exited_other : Option ℤ → Bool
exited_other none = false
exited_other (some z) = not (is_zero z)

unfoldable pub sandbox_score : SandboxSection → ℕ
sandbox_score s =
    let by_exit = if exited_other s.exit_code then 60 else 0 in
    let by_errors = if is_empty s.errors then by_exit else max by_exit 70 in
    if is_empty s.errors && exited_zero s.exit_code then 20 else by_errors

unfoldable pub clamav_source : EngineResult → Option ℤ
clamav_source r =
    if elem r.status ("unavailable" ∷ "error" ∷ "n/a" ∷ []) then none else some (safe_int r.score)

unfoldable pub sandbox_source : SandboxSection → Option ℕ
sandbox_source s = if s.enabled && s.executed then some (sandbox_score s) else none

-- `round(n / 2)`: a half goes to the even neighbour
unfoldable pub round_half : ℕ → ℕ
round_half n = n / 2 + (if n % 2 ==ℕ 1 && (n / 2) % 2 ==ℕ 1 then 1 else 0)

-- the average over the sources that there are, from 0 to 100; the weights are equal, and what is
-- below 0 counts as 0
unfoldable pub weighted_score : Option ℤ → Option ℕ → Option ℕ
weighted_score none none = none
weighted_score (some c) none = some (min 100 (pos_part c))
weighted_score none (some s) = some (min 100 s)
weighted_score (some c) (some s) = some (min 100 (round_half (pos_part (c +ℤ pos s))))

abbrev is_signed : FileInfo → Bool
is_signed f = elim f.signed [ none ↦ false | some b ↦ b ]

-- a file that is signed or a known tool
unfoldable pub is_trusted : FileInfo → Bool
is_trusted f = is_signed f || elem (lower f.name) known_safe_tools

unfoldable pub cap_trusted : Option FileInfo → ℕ → ℕ
cap_trusted none score = score
cap_trusted (some f) score = if is_trusted f then min 60 score else score

unfoldable pub risk_of : ℕ → String × String
risk_of score =
    if leb score 19
    then ("Low", "Clean")
    else if leb score 39
    then ("Medium", "Suspicious")
    else if leb score 69
    then ("High", "Likely Malicious")
    else ("Critical", "Malicious")

unfoldable pub verdict_of : Option FileInfo → Option ℕ → Verdict
verdict_of file none = (0, "Unknown", "Inconclusive")
verdict_of file (some weighted) =
    let score = cap_trusted file weighted in
    let (risk, label) = risk_of score in (score, risk, label)

-- `_compute_weighted_score`
unfoldable pub compute_weighted_score : EngineResult → SandboxSection → Option FileInfo → Verdict
compute_weighted_score clamav sandbox file =
    verdict_of file (weighted_score (clamav_source clamav) (sandbox_source sandbox))

pub record AiExplanation : Type 0 where
  pub one_line_summary : String
  pub risk_level : String
  pub top_reasons : List String
  pub what_to_do : List String

-- the summary and what to do
unfoldable pub advice : String → String × List String
advice risk =
    if elem risk ("High" ∷ "Critical" ∷ [])
    then (
      "This file appears dangerous. Do not open or run it.",
      "Quarantine or delete the file immediately." ∷ "Run a full system scan with your antivirus."
          ∷ "If you already ran it, disconnect from the internet and seek help." ∷ [],
    )
    else if risk == "Medium"
    then (
      "This file has suspicious characteristics.",
      "Avoid running this file until you can verify its source."
          ∷ "Check it with an external reputation or sandbox service for a second opinion." ∷ [],
    )
    else (
      "This file appears safe based on our analysis.",
      "No action needed. The file looks clean." ∷ [],
    )

unfoldable pub sandbox_reasons : SandboxSection → List String
sandbox_reasons s =
    if not s.executed
    then []
    else if is_empty s.errors
    then "Interactive sandbox session completed by analyst." ∷ []
    else "Sandbox execution encountered errors." ∷ []

unfoldable pub reasons : EngineResult → SandboxSection → List String
reasons clamav s =
    if elem clamav.status ("malicious" ∷ "detected" ∷ [])
    then ("ClamAV detected: " ++ˢ clamav.details) ∷ sandbox_reasons s
    else if clamav.status == "clean"
    then "ClamAV found no threats." ∷ sandbox_reasons s
    else sandbox_reasons s

-- `reasons or [...]`
abbrev or_automated : List String → List String
or_automated [] = "Automated analysis completed." ∷ []
or_automated (r ∷ rs) = r ∷ rs

-- `_build_explanation`, which does not read its score
unfoldable pub build_explanation : EngineResult → SandboxSection → ℕ → String → AiExplanation
build_explanation clamav sandbox score risk =
    let (summary, actions) = advice risk in
    record {
      one_line_summary = summary;
      risk_level = risk;
      top_reasons = or_automated (reasons clamav sandbox);
      what_to_do = actions;
    }
