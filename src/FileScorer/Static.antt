-- ===== src/FileScorer/Static.antt =====
-- `_score_static` of backend/engines/scanning/scoring.py.
use graduationp.Prelude.{
  ℕ, ◌+◌, ◌-◌, ◌*◌, ◌/◌, Bool, true, false, ◌&&◌, not, String, ◌==◌, ◌++ˢ◌, List, [], ◌∷◌, ◌++◌,
  Option, none, some, is_some, all, length, map, take, ltb, leb, lower, strip, starts_with, elem,
  show_nat, join, if◌then◌else◌, ℤ, pos, negsuc,
}
use graduationp.Prelude.Float.{above, show_fixed}
use graduationp.Value.{as_int}
use graduationp.FileScorer.{Section, Groq, PeInfo, Iocs, StaticResult}
use graduationp.FileScorer.Findings.{Findings, add_if}

abbrev pub suspicious_imports : List String
suspicious_imports =
    "CreateRemoteThread" ∷ "OpenProcess" ∷ "WriteProcessMemory" ∷ "ReadProcessMemory"
    ∷ "VirtualAllocEx" ∷ "NtUnmapViewOfSection" ∷ "QueueUserAPC" ∷ "SetThreadContext"
    ∷ "LoadLibraryA" ∷ "LoadLibraryW" ∷ "GetProcAddress" ∷ "VirtualAlloc" ∷ "VirtualProtect"
    ∷ "HeapCreate" ∷ "RegSetValueExA" ∷ "RegSetValueExW" ∷ "RegCreateKeyExA" ∷ "CreateServiceA"
    ∷ "CreateServiceW" ∷ "IsDebuggerPresent" ∷ "CheckRemoteDebuggerPresent"
    ∷ "NtQueryInformationProcess" ∷ "GetTickCount" ∷ "QueryPerformanceCounter" ∷ "CryptEncrypt"
    ∷ "CryptDecrypt" ∷ "CryptAcquireContextA" ∷ "CredEnumerateA" ∷ "CredEnumerateW" ∷ "WSAStartup"
    ∷ "socket" ∷ "connect" ∷ "send" ∷ "recv" ∷ "InternetOpenA" ∷ "InternetOpenW"
    ∷ "HttpOpenRequestA" ∷ "URLDownloadToFileA" ∷ "URLDownloadToFileW" ∷ "SetWindowsHookExA"
    ∷ "SetWindowsHookExW" ∷ "GetAsyncKeyState" ∷ "GetKeyState" ∷ "BitBlt" ∷ "GetDC"
    ∷ "CreateCompatibleDC" ∷ []

abbrev normal_names : List String
normal_names =
    ".text" ∷ ".data" ∷ ".rdata" ∷ ".bss" ∷ ".idata" ∷ ".edata" ∷ ".reloc" ∷ ".rsrc" ∷ ".tls"
    ∷ ".pdata" ∷ ".gfids" ∷ ".00cfg" ∷ []

-- `min(a, b)`
abbrev pub at_most : ℕ → ℕ → ℕ
at_most bound n = if leb n bound then n else bound

-- `max(0, min(100, z))`
unfoldable pub clamp : ℤ → ℕ
clamp (pos n) = at_most 100 n
clamp (negsuc n) = 0

-- `int(groq.get("score", 0))`; `none` is a TypeError or a ValueError
unfoldable pub groq_int : Groq → Option ℤ
unfolding as_int
groq_int g = elim g.score [ none ↦ some (pos 0) | some v ↦ as_int v ]

abbrev groq_text : Groq → ℕ → String
groq_text g score =
    "Groq AI classified the PE metadata as "
    ++ˢ (elim g.verdict [ none ↦ "Unknown" | some s ↦ s ])
    ++ˢ " ("
    ++ˢ show_nat score
    ++ˢ "/100)."

-- `int(groq_score * 0.5)` is the half, rounded down
unfoldable pub groq_findings : Groq → Option ℤ → Findings → Option Findings
groq_findings g none f = none
groq_findings g (some z) f = some (add_if true "groq_ai" (clamp z / 2) (groq_text g (clamp z)) f)

-- `isinstance(groq, dict) and groq`
unfoldable pub score_groq : Option Groq → Findings → Option Findings
unfolding groq_findings
score_groq none f = some f
score_groq (some g) f = groq_findings g (groq_int g) f

unfoldable pub is_packed : PeInfo → Bool
unfolding above
is_packed pe = elim pe.entropy [ none ↦ false | some x ↦ above 7 x ]

abbrev entropy_text : PeInfo → String
entropy_text pe =
    "File has high entropy ("
    ++ˢ (elim pe.entropy [ none ↦ "" | some x ↦ show_fixed 2 x ])
    ++ˢ "/8.0), suggesting it may be packed or encrypted to hide its true contents from analysis."

unfoldable pub score_entropy : PeInfo → Findings → Findings
score_entropy pe f = add_if (is_packed pe) "high_entropy" 10 (entropy_text pe) f

-- `[x for x in xs if p(x)]`
abbrev filter {ℓ} : {A : Type ℓ} → (A → Bool) → List A → List A
filter p [] = []
filter p (x ∷ xs) = let rest = filter p xs in if p x then x ∷ rest else rest

abbrev listed {ℓ} : {A : Type ℓ} → Option (List A) → List A
listed none = []
listed (some xs) = xs

unfoldable pub suspicious_found : PeInfo → List String
suspicious_found pe = filter (λ name. elem name suspicious_imports) (listed pe.imports)

abbrev imports_text : List String → String
imports_text found =
    "Suspicious API imports detected: "
    ++ˢ join ", " (take 6 found)
    ++ˢ (if ltb 6 (length found) then " (+" ++ˢ show_nat (length found - 6) ++ˢ " more)" else "")
    ++ˢ ". These functions are commonly used by malware for tasks like "
    ++ˢ "code injection, keylogging, or evading detection."

unfoldable pub score_imports : PeInfo → Findings → Findings
score_imports pe f =
    let found = suspicious_found pe in
    add_if (ltb 0 (length found)) "suspicious_imports" (at_most 25 (length found * 5))
      (imports_text found) f

abbrev is_unusual : String → Bool
is_unusual name =
    not (name == "")
    && not (elem (lower name) (map lower normal_names))
    && not (starts_with name ".")

abbrev name_of : Section → String
name_of (Section.named s) = s
name_of Section.other = ""

abbrev is_named : Section → Bool
is_named (Section.named s) = true
is_named Section.other = false

-- The two loops raise neither on their list nor on one of the sections.
unfoldable pub is_readable : PeInfo → Bool
is_readable pe =
    is_some pe.imports && (elim pe.sections [ none ↦ false | some xs ↦ all is_named xs ])

unfoldable pub unusual_sections : PeInfo → List String
unusual_sections pe = filter is_unusual (map strip (map name_of (listed pe.sections)))

abbrev sections_text : List String → String
sections_text found =
    "Unusual PE sections found: "
    ++ˢ join ", " (take 3 found)
    ++ˢ ". Non-standard section names may indicate custom packers or obfuscation."

unfoldable pub score_sections : PeInfo → Findings → Findings
score_sections pe f =
    let found = unusual_sections pe in
    add_if (ltb 0 (length found)) "unusual_sections" (at_most 20 (length found * 8))
      (sections_text found) f

-- an indicator of one kind: its points, and what is said of it
abbrev ioc_part : List String → ℕ → ℕ → String → ℕ × List String → ℕ × List String
ioc_part found weight bound words (pts, details) =
    if ltb 0 (length found)
    then (
      pts + at_most bound (length found * weight),
      details ++ (show_nat (length found) ++ˢ words) ∷ [],
    )
    else (pts, details)

abbrev weight : Bool → ℕ → ℕ → ℕ
weight is_pe_binary pe other = if is_pe_binary then pe else other

-- `iocs.get("registry_paths") or iocs.get("registry_keys")`
abbrev registry_of : Iocs → List String
registry_of i = if ltb 0 (length i.registry_paths) then i.registry_paths else i.registry_keys

-- `ioc_pts` and `ioc_details` before the cap
unfoldable pub ioc_sum : Bool → Iocs → ℕ × List String
ioc_sum pe i = ioc_part i.emails (weight pe 1 5) 10 " email indicator(s)" (
    ioc_part (registry_of i) (weight pe 4 12) 15 " registry path(s)" (
      ioc_part i.domains (weight pe 1 8) 15 " domain(s)" (
        ioc_part i.urls (weight pe 2 10) 20 " URL(s)"
          (ioc_part i.ips (weight pe 2 8) 15 " IP address(es)" (0, [])))))

abbrev iocs_text : List String → String
iocs_text details =
    "Indicators of Compromise found: "
    ++ˢ join ", " details
    ++ˢ ". Embedded network addresses or registry paths may indicate "
    ++ˢ "communication with remote servers or system persistence mechanisms."

unfoldable pub score_iocs : Bool → Iocs → Findings → Findings
score_iocs pe i f =
    let (pts, details) = ioc_sum pe i in
    add_if (ltb 0 pts) "iocs" (at_most (weight pe 10 30) pts) (iocs_text details) f

-- The findings of the PE header and of the indicators. `pe_info.get("is_pe")` raises an
-- AttributeError where "pe_info" is None, and `iocs.get` where "iocs" is. Where a loop over the header
-- raises, nothing of what was found before is kept.
unfoldable pub score_rest : Option PeInfo → Option Iocs → Findings → Option Findings
score_rest none i f = none
score_rest (some pe) none f = none
score_rest (some pe) (some i) f =
    if not (is_readable pe)
    then none
    else some (score_iocs pe.is_pe i (score_sections pe (score_imports pe (score_entropy pe f))))

-- nothing is left to do after an exception
unfoldable pub after_groq : StaticResult → Option Findings → Option Findings
unfolding score_rest
after_groq r none = none
after_groq r (some f) = score_rest r.pe_info r.iocs f

-- `none` is an exception
unfoldable pub score_static : StaticResult → Findings → Option Findings
score_static r f = after_groq r (score_groq r.groq_analysis f)
