-- ===== src/FileScorer/Account.antt =====
-- What the breakdown of backend/engines/scanning/scoring.py adds up to.
use graduationp.FileScorer.Score.{result_of, after_static, score_file, add_sandbox, static_findings}
use graduationp.FileScorer.{ℤ, ScoringResult, Groq, StaticResult, Iocs, SandboxResult, PeInfo}
use graduationp.FileScorer.Sandbox.{
  add_note, score_run, score_memory, score_children, score_cpu, score_files, score_sandbox,
  score_network, score_exit, score_timeout, score_registry,
}
use graduationp.FileScorer.Static.{
  is_readable, score_static, at_most, groq_int, groq_findings, score_rest, score_sections,
  score_imports, score_iocs, score_groq, after_groq, score_entropy,
}
use graduationp.Prelude.{
  none, ap, if_cases, refl, some, IfSome, Option, drop, ℕ, ◌+◌, Bool, true, false, not, String,
  ◌==◌, List, [], ◌∷◌, All, all, ◌≡◌, arith,
}
use graduationp.Prelude.Dict.{lookup, Dict, insert, has_key, has_key-insert}
use graduationp.FileScorer.Findings.{no_findings, Findings, add, add_if}

-- the points of a breakdown
abbrev pub total : Dict ℕ → ℕ
total [] = 0
total ((k, n) ∷ d) = n + total d

-- The points are what the breakdown adds up to, and some keys are not in it yet.
unfoldable pub Pending : List String → Findings → Type 0
Pending keys f = (f.points ≡ total f.breakdown) × All (λ k. has_key k f.breakdown ≡ false) keys

insert-total :
    (k : String) (n : ℕ) (d : Dict ℕ) → has_key k d ≡ false → total (insert k n d) ≡ total d + n
unfolding insert has_key
insert-total k n [] fresh = omega arith
insert-total k n ((j, m) ∷ d) fresh = ground (arith, insert-total k n d)

insert-All :
    (keys : List String) (k : String) (n : ℕ) (d : Dict ℕ)
    → all (λ j. not (k == j)) keys ≡ true
    → All (λ j. has_key j d ≡ false) keys
    → All (λ j. has_key j (insert k n d) ≡ false) keys
insert-All [] k n d other free = free
insert-All (j ∷ keys) k n d other (one, free) =
    let differ : ((k == j) ≡ false) × (all (λ j. not (k == j)) keys ≡ true) =
      ground (arith, other) in
    (ground (arith, has_key-insert k j n d, differ, one), insert-All keys k n d differ.1 free)

-- a test books its own key, whatever its outcome
add_if-Pending :
    (b : Bool) (k : String) (keys : List String) (n : ℕ) (text : String) (f : Findings)
    → all (λ j. not (k == j)) keys ≡ true
    → Pending (k ∷ keys) f
    → Pending keys (add_if b k n text f)
unfolding Pending add_if add
add_if-Pending true k keys n text f other (sum, (fresh, free)) =
    (omega (arith, sum, insert-total k n f.breakdown fresh), insert-All keys k n _ other free)
add_if-Pending false k keys n text f other (sum, (fresh, free)) = (sum, free)

-- the keys in the order of the tests
abbrev all_keys : List String
all_keys =
    "groq_ai" ∷ "high_entropy" ∷ "suspicious_imports" ∷ "unusual_sections" ∷ "iocs"
    ∷ "abnormal_exit" ∷ "timeout" ∷ "high_cpu" ∷ "high_memory" ∷ "file_operations"
    ∷ "registry_modifications" ∷ "network_attempts" ∷ "process_spawning" ∷ []

-- The first `n` tests are done.
abbrev pub Booked : ℕ → Findings → Type 0
Booked n = Pending (drop n all_keys)

entropy-Booked : (pe : PeInfo) (f : Findings) → Booked 1 f → Booked 2 (score_entropy pe f)
unfolding score_entropy
entropy-Booked pe f = add_if-Pending _ "high_entropy" (drop 2 all_keys) _ _ f refl

imports-Booked : (pe : PeInfo) (f : Findings) → Booked 2 f → Booked 3 (score_imports pe f)
unfolding score_imports
imports-Booked pe f = add_if-Pending _ "suspicious_imports" (drop 3 all_keys) _ _ f refl

sections-Booked : (pe : PeInfo) (f : Findings) → Booked 3 f → Booked 4 (score_sections pe f)
unfolding score_sections
sections-Booked pe f = add_if-Pending _ "unusual_sections" (drop 4 all_keys) _ _ f refl

iocs-Booked : (b : Bool) (i : Iocs) (f : Findings) → Booked 4 f → Booked 5 (score_iocs b i f)
unfolding score_iocs
iocs-Booked b i f = add_if-Pending _ "iocs" (drop 5 all_keys) _ _ f refl

exit-Booked : (r : SandboxResult) (f : Findings) → Booked 5 f → Booked 6 (score_exit r f)
unfolding score_exit
exit-Booked r f = add_if-Pending _ "abnormal_exit" (drop 6 all_keys) _ _ f refl

timeout-Booked : (r : SandboxResult) (f : Findings) → Booked 6 f → Booked 7 (score_timeout r f)
unfolding score_timeout
timeout-Booked r f = add_if-Pending _ "timeout" (drop 7 all_keys) _ _ f refl

cpu-Booked : (r : SandboxResult) (f : Findings) → Booked 7 f → Booked 8 (score_cpu r f)
unfolding score_cpu
cpu-Booked r f = add_if-Pending _ "high_cpu" (drop 8 all_keys) _ _ f refl

memory-Booked : (r : SandboxResult) (f : Findings) → Booked 8 f → Booked 9 (score_memory r f)
unfolding score_memory
memory-Booked r f = add_if-Pending _ "high_memory" (drop 9 all_keys) _ _ f refl

files-Booked : (r : SandboxResult) (f : Findings) → Booked 9 f → Booked 10 (score_files r f)
unfolding score_files
files-Booked r f = add_if-Pending _ "file_operations" (drop 10 all_keys) _ _ f refl

registry-Booked : (r : SandboxResult) (f : Findings) → Booked 10 f → Booked 11 (score_registry r f)
unfolding score_registry
registry-Booked r f = add_if-Pending _ "registry_modifications" (drop 11 all_keys) _ _ f refl

network-Booked : (r : SandboxResult) (f : Findings) → Booked 11 f → Booked 12 (score_network r f)
unfolding score_network
network-Booked r f = add_if-Pending _ "network_attempts" (drop 12 all_keys) _ _ f refl

children-Booked : (r : SandboxResult) (f : Findings) → Booked 12 f → Booked 13 (score_children r f)
unfolding score_children
children-Booked r f = add_if-Pending _ "process_spawning" (drop 13 all_keys) _ _ f refl

groq_findings-Booked :
    (g : Groq) (z : Option ℤ) (f : Findings) → Booked 0 f → IfSome (Booked 1) (groq_findings g z f)
unfolding groq_findings
groq_findings-Booked g none f booked = tt
groq_findings-Booked g (some z) f booked =
    add_if-Pending true "groq_ai" (drop 1 all_keys) _ _ f refl booked

groq-Booked : (g : Option Groq) (f : Findings) → Booked 0 f → IfSome (Booked 1) (score_groq g f)
unfolding score_groq Pending
groq-Booked none f (sum, (fresh, free)) = (sum, free)
groq-Booked (some g) f booked = groq_findings-Booked g (groq_int g) f booked

score_rest-Booked :
    (pe : Option PeInfo) (i : Option Iocs) (f : Findings)
    → Booked 1 f
    → IfSome (Booked 5) (score_rest pe i f)
unfolding score_rest
score_rest-Booked none i f booked = tt
score_rest-Booked (some pe) none f booked = tt
score_rest-Booked (some pe) (some i) f booked =
    if_cases (IfSome (Booked 5)) (not (is_readable pe)) tt (
      iocs-Booked pe.is_pe i _
        (sections-Booked pe _ (imports-Booked pe _ (entropy-Booked pe _ booked))))

after_groq-Booked :
    (r : StaticResult) (o : Option Findings)
    → IfSome (Booked 1) o
    → IfSome (Booked 5) (after_groq r o)
unfolding after_groq
after_groq-Booked r none booked = tt
after_groq-Booked r (some f) booked = score_rest-Booked r.pe_info r.iocs f booked

run-Booked : (r : SandboxResult) (f : Findings) → Booked 5 f → Booked 13 (score_run r f)
unfolding score_run
run-Booked r f booked = children-Booked r _ (
    network-Booked r _ (
      registry-Booked r _ (
        files-Booked r _
          (memory-Booked r _ (cpu-Booked r _ (timeout-Booked r _ (exit-Booked r _ booked)))))))

-- The points are what the breakdown adds up to.
abbrev pub Sums : Findings → Type 0
Sums f = f.points ≡ total f.breakdown

add_note-Sums : (r : SandboxResult) (f : Findings) → Sums f → Sums (add_note r f)
unfolding add_note
add_note-Sums r f sums = if_cases Sums (r.error_message == "") sums sums

score_sandbox-Sums : (r : SandboxResult) (f : Findings) → Booked 5 f → Sums (score_sandbox r f)
unfolding score_sandbox Pending
score_sandbox-Sums r f booked =
    if_cases Sums r.success (run-Booked r f booked).0 (add_note-Sums r f booked.0)

add_sandbox-Sums :
    (sandbox : Option SandboxResult) (f : Findings) → Booked 5 f → Sums (add_sandbox sandbox f)
unfolding add_sandbox Pending
add_sandbox-Sums none f booked = booked.0
add_sandbox-Sums (some r) f booked = score_sandbox-Sums r f booked

none_booked : (keys : List String) → Pending keys no_findings
unfolding Pending has_key lookup
none_booked [] = (refl, tt)
none_booked (k ∷ keys) = (refl, (refl, (none_booked keys).1))

static_findings-Booked : (static : Option StaticResult) → IfSome (Booked 5) (static_findings static)
unfolding static_findings score_static
static_findings-Booked none = none_booked _
static_findings-Booked (some r) =
    after_groq-Booked r _ (groq-Booked r.groq_analysis no_findings (none_booked all_keys))

-- What the entries of the breakdown add up to is the score, up to 100.
unfoldable pub Explained : ScoringResult → Type 0
Explained r = r.score ≡ at_most 100 (total r.breakdown)

result_of-Explained : (f : Findings) → Sums f → Explained (result_of f)
unfolding result_of Explained
result_of-Explained f sums = ap (at_most 100) sums

after_static-Explained :
    (sandbox : Option SandboxResult) (o : Option Findings)
    → IfSome (Booked 5) o
    → IfSome Explained (after_static sandbox o)
unfolding after_static
after_static-Explained sandbox none booked = tt
after_static-Explained sandbox (some f) booked =
    result_of-Explained _ (add_sandbox-Sums sandbox f booked)

-- Whatever was found, the entries of the breakdown add up to the score, up to the cap at 100, where
-- the scorer returns a result.
pub score_file-Explained :
    (static : Option StaticResult) (sandbox : Option SandboxResult)
    → IfSome Explained (score_file static sandbox)
unfolding score_file
score_file-Explained static sandbox =
    after_static-Explained sandbox _ (static_findings-Booked static)
