-- ===== src/UrlScanner/Scan.antt =====
-- `scan_static` and `_build_signals` of backend/engines/scanning/url_scanner.py.
use Prim.Native.Char.{code}
use Prim.Native.String.{[], ◌∷◌}
use graduationp.Prelude.{
  ℕ, ◌+◌, Bool, false, ◌&&◌, ◌||◌, String, ◌==◌, List, ◌++◌, Option, none, some, is_some, length,
  ltb, ◌==ℕ◌, starts_with, if◌then◌else◌,
}
use graduationp.UrlScanner.{Evidence}
use graduationp.UrlScanner.Address.{is_digit}
use graduationp.UrlScanner.Validate.{
  Refuses, parse_error, Validation, Parsed, validate, parse, drop_prefix,
}
use graduationp.UrlScanner.Structure.{analyze_url_structure}
use graduationp.UrlScanner.Fetch.{Answer, Fetched, safe_fetch, not_fetched}
use graduationp.UrlScanner.Verdict.{Verdict, calculate_verdict}
use graduationp.UrlScanner.Cache.{Cache, get_cached, set_cached}

-- `iocs`
pub record Iocs : Type 0 where
  pub urls : List String
  pub domains : List String
  pub ips : List String

abbrev pub no_iocs : Iocs
no_iocs = record { urls = List.[]; domains = List.[]; ips = List.[] }

pub record Signals : Type 0 where
  pub has_redirects : Bool
  pub redirect_count : ℕ
  pub is_https : Bool
  pub is_ip_literal : Bool
  pub evidence_count : ℕ
  pub critical_count : ℕ
  pub high_count : ℕ
  pub medium_count : ℕ
  pub ioc_domains : ℕ
  pub ioc_ips : ℕ
  pub sandbox_used : Bool

-- `UrlScanResult` of a static scan; the times are left out, and `signals` are `none` before they are
-- built.
pub record UrlScanResult : Type 0 where
  pub input_url : String
  pub normalized_url : String
  pub fetched : Fetched
  pub signals : Option Signals
  pub evidence : List Evidence
  pub iocs : Iocs
  pub verdict : Verdict
  pub errors : List String

-- What is outside the model: the answer to a request, the URLs that `requests` then requests by
-- itself, since it follows redirects, what `urllib.parse` refuses of a location, the name of a cache entry (a hash), and the two
-- searches of the body by regular expressions; and the clock.
pub record Env : Type 0 where
  pub answer : String → Answer
  pub cache_key : String → String
  pub analyze_content : List ℕ → String → List Evidence
  pub extract_iocs : List ℕ → String → Iocs
  pub requests_available : Bool
  pub refuses : Refuses
  pub followed : String → List String
  pub now : ℕ

-- digits, and what is behind them; `none` where there is no digit
unfoldable pub skip_digits : String → Option String
skip_digits [] = none
skip_digits (c ∷ s) =
    let rest = skip_digits s in
    if is_digit (code c) then (if is_some rest then rest else some s) else none

abbrev after_point : String → Option String
after_point [] = none
after_point (c ∷ s) = if code c ==ℕ 46 then some s else none

-- `n` times digits and a point, and then digits
unfoldable pub dotted : ℕ → String → Bool
unfolding skip_digits
dotted Prim.Native.Nat.zero s = is_some (skip_digits s)
dotted (Prim.Native.Nat.suc n) s = elim (skip_digits s) [
  | none ↦ false
  | some t ↦ elim (after_point t) [ none ↦ false | some u ↦ dotted n u ]
]

-- `re.match(r"https?://\d+\.\d+\.\d+\.\d+", url)`
unfoldable pub is_ip_url : String → Bool
unfolding dotted drop_prefix
is_ip_url url =
    (starts_with url "http://" && dotted 3 (drop_prefix "http://" url))
    || (starts_with url "https://" && dotted 3 (drop_prefix "https://" url))

unfoldable pub count_severity : String → List Evidence → ℕ
count_severity severity List.[] = 0
count_severity severity (List.◌∷◌ e es) =
    (if e.severity == severity then 1 else 0) + count_severity severity es

-- `_build_signals`
unfoldable pub build_signals : String → Fetched → List Evidence → Iocs → Signals
build_signals normalized_url f evidence iocs = record {
  has_redirects = ltb 0 (length f.redirects);
  redirect_count = length f.redirects;
  is_https = starts_with normalized_url "https://";
  is_ip_literal = is_ip_url normalized_url;
  evidence_count = length evidence;
  critical_count = count_severity "critical" evidence;
  high_count = count_severity "high" evidence;
  medium_count = count_severity "medium" evidence;
  ioc_domains = length iocs.domains;
  ioc_ips = length iocs.ips;
  sandbox_used = false;
}

abbrev blocked_verdict : Verdict
blocked_verdict = record {
  score = 0;
  verdict = "blocked";
  verdict_label = "Blocked";
  summary = "URL was blocked during validation";
  explanation = "";
}

-- A result, the URLs that were requested, those of redirects included, and the cache afterwards.
pub record Outcome : Type 0 where
  pub result : UrlScanResult
  pub requested : List String
  pub cache : Cache UrlScanResult

-- from the signals on
unfoldable pub finish :
    String → String → Fetched → List Evidence → Iocs → List String → UrlScanResult
finish url normalized_url f evidence iocs errors = record {
  input_url = url;
  normalized_url = normalized_url;
  fetched = f;
  signals = some (build_signals normalized_url f evidence iocs);
  evidence = evidence;
  iocs = iocs;
  verdict = calculate_verdict evidence none;
  errors = errors;
}

-- the content, where there is some
unfoldable pub with_content_found : Env → String → String → Fetched → List Evidence → UrlScanResult
with_content_found env url normalized_url f evidence =
    if ltb 0 (length f.content)
    then finish url normalized_url f (evidence ++ env.analyze_content f.content f.final_url)
        (env.extract_iocs f.content f.final_url) List.[]
    else finish url normalized_url f evidence no_iocs List.[]

-- the steps behind the validation; `parse` raises where the URL cannot be parsed again
unfoldable pub analyze :
    Env → Bool → String → Validation → Option Parsed → UrlScanResult × List String
analyze env block_downloads url v none = (
  finish url v.normalized (not_fetched "") v.evidence no_iocs
      (List.◌∷◌ (parse_error env.refuses v.normalized) List.[]),
  List.[],
)
analyze env block_downloads url v (some p) =
    let evidence = v.evidence ++ analyze_url_structure v.normalized p in
    let f = safe_fetch v.normalized block_downloads (env.answer v.normalized) in
    if env.requests_available
    then (
      with_content_found env url v.normalized f (evidence ++ f.evidence),
      List.◌∷◌ v.normalized (env.followed v.normalized),
    )
    else (
      finish url v.normalized (not_fetched "") evidence no_iocs
          (List.◌∷◌ "requests library not available for HTTP fetching" List.[]),
      List.[],
    )

unfoldable pub blocked_result : String → Validation → UrlScanResult
blocked_result url v = record {
  input_url = url;
  normalized_url = v.normalized;
  fetched = not_fetched "";
  signals = none;
  evidence = v.evidence;
  iocs = no_iocs;
  verdict = blocked_verdict;
  errors = List.[];
}

-- the cache is written where there were no errors
unfoldable pub store :
    Env → Bool → String → UrlScanResult × List String → Cache UrlScanResult → Outcome
store env use_cache url (result, requested) c = record {
  result = result;
  requested = requested;
  cache =
      if use_cache && length result.errors ==ℕ 0
      then set_cached env.now (env.cache_key url) result c
      else c;
}

unfoldable pub scan_fresh : Env → String → Bool → Bool → Bool → Cache UrlScanResult → Outcome
scan_fresh env url block_private_ips block_downloads use_cache c =
    let v = validate env.refuses url block_private_ips in
    if v.valid
    then store env use_cache url
        (analyze env block_downloads url v (parse env.refuses v.normalized)) c
    else record { result = blocked_result url v; requested = List.[]; cache = c }

unfoldable pub on_lookup :
    Env → String → Bool → Bool → Bool → Option UrlScanResult → Cache UrlScanResult → Outcome
on_lookup env url block_private_ips block_downloads use_cache (some r) c = record {
  result = r;
  requested = List.[];
  cache = c;
}
on_lookup env url block_private_ips block_downloads use_cache none c =
    scan_fresh env url block_private_ips block_downloads use_cache c

-- `scan_static`
unfoldable pub scan_static : Env → String → Bool → Bool → Bool → Cache UrlScanResult → Outcome
scan_static env url block_private_ips block_downloads use_cache c =
    let (hit, left) = get_cached env.now (env.cache_key url) c in
    if use_cache
    then on_lookup env url block_private_ips block_downloads use_cache hit left
    else scan_fresh env url block_private_ips block_downloads use_cache c
