-- ===== src/UrlScanner/Limits.antt =====
-- Limits of backend/engines/scanning/url_scanner.py: what is requested, how much is read, and how much
-- is kept.
use graduationp.UrlScanner.Fetch.{
  is_download, answered, is_text_type, Response, FetchError, handle_response, safe_fetch, read_body,
  Fetched, after_read, max_content_size, read,
}
use graduationp.Prelude.{
  sym, ◌∙◌, ℕ, ◌+◌, ◌≤◌, Bool, true, false, String, List, [], ◌∷◌, ◌++◌, Option, none, some, length,
  All, ltb, ◌≡◌, refl, arith, if_cases, if_cases_true, if_split, length-append,
}
use graduationp.UrlScanner.Validate.{Parsed, validate}
use graduationp.UrlScanner.Guarded.{acceptable, validate_iff}
use graduationp.UrlScanner.Cache.{Cache}
use graduationp.UrlScanner.Scan.{
  Env, Outcome, UrlScanResult, analyze, store, scan_fresh, on_lookup, scan_static,
}

-- no request, or one for the normalized URL of a URL that may be reached, with the redirects that
-- `requests` follows behind it
unfoldable pub Allowed : Env → String → Bool → List String → Type 0
Allowed env url block [] = Unit
Allowed env url block (first ∷ others) =
    (acceptable env.refuses url block ≡ true)
    × (first ≡ (validate env.refuses url block).normalized)
    × (others ≡ env.followed first)

unfoldable AllowedResult : Env → String → Bool → UrlScanResult × List String → Type 0
AllowedResult env url block r = Allowed env url block r.1

unfoldable AllowedOutcome : Env → String → Bool → Outcome → Type 0
AllowedOutcome env url block o = Allowed env url block o.requested

analyze-Allowed :
    (env : Env) (downloads : Bool) (url : String) (block : Bool) (o : Option Parsed)
    → acceptable env.refuses url block ≡ true
    → AllowedResult env url block (analyze env downloads url (validate env.refuses url block) o)
unfolding AllowedResult analyze Allowed
analyze-Allowed env downloads url block none ok = tt
analyze-Allowed env downloads url block (some p) ok =
    if_cases (AllowedResult env url block) env.requests_available (ok, refl, refl) tt

store-Allowed :
    (env : Env) (use_cache : Bool) (url : String) (block : Bool) (r : UrlScanResult × List String)
    (c : Cache UrlScanResult)
    → AllowedResult env url block r
    → AllowedOutcome env url block (store env use_cache url r c)
unfolding AllowedResult AllowedOutcome store
store-Allowed env use_cache url block (result, requested) c allowed = allowed

scan_fresh-Allowed :
    (env : Env) (url : String) (block downloads use_cache : Bool) (c : Cache UrlScanResult)
    → AllowedOutcome env url block (scan_fresh env url block downloads use_cache c)
unfolding scan_fresh AllowedOutcome Allowed
scan_fresh-Allowed env url block downloads use_cache c =
    if_cases_true (AllowedOutcome env url block) (validate env.refuses url block).valid
      (λ valid. store-Allowed env use_cache url block _ c (
        analyze-Allowed env downloads url block _
          (sym (validate_iff env.refuses url block) ∙ valid)))
      tt

on_lookup-Allowed :
    (env : Env) (url : String) (block downloads use_cache : Bool) (hit : Option UrlScanResult)
    (c : Cache UrlScanResult)
    → AllowedOutcome env url block (on_lookup env url block downloads use_cache hit c)
unfolding on_lookup AllowedOutcome Allowed
on_lookup-Allowed env url block downloads use_cache (some r) c = tt
on_lookup-Allowed env url block downloads use_cache none c =
    scan_fresh-Allowed env url block downloads use_cache c

-- A scan makes no request at all, or its URL may be reached and the first request is for the
-- normalized URL: a URL that the validation blocks is never requested, whatever the cache holds. Any
-- further requests are those of the redirects that the library follows from there, which the scan does
-- not validate.
pub requests_guarded :
    (env : Env) (url : String) (block downloads use_cache : Bool) (c : Cache UrlScanResult)
    → Allowed env url block (scan_static env url block downloads use_cache c).requested
unfolding scan_static AllowedOutcome
requests_guarded env url block downloads use_cache c =
    if_cases (AllowedOutcome env url block) use_cache
      (on_lookup-Allowed env url block downloads use_cache _ _)
      (scan_fresh-Allowed env url block downloads use_cache c)

unfoldable Within : ℕ → List ℕ × Bool → Type 0
Within size r = length r.0 ≤ max_content_size + size

not_over : (n : ℕ) → ltb max_content_size n ≡ false → n ≤ max_content_size
not_over n h = ground arith

-- no chunk has more than some number of bytes
unfoldable pub Chunked : ℕ → List (List ℕ) → Type 0
Chunked size chunks = All (λ (k : List ℕ). length k ≤ size) chunks

-- the loop stops with the chunk that passes the limit
read-le :
    (size : ℕ) (content : List ℕ) (chunks : List (List ℕ))
    → Chunked size chunks
    → length content ≤ max_content_size
    → Within size (read content chunks)
unfolding read Chunked Within
read-le size content [] small le = omega (arith, le)
read-le size content (chunk ∷ chunks) (one, small) le =
    if_split (Within size) (ltb max_content_size (length (content ++ chunk)))
      (λ over. omega (arith, length-append content chunk, one, le))
      (λ under.
        read-le size (content ++ chunk) chunks small (not_over (length (content ++ chunk)) under))

unfoldable Sized : ℕ → Fetched → Type 0
Sized size f = f.content_size ≤ max_content_size + size

after_read-Sized :
    (size : ℕ) (r : List ℕ × Bool) (e : Option FetchError) (f : Fetched)
    → Within size r
    → f.content_size ≡ 0
    → Sized size (after_read r e f)
unfolding after_read Within Sized
after_read-Sized size (bytes, true) e f within empty = within
after_read-Sized size (bytes, false) none f within empty = within
after_read-Sized size (bytes, false) (some e) f within empty = omega (arith, empty)

read_body-Sized :
    (size : ℕ) (r : Response) (f : Fetched)
    → Chunked size r.chunks
    → f.content_size ≡ 0
    → Sized size (read_body r f)
unfolding read_body Sized
read_body-Sized size r f small empty =
    if_cases (Sized size) (is_text_type r.content_type)
      (after_read-Sized size _ r.read_error f (read-le size [] r.chunks small (omega arith)) empty)
      (omega (arith, empty))

-- Whatever a server sends, a fetch keeps at most 2 MB and one chunk: the limit and the size of the
-- largest chunk that the library hands out, however large that is.
pub content_size-le :
    (size : ℕ) (url : String) (block_downloads : Bool) (r : Response)
    → Chunked size r.chunks
    → (safe_fetch url block_downloads (answered r)).content_size ≤ 2097152 + size
unfolding safe_fetch handle_response Sized
content_size-le size url block_downloads r small =
    if_cases (Sized size) (is_download r.content_type)
      (if_cases (Sized size) block_downloads (omega arith) (read_body-Sized size r _ small refl))
      (read_body-Sized size r _ small refl)
