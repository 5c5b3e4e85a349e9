-- ===== src/UrlScanner/Tests.antt =====
-- Runs of backend/engines/scanning/url_scanner.py, and each theorem about it at an input.
use graduationp.UrlScorer.Domain.{
  is_unpaired, all_chars, behind_last, before, behind, drop_two, drop_scheme, netloc, hostname,
  has_scheme,
}
use graduationp.Prelude.Dict.{lookup, has_key}
use graduationp.Prelude.{
  ◌+◌, ◌≤◌, Bool, true, false, String, [], ◌∷◌, Option, none, some, elem, ◌≡◌, refl, arith,
  starts_with, lower, strip, contains_text, parse_nat,
}
use graduationp.UrlScanner.Address.{
  in_network, value_from, without_scope, ipv6_value, value_of, hex_from, groups_of, all_groups,
  parse_ipv6, size, all_digits, split, octet, parts_ipv4, parse_ipv4, ip_address, is_private,
}
use graduationp.UrlScanner.Validate.{
  ip_evidence, path_and_params, normalize, punycode, check_name, check_address, check_parts,
  check_parsed, query_of, path_of, from_char, after_location, parsed_at, parse, append,
  has_controls, validate, scheme_of, with_scheme,
}
use graduationp.UrlScanner.Guarded.{acceptable, validate_iff}
use graduationp.UrlScanner.Schemes.{blames_scheme, scheme_never_blamed}
use graduationp.UrlScanner.Validate.{Refuses}
use graduationp.UrlScanner.Fetch.{
  after_read, read, is_text_type, read_body, is_download, handle_response, Response, Answer,
  safe_fetch,
}
use graduationp.UrlScanner.Cache.{Cache}
use graduationp.UrlScanner.Scan.{Env, UrlScanResult, scan_static, no_iocs}
use graduationp.UrlScanner.Limits.{Allowed, Chunked, requests_guarded, content_size-le}
use graduationp.UrlScanner.Evict.{Bounded, Same, scan_static-Bounded}

abbrev private_text : String → Option Bool
private_text s = elim (ip_address s) [ none ↦ none | some ip ↦ some (is_private ip) ]

private_addresses :
    (private_text "172.31.0.1" ≡ some true)
    × (private_text "::1" ≡ some true)
    × (private_text "fe80::1:2%eth0" ≡ some true)
    × (private_text "172.32.0.1" ≡ some false)
    × (private_text "1:2" ≡ none)
    × (private_text "010.0.0.1" ≡ none)
unfolding ip_address parse_ipv4 parts_ipv4 octet split all_digits size parse_nat parse_ipv6
    all_groups groups_of hex_from value_of ipv6_value without_scope value_from behind before
    is_private in_network
private_addresses = (refl, refl, refl, refl, refl, refl)

-- Three spellings of this machine that the guard lets through.
passed_on :
    (private_text "0.0.0.0" ≡ some false)
    × (private_text "::ffff:127.0.0.1" ≡ some false)
    × (private_text "2130706433" ≡ none)
unfolding ip_address parse_ipv4 parts_ipv4 octet split all_digits size parse_nat parse_ipv6
    all_groups groups_of hex_from value_of ipv6_value without_scope value_from behind before
    is_private in_network
passed_on = (refl, refl, refl)

abbrev nothing_refused : Refuses
nothing_refused location = none

blocked : (validate nothing_refused " http://user@127.0.0.1:8080/x " true).valid ≡ false
unfolding validate strip has_controls with_scheme append starts_with parse parsed_at scheme_of
    has_scheme hostname is_unpaired netloc drop_scheme drop_two after_location from_char path_of
    query_of check_parsed check_parts check_address check_name punycode contains_text elem lower
    normalize path_and_params behind_last all_chars ip_evidence ip_address parse_ipv4 parts_ipv4
    octet split all_digits size parse_nat parse_ipv6 all_groups groups_of hex_from value_of
    ipv6_value without_scope value_from is_private in_network
blocked = refl

-- A scheme in capitals becomes the host.
capitals :
    (validate nothing_refused "HTTP://Example.com/a;#b" true).normalized
    ≡ "https://http://Example.com/a"
unfolding validate strip has_controls with_scheme append starts_with parse parsed_at scheme_of
    has_scheme hostname is_unpaired netloc drop_scheme drop_two after_location from_char path_of
    query_of check_parsed check_parts check_address check_name punycode contains_text elem lower
    normalize path_and_params behind_last all_chars ip_evidence ip_address parse_ipv4 parts_ipv4
    octet split all_digits size parse_nat parse_ipv6 all_groups groups_of hex_from value_of
    ipv6_value without_scope value_from is_private in_network
capitals = refl

abbrev page : Response
page = record {
  status = 200;
  url = "https://example.com/";
  content_type = "text/html";
  server = "";
  history = ("http://example.com/", 301) ∷ [];
  chunks = (60 ∷ 112 ∷ 62 ∷ []) ∷ (104 ∷ []) ∷ [];
  read_error = none;
}

abbrev env : Env
env = record {
  answer = λ url. Answer.answered page;
  cache_key = λ url. url;
  analyze_content = λ bytes url. [];
  extract_iocs = λ bytes url. no_iocs;
  requests_available = true;
  refuses = nothing_refused;
  followed = λ url. [];
  now = 1000;
}

abbrev empty : Cache UrlScanResult
empty = record { results = []; times = [] }

four_bytes : (safe_fetch "http://example.com/" true (Answer.answered page)).content_size ≡ 4
unfolding safe_fetch handle_response is_download lower contains_text read_body is_text_type read
    after_read starts_with
four_bytes = refl

validate_iff_example :
    (validate nothing_refused "http://[::1]/" true).valid
    ≡ acceptable nothing_refused "http://[::1]/" true
validate_iff_example = validate_iff nothing_refused "http://[::1]/" true

scheme_never_blamed_example :
    blames_scheme (validate nothing_refused "ftp://example.com" true) ≡ false
scheme_never_blamed_example = scheme_never_blamed nothing_refused "ftp://example.com" true

requests_guarded_example :
    Allowed env "example.com" true (scan_static env "example.com" true true true empty).requested
requests_guarded_example = requests_guarded env "example.com" true true true empty

page-Chunked : Chunked 8192 page.chunks
unfolding Chunked
page-Chunked = (omega arith, (omega arith, tt))

content_size-le_example :
    (safe_fetch "http://example.com/" true (Answer.answered page)).content_size ≤ 2097152 + 8192
content_size-le_example = content_size-le 8192 "http://example.com/" true page page-Chunked

empty-Bounded : Bounded empty
unfolding Same has_key lookup
empty-Bounded = record { same = λ k. refl; short = omega arith }

scan_static-Bounded_example : Bounded (scan_static env "example.com" true true true empty).cache
scan_static-Bounded_example =
    scan_static-Bounded env "example.com" true true true empty empty-Bounded
