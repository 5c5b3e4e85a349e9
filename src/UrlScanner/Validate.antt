-- ===== src/UrlScanner/Validate.antt =====
-- `_normalize_and_validate` of backend/engines/scanning/url_scanner.py, with what it uses of
-- `urlparse` and `urlunparse`.
use Prim.Native.Char.{code}
use Prim.Native.String.{[], ◌∷◌}
use graduationp.Prelude.{
  ℕ, Bool, true, false, ◌&&◌, ◌||◌, not, String, ◌==◌, ◌++ˢ◌, List, ◌++◌, Option, none, some, ltb,
  ◌==ℕ◌, lower, strip, starts_with, contains_text, elem, if◌then◌else◌,
}
use graduationp.UrlScorer.Domain.{
  is_char, has_scheme, before, behind, behind_last, drop_scheme, drop_two, netloc, hostname,
  is_unpaired,
}
use graduationp.UrlScanner.{Evidence}
use graduationp.UrlScanner.Address.{Address, ip_address, is_private}

-- The normalized URL, whether it is valid, and the evidence.
pub record Validation : Type 0 where
  pub normalized : String
  pub valid : Bool
  pub evidence : List Evidence

-- What the code reads of `urlparse(url)`. `hostname` is "" where Python has None.
pub record Parsed : Type 0 where
  pub scheme : String
  pub location : String
  pub host : String
  pub path : String
  pub query : String

abbrev pub none_found : List Evidence
none_found = List.[]

abbrev pub one : Evidence → List Evidence
one e = List.◌∷◌ e List.[]

-- evidence of the category "structure"
abbrev pub structure : String → String → String → Evidence
structure title severity detail = record {
  title = title;
  severity = severity;
  detail = detail;
  category = "structure";
}

unfoldable pub has_controls : String → Bool
has_controls [] = false
has_controls (c ∷ s) = ltb (code c) 32 || has_controls s

-- `s + t`
unfoldable pub append : String → String → String
append [] t = t
append (c ∷ s) t = c ∷ append s t

-- the scheme is added where it is missing
unfoldable pub with_scheme : String → String
unfolding starts_with append
with_scheme url =
    if starts_with url "http://" || starts_with url "https://" then url else append "https://" url

-- a text without as many characters as another one has
unfoldable pub drop_prefix : String → String → String
drop_prefix [] s = s
drop_prefix (c ∷ t) [] = ""
drop_prefix (c ∷ t) (d ∷ s) = drop_prefix t s

-- `parsed.scheme`
unfoldable pub scheme_of : String → String
unfolding before lower has_scheme
scheme_of url = if has_scheme url then lower (before (is_char 58) url) else ""

-- the rest of a text from the first character of a kind
unfoldable pub from_char : (ℕ → Bool) → String → String
from_char p [] = ""
from_char p (c ∷ s) = let rest = from_char p s in if p (code c) then c ∷ s else rest

abbrev ends_location : ℕ → Bool
ends_location c = c ==ℕ 47 || c ==ℕ 63 || c ==ℕ 35

unfoldable pub after_location : String → String
unfolding from_char drop_scheme drop_two
after_location url = from_char ends_location (drop_two (drop_scheme url))

unfoldable pub path_of : String → String
unfolding before
path_of url = before (λ c. c ==ℕ 63 || c ==ℕ 35) (after_location url)

unfoldable pub query_of : String → String
unfolding before behind
query_of url = elim (behind (λ c. c ==ℕ 63) (before (λ c. c ==ℕ 35) (after_location url))) [
  | none ↦ ""
  | some q ↦ q
]

unfoldable pub parsed_at : String → Option String → Option Parsed
unfolding scheme_of path_of query_of after_location
parsed_at url none = none
parsed_at url (some host) = some (record {
  scheme = scheme_of url;
  location = netloc url;
  host = host;
  path = path_of url;
  query = query_of url;
})

-- What the library `urllib.parse` refuses of a location, beyond an unpaired bracket: the message of
-- its ValueError.
abbrev pub Refuses : Type 0
Refuses = String → Option String

-- `urlparse(url)`; `none` is the ValueError
unfoldable pub parse : Refuses → String → Option Parsed
parse refuses url = parsed_at url (hostname refuses url)

-- `str(e)` of that ValueError
unfoldable pub parse_error : Refuses → String → String
unfolding is_unpaired
parse_error refuses url =
    if is_unpaired (netloc url)
    then "Invalid IPv6 URL"
    else elim (refuses (netloc url)) [ none ↦ "" | some message ↦ message ]

drop_last : String → String
drop_last [] = ""
drop_last (c ∷ s) = let rest = drop_last s in if s == "" then "" else c ∷ rest

-- the path with its parameters; a ";" with nothing behind it is lost
unfoldable pub path_and_params : String → String
unfolding drop_last behind behind_last
path_and_params path = elim (behind (λ c. c ==ℕ 59) (behind_last (λ c. c ==ℕ 47) path)) [
  | none ↦ path
  | some params ↦ if params == "" then drop_last path else path
]

-- `urlunparse` without the fragment
unfoldable pub normalize : Parsed → String
unfolding path_and_params lower
normalize p =
    lower p.scheme
    ++ˢ "://"
    ++ˢ lower p.location
    ++ˢ (if p.path == "" then "/" else path_and_params p.path)
    ++ˢ (if p.query == "" then "" else "?" ++ˢ p.query)

abbrev reject : String → List Evidence → Validation
reject url evidence = record { normalized = url; valid = false; evidence = evidence }

-- `parsed.hostname or parsed.netloc`
abbrev pub host_of : Parsed → String
host_of p = if p.host == "" then p.location else p.host

abbrev pub localhost_names : List String
localhost_names = List.◌∷◌ "localhost" (List.◌∷◌ "localhost.localdomain" List.[])

-- the check of the name, and the normalization
unfoldable pub check_name : Bool → String → Parsed → List Evidence → Validation
check_name block_private_ips url p evidence =
    if block_private_ips && elem (lower (host_of p)) localhost_names
    then reject url
        (evidence ++ one (structure "Localhost Blocked" "critical" "Blocked localhost hostname"))
    else record { normalized = normalize p; valid = true; evidence = evidence }

unfoldable pub ip_evidence : String → Evidence
ip_evidence host =
    structure "IP Address URL" "medium" ("URL uses IP address instead of domain: " ++ˢ host)

-- the check of the address, where the host is one
unfoldable pub check_address : Bool → String → Parsed → List Evidence → Option Address → Validation
check_address block_private_ips url p evidence none = check_name block_private_ips url p evidence
check_address block_private_ips url p evidence (some ip) =
    let found = evidence ++ one (ip_evidence (host_of p)) in
    if block_private_ips && is_private ip
    then reject url (
        found
        ++ one (
            structure "Private/Localhost IP Blocked" "critical"
              ("Blocked private/localhost IP: " ++ˢ host_of p)))
    else check_name block_private_ips url p found

unfoldable pub punycode : String → List Evidence
punycode host =
    if starts_with host "xn--" || contains_text "xn--" host
    then one (
        structure "Punycode/IDN Domain" "high"
          ("Domain uses punycode encoding which can hide homograph attacks: " ++ˢ host))
    else none_found

abbrev pub web_schemes : List String
web_schemes = List.◌∷◌ "http" (List.◌∷◌ "https" List.[])

abbrev pub non_http : String
non_http = "Non-HTTP Scheme"

-- from the test of the scheme on
unfoldable pub check_parts : Bool → String → Parsed → Validation
check_parts block_private_ips url p =
    if p.scheme == "" || p.location == ""
    then reject url (one (structure "Malformed URL" "critical" "URL missing scheme or hostname"))
    else if not (elem p.scheme web_schemes)
    then reject url (one (structure non_http "high" ("Blocked scheme: " ++ˢ p.scheme)))
    else check_address block_private_ips url p (punycode (host_of p)) (ip_address (host_of p))

unfoldable pub check_parsed : Bool → String → String → Option Parsed → Validation
check_parsed block_private_ips error url none =
    reject url (one (structure "Invalid URL Format" "critical" ("Could not parse URL: " ++ˢ error)))
check_parsed block_private_ips error url (some p) = check_parts block_private_ips url p

unfoldable pub validate : Refuses → String → Bool → Validation
validate refuses url block_private_ips =
    let u = strip url in
    if u == ""
    then reject "" (one (structure "Empty URL" "critical" "No URL provided"))
    else if has_controls u
    then reject u (
        one (
          structure "Control Characters in URL" "critical"
            "URL contains invalid control characters"))
    else check_parsed block_private_ips (parse_error refuses (with_scheme u)) (with_scheme u)
        (parse refuses (with_scheme u))
