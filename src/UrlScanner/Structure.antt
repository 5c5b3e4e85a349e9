-- ===== src/UrlScanner/Structure.antt =====
-- `_analyze_url_structure` of backend/engines/scanning/url_scanner.py.
use Prim.Native.Char.{Char, code}
use Prim.Native.String.{[], ◌∷◌}
use graduationp.Prelude.{
  ℕ, zero, suc, ◌+◌, ◌-◌, ◌*◌, Bool, ◌||◌, String, ◌==◌, ◌++ˢ◌, List, ◌++◌, Option, none, some,
  length, take, ltb, leb, ◌==ℕ◌, lower, contains_text, elem, show_nat, join, if◌then◌else◌,
}
use graduationp.UrlScorer.Domain.{before, behind, is_char}
use graduationp.UrlScanner.{Evidence}
use graduationp.UrlScanner.Address.{split, size, hex_digit}
use graduationp.UrlScanner.Tables.{
  suspicious_tlds, suspicious_path_keywords, suspicious_query_params,
}
use graduationp.UrlScanner.Validate.{Parsed, structure, one, none_found}

-- `s.endswith(t)`
unfoldable pub ends_with : String → String → Bool
ends_with t [] = t == ""
ends_with t (c ∷ s) = (c ∷ s) == t || ends_with t s

-- the loop over the top-level domains, up to its `break`. The code loops over a set; at most one of
-- its members, which all start with a point and have no other, ends a host.
unfoldable pub tld_evidence : String → List String → List Evidence
unfolding ends_with
tld_evidence host List.[] = none_found
tld_evidence host (List.◌∷◌ tld tlds) =
    let rest = tld_evidence host tlds in
    if ends_with tld host
    then one (structure "Suspicious TLD" "medium" ("Domain uses commonly abused TLD: " ++ˢ tld))
    else rest

unfoldable pub found_in : String → List String → List String
unfolding contains_text
found_in text List.[] = List.[]
found_in text (List.◌∷◌ keyword keywords) =
    let rest = found_in text keywords in
    if contains_text keyword text then List.◌∷◌ keyword rest else rest

unfoldable pub keyword_evidence : String → List Evidence
unfolding found_in lower
keyword_evidence path =
    let found = found_in (lower path) suspicious_path_keywords in
    if ltb 0 (length found)
    then one (
        structure "Suspicious Path Keywords" (if leb (length found) 2 then "medium" else "high")
          ("Path contains suspicious keywords: " ++ˢ join ", " (take 5 found)))
    else none_found

-- the printable character at a place, from the space on
nth_char : ℕ → String → Char → Char
nth_char n [] d = d
nth_char zero (c ∷ s) d = c
nth_char (suc n) (c ∷ s) d = nth_char n s d

abbrev printable : String
printable =
    " !\"#$%&'()*+,-./0123456789:;<=>?@ABCDEFGHIJKLMNOPQRSTUVWXYZ[\\]^_`abcdefghijklmnopqrstuvwxyz{|}~"

-- a character that no name of the list has stands for a byte that is not printable
byte_char : ℕ → Char
unfolding nth_char
byte_char n =
    if ltb n 32 then Prim.Native.Char.nul else nth_char (n - 32) printable Prim.Native.Char.nul

decoded : Char → Char → Char → String → String → String
unfolding byte_char
decoded c d e kept rest = elim (hex_digit (code d)) [
  | none ↦ c ∷ kept
  | some high ↦ elim (hex_digit (code e)) [
    | none ↦ c ∷ kept
    | some low ↦ byte_char (high * 16 + low) ∷ rest
  ]
]

-- `unquote(s.replace("+", " "))`
unfoldable pub unquote_plus : String → String
unfolding decoded
unquote_plus [] = ""
unquote_plus (c ∷ []) = (if code c ==ℕ 43 then " " else c ∷ "")
unquote_plus (c ∷ d ∷ []) =
    let rest = unquote_plus (d ∷ []) in if code c ==ℕ 43 then " " ++ˢ rest else c ∷ rest
unquote_plus (c ∷ d ∷ e ∷ s) =
    let kept = unquote_plus (d ∷ e ∷ s) in
    let rest = unquote_plus s in
    if code c ==ℕ 43
    then " " ++ˢ kept
    else if code c ==ℕ 37
    then decoded c d e kept rest
    else c ∷ kept

-- the name of a pair, where it has a value that is not empty
unfoldable pub name_of : String → Option String
unfolding behind before unquote_plus
name_of pair = elim (behind (is_char 61) pair) [
  | none ↦ none
  | some value ↦ if value == "" then none else some (unquote_plus (before (is_char 61) pair))
]

abbrev add_name : Option String → List String → List String
add_name none names = names
add_name (some name) names = if elem name names then names else names ++ List.◌∷◌ name List.[]

-- `parse_qs(query).keys()`
unfoldable pub names_from : List String → List String → List String
names_from List.[] names = names
names_from (List.◌∷◌ pair pairs) names = names_from pairs (add_name (name_of pair) names)

unfoldable pub query_names : String → List String
unfolding names_from split
query_names query = names_from (split 38 query) List.[]

unfoldable pub suspicious_names : List String → List String
unfolding elem lower
suspicious_names List.[] = List.[]
suspicious_names (List.◌∷◌ name names) =
    let rest = suspicious_names names in
    if elem (lower name) suspicious_query_params then List.◌∷◌ name rest else rest

unfoldable pub query_evidence : String → List Evidence
query_evidence query =
    let found = suspicious_names (query_names query) in
    if ltb 0 (length found)
    then one (
        structure "Redirect Parameters" "low"
          ("URL contains redirect-like parameters: " ++ˢ join ", " found))
    else none_found

-- `s.count(c)`
unfoldable pub count_char : ℕ → String → ℕ
count_char n [] = 0
count_char n (c ∷ s) = (if code c ==ℕ n then 1 else 0) + count_char n s

unfoldable pub subdomain_evidence : String → List Evidence
subdomain_evidence host =
    let n = count_char 46 host in
    if leb 4 n
    then one (
        structure "Excessive Subdomains" "low"
          ("Domain has " ++ˢ show_nat n ++ˢ " levels which may be used to hide the real domain"))
    else none_found

unfoldable pub length_evidence : String → List Evidence
length_evidence url =
    if ltb 500 (size url)
    then one (
        structure "Unusually Long URL" "low"
          ("URL is " ++ˢ show_nat (size url) ++ˢ " characters which may indicate obfuscation"))
    else none_found

unfoldable pub encoding_evidence : String → List Evidence
encoding_evidence url =
    let n = count_char 37 url in
    if ltb 10 n
    then one (
        structure "Heavy URL Encoding" "low"
          ("URL contains " ++ˢ show_nat n ++ˢ " encoded characters which may hide content"))
    else none_found

-- `_analyze_url_structure`, for what `urlparse` finds in the URL
unfoldable pub analyze_url_structure : String → Parsed → List Evidence
analyze_url_structure url p =
    tld_evidence p.host suspicious_tlds
    ++ keyword_evidence p.path
    ++ query_evidence p.query
    ++ subdomain_evidence p.host
    ++ length_evidence url
    ++ encoding_evidence url
