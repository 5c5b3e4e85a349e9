-- ===== src/UrlScorer/Domain.antt =====
-- `_extract_domain` of backend/engines/scanning/url_scoring.py, with what it uses of `urlparse`.
use Prim.Native.Char.{code}
use Prim.Native.String.{[], ◌∷◌}
use graduationp.Prelude.{
  if_cases, ℕ, Bool, true, false, ◌&&◌, ◌||◌, not, String, ◌==◌, List, Option, none, some, ◌==ℕ◌,
  leb, lower, starts_with, is_some, if◌then◌else◌, ◌≡◌, ◌≢◌, refl, arith,
}
use graduationp.UrlScorer.{UrlScan}

-- the part before the first character of a kind
unfoldable pub before : (ℕ → Bool) → String → String
before p [] = ""
before p (c ∷ s) = let rest = before p s in if p (code c) then "" else c ∷ rest

-- the part behind it, none where there is no such character
unfoldable pub behind : (ℕ → Bool) → String → Option String
behind p [] = none
behind p (c ∷ s) = let rest = behind p s in if p (code c) then some s else rest

-- the part behind the last one, and the whole text where there is none
unfoldable pub behind_last : (ℕ → Bool) → String → String
unfolding behind
behind_last p [] = ""
behind_last p (c ∷ s) =
    let rest = behind_last p s in
    if is_some (behind p s) then rest else if p (code c) then s else c ∷ s

abbrev pub is_char : ℕ → ℕ → Bool
is_char c d = d ==ℕ c

abbrev is_letter : ℕ → Bool
is_letter c = (leb 65 c && leb c 90) || (leb 97 c && leb c 122)

abbrev is_scheme_char : ℕ → Bool
is_scheme_char c = is_letter c || (leb 48 c && leb c 57) || c ==ℕ 43 || c ==ℕ 45 || c ==ℕ 46

unfoldable pub all_chars : (ℕ → Bool) → String → Bool
all_chars p [] = true
all_chars p (c ∷ s) = p (code c) && all_chars p s

abbrev pub starts_with_letter : String → Bool
starts_with_letter [] = false
starts_with_letter (c ∷ s) = is_letter (code c)

-- leading control characters and spaces
drop_controls : String → String
drop_controls [] = ""
drop_controls (c ∷ s) = let rest = drop_controls s in if leb (code c) 32 then rest else c ∷ s

-- tabs and line ends, anywhere
drop_line_ends : String → String
drop_line_ends [] = ""
drop_line_ends (c ∷ s) =
    let rest = drop_line_ends s in
    if code c ==ℕ 9 || code c ==ℕ 10 || code c ==ℕ 13 then rest else c ∷ rest

-- a scheme stands before the first colon
unfoldable pub has_scheme : String → Bool
unfolding before behind all_chars
has_scheme s =
    is_some (behind (is_char 58) s)
    && starts_with_letter s
    && all_chars is_scheme_char (before (is_char 58) s)

unfoldable pub drop_scheme : String → String
unfolding has_scheme behind
drop_scheme s = elim (behind (is_char 58) s) [
  | none ↦ s
  | some rest ↦ if has_scheme s then rest else s
]

unfoldable pub drop_two : String → String
drop_two (c ∷ d ∷ s) = s
drop_two s = ""

-- the network location of `urlsplit`
unfoldable pub netloc : String → String
unfolding drop_scheme drop_line_ends drop_controls starts_with before drop_two
netloc url =
    let rest = drop_scheme (drop_line_ends (drop_controls url)) in
    if starts_with rest "//"
    then before (λ c. c ==ℕ 47 || c ==ℕ 63 || c ==ℕ 35) (drop_two rest)
    else ""

-- one bracket without the other
unfoldable pub is_unpaired : String → Bool
unfolding behind
is_unpaired location =
    let opens = is_some (behind (is_char 91) location) in
    let closes = is_some (behind (is_char 93) location) in
    (opens && not closes) || (closes && not opens)

-- `urlparse(url).hostname or ""`; `none` is the ValueError of `urlsplit`: of an unpaired bracket, or
-- one of the checks of the library that are not written out, of what is in the brackets and of the
-- NFKC form of characters outside ASCII. Their message for a location is the parameter `refuses`.
unfoldable pub hostname : (String → Option String) → String → Option String
unfolding netloc before behind behind_last lower is_unpaired
hostname refuses url =
    let location = netloc url in
    let info = behind_last (is_char 64) location in
    if is_unpaired location || is_some (refuses location)
    then none
    else some (
        lower (elim (behind (is_char 91) info) [
          | none ↦ before (is_char 58) info
          | some bracketed ↦ before (is_char 93) bracketed
        ]))

-- `s.lstrip("www.")`, which strips the characters 'w' and '.'
unfoldable pub lstrip_www : String → String
lstrip_www [] = ""
lstrip_www (c ∷ s) =
    let rest = lstrip_www s in if code c ==ℕ 119 || code c ==ℕ 46 then rest else c ∷ s

-- the domain of a host, and of the next URLs where there is none
unfoldable pub domain_or : String → Option String → String
unfolding lstrip_www lower
domain_or rest none = rest
domain_or rest (some host) = lstrip_www (lower host)

-- the loop over the three keys: an empty URL and one that raises are passed over
unfoldable pub first_domain : (String → Option String) → List String → String
unfolding hostname domain_or
first_domain refuses List.[] = ""
first_domain refuses (List.◌∷◌ raw urls) =
    let rest = first_domain refuses urls in
    if raw == "" then rest else domain_or rest (hostname refuses raw)

unfoldable pub extract_domain : UrlScan → String
unfolding first_domain
extract_domain scan =
    first_domain scan.refuses
      (List.◌∷◌ scan.normalized_url (List.◌∷◌ scan.url (List.◌∷◌ scan.final_url List.[])))

lstrip_www_start :
    (s : String)
    → (starts_with (lstrip_www s) "w" ≡ false) × (starts_with (lstrip_www s) "." ≡ false)
unfolding lstrip_www starts_with
lstrip_www_start [] = (refl, refl)
lstrip_www_start (c ∷ s) = ground (arith, lstrip_www_start s)

domain_or_start :
    (rest : String) (host : Option String)
    → starts_with rest "w" ≡ false
    → starts_with (domain_or rest host) "w" ≡ false
unfolding domain_or
domain_or_start rest none h = h
domain_or_start rest (some host) h = (lstrip_www_start (lower host)).0

first_domain_start :
    (refuses : String → Option String) (urls : List String)
    → starts_with (first_domain refuses urls) "w" ≡ false
unfolding first_domain starts_with
first_domain_start refuses List.[] = refl
first_domain_start refuses (List.◌∷◌ raw urls) =
    if_cases (λ (s : String). starts_with s "w" ≡ false) (raw == "")
      (first_domain_start refuses urls)
      (domain_or_start (first_domain refuses urls) (hostname refuses raw)
        (first_domain_start refuses urls))

-- No URL has a domain that starts with the letter w: "whatsapp.com" and "wikipedia.org", which the
-- table of trusted domains lists, are never the domain of a scan.
no_leading_w :
    (scan : UrlScan) (domain : String)
    → starts_with domain "w" ≡ true
    → extract_domain scan ≢ domain
unfolding extract_domain
no_leading_w scan domain w e =
    let urls : List String =
      List.◌∷◌ scan.normalized_url (List.◌∷◌ scan.url (List.◌∷◌ scan.final_url List.[])) in
    cc (e, w, first_domain_start scan.refuses urls)
