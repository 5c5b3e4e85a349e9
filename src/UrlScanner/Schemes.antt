-- ===== src/UrlScanner/Schemes.antt =====
-- The guard against other schemes in backend/engines/scanning/url_scanner.py.
use graduationp.Prelude.{
  any, if_cases, if_split, contains_text, ◌∙◌, ◌++ˢ◌, strip, lower, elem, starts_with, Bool, true,
  false, ◌&&◌, ◌||◌, not, String, ◌==◌, List, ◌++◌, Option, none, some, ◌≡◌, refl, arith,
}
use graduationp.UrlScanner.{Evidence}
use graduationp.UrlScanner.Address.{Address, is_private}
use graduationp.UrlScanner.Validate.{
  Refuses, Validation, non_http, one, ip_evidence, structure, punycode, parsed_at, has_controls,
  parse, web_schemes, validate, check_parts, check_parsed, host_of, scheme_of, localhost_names,
  Parsed, check_name, check_address,
}
use graduationp.UrlScanner.Guarded.{only_web_schemes}

-- The guard against other schemes is heard in the evidence.
abbrev pub blames_scheme : Validation → Bool
blames_scheme v = any (λ e. e.title == non_http) v.evidence

any-append :
    (p : Evidence → Bool) (xs ys : List Evidence) → any p (xs ++ ys) ≡ (any p xs || any p ys)
any-append p List.[] ys = refl
any-append p (List.◌∷◌ x xs) ys = ground (arith, any-append p xs ys)

-- evidence of something else behind some that is silent
more_silent :
    (es : List Evidence) (e : Evidence)
    → any (λ e. e.title == non_http) es ≡ false
    → (e.title == non_http) ≡ false
    → any (λ e. e.title == non_http) (es ++ one e) ≡ false
more_silent es e silent other =
    any-append (λ e. e.title == non_http) es (one e) ∙ rw (silent, other) refl

abbrev Silent : Validation → Type 0
Silent v = blames_scheme v ≡ false

name-Silent :
    (block : Bool) (url : String) (p : Parsed) (es : List Evidence)
    → any (λ e. e.title == non_http) es ≡ false
    → Silent (check_name block url p es)
unfolding check_name
name-Silent block url p es silent =
    if_cases Silent (block && elem (lower (host_of p)) localhost_names)
      (more_silent es _ silent refl) silent

address-Silent :
    (block : Bool) (url : String) (p : Parsed) (es : List Evidence) (o : Option Address)
    → any (λ e. e.title == non_http) es ≡ false
    → Silent (check_address block url p es o)
unfolding check_address ip_evidence
address-Silent block url p es none silent = name-Silent block url p es silent
address-Silent block url p es (some ip) silent =
    let found = more_silent es (ip_evidence (host_of p)) silent refl in
    if_cases Silent (block && is_private ip)
      (more_silent (es ++ one (ip_evidence (host_of p)))
        (structure "Private/Localhost IP Blocked" "critical"
          ("Blocked private/localhost IP: " ++ˢ host_of p))
        found refl)
      (name-Silent block url p _ found)

punycode_silent : (host : String) → any (λ e. e.title == non_http) (punycode host) ≡ false
unfolding punycode
punycode_silent host =
    if_cases (λ (es : List Evidence). any (λ e. e.title == non_http) es ≡ false)
      (starts_with host "xn--" || contains_text "xn--" host) refl refl

parts-Silent :
    (block : Bool) (url : String) (p : Parsed)
    → elem p.scheme web_schemes ≡ true
    → Silent (check_parts block url p)
unfolding check_parts
parts-Silent block url p web = if_cases Silent (p.scheme == "" || p.location == "") refl (
    if_split Silent (not (elem p.scheme web_schemes)) (λ other. absurd (ground (arith, other, web)))
      (λ known. address-Silent block url p _ _ (punycode_silent (host_of p))))

parsed-Silent :
    (block : Bool) (error url : String) (host : Option String)
    → elem (scheme_of url) web_schemes ≡ true
    → Silent (check_parsed block error url (parsed_at url host))
unfolding check_parsed parsed_at
parsed-Silent block error url none web = refl
parsed-Silent block error url (some host) web = parts-Silent block url _ web

-- Whatever the text, its validation never reports a scheme other than http and https: the guard of
-- check_parts against other schemes rejects no URL, since the scheme was put in front before.
pub scheme_never_blamed :
    (refuses : Refuses) (url : String) (block : Bool)
    → blames_scheme (validate refuses url block) ≡ false
unfolding validate parse
scheme_never_blamed refuses url block = if_cases Silent (strip url == "") refl (
    if_cases Silent (has_controls (strip url)) refl
      (parsed-Silent block _ _ _ (only_web_schemes (strip url))))
