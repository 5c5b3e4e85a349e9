-- ===== src/UrlScanner/Guarded.antt =====
-- Which URLs backend/engines/scanning/url_scanner.py lets through.
use graduationp.UrlScanner.Address.{Address, is_private, ip_address}
use graduationp.UrlScanner.Validate.{
  Refuses, parse_error, punycode, parsed_at, has_controls, parse, web_schemes, validate, append,
  check_parts, check_parsed, host_of, with_scheme, scheme_of, localhost_names, Parsed, check_name,
  check_address,
}
use Prim.Native.Char.{code}
use Prim.Native.String.{[], ◌∷◌}
use text.Mathlib.TextEquality.{Char-path}
use graduationp.UrlScanner.{Evidence}
use graduationp.Prelude.{
  eq_iff, strip, inr, ◌⊎◌, inl, Bool-cases, lower, elem, starts_with, is_some, Bool, true, false,
  ◌&&◌, ◌||◌, not, String, ◌==◌, List, Option, none, some, ◌==ℕ◌, ◌≡◌, refl, arith, ap,
}
use graduationp.UrlScorer.Domain.{
  hostname, all_chars, has_scheme, starts_with_letter, is_char, behind, before,
}

-- a host that the scanner must not reach: a private address, or a name of this machine
unfoldable pub is_forbidden : String → Bool
is_forbidden host =
    (elim (ip_address host) [ none ↦ false | some ip ↦ is_private ip ])
    || elem (lower host) localhost_names

address-valid :
    (block : Bool) (url : String) (p : Parsed) (evidence : List Evidence) (o : Option Address)
    → (check_address block url p evidence o).valid
      ≡ not (
          block
          && ((elim o [ none ↦ false | some ip ↦ is_private ip ])
              || elem (lower (host_of p)) localhost_names))
unfolding check_address check_name
address-valid block url p evidence o = ground arith

heads :
    (c d : Prim.Native.Char.Char) (s t : String)
    → starts_with (c ∷ s) (d ∷ t) ≡ true
    → (code c ≡ code d) × (starts_with s t ≡ true)
unfolding starts_with
heads c d s t h = ground (arith, h)

-- what a text takes from a prefix that has a colon
abbrev FromPrefix : String → String → Type 0
FromPrefix s t =
    (is_some (behind (is_char 58) s) ≡ true)
    × (before (is_char 58) s ≡ before (is_char 58) t)
    × (starts_with_letter s ≡ starts_with_letter t)

cons-FromPrefix :
    (c : Prim.Native.Char.Char) (s t : String)
    → (is_some (behind (is_char 58) t) ≡ true → FromPrefix s t)
    → is_some (behind (is_char 58) (c ∷ t)) ≡ true
    → FromPrefix (c ∷ s) (c ∷ t)
unfolding before behind
cons-FromPrefix c s t rest colon = elim (Bool-cases (code c ==ℕ 58)) [
  | inl here ↦ rw (here) (refl, refl, refl)
  | inr later ↦
      let (found, same, letter) = rest (ground (arith, colon, later)) in
      rw (later) (found, ap (λ r. c ∷ r) same, refl)
]

starts_with-FromPrefix :
    (s t : String)
    → starts_with s t ≡ true
    → is_some (behind (is_char 58) t) ≡ true
    → FromPrefix s t
unfolding starts_with behind
starts_with-FromPrefix s [] h colon = ground (arith, colon)
starts_with-FromPrefix [] (d ∷ t) h colon = ground (arith, h)
starts_with-FromPrefix (c ∷ s) (d ∷ t) h colon =
    let (same, rest) = heads c d s t h in
    rw (Char-path c d same)
      (cons-FromPrefix d s t (λ found. starts_with-FromPrefix s t rest found) colon)

scheme-FromPrefix :
    (s t : String)
    → FromPrefix s t
    → is_some (behind (is_char 58) t) ≡ true
    → scheme_of s ≡ scheme_of t
unfolding scheme_of has_scheme
scheme-FromPrefix s t (colon, scheme, letter) found = rw (colon, scheme, letter, found) refl

with_scheme-starts :
    (u : String)
    → (starts_with (with_scheme u) "http://" ≡ true)
      ⊎ (starts_with (with_scheme u) "https://" ≡ true)
unfolding with_scheme append starts_with
with_scheme-starts u = elim (Bool-cases (starts_with u "http://")) [
  | inl plain ↦ inl (rw (plain) plain)
  | inr other ↦ elim (Bool-cases (starts_with u "https://")) [
    | inl secure ↦ inr (rw (other, secure) secure)
    | inr bare ↦ inr (rw (other, bare) refl)
  ]
]

web_by_prefix :
    (s t : String)
    → starts_with s t ≡ true
    → is_some (behind (is_char 58) t) ≡ true
    → elem (scheme_of t) web_schemes ≡ true
    → elem (scheme_of s) web_schemes ≡ true
web_by_prefix s t start colon web =
    rw (scheme-FromPrefix s t (starts_with-FromPrefix s t start colon) colon) web

-- with the scheme that is put in front where none of the two is there, the scheme is http or https
pub only_web_schemes : (u : String) → elem (scheme_of (with_scheme u)) web_schemes ≡ true
unfolding scheme_of has_scheme elem behind before lower all_chars
only_web_schemes u = elim (with_scheme-starts u) [
  | inl plain ↦ web_by_prefix (with_scheme u) "http://" plain refl refl
  | inr secure ↦ web_by_prefix (with_scheme u) "https://" secure refl refl
]

parts-valid :
    (block : Bool) (url : String) (p : Parsed)
    → elem p.scheme web_schemes ≡ true
    → (p.scheme == "") ≡ false
    → (check_parts block url p).valid
      ≡ (not (p.location == "") && not (block && is_forbidden (host_of p)))
unfolding check_parts is_forbidden
parts-valid block url p web some_scheme = ground (
  arith,
  web,
  some_scheme,
  address-valid block url p (punycode (host_of p)) (ip_address (host_of p)),
)

elem-nonempty : (s : String) → elem s web_schemes ≡ true → (s == "") ≡ false
unfolding elem
elem-nonempty s web = ground (
  arith,
  web,
  eq_iff s "",
  eq_iff s "http",
  eq_iff s "https",
  eq_iff "" "http",
  eq_iff "" "https",
)

-- A network location that is not empty, and with the guard neither a private address nor this machine.
unfoldable pub may_reach : Bool → Option Parsed → Bool
may_reach block none = false
may_reach block (some p) = not (p.location == "") && not (block && is_forbidden (host_of p))

unfoldable pub acceptable : Refuses → String → Bool → Bool
acceptable refuses url block =
    let u = strip url in
    not (u == "") && not (has_controls u) && may_reach block (parse refuses (with_scheme u))

parsed-valid :
    (block : Bool) (error url : String) (host : Option String)
    → elem (scheme_of url) web_schemes ≡ true
    → (check_parsed block error url (parsed_at url host)).valid
      ≡ may_reach block (parsed_at url host)
unfolding check_parsed parsed_at may_reach
parsed-valid block error url none web = refl
parsed-valid block error url (some host) web =
    parts-valid block url _ web (elem-nonempty (scheme_of url) web)

-- A URL is valid exactly if it is not empty, has no control character, is not refused by the parser
-- with its scheme put in front, has a network location that is not empty and, where private addresses
-- are blocked, its host (the location where that has none) is neither an address in one of the
-- private ranges nor a name of this machine.
pub validate_iff :
    (refuses : Refuses) (url : String) (block : Bool)
    → (validate refuses url block).valid ≡ acceptable refuses url block
unfolding validate acceptable parse
validate_iff refuses url block = ground (
  arith,
  parsed-valid block (parse_error refuses (with_scheme (strip url))) (with_scheme (strip url))
      (hostname refuses (with_scheme (strip url))) (only_web_schemes (strip url)),
)
