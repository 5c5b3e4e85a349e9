-- ===== src/UrlScanner/Address.antt =====
-- The addresses that backend/engines/scanning/url_scanner.py blocks: `PRIVATE_RANGES`, with what it
-- uses of `ipaddress`.
use Prim.Native.Char.{code}
use Prim.Native.String.{[], ◌∷◌}
use graduationp.Prelude.{
  ℕ, suc, ◌+◌, ◌-◌, ◌*◌, ◌/◌, Bool, true, false, ◌&&◌, ◌||◌, not, String, ◌==◌, List, ◌++◌, Option,
  none, some, is_some, length, any, ltb, leb, ◌==ℕ◌, parse_nat, if◌then◌else◌,
}
use graduationp.Prelude.Float.{pow}
use graduationp.UrlScorer.Domain.{before, behind}

-- The two versions of `ipaddress.ip_address`, by their value.
pub data Address : Type 0 where
  v4 : ℕ → Address
  v6 : ℕ → Address

-- a character in front of the first part
abbrev onto_first : Prim.Native.Char.Char → List String → List String
onto_first c List.[] = List.◌∷◌ (c ∷ "") List.[]
onto_first c (List.◌∷◌ part parts) = List.◌∷◌ (c ∷ part) parts

-- `s.split(sep)` at one character
unfoldable pub split : ℕ → String → List String
split sep [] = List.◌∷◌ "" List.[]
split sep (c ∷ s) =
    let rest = split sep s in if code c ==ℕ sep then List.◌∷◌ "" rest else onto_first c rest

abbrev pub is_digit : ℕ → Bool
is_digit n = leb 48 n && leb n 57

unfoldable pub all_digits : String → Bool
all_digits [] = true
all_digits (c ∷ s) = is_digit (code c) && all_digits s

unfoldable pub size : String → ℕ
size [] = 0
size (c ∷ s) = suc (size s)

abbrev starts_with_zero : String → Bool
starts_with_zero [] = false
starts_with_zero (c ∷ s) = code c ==ℕ 48

-- an octet: one to three digits, no leading zero, at most 255
unfoldable pub octet : String → Option ℕ
octet s =
    if all_digits s && leb (size s) 3 && not (starts_with_zero s && ltb 1 (size s))
    then elim (parse_nat s) [ none ↦ none | some n ↦ if leb n 255 then some n else none ]
    else none

four_octets : Option ℕ → Option ℕ → Option ℕ → Option ℕ → Option ℕ
four_octets (some a) (some b) (some c) (some d) = some (((a * 256 + b) * 256 + c) * 256 + d)
four_octets _ _ _ _ = none

unfoldable pub parts_ipv4 : List String → Option ℕ
unfolding octet four_octets
parts_ipv4 (List.◌∷◌ a (List.◌∷◌ b (List.◌∷◌ c (List.◌∷◌ d List.[])))) =
    four_octets (octet a) (octet b) (octet c) (octet d)
parts_ipv4 _ = none

unfoldable pub parse_ipv4 : String → Option ℕ
parse_ipv4 s = parts_ipv4 (split 46 s)

abbrev pub hex_digit : ℕ → Option ℕ
hex_digit n =
    if is_digit n
    then some (n - 48)
    else if leb 97 n && leb n 102
    then some (n - 87)
    else if leb 65 n && leb n 70
    then some (n - 55)
    else none

unfoldable pub hex_from : ℕ → String → Option ℕ
hex_from acc [] = some acc
hex_from acc (c ∷ s) = elim (hex_digit (code c)) [
  | none ↦ none
  | some d ↦ hex_from (acc * 16 + d) s
]

-- the groups of one part between colons: an empty part is `none`, one with points is an IPv4 address,
-- which only the last may be
unfoldable pub groups_of : Bool → String → Option (List (Option ℕ))
groups_of is_last s =
    if s == ""
    then some (List.◌∷◌ none List.[])
    else if is_last && is_some (behind (λ c. c ==ℕ 46) s)
    then elim (parse_ipv4 s) [
      | none ↦ none
      | some n ↦
          some (List.◌∷◌ (some (n / 65536)) (List.◌∷◌ (some (n - n / 65536 * 65536)) List.[]))
    ]
    else if leb (size s) 4
    then elim (hex_from 0 s) [ none ↦ none | some n ↦ some (List.◌∷◌ (some n) List.[]) ]
    else none

append_groups : Option (List (Option ℕ)) → Option (List (Option ℕ)) → Option (List (Option ℕ))
append_groups (some xs) (some ys) = some (xs ++ ys)
append_groups _ _ = none

unfoldable pub all_groups : List String → Option (List (Option ℕ))
unfolding append_groups
all_groups List.[] = some List.[]
all_groups (List.◌∷◌ s List.[]) = groups_of true s
all_groups (List.◌∷◌ s (List.◌∷◌ t ts)) =
    append_groups (groups_of false s) (all_groups (List.◌∷◌ t ts))

-- the value of groups without a gap
unfoldable pub value_of : ℕ → List (Option ℕ) → Option ℕ
value_of acc List.[] = some acc
value_of acc (List.◌∷◌ none gs) = none
value_of acc (List.◌∷◌ (some n) gs) = value_of (acc * 65536 + n) gs

-- the groups behind a gap: none, where the address ends in "::"
abbrev tail_of : List (Option ℕ) → List (Option ℕ)
tail_of (List.◌∷◌ none List.[]) = List.[]
tail_of gs = gs

shifted : ℕ → ℕ → Option ℕ → Option ℕ → Option ℕ
shifted high low (some a) (some b) =
    if leb (high + low) 7 then some (a * pow 65536 (8 - high) + b) else none
shifted high low _ _ = none

-- `high` groups with the value `acc` stand before; the first gap is filled with zeros, and a second
-- one has no value
unfoldable pub value_from : ℕ → ℕ → List (Option ℕ) → Option ℕ
unfolding shifted
value_from high acc List.[] = if high ==ℕ 8 then some acc else none
value_from high acc (List.◌∷◌ (some n) gs) = value_from (suc high) (acc * 65536 + n) gs
value_from high acc (List.◌∷◌ none List.[]) = none
value_from high acc (List.◌∷◌ none (List.◌∷◌ g gs)) =
    let low = tail_of (List.◌∷◌ g gs) in shifted high (length low) (some acc) (value_of 0 low)

-- an address that starts with a colon starts with two
unfoldable pub ipv6_value : List (Option ℕ) → Option ℕ
unfolding value_from
ipv6_value (List.◌∷◌ none (List.◌∷◌ none gs)) = value_from 0 0 (List.◌∷◌ none gs)
ipv6_value (List.◌∷◌ none gs) = none
ipv6_value gs = value_from 0 0 gs

-- the part before the scope, which is not empty and has no second '%'
unfoldable pub without_scope : String → Option String
without_scope s = elim (behind (λ c. c ==ℕ 37) s) [
  | none ↦ some s
  | some scope ↦
      if scope == "" || is_some (behind (λ c. c ==ℕ 37) scope)
      then none
      else some (before (λ c. c ==ℕ 37) s)
]

unfoldable pub parse_ipv6 : String → Option ℕ
unfolding without_scope ipv6_value all_groups split
parse_ipv6 s = elim (without_scope s) [
  | none ↦ none
  | some t ↦
      if leb 3 (length (split 58 t))
      then elim (all_groups (split 58 t)) [ none ↦ none | some gs ↦ ipv6_value gs ]
      else none
]

-- `ipaddress.ip_address(s)`; `none` is the ValueError
unfoldable pub ip_address : String → Option Address
ip_address s = elim (parse_ipv4 s) [
  | some n ↦ some (v4 n)
  | none ↦ elim (parse_ipv6 s) [ none ↦ none | some n ↦ some (v6 n) ]
]

-- a network: its first address, and the number of the bits that it leaves free
abbrev pub Network : Type 0
Network = Address × ℕ

abbrev private_ranges : List Network
private_ranges =
    List.◌∷◌ (v4 (10 * pow 256 3), 24)
      (List.◌∷◌ (v4 (172 * pow 256 3 + 16 * pow 256 2), 20)
        (List.◌∷◌ (v4 (192 * pow 256 3 + 168 * pow 256 2), 16)
          (List.◌∷◌ (v4 (127 * pow 256 3), 24)
            (List.◌∷◌ (v4 (169 * pow 256 3 + 254 * pow 256 2), 16)
              (List.◌∷◌ (v6 1, 0)
                (List.◌∷◌ (v6 (0xFC00 * pow 65536 7), 121)
                  (List.◌∷◌ (v6 (0xFE80 * pow 65536 7), 118) List.[])))))))

-- `ip in network`
unfoldable pub in_network : Address → Network → Bool
in_network (v4 n) (v4 m, free) = n / pow 2 free ==ℕ m / pow 2 free
in_network (v6 n) (v6 m, free) = n / pow 2 free ==ℕ m / pow 2 free
in_network _ _ = false

unfoldable pub is_private : Address → Bool
unfolding in_network
is_private a = any (λ network. in_network a network) private_ranges
