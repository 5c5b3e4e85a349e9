-- ===== src/Prelude/Text.antt =====
-- Python's text operations over the native strings: `lower`, `strip`, `in`, `startswith` and the
-- decimal digits of `str`. Letters outside ASCII are their own lower case here.
use Prim.Native.Nat.{ℕ, zero, suc, ◌+◌, ◌-◌, ◌*◌, ◌/◌, ◌%◌}
use Prim.Native.Char.{Char, code}
pub use Prim.Native.String.{String}
use Prim.Native.String.{[], ◌∷◌}
use Prim.Native.String
use mathlib.Core.Bool.{Bool, true, false, ◌&&◌, ◌||◌}
use mathlib.Core.Option.{Option, none, some}
use mathlib.Core.List.{List}
pub use text.Mathlib.Text.{◌==◌}
pub use text.Mathlib.TextEquality.{eq_iff}
pub use text.Mathlib.TextPositions.{eq_refl}
use graduationp.Prelude.Tests.{leb, ◌==ℕ◌, if◌then◌else◌}

infixr 65 ◌++ˢ◌
abbrev pub ◌++ˢ◌ : String → String → String
s ++ˢ t = String.◌++◌ s t

-- the character of `to` at the place where `from` has `c`
translate : Char → String → String → Char
translate c (f ∷ from) (t ∷ to) = if code c ==ℕ code f then t else translate c from to
translate c _ _ = c

lower_char : Char → Char
unfolding translate
lower_char c = translate c "ABCDEFGHIJKLMNOPQRSTUVWXYZ" "abcdefghijklmnopqrstuvwxyz"

-- `s.lower()`
unfoldable pub lower : String → String
unfolding lower_char
lower [] = []
lower (c ∷ s) = lower_char c ∷ lower s

-- `str.isspace` of one character
abbrev is_space : ℕ → Bool
is_space c =
    (leb 9 c && leb c 13)
    || (leb 28 c && leb c 32)
    || c ==ℕ 0x85
    || c ==ℕ 0xA0
    || c ==ℕ 0x1680
    || (leb 0x2000 c && leb c 0x200A)
    || c ==ℕ 0x2028
    || c ==ℕ 0x2029
    || c ==ℕ 0x202F
    || c ==ℕ 0x205F
    || c ==ℕ 0x3000

lstrip : String → String
lstrip [] = []
lstrip (c ∷ s) = let rest = lstrip s in if is_space (code c) then rest else c ∷ s

-- a space goes when nothing but spaces follows it
rstrip : String → String
rstrip [] = []
rstrip (c ∷ s) = let rest = rstrip s in if is_space (code c) && rest == "" then "" else c ∷ rest

-- `s.strip()`
unfoldable pub strip : String → String
unfolding lstrip rstrip
strip s = rstrip (lstrip s)

-- `s.startswith(t)`
unfoldable pub starts_with : String → String → Bool
starts_with s [] = true
starts_with [] (d ∷ t) = false
starts_with (c ∷ s) (d ∷ t) = code c ==ℕ code d && starts_with s t

-- `t in s`
unfoldable pub contains_text : String → String → Bool
unfolding starts_with
contains_text t [] = t == ""
contains_text t (c ∷ s) = starts_with (c ∷ s) t || contains_text t s

-- `s in {…}`
unfoldable pub elem : String → List String → Bool
elem s List.[] = false
elem s (List.◌∷◌ t ts) = s == t || elem s ts

-- `sep.join(xs)`
unfoldable pub join : String → List String → String
join sep List.[] = ""
join sep (List.◌∷◌ x List.[]) = x
join sep (List.◌∷◌ x (List.◌∷◌ y xs)) = x ++ˢ sep ++ˢ join sep (List.◌∷◌ y xs)

digit : ℕ → String → Char → Char
digit n [] d = d
digit zero (c ∷ s) d = c
digit (suc n) (c ∷ s) d = digit n s d

-- the last digit is put on last; a number has fewer digits than its value plus one
digits_from : ℕ → ℕ → String → String
digits_from zero n acc = acc
digits_from (suc fuel) n acc =
    let acc' = digit (n % 10) "0123456789" Prim.Native.Char.nul ∷ acc in
    let rest = digits_from fuel (n / 10) acc' in if leb n 9 then acc' else rest

-- `str(n)`
unfoldable pub show_nat : ℕ → String
unfolding digits_from digit
show_nat n = digits_from (suc n) n ""

-- decimal digits, with single underscores between them; `seen` says that a digit came last
parse_from : Bool → ℕ → String → Option ℕ
parse_from seen acc [] = if seen then some acc else none
parse_from seen acc (c ∷ s) =
    let n = code c in
    let digit_next = parse_from true (acc * 10 + (n - 48)) s in
    let after_underscore = parse_from false acc s in
    if leb 48 n && leb n 57
    then digit_next
    else if n ==ℕ b'_' && seen
    then after_underscore
    else none

-- `int(s)` of a text with no sign and no space; `none` is the ValueError
unfoldable pub parse_nat : String → Option ℕ
unfolding parse_from
parse_nat s = parse_from false 0 s
