-- ===== src/Value.antt =====
-- The values of a dynamic language, as backend/engines/scanning reads them from its dictionaries.
use Prim.Native.Char.{code}
use Prim.Native.String.{[], ◌∷◌}
use graduationp.Prelude.{
  eq_iff, arith, ◌≡◌, ℕ, zero, suc, Bool, true, false, Option, none, some, List, String, ◌==◌,
  ◌++ˢ◌, strip, show_nat, parse_nat, ◌==ℕ◌, not, if◌then◌else◌, ℤ, pos, negsuc,
}
use graduationp.Prelude.Dict.{insert, Dict, lookup}

-- Any other object, by what the code reads of it: its truth value, whether it is a float, its `str`, its `int` where
-- that raises no TypeError or ValueError, and its `list` where it is one of texts.
pub record Object : Type 0 where
  pub is_true : Bool
  pub is_float : Bool
  pub shown : String
  pub as_int : Option ℤ
  pub texts : Option (List String)

pub data Value : Type 0 where
  null : Value
  bool : Bool → Value
  int : ℤ → Value
  text : String → Value
  object : Object → Value

abbrev is_zero : ℤ → Bool
is_zero (pos zero) = true
is_zero _ = false

-- `bool(v)`
unfoldable pub truthy : Value → Bool
truthy null = false
truthy (bool b) = b
truthy (int z) = not (is_zero z)
truthy (text s) = not (s == "")
truthy (object o) = o.is_true

unfoldable pub show_int : ℤ → String
unfolding show_nat
show_int (pos n) = show_nat n
show_int (negsuc n) = "-" ++ˢ show_nat (suc n)

-- `str(v)`
unfoldable pub to_str : Value → String
unfolding show_int
to_str null = "None"
to_str (bool b) = if b then "True" else "False"
to_str (int z) = show_int z
to_str (text s) = s
to_str (object o) = o.shown

-- `str(v or "")`
unfoldable pub str_or_empty : Value → String
unfolding truthy to_str
str_or_empty v = if truthy v then to_str v else ""

negate : ℕ → ℤ
negate zero = pos zero
negate (suc n) = negsuc n

signed : String → Option ℤ
signed [] = none
signed (c ∷ s) =
    if code c ==ℕ b'-'
    then elim (parse_nat s) [ none ↦ none | some n ↦ some (negate n) ]
    else elim (parse_nat (if code c ==ℕ b'+' then s else c ∷ s)) [
      | none ↦ none
      | some n ↦ some (pos n)
    ]

-- `int(v)`; `none` is a TypeError or a ValueError
unfoldable pub as_int : Value → Option ℤ
unfolding negate signed strip parse_nat
as_int null = none
as_int (bool b) = some (pos (if b then 1 else 0))
as_int (int z) = some z
as_int (text s) = signed (strip s)
as_int (object o) = o.as_int

-- the characters of a text, each as a text
chars : String → List String
chars [] = List.[]
chars (c ∷ s) = List.◌∷◌ (c ∷ "") (chars s)

-- `list(v or [])`; `none` is the TypeError of a value that cannot be listed
unfoldable pub list_of : Value → Option (List String)
unfolding chars truthy
list_of v =
    if truthy v
    then elim v [ text s ↦ some (chars s) | object o ↦ o.texts | _ ↦ none ]
    else some List.[]

-- `d.get(k)`, which is None where the key is missing
unfoldable pub get : String → Dict Value → Value
unfolding lookup
get k d = elim (lookup k d) [ none ↦ null | some v ↦ v ]

-- `v is not None`
abbrev pub is_given : Value → Bool
is_given null = false
is_given _ = true

-- `v == s` for a text `s`
unfoldable pub is_text : String → Value → Bool
is_text s (text t) = t == s
is_text s _ = false

-- `repr` of a text that holds neither a quote, nor a backslash, nor a control character
abbrev quoted : String → String
quoted s = "'" ++ˢ s ++ˢ "'"

show_items : List String → String
show_items List.[] = ""
show_items (List.◌∷◌ s List.[]) = quoted s
show_items (List.◌∷◌ s (List.◌∷◌ t ts)) = quoted s ++ˢ ", " ++ˢ show_items (List.◌∷◌ t ts)

abbrev is_cons : List String → Bool
is_cons List.[] = false
is_cons _ = true

-- a list of texts, as an object
unfoldable pub list_value : List String → Value
unfolding show_items
list_value xs = object (record {
  is_true = is_cons xs;
  is_float = false;
  shown = "[" ++ˢ show_items xs ++ˢ "]";
  as_int = none;
  texts = some xs;
})

pub get-insert :
    (k j : String) (v : Value) (d : Dict Value)
    → get j (insert k v d) ≡ (if k == j then v else get j d)
unfolding get insert
get-insert k j v List.[] = ground arith
get-insert k j v (List.◌∷◌ (i, w) d) =
    ground (arith, eq_iff k j, eq_iff i k, eq_iff i j, get-insert k j v d)
