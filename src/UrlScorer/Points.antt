-- ===== src/UrlScorer/Points.antt =====
-- `EVIDENCE_WEIGHTS` and `_score_evidence` of backend/engines/scanning/url_scoring.py.
use graduationp.Prelude.{
  ℕ, ◌+◌, ◌&&◌, String, ◌==◌, [], ◌∷◌, none, some, ltb, ◌==ℕ◌, lower, contains_text, if◌then◌else◌,
  ℤ, pos, negsuc,
}
use graduationp.Prelude.Dict.{Dict, lookup}
use graduationp.UrlScorer.{Evidence}

abbrev pub severity_weights : Dict ℕ
severity_weights = ("critical", 30) ∷ ("high", 20) ∷ ("medium", 10) ∷ ("low", 5) ∷ ("info", 0) ∷ []

abbrev pub keyword_weights : Dict ℕ
keyword_weights =
    ("punycode", 25)
    ∷ ("homograph", 25)
    ∷ ("ip address url", 15)
    ∷ ("ip literal", 15)
    ∷ ("localhost", 30)
    ∷ ("private", 30)
    ∷ ("suspicious tld", 12)
    ∷ ("multiple redirects", 10)
    ∷ ("excessive redirects", 25)
    ∷ ("javascript redirect", 15)
    ∷ ("download content", 25)
    ∷ ("download attempt", 35)
    ∷ ("password input", 12)
    ∷ ("external form", 20)
    ∷ ("external iframe", 12)
    ∷ ("data uri", 10)
    ∷ ("obfuscation", 15)
    ∷ ("cryptocurrency", 10)
    ∷ ("brand name", 15)
    ∷ ("ssl", 20)
    ∷ ("tls", 20)
    ∷ ("certificate", 20)
    ∷ ("popup", 12)
    ∷ ("excessive navigation", 10)
    ∷ []

-- the loop over the keywords: the best weight so far, and its keyword
unfoldable pub best_keyword : String → ℕ → String → Dict ℕ → ℕ × String
unfolding contains_text
best_keyword title points matched [] = (points, matched)
best_keyword title points matched ((keyword, weight) ∷ rest) =
    let better = best_keyword title weight keyword rest in
    let same = best_keyword title points matched rest in
    if contains_text keyword title && ltb points weight then better else same

unfoldable pub weight_of : String → ℕ
unfolding lookup
weight_of severity = elim (lookup severity severity_weights) [ none ↦ 0 | some n ↦ n ]

-- The points of an item, and the key that they are booked under.
unfoldable pub points_of : Evidence → ℕ × String
points_of e =
    let (points, matched) = best_keyword (lower e.title) 0 "" keyword_weights in
    if points ==ℕ 0 then (weight_of (lower e.severity), lower e.severity) else (points, matched)

-- `n` more on an integer
unfoldable pub add_nat : ℤ → ℕ → ℤ
add_nat (pos m) n = pos (m + n)
add_nat (negsuc m) Prim.Native.Nat.zero = negsuc m
add_nat (negsuc Prim.Native.Nat.zero) (Prim.Native.Nat.suc n) = pos n
add_nat (negsuc (Prim.Native.Nat.suc m)) (Prim.Native.Nat.suc n) = add_nat (negsuc m) n

-- `breakdown[key] += points`, from 0 where the key is missing
unfoldable pub book : String → ℕ → Dict ℤ → Dict ℤ
unfolding add_nat
book key points [] = (key, pos points) ∷ []
book key points ((k, z) ∷ rest) =
    let booked = book key points rest in
    if k == key then (k, add_nat z points) ∷ rest else (k, z) ∷ booked

-- `_score_evidence`: the breakdown afterwards, and the points
unfoldable pub score_evidence : Evidence → Dict ℤ → Dict ℤ × ℕ
score_evidence e breakdown =
    let (points, key) = points_of e in
    (if ltb 0 points then book key points breakdown else breakdown, points)
