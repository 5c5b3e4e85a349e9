-- ===== src/UrlScorer/Keys.antt =====
-- Under which keys `_score_evidence` of backend/engines/scanning/url_scoring.py books points.
use graduationp.Prelude.{
  ℕ, true, false, not, String, List, [], ◌∷◌, Option, none, some, all, lower, ltb, elem, is_some,
  ◌≡◌, refl, arith, eq_iff,
}
use graduationp.Prelude.Dict.{Dict, lookup}
use graduationp.UrlScorer.{Evidence}
use graduationp.UrlScorer.Points.{
  weight_of, severity_weights, keyword_weights, best_keyword, points_of,
}

-- the keys that are not booked for an item of evidence
abbrev pub reserved : List String
reserved = "many_external_domains" ∷ "not_https" ∷ "allowlist_cap" ∷ "gsb_clean_discount" ∷ []

-- the keys of a table are not reserved
abbrev FreeTable : Dict ℕ → Type 0
FreeTable table = all (λ e. not (elem e.0 reserved)) table ≡ true

best_keyword_free :
    (title : String) (points : ℕ) (matched : String) (table : Dict ℕ)
    → FreeTable table
    → elem matched reserved ≡ false
    → elem (best_keyword title points matched table).1 reserved ≡ false
unfolding best_keyword
best_keyword_free title points matched [] all free = free
best_keyword_free title points matched ((k, weight) ∷ table) all free =
    ground
      (arith, best_keyword_free title weight k table, best_keyword_free title points matched table)

lookup_free :
    (k : String) (table : Dict ℕ)
    → FreeTable table
    → is_some (lookup k table) ≡ true
    → elem k reserved ≡ false
unfolding lookup
lookup_free k [] all h = ground arith
lookup_free k ((j, n) ∷ table) all h = ground (arith, eq_iff j k, lookup_free k table)

keywords_free : FreeTable keyword_weights
unfolding elem
keywords_free = refl

severities_free : FreeTable severity_weights
unfolding elem
severities_free = refl

empty_free : elem "" reserved ≡ false
unfolding elem
empty_free = refl

weight_known : (o : Option ℕ) → ltb 0 (elim o [ none ↦ 0 | some n ↦ n ]) ≡ true → is_some o ≡ true
weight_known none h = ground arith
weight_known (some n) h = refl

weight_free : (s : String) → ltb 0 (weight_of s) ≡ true → elem s reserved ≡ false
unfolding lookup weight_of
weight_free s h =
    lookup_free s severity_weights severities_free (weight_known (lookup s severity_weights) h)

pub points_free :
    (e : Evidence) → ltb 0 (points_of e).0 ≡ true → elem (points_of e).1 reserved ≡ false
unfolding points_of
points_free e h = ground (
  arith,
  weight_free (lower e.severity),
  best_keyword_free (lower e.title) 0 "" keyword_weights keywords_free empty_free,
)
