-- ===== src/UrlScorer/Account.antt =====
-- The breakdown of a score of backend/engines/scanning/url_scoring.py adds up to the score.
use graduationp.Prelude.{
  Bool-cases, inl, inr, ℕ, ◌+◌, ◌-◌, Bool, false, ◌&&◌, not, String, ◌==◌, List, [], ◌∷◌, ltb, elem,
  ◌≡◌, refl, arith, if_cases, if_cases_true, ℤ, pos,
}
use graduationp.Prelude.Dict.{Dict, has_key}
use graduationp.UrlScorer.{Evidence, UrlScan}
use graduationp.UrlScorer.Points.{points_of, book, score_evidence}
use graduationp.UrlScorer.Score.{
  blocked_result, flagged_result, gsb_flagged, score, tally, result_of, ioc_points, discount_of,
  UrlScoringResult, Tally, is_trusted, gsb_flagged, gsb_ran_clean, tally, score, minus, cap_trusted,
  discount_clean, add_ioc, add_http, score_all, should_skip_evidence, result_of, at_most_hundred,
}
use graduationp.UrlScorer.Sums.{
  gains, losses, Balanced, Without, book-gains, book-has_key, minus_parts, Awaits, insert-Awaits,
  skip-Awaits,
}
use graduationp.UrlScorer.Keys.{reserved, points_free}

-- None of the reserved keys is in the breakdown, and the total is what it adds up to.
abbrev Booked : Tally → Type 0
Booked t = Balanced t × Without reserved t.0

book-Booked :
    (k : String) (n : ℕ) (d : Dict ℤ) (total : ℕ)
    → elem k reserved ≡ false
    → Booked (d, total)
    → Booked (book k n d, total + n)
unfolding elem
book-Booked k n d total free (balanced, (ioc, (http, (capped, (clean, rest))))) = (
  omega (arith, balanced, book-gains k n d),
  (
    ground (arith, free, ioc, book-has_key k "many_external_domains" n d),
    (
      ground (arith, free, http, book-has_key k "not_https" n d),
      (
        ground (arith, free, capped, book-has_key k "allowlist_cap" n d),
        (ground (arith, free, clean, book-has_key k "gsb_clean_discount" n d), rest),
      ),
    ),
  ),
)

zero_points : (n : ℕ) (total : ℕ) → ltb 0 n ≡ false → total + n ≡ total
zero_points n total h = ground arith

score_evidence-Booked :
    (e : Evidence) (d : Dict ℤ) (total : ℕ)
    → Booked (d, total)
    → Booked ((score_evidence e d).0, total + (score_evidence e d).1)
unfolding score_evidence
score_evidence-Booked e d total b =
    let (n, k) = points_of e in
    elim (Bool-cases (ltb 0 n)) [
      | inl some_points ↦ rw (some_points) (book-Booked k n d total (points_free e some_points) b)
      | inr no_points ↦ rw (no_points, zero_points n total no_points) b
    ]

score_all-Booked :
    (trusted : Bool) (evidence : List Evidence) (t : Tally)
    → Booked t
    → Booked (score_all trusted evidence t)
unfolding score_all
score_all-Booked trusted [] t b = b
score_all-Booked trusted (e ∷ evidence) (d, total) b =
    if_cases Booked (should_skip_evidence trusted e)
      (score_all-Booked trusted evidence (d, total) b)
      (score_all-Booked trusted evidence _ (score_evidence-Booked e d total b))

abbrev late : List String
late = "allowlist_cap" ∷ "gsb_clean_discount" ∷ []

add_ioc-Awaits : (n : ℕ) (t : Tally) → Awaits reserved t → Awaits ("not_https" ∷ late) (add_ioc n t)
unfolding add_ioc
add_ioc-Awaits n (d, total) a =
    if_cases (Awaits ("not_https" ∷ late)) (ltb 10 n)
      (insert-Awaits "many_external_domains" ("not_https" ∷ late) (pos (ioc_points n)) d total
        (total + ioc_points n) refl (omega arith) a)
      (skip-Awaits "many_external_domains" ("not_https" ∷ late) (d, total) a)

add_http-Awaits :
    (https trusted : Bool) (t : Tally)
    → Awaits ("not_https" ∷ late) t
    → Awaits late (add_http https trusted t)
unfolding add_http
add_http-Awaits https trusted (d, total) a =
    if_cases (Awaits late) (not https && not trusted)
      (insert-Awaits "not_https" late (pos 10) d total (total + 10) refl (omega arith) a)
      (skip-Awaits "not_https" late (d, total) a)

cap_trusted-Awaits :
    (trusted : Bool) (t : Tally)
    → Awaits late t
    → Awaits ("gsb_clean_discount" ∷ []) (cap_trusted trusted t)
unfolding cap_trusted
cap_trusted-Awaits trusted (d, total) a =
    if_cases_true (Awaits ("gsb_clean_discount" ∷ [])) (trusted && ltb 10 total)
      (λ over.
        insert-Awaits "allowlist_cap" ("gsb_clean_discount" ∷ []) (minus (total - 10)) d total 10
          refl (ground (arith, minus_parts (total - 10), over)) a)
      (skip-Awaits "allowlist_cap" ("gsb_clean_discount" ∷ []) (d, total) a)

discount_clean-Awaits :
    (ran trusted : Bool) (t : Tally)
    → Awaits ("gsb_clean_discount" ∷ []) t
    → Awaits [] (discount_clean ran trusted t)
unfolding discount_clean
discount_clean-Awaits ran trusted (d, total) a =
    if_cases (Awaits []) (ran && not trusted && ltb 0 total && ltb 0 (discount_of total))
      (insert-Awaits "gsb_clean_discount" [] (minus (discount_of total)) d total
        (total - discount_of total) refl (omega (arith, minus_parts (discount_of total))) a)
      (skip-Awaits "gsb_clean_discount" [] (d, total) a)

empty-Booked : Booked ([], 0)
unfolding has_key
empty-Booked = ground arith

tally-Balanced : (scan : UrlScan) → Balanced (tally scan)
unfolding tally
tally-Balanced scan =
    let trusted = is_trusted scan in
    let scored = score_all trusted scan.evidence ([], 0) in
    let with_ioc =
      add_ioc-Awaits scan.ioc_domains scored
        (score_all-Booked trusted scan.evidence ([], 0) empty-Booked) in
    let with_http = add_http-Awaits scan.is_https trusted _ with_ioc in
    (discount_clean-Awaits (gsb_ran_clean scan.evidence) trusted _
      (cap_trusted-Awaits trusted _ with_http)).0

-- What the entries of the breakdown add, less what they take off, is the score, up to 100.
unfoldable pub Adds : UrlScoringResult → Type 0
Adds r = r.score ≡ at_most_hundred (gains r.breakdown - losses r.breakdown)

result_of-Adds : (scan : UrlScan) (t : Tally) → Balanced t → Adds (result_of scan t)
unfolding result_of Adds
result_of-Adds scan t b = ground (arith, b)

blocked-Adds : Adds blocked_result
unfolding Adds
blocked-Adds = refl

flagged-Adds : Adds flagged_result
unfolding Adds
flagged-Adds = refl

-- The breakdown of a result explains its score: what its entries add, less what they take off, is
-- the score, up to the cap at 100.
pub score-Adds : (scan : UrlScan) → Adds (score scan)
unfolding score
score-Adds scan = if_cases Adds (scan.verdict == "blocked") blocked-Adds (
    if_cases Adds (gsb_flagged scan.evidence) flagged-Adds
      (result_of-Adds scan (tally scan) (tally-Balanced scan)))
