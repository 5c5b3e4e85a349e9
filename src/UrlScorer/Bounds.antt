-- ===== src/UrlScorer/Bounds.antt =====
-- The bounds and the verdict of a score of backend/engines/scanning/url_scoring.py.
use graduationp.Prelude.{refl, ◌≤◌, Bool, true, false, ◌≡◌, ◌≢◌, arith, eq_iff}
use graduationp.UrlScorer.{UrlScan}
use graduationp.UrlScorer.Score.{
  result_of, flagged_result, Tally, is_trusted, gsb_flagged, tally, score, get_verdict, cap_trusted,
  discount_clean,
}

result_of-le : (scan : UrlScan) (t : Tally) → (result_of scan t).score ≤ 100
unfolding result_of
result_of-le scan t = ground arith

-- Whatever the evidence, the score is at most 100.
url_score-le : (scan : UrlScan) → (score scan).score ≤ 100
unfolding score
url_score-le scan = ground (arith, result_of-le scan (tally scan))

cap_trusted-le : (t : Tally) → (cap_trusted true t).1 ≤ 10
unfolding cap_trusted
cap_trusted-le t = ground arith

discount_clean_trusted : (ran : Bool) (t : Tally) → discount_clean ran true t ≡ t
unfolding discount_clean
discount_clean_trusted ran t = ground arith

tally_trusted : (scan : UrlScan) → is_trusted scan ≡ true → (tally scan).1 ≤ 10
unfolding tally
tally_trusted scan trusted = rw (trusted, discount_clean_trusted) (cap_trusted-le _)

trusted_unflagged : (scan : UrlScan) → is_trusted scan ≡ true → gsb_flagged scan.evidence ≡ false
unfolding is_trusted
trusted_unflagged scan trusted = ground arith

result_of_small :
    (scan : UrlScan) (t : Tally)
    → t.1 ≤ 10
    → ((result_of scan t).score ≤ 10) × ((result_of scan t).verdict ≡ "safe")
unfolding result_of get_verdict
result_of_small scan t small = ground arith

-- A URL whose domain is trusted or allowlisted, that Google Safe Browsing did not flag and that was
-- not blocked, scores at most 10, whatever else was found, and its verdict is safe.
trusted_capped :
    (scan : UrlScan)
    → is_trusted scan ≡ true
    → scan.verdict ≢ "blocked"
    → ((score scan).score ≤ 10) × ((score scan).verdict ≡ "safe")
unfolding score
trusted_capped scan trusted allowed = ground (
  arith,
  result_of_small scan (tally scan) (tally_trusted scan trusted),
  trusted_unflagged scan trusted,
  eq_iff scan.verdict "blocked",
)

result_of_verdict :
    (scan : UrlScan) (t : Tally)
    → (result_of scan t).verdict ≡ (get_verdict (result_of scan t).score).0
unfolding result_of
result_of_verdict scan t = refl

flagged_verdict : flagged_result.verdict ≡ (get_verdict flagged_result.score).0
unfolding get_verdict
flagged_verdict = refl

-- The verdict of a URL that was not blocked is always the band of its score, also where Google Safe
-- Browsing flagged it.
verdict_of_score :
    (scan : UrlScan)
    → scan.verdict ≢ "blocked"
    → (score scan).verdict ≡ (get_verdict (score scan).score).0
unfolding score
verdict_of_score scan allowed =
    ground
      (arith, flagged_verdict, result_of_verdict scan (tally scan), eq_iff scan.verdict "blocked")
