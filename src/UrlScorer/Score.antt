-- ===== src/UrlScorer/Score.antt =====
-- `UrlScorer.score` of backend/engines/scanning/url_scoring.py.
use graduationp.Prelude.{
  ℕ, ◌+◌, ◌-◌, ◌*◌, ◌/◌, Bool, ◌&&◌, ◌||◌, not, String, ◌==◌, ◌++ˢ◌, List, [], ◌∷◌, length, any,
  ltb, leb, ◌==ℕ◌, lower, contains_text, elem, show_nat, if◌then◌else◌, ℤ, pos, negsuc,
}
use graduationp.Prelude.Dict.{Dict, insert}
use graduationp.UrlScorer.{Evidence, UrlScan}
use graduationp.UrlScorer.Domain.{extract_domain}
use graduationp.UrlScorer.Points.{score_evidence}

abbrev trusted_domains : List String
trusted_domains =
    "google.com" ∷ "facebook.com" ∷ "microsoft.com" ∷ "apple.com" ∷ "amazon.com" ∷ "twitter.com"
    ∷ "github.com" ∷ "gitlab.com" ∷ "linkedin.com" ∷ "youtube.com" ∷ "instagram.com" ∷ "netflix.com"
    ∷ "reddit.com" ∷ "wikipedia.org" ∷ "stackoverflow.com" ∷ "mozilla.org" ∷ "cloudflare.com"
    ∷ "azure.com" ∷ "aws.amazon.com" ∷ "paypal.com" ∷ "whatsapp.com" ∷ "zoom.us" ∷ "dropbox.com"
    ∷ "spotify.com" ∷ []

pub record UrlScoringResult : Type 0 where
  pub score : ℕ
  pub verdict : String
  pub verdict_label : String
  pub summary : String
  pub breakdown : Dict ℤ

-- `_is_allowlisted`
unfoldable pub is_allowlisted : List Evidence → Bool
unfolding lower contains_text
is_allowlisted evidence = any (λ e. contains_text "allowlist" (lower e.title)) evidence

-- `_gsb_flagged`
unfoldable pub gsb_flagged : List Evidence → Bool
unfolding lower contains_text elem
gsb_flagged evidence =
    any
      (λ e.
        let combined = lower (e.title ++ˢ " " ++ˢ e.detail) in
        (contains_text "google safe browsing" combined || contains_text "safe browsing" combined)
        && elem (lower e.severity) ("high" ∷ "critical" ∷ []))
      evidence

unfoldable pub gsb_ran_clean : List Evidence → Bool
unfolding lower contains_text elem
gsb_ran_clean evidence =
    any
      (λ e.
        contains_text "safe browsing" (lower e.title)
        && elem (lower e.severity) ("info" ∷ "low" ∷ []))
      evidence

-- `_should_skip_evidence`
unfoldable pub should_skip_evidence : Bool → Evidence → Bool
unfolding lower contains_text
should_skip_evidence is_trusted e = is_trusted && contains_text "password" (lower e.title)

-- The breakdown and the total so far.
abbrev pub Tally : Type 0
Tally = Dict ℤ × ℕ

unfoldable pub score_all : Bool → List Evidence → Tally → Tally
unfolding should_skip_evidence score_evidence
score_all is_trusted [] t = t
score_all is_trusted (e ∷ evidence) (breakdown, total) =
    let (booked, points) = score_evidence e breakdown in
    let skipped = score_all is_trusted evidence (breakdown, total) in
    let scored = score_all is_trusted evidence (booked, total + points) in
    if should_skip_evidence is_trusted e then skipped else scored

-- `-n`
abbrev pub minus : ℕ → ℤ
minus Prim.Native.Nat.zero = pos 0
minus (Prim.Native.Nat.suc n) = negsuc n

abbrev pub ioc_points : ℕ → ℕ
ioc_points n = let doubled = (n - 10) * 2 in if leb doubled 20 then doubled else 20

unfoldable pub add_ioc : ℕ → Tally → Tally
unfolding insert
add_ioc n (breakdown, total) =
    if ltb 10 n
    then (insert "many_external_domains" (pos (ioc_points n)) breakdown, total + ioc_points n)
    else (breakdown, total)

unfoldable pub add_http : Bool → Bool → Tally → Tally
unfolding insert
add_http is_https is_trusted (breakdown, total) =
    if not is_https && not is_trusted
    then (insert "not_https" (pos 10) breakdown, total + 10)
    else (breakdown, total)

unfoldable pub cap_trusted : Bool → Tally → Tally
unfolding insert
cap_trusted is_trusted (breakdown, total) =
    if is_trusted && ltb 10 total
    then (insert "allowlist_cap" (minus (total - 10)) breakdown, 10)
    else (breakdown, total)

-- `int(total * 0.4)`; the rounding of the floating-point product does not reach a whole number
abbrev pub discount_of : ℕ → ℕ
discount_of total = total * 2 / 5

unfoldable pub discount_clean : Bool → Bool → Tally → Tally
unfolding insert
discount_clean ran_clean is_trusted (breakdown, total) =
    if ran_clean && not is_trusted && ltb 0 total && ltb 0 (discount_of total)
    then (
      insert "gsb_clean_discount" (minus (discount_of total)) breakdown,
      total - discount_of total,
    )
    else (breakdown, total)

-- `_get_verdict`
unfoldable pub get_verdict : ℕ → String × String
get_verdict score =
    if leb score 20
    then ("safe", "Safe")
    else if leb score 50
    then ("suspicious", "Suspicious")
    else if leb score 80
    then ("likely_malicious", "Likely Malicious")
    else ("malicious", "Malicious")

abbrev risk_sentence : ℕ → String
risk_sentence score =
    if score ==ℕ 0
    then "No security concerns detected."
    else if leb score 20
    then "Low risk (score: " ++ˢ show_nat score ++ˢ "/100)."
    else if leb score 50
    then "Moderate risk (score: " ++ˢ show_nat score ++ˢ "/100) - Review recommended."
    else if leb score 80
    then "High risk (score: " ++ˢ show_nat score ++ˢ "/100) - Likely malicious."
    else "Critical risk (score: " ++ˢ show_nat score ++ˢ "/100) - Avoid this URL."

-- `_build_summary`, whose parts are joined by spaces
unfoldable pub build_summary : UrlScan → ℕ → String
unfolding show_nat
build_summary scan score =
    risk_sentence score
    ++ˢ (if ltb 0 (length scan.evidence)
        then " " ++ˢ show_nat (length scan.evidence) ++ˢ " indicator(s) found."
        else "")
    ++ˢ (if ltb 0 scan.redirects then " " ++ˢ show_nat scan.redirects ++ˢ " redirect(s)." else "")
    ++ˢ (if scan.sandbox_used then " Sandbox detonation performed." else "")

-- `is_trusted` where Google Safe Browsing did not flag the URL
unfoldable pub is_trusted : UrlScan → Bool
is_trusted scan =
    (is_allowlisted scan.evidence || elem (extract_domain scan) trusted_domains)
    && not (gsb_flagged scan.evidence)

-- breakdown and total of the heuristics, before the last cap
unfoldable pub tally : UrlScan → Tally
tally scan =
    let trusted = is_trusted scan in
    discount_clean (gsb_ran_clean scan.evidence) trusted (
      cap_trusted trusted (
        add_http scan.is_https trusted
          (add_ioc scan.ioc_domains (score_all trusted scan.evidence ([], 0)))))

abbrev pub blocked_result : UrlScoringResult
blocked_result = record {
  score = 100;
  verdict = "blocked";
  verdict_label = "Blocked";
  summary = "URL was blocked during validation due to security policy";
  breakdown = ("blocked", pos 100) ∷ [];
}

abbrev pub flagged_result : UrlScoringResult
flagged_result = record {
  score = 100;
  verdict = "malicious";
  verdict_label = "Malicious";
  summary = "Google Safe Browsing flagged this URL as a threat";
  breakdown = ("google_safe_browsing", pos 100) ∷ [];
}

abbrev pub at_most_hundred : ℕ → ℕ
at_most_hundred n = if leb n 100 then n else 100

-- from the last cap on
unfoldable pub result_of : UrlScan → Tally → UrlScoringResult
result_of scan (breakdown, total) = record {
  score = at_most_hundred total;
  verdict = (get_verdict (at_most_hundred total)).0;
  verdict_label = (get_verdict (at_most_hundred total)).1;
  summary = build_summary scan (at_most_hundred total);
  breakdown = breakdown;
}

unfoldable pub score : UrlScan → UrlScoringResult
score scan =
    if scan.verdict == "blocked"
    then blocked_result
    else if gsb_flagged scan.evidence
    then flagged_result
    else result_of scan (tally scan)
