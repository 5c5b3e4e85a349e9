-- ===== src/UrlScorer/Tests.antt =====
-- Runs of backend/engines/scanning/url_scoring.py, and each theorem about it at an input.
use graduationp.UrlScorer.Points.{best_keyword, points_of, best_keyword, points_of}
use graduationp.Prelude.{none, elem, true, false, String, [], ◌∷◌, ◌≡◌, ◌≢◌, refl, arith, eq_iff}
use graduationp.UrlScorer.{Evidence, UrlScan}
use graduationp.UrlScorer.Domain.{extract_domain}
use graduationp.UrlScorer.Score.{
  is_allowlisted, gsb_flagged, cap_trusted, discount_clean, gsb_flagged, tally, score_all,
  is_allowlisted, add_http, gsb_ran_clean, result_of, add_ioc, cap_trusted, discount_clean,
  gsb_flagged, tally, score_all, is_allowlisted, add_http, gsb_ran_clean, result_of, add_ioc, score,
  is_trusted,
}
use graduationp.UrlScorer.Account.{Adds, score-Adds}

abbrev redirects : Evidence
redirects = record { title = "Excessive redirects"; detail = ""; severity = "High" }

abbrev scan : UrlScan
scan = record {
  verdict = "";
  normalized_url = "https://user@www.GitHub.com:443/login?x=1";
  url = "";
  final_url = "";
  refuses = λ location. none;
  evidence = redirects ∷ [];
  redirects = 4;
  sandbox_used = false;
  is_https = true;
  ioc_domains = 12;
}

abbrev whatsapp : UrlScan
whatsapp = record scan { normalized_url = "https://whatsapp.com/" }

github : extract_domain scan ≡ "github.com"
unfolding extract_domain
github = refl

stripped : extract_domain whatsapp ≡ "hatsapp.com"
unfolding extract_domain
stripped = refl

github_capped : (score scan).score ≡ 10
unfolding score gsb_flagged result_of tally discount_clean gsb_ran_clean cap_trusted is_trusted
    is_allowlisted extract_domain add_http add_ioc score_all points_of best_keyword
github_capped = refl

whatsapp_scores : (score whatsapp).score ≡ 29
unfolding score gsb_flagged result_of tally discount_clean gsb_ran_clean cap_trusted is_trusted
    is_allowlisted extract_domain add_http add_ioc score_all points_of best_keyword
whatsapp_scores = refl

github_trusted : is_trusted scan ≡ true
unfolding is_trusted is_allowlisted elem extract_domain gsb_flagged
github_trusted = refl

not_blocked : ◌≢◌ {A = String} "" "blocked"
not_blocked = ground (arith, eq_iff "" "blocked")

score-Adds_example : Adds (score whatsapp)
score-Adds_example = score-Adds whatsapp
