-- ===== src/UrlScorer.antt =====
-- backend/engines/scanning/url_scoring.py: a threat score for the evidence about a URL.
-- The children: the host of a URL (Domain), the points of an item (Points), the score (Score), and
-- what is true of it (Bounds, and Account with Sums and Keys).
pub mod Domain
pub mod Points
pub mod Score
pub mod Bounds
pub mod Sums
pub mod Keys
pub mod Account
mod Tests
use graduationp.Prelude.{ℕ, Bool, String, List, Option}

-- An item of evidence; a dictionary without one of the texts counts as one with "".
pub record Evidence : Type 0 where
  pub title : String
  pub detail : String
  pub severity : String

-- What `score` reads of a scan result. A URL is "" where the key is missing; `is_https` and
-- `ioc_domains` are signals, true and 0 where they are missing. `refuses` is no
-- part of the scan: it is what the library `urllib.parse` refuses of a location (see Domain).
pub record UrlScan : Type 0 where
  pub verdict : String
  pub normalized_url : String
  pub url : String
  pub final_url : String
  pub evidence : List Evidence
  pub redirects : ℕ
  pub sandbox_used : Bool
  pub is_https : Bool
  pub ioc_domains : ℕ
  pub refuses : String → Option String
