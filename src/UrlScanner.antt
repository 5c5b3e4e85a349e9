-- ===== src/UrlScanner.antt =====
-- backend/engines/scanning/url_scanner.py: the scan of a URL, without the sandbox.
-- The children: addresses (Address), the validation (Validate), the structure of a URL
-- (Structure, with its Tables), the fetch (Fetch), the verdict (Verdict), the cache (Cache) and the
-- scan (Scan); what is true of them is in Guarded, Schemes, Limits, Evict and Weight.
pub mod Address
pub mod Validate
pub mod Tables
pub mod Structure
pub mod Fetch
pub mod Verdict
pub mod Cache
pub mod Scan
pub mod Guarded
pub mod Schemes
pub mod Limits
pub mod Evict
pub mod Weight
mod Tests
use graduationp.Prelude.{String}

-- An item of evidence.
pub record Evidence : Type 0 where
  pub title : String
  pub severity : String
  pub detail : String
  pub category : String
