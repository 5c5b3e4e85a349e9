-- ===== src/UrlScanner/Fetch.antt =====
-- `_safe_fetch` of backend/engines/scanning/url_scanner.py. The answer of the library `requests` to the
-- request is a parameter: it follows up to five redirects by itself.
use Prim.Native.String
use graduationp.Prelude.{
  ◌∷◌, ◌*◌, ℕ, zero, suc, Bool, true, false, ◌||◌, String, ◌++ˢ◌, List, [], ◌++◌, Option, none,
  some, length, any, ltb, leb, lower, contains_text, show_nat, if◌then◌else◌,
}
use graduationp.UrlScanner.{Evidence}
use graduationp.UrlScanner.Validate.{one, none_found}

-- What `requests` raises; a text is `str(e)`.
pub data FetchError : Type 0 where
  too_many_redirects : FetchError
  timed_out : FetchError
  ssl_error : String → FetchError
  connection_error : String → FetchError
  other_error : String → FetchError

-- A response: the last URL, the earlier ones with their status, and the chunks of the body; reading
-- behind the last chunk may raise.
pub record Response : Type 0 where
  pub status : ℕ
  pub url : String
  pub content_type : String
  pub server : String
  pub history : List (String × ℕ)
  pub chunks : List (List ℕ)
  pub read_error : Option FetchError

-- `session.get(...)`
pub data Answer : Type 0 where
  raised : FetchError → Answer
  answered : Response → Answer

-- The dictionary that is returned. `content` is kept in bytes, before it is decoded.
pub record Fetched : Type 0 where
  pub final_url : String
  pub redirects : List (String × ℕ)
  pub status : ℕ
  pub content_type : String
  pub content_size : ℕ
  pub content : List ℕ
  pub server : String
  pub evidence : List Evidence

abbrev pub max_content_size : ℕ
max_content_size = 2 * 1024 * 1024

abbrev pub item : String → String → String → String → Evidence
item title severity detail category = record {
  title = title;
  severity = severity;
  detail = detail;
  category = category;
}

-- `s[:n]`
unfoldable pub take_chars : ℕ → String → String
take_chars zero s = ""
take_chars (suc n) Prim.Native.String.[] = ""
take_chars (suc n) (Prim.Native.String.◌∷◌ c s) = Prim.Native.String.◌∷◌ c (take_chars n s)

-- the `except` clauses
unfoldable pub error_evidence : FetchError → Evidence
unfolding take_chars
error_evidence too_many_redirects =
    item "Excessive Redirects" "high" "URL exceeded maximum of 5 redirects" "behavior"
error_evidence timed_out =
    item "Connection Timeout" "medium" "Server did not respond within timeout period" "behavior"
error_evidence (ssl_error e) =
    item "SSL/TLS Error" "high" ("SSL certificate error: " ++ˢ take_chars 100 e) "security"
error_evidence (connection_error e) =
    item "Connection Failed" "info" ("Could not connect to server: " ++ˢ take_chars 100 e)
      "behavior"
error_evidence (other_error e) =
    item "Fetch Error" "info" ("Error fetching URL: " ++ˢ take_chars 100 e) "behavior"

abbrev download_types : List String
download_types =
    "application/octet-stream" ∷ "application/x-msdownload" ∷ "application/x-msdos-program"
    ∷ "application/exe" ∷ "application/x-exe" ∷ "application/zip" ∷ "application/x-zip"
    ∷ "application/x-rar" ∷ "application/x-7z-compressed" ∷ []

unfoldable pub redirect_evidence : ℕ → List Evidence
redirect_evidence n =
    if leb 3 n
    then one (
        item "Multiple Redirects" (if ltb n 5 then "medium" else "high")
          ("URL redirected " ++ˢ show_nat n ++ˢ " times before reaching final destination")
          "behavior")
    else none_found

unfoldable pub is_download : String → Bool
unfolding lower contains_text
is_download content_type = any (λ t. contains_text t (lower content_type)) download_types

unfoldable pub is_text_type : String → Bool
unfolding lower contains_text
is_text_type content_type =
    contains_text "text/" (lower content_type)
    || contains_text "html" (lower content_type)
    || contains_text "javascript" (lower content_type)

-- the loop over the chunks: the bytes, and whether it stopped at the limit
unfoldable pub read : List ℕ → List (List ℕ) → List ℕ × Bool
read content [] = (content, false)
read content (chunk ∷ chunks) =
    let more = content ++ chunk in
    let rest = read more chunks in if ltb max_content_size (length more) then (more, true) else rest

abbrev large_content : Evidence
large_content = item "Large Content" "info" "Content exceeded 2048KB limit, truncated" "content"

-- what is known before the body is read
abbrev head_of : Response → Fetched
head_of r = record {
  final_url = r.url;
  redirects = r.history;
  status = r.status;
  content_type = r.content_type;
  content_size = 0;
  content = [];
  server = r.server;
  evidence = redirect_evidence (length r.history);
}

abbrev with_evidence : List Evidence → Fetched → Fetched
with_evidence es f = record f { evidence = f.evidence ++ es }

abbrev with_content : List ℕ → Fetched → Fetched
with_content bytes f = record f { content_size = length bytes; content = bytes }

-- the end of the loop: at the limit, by an exception, or behind the last chunk
unfoldable pub after_read : List ℕ × Bool → Option FetchError → Fetched → Fetched
after_read (bytes, true) e f = with_content bytes (with_evidence (one large_content) f)
after_read (bytes, false) none f = with_content bytes f
after_read (bytes, false) (some e) f = with_evidence (one (error_evidence e)) f

unfoldable pub read_body : Response → Fetched → Fetched
read_body r f =
    if is_text_type r.content_type
    then after_read (read [] r.chunks) r.read_error f
    else with_evidence
        (one (
          item "Non-Text Content" "info" ("Content-type is not text/html: " ++ˢ r.content_type)
            "content"))
        f

abbrev download_evidence : Response → Evidence
download_evidence r =
    item "Download Content Type" "high"
      ("Server returned download content-type: " ++ˢ r.content_type) "content"

unfoldable pub handle_response : Bool → Response → Fetched
handle_response block_downloads r =
    let head = head_of r in
    let flagged = with_evidence (one (download_evidence r)) head in
    if is_download r.content_type
    then if block_downloads then flagged else read_body r flagged
    else read_body r head

-- the result before the request
abbrev pub not_fetched : String → Fetched
not_fetched url = record {
  final_url = url;
  redirects = [];
  status = 0;
  content_type = "";
  content_size = 0;
  content = [];
  server = "";
  evidence = none_found;
}

-- `_safe_fetch`
unfoldable pub safe_fetch : String → Bool → Answer → Fetched
safe_fetch url block_downloads (raised e) = with_evidence (one (error_evidence e)) (not_fetched url)
safe_fetch url block_downloads (answered r) = handle_response block_downloads r
