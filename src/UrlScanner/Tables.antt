-- ===== src/UrlScanner/Tables.antt =====
-- The tables of backend/engines/scanning/url_scanner.py.
use graduationp.Prelude.{String, List, [], ◌∷◌}

abbrev pub suspicious_tlds : List String
suspicious_tlds =
    ".tk" ∷ ".ml" ∷ ".ga" ∷ ".cf" ∷ ".gq" ∷ ".xyz" ∷ ".top" ∷ ".work" ∷ ".date" ∷ ".loan" ∷ ".win"
    ∷ ".stream" ∷ ".download" ∷ ".racing" ∷ ".review" ∷ ".click" ∷ ".link" ∷ ".bid" ∷ ".trade"
    ∷ ".webcam" ∷ ".party" ∷ ".cricket" ∷ ".science" ∷ ".accountant" ∷ ".zip" ∷ ".mov" ∷ []

abbrev pub suspicious_path_keywords : List String
suspicious_path_keywords =
    "login" ∷ "signin" ∷ "verify" ∷ "confirm" ∷ "secure" ∷ "update" ∷ "account" ∷ "banking"
    ∷ "password" ∷ "credential" ∷ "wallet" ∷ "paypal" ∷ "apple" ∷ "microsoft" ∷ "google" ∷ "amazon"
    ∷ "facebook" ∷ "instagram" ∷ "netflix" ∷ "dropbox" ∷ "onedrive" ∷ "icloud" ∷ ".exe" ∷ ".msi"
    ∷ ".bat" ∷ ".cmd" ∷ ".ps1" ∷ ".vbs" ∷ ".js" ∷ ".scr" ∷ ".zip" ∷ ".rar" ∷ ".7z" ∷ ".tar" ∷ []

abbrev pub suspicious_query_params : List String
suspicious_query_params =
    "redirect" ∷ "url" ∷ "goto" ∷ "return" ∷ "redir" ∷ "next" ∷ "dest" ∷ "destination" ∷ "target"
    ∷ "link" ∷ "out" ∷ "away" ∷ []
