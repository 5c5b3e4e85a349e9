-- ===== src/Rtp/Trust.antt =====
-- Who is trusted in backend/core/realtime_protection.py: whitelists, Sentinel's own helpers,
-- installed software, browsers and system files.
use graduationp.Prelude.{
  ℕ, Bool, true, false, ◌&&◌, ◌||◌, not, String, ◌==◌, ◌++ˢ◌, List, [], ◌∷◌, Option, none, some,
  strip, lower, elem, starts_with, contains_text, any, if◌then◌else◌, ℤ, pos, leb_ℤ,
}
use graduationp.Prelude.Dict.{Dict, lookup}
use graduationp.Platform.{Platform, is_under, system_root, is_trusted_windows_install_path}

-- The machine, as the worker sees it. `app_roots` are the resolved `app_root()` and
-- `bundle_root()`; `parent_exe pid` is `psutil.Process(pid).exe()`, none where that raises or
-- psutil is not there; `fingerprint` is the size and the modification time of a file;
-- `authenticode` is what PowerShell prints for a file, none where it cannot run.
pub record Host : Type 0 where
  pub platform : Platform
  pub app_roots : List String
  pub own_pid : ℤ
  pub parent_exe : ℤ → Option String
  pub fingerprint : String → Option (ℕ × ℕ)
  pub file_exists : String → Bool
  pub authenticode : String → Option String

-- `s.rstrip("\\/")`
unfoldable pub strip_separators : String → String
strip_separators Prim.Native.String.[] = ""
strip_separators (Prim.Native.String.◌∷◌ c s) =
    let rest = strip_separators s in
    let kept = Prim.Native.String.◌∷◌ c "" in
    if rest == "" && (kept == "\\" || kept == "/") then "" else Prim.Native.String.◌∷◌ c rest

-- The loop of `_is_user_whitelisted`. Entries are lower case and stripped when they are loaded.
unfoldable pub is_user_whitelisted : Host → String → String → List String → Bool
unfolding strip_separators strip lower
is_user_whitelisted h name path whitelist =
    let name_lc = strip (lower name) in
    let path_lc = h.platform.canonical path in
    any
      (λ entry.
        not (entry == "")
        && (entry == name_lc
            || not (path_lc == "")
              && (path_lc == entry
                  || starts_with path_lc (strip_separators entry ++ˢ h.platform.sep))))
      whitelist

-- `_name_matches_whitelist_prefix`
unfoldable pub name_matches_whitelist_prefix : String → Bool
unfolding lower starts_with
name_matches_whitelist_prefix name =
    any (λ prefix. starts_with (lower name) prefix) ("microsoft." ∷ "windows." ∷ [])

-- `_path_is_relative_to`: the resolved paths first, then the canonical ones
unfoldable pub path_is_relative_to : Host → String → String → Bool
unfolding is_under strip_separators
path_is_relative_to h path root =
    let normalized_path = h.platform.canonical path in
    let normalized_root = h.platform.canonical root in
    is_under h.platform (h.platform.resolve path) (h.platform.resolve root)
    || not (normalized_path == "")
      && not (normalized_root == "")
      && (normalized_path == normalized_root
          || starts_with normalized_path (strip_separators normalized_root ++ˢ h.platform.sep))

-- the loop of `_sentinel_trusted_roots`
roots_from : Host → List String → List String → List String
unfolding elem
roots_from h seen [] = []
roots_from h seen (candidate ∷ candidates) =
    let key = h.platform.canonical candidate in
    let kept = candidate ∷ roots_from h (key ∷ seen) candidates in
    let skipped = roots_from h seen candidates in
    if key == "" || elem key seen then skipped else kept

unfoldable pub sentinel_trusted_roots : Host → List String
unfolding roots_from
sentinel_trusted_roots h = roots_from h [] h.app_roots

-- `_is_path_in_sentinel_tree`
unfoldable pub is_path_in_sentinel_tree : Host → String → Bool
unfolding path_is_relative_to sentinel_trusted_roots
is_path_in_sentinel_tree h path =
    not (path == "") && any (λ root. path_is_relative_to h path root) (sentinel_trusted_roots h)

abbrev internal_helper_names : List String
internal_helper_names =
    "sentinel_gpu_worker.exe" ∷ "sentinel_url_detonator.exe" ∷ "sentinel_agent.exe" ∷ []

-- `_is_sentinel_internal_helper_path`
unfoldable pub is_sentinel_internal_helper_path : Host → String → String → Bool
unfolding lower elem
is_sentinel_internal_helper_path h process_name path =
    let name = lower (if process_name == "" then h.platform.base_name path else process_name) in
    let path_name = lower (h.platform.base_name path) in
    if not (elem name internal_helper_names)
    then false
    else if not (path_name == name)
    then false
    else is_path_in_sentinel_tree h path

-- `_is_sentinel_main_process_path`
unfoldable pub is_sentinel_main_process_path : Host → String → Bool
unfolding lower elem
is_sentinel_main_process_path h path =
    if path == ""
    then false
    else if not (elem (lower (h.platform.base_name path)) ("sentinel.exe" ∷ "sentinel" ∷ []))
    then false
    else is_path_in_sentinel_tree h path

-- `==` of integers
abbrev pub same_int : ℤ → ℤ → Bool
same_int a b = leb_ℤ a b && leb_ℤ b a

-- `_parent_is_current_sentinel_app`
unfoldable pub parent_is_current_sentinel_app : Host → Option ℤ → Bool
unfolding is_sentinel_main_process_path
parent_is_current_sentinel_app h none = false
parent_is_current_sentinel_app h (some pid) =
    if leb_ℤ pid (pos 0)
    then false
    else if same_int pid h.own_pid
    then true
    else elim (h.parent_exe pid) [ none ↦ false | some path ↦ is_sentinel_main_process_path h path ]

-- `_is_trusted_sentinel_internal_helper`
unfoldable pub is_trusted_sentinel_internal_helper : Host → String → String → Option ℤ → Bool
is_trusted_sentinel_internal_helper h process_name path parent_pid =
    is_sentinel_internal_helper_path h process_name path
    && parent_is_current_sentinel_app h parent_pid

abbrev linux_install_roots : List String
linux_install_roots = "/usr/bin" ∷ "/usr/local/bin" ∷ "/usr/lib" ∷ "/opt" ∷ "/snap" ∷ []

-- `_is_trusted_install_path`
unfoldable pub is_trusted_install_path : Host → String → Bool
unfolding is_under is_trusted_windows_install_path
is_trusted_install_path h path =
    let normalized = h.platform.canonical path in
    if normalized == ""
    then false
    else if h.platform.is_windows
    then is_trusted_windows_install_path h.platform path
    else any (λ root. is_under h.platform normalized root) linux_install_roots

-- (publishers, path hints) of a browser
abbrev BrowserRule : Type 0
BrowserRule = List String × List String

abbrev windows_browsers : Dict BrowserRule
windows_browsers =
    (
      "brave.exe",
      ("brave software" ∷ [], "\\bravesoftware\\brave-browser\\application\\brave.exe" ∷ []),
    )
    ∷ ("chrome.exe", ("google" ∷ [], "\\google\\chrome\\application\\chrome.exe" ∷ []))
    ∷ ("msedge.exe", ("microsoft" ∷ [], "\\microsoft\\edge\\application\\msedge.exe" ∷ []))
    ∷ ("firefox.exe", ("mozilla" ∷ [], "\\mozilla firefox\\firefox.exe" ∷ []))
    ∷ []

abbrev linux_browsers : Dict BrowserRule
linux_browsers =
    ("brave-browser", ([], "/opt/brave.com/brave/brave-browser" ∷ "/usr/bin/brave-browser" ∷ []))
    ∷ ("google-chrome", ([], "/opt/google/chrome/chrome" ∷ "/usr/bin/google-chrome" ∷ []))
    ∷ ("microsoft-edge", ([], "/opt/microsoft/msedge/msedge" ∷ "/usr/bin/microsoft-edge" ∷ []))
    ∷ ("firefox", ([], "/usr/lib/firefox/firefox" ∷ "/usr/bin/firefox" ∷ "/snap/firefox/" ∷ []))
    ∷ []

-- `v is True`
abbrev pub is_true : Option Bool → Bool
is_true (some true) = true
is_true _ = false

-- `v is not False`
abbrev pub is_not_false : Option Bool → Bool
is_not_false (some false) = false
is_not_false _ = true

-- `_is_protected_browser_install`
unfoldable pub is_protected_browser_install : Host → String → String → String → Option Bool → Bool
unfolding lookup lower contains_text
is_protected_browser_install h process_name path publisher signature =
    elim (lookup (lower process_name)
      (if h.platform.is_windows then windows_browsers else linux_browsers)) [
        | none ↦ false
        | some (publishers, hints) ↦
            any (λ fragment. contains_text fragment (h.platform.canonical path)) hints
            || is_true signature && any (λ token. contains_text token (lower publisher)) publishers
      ]

-- `_is_windows_system_path`, which here accepts both separators
unfoldable pub is_windows_system_path : Host → String → Bool
unfolding system_root starts_with
is_windows_system_path h path =
    let normalized = h.platform.canonical path in
    let root = system_root h.platform in
    if not h.platform.is_windows
    then false
    else if normalized == "" || root == ""
    then false
    else normalized == root
      || starts_with normalized (root ++ˢ "\\")
      || starts_with normalized (root ++ˢ "/")
