-- ===== src/Platform.antt =====
-- What the operating system answers to the path checks of the engine, and the path classes of
-- backend/engines/scanning/quarantine_manager.py.
use graduationp.Prelude.{
  ◌&&◌, any, not, Bool, false, ◌||◌, String, ◌==◌, ◌++ˢ◌, List, [], ◌∷◌, ◌++◌, Option, starts_with,
  strip, if◌then◌else◌,
}

-- `canonical p` is the lower-case resolved path of `p`, "" of "". `resolve` and
-- `base_name` are `str(Path.resolve())` and `Path.name`. The variables are as
-- `os.environ.get` returns them, "" where they are unset; `local_programs` is `LocalAppData` joined
-- stripped, joined to "Programs", with separators stripped. `probe p` is the answer of Get-AuthenticodeSignature:
-- validity and publisher.
pub record Platform : Type 0 where
  pub is_windows : Bool
  pub is_linux : Bool
  pub sep : String
  pub canonical : String → String
  pub resolve : String → String
  pub base_name : String → String
  pub system_root : String
  pub program_files : String
  pub program_files_x86 : String
  pub local_programs : String
  pub probe : String → Option Bool × String

pub data PathClass : Type 0 where
  unknown windows_system program_files user_space : PathClass

module _ (p : Platform) where
  -- `path == root or path.startswith(root + os.sep)`
  unfoldable pub is_under : String → String → Bool
  is_under path root = path == root || starts_with path (root ++ˢ p.sep)

  -- `_system_root`
  unfoldable pub system_root : String
  system_root = p.canonical (if p.system_root == "" then "C:\\Windows" else p.system_root)

  -- `_is_windows_system_path`
  unfoldable pub is_windows_system_path : String → Bool
  unfolding is_under system_root
  is_windows_system_path path =
      if p.canonical path == "" || system_root == ""
      then false
      else is_under (p.canonical path) system_root

  -- the canonical path of a value that is not empty; the two variables are stripped before
  unfoldable pub root_of : String → List String
  root_of value = if value == "" then [] else p.canonical value ∷ []

  trusted_roots : List String
  unfolding root_of strip
  trusted_roots =
      root_of (strip p.program_files)
      ++ root_of (strip p.program_files_x86)
      ++ root_of p.local_programs

  -- `_is_trusted_windows_install_path`
  unfoldable pub is_trusted_windows_install_path : String → Bool
  unfolding is_under trusted_roots
  is_trusted_windows_install_path path =
      if p.canonical path == ""
      then false
      else any (λ root. not (root == "") && is_under (p.canonical path) root) trusted_roots

  -- `_path_trust_class`; the canonical path is classified, so it is resolved once more
  unfoldable pub path_trust_class : String → PathClass
  unfolding is_windows_system_path is_trusted_windows_install_path
  path_trust_class path =
      let normalized = p.canonical path in
      if normalized == ""
      then unknown
      else if is_windows_system_path normalized
      then windows_system
      else if is_trusted_windows_install_path normalized
      then program_files
      else user_space
