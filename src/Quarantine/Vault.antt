-- ===== src/Quarantine/Vault.antt =====
-- The class `QuarantineVault` of backend/engines/scanning/quarantine_manager.py: the disk and the
-- ledger as a state, each method as a function on it.
use graduationp.Prelude.{
  is_some, ℕ, Bool, true, false, ◌&&◌, ◌||◌, not, String, ◌==◌, ◌++ˢ◌, List, [], ◌∷◌, ◌++◌, Option,
  none, some, strip, lower, if◌then◌else◌, ℤ, pos,
}
use graduationp.Prelude.Dict.{Dict, insert, has_key}
use graduationp.Value.{Value, null, bool, int, text, get, truthy, str_or_empty, to_str, is_text}
use graduationp.Platform.{Platform, PathClass, path_trust_class}
use graduationp.Quarantine.Guards

-- A ledger entry is a dictionary, as it stands in the JSON file.
abbrev pub Entry : Type 0
Entry = Dict Value

-- Regular files by path, the paths of folders, and the ledger, oldest entry first.
pub record Vault : Type 0 where
  pub files : Dict (List ℕ)
  pub folders : List String
  pub ledger : List Entry

pub data ReadFault : Type 0 where
  reads denied_once denied unreadable : ReadFault

-- Which write to the vault raises.
pub data WriteFault : Type 0 where
  writes no_payload no_key : WriteFault

-- What becomes of the original: unlinked, moved beside the payload, or left in place.
pub data DeleteFault : Type 0 where
  deletes moves stays : DeleteFault

-- Which unlink of the vault files raises: the payload's, which comes first, or the key's.
pub data UnlinkFault : Type 0 where
  unlinks no_payload no_key : UnlinkFault

-- What the outside gives to one call: the fresh id and key, the time, and which of its calls of
-- the file system raise. `load_fails` is about the first read of the ledger, `reload_fails` about
-- the one in `_append_entry` and `_update_entry`; a ledger that cannot be read is taken as empty.
-- A write truncates its file first: `save_tears` says that a failed save leaves a cut ledger, which
-- is no JSON, and `left_behind` is what a failed write of another file leaves at its path, `none` where the
-- file was not opened.
pub record Env : Type 0 where
  pub vault_dir : String
  pub new_id : String
  pub new_key : List ℕ
  pub now : String
  pub read : ReadFault
  pub write : WriteFault
  pub delete : DeleteFault
  pub load_fails : Bool
  pub reload_fails : Bool
  pub save_fails : Bool
  pub save_tears : Bool
  pub vault_read_fails : Bool
  pub write_back_fails : Bool
  pub left_behind : Option (List ℕ)
  pub unlink : UnlinkFault

unfoldable pub payload_path : Platform → Env → String → String
payload_path p e id = e.vault_dir ++ˢ p.sep ++ˢ id ++ˢ ".quarantine"

unfoldable pub key_path : Platform → Env → String → String
key_path p e id = e.vault_dir ++ˢ p.sep ++ˢ id ++ˢ ".key"

-- `d.update(updates)`
unfoldable pub update : Entry → Entry → Entry
update d [] = d
update d ((k, v) ∷ updates) = update (insert k v d) updates

-- the loop that keeps what the caller passed under other keys
unfoldable pub keep_others : Entry → Entry → Entry
keep_others d [] = d
keep_others d ((k, v) ∷ raw) = keep_others (if has_key k d then d else insert k v d) raw

-- `_load_ledger`
unfoldable pub load_ledger : Bool → Vault → List Entry
load_ledger fails v = if fails then [] else v.ledger

-- `_save_ledger`; what a save that fails leaves can be an unreadable ledger, which counts as empty
unfoldable pub save_ledger : Env → List Entry → Vault → Vault
save_ledger e entries v =
    if e.save_fails
    then if e.save_tears then record v { ledger = [] } else v
    else record v { ledger = entries }

-- `_append_entry`
unfoldable pub append_entry : Env → Entry → Vault → Vault
unfolding load_ledger save_ledger
append_entry e entry v = save_ledger e (load_ledger e.reload_fails v ++ entry ∷ []) v

-- `entry.get("id") == id`
unfoldable pub has_id : String → Entry → Bool
unfolding get is_text
has_id id entry = is_text id (get "id" entry)

-- the loop of `_update_entry`, which stops at the first entry with that id
unfoldable pub update_first : String → Entry → List Entry → List Entry
update_first id updates [] = []
update_first id updates (entry ∷ entries) =
    if has_id id entry
    then update entry updates ∷ entries
    else entry ∷ update_first id updates entries

-- `_update_entry`
unfoldable pub update_entry : Env → String → Entry → Vault → Vault
unfolding load_ledger save_ledger
update_entry e id updates v =
    save_ledger e (update_first id updates (load_ledger e.reload_fails v)) v

-- `next((x for x in ledger if x.get("id") == id), None)`
unfoldable pub find_entry : String → List Entry → Option Entry
find_entry id [] = none
find_entry id (entry ∷ entries) = if has_id id entry then some entry else find_entry id entries

unfoldable pub get_text : String → Entry → String
unfolding get str_or_empty strip
get_text k d = strip (str_or_empty (get k d))

-- the publisher and the signature after the probe, which only Windows makes
unfoldable pub probed : Platform → String → Entry → Option Bool × String
probed p path raw =
    let publisher = get_text "publisher" raw in
    let signature = Guards.as_optional_bool (get "signature_valid" raw) in
    let (probed_valid, probed_publisher) = p.probe path in
    if p.is_windows && (not (is_some signature) || publisher == "")
    then (
      elim signature [ none ↦ probed_valid | some b ↦ some b ],
      if publisher == "" && not (probed_publisher == "") then probed_publisher else publisher,
    )
    else (signature, publisher)

unfoldable pub request_of : Platform → String → Entry → Guards.Request
unfolding probed get_text
request_of p path raw =
    let (signature, publisher) = probed p path raw in
    let asked =
      lower (
        strip
          (let v = get "file_action" raw in if truthy v then to_str v else "quarantine_file")) in
    record {
      source = Guards.normalize_source_key raw;
      decision_score = Guards.as_optional_int (get "decision_score" raw);
      decision_verdict = get_text "decision_verdict" raw;
      decision_action = lower (get_text "decision_action" raw);
      file_action = if asked == "" then "quarantine_file" else asked;
      publisher = publisher;
      signature_valid = signature;
      strong_evidence = truthy (get "strong_evidence" raw);
      allow_protected =
          truthy (get "allow_protected_quarantine" raw)
          || truthy (get "allow_system_quarantine" raw);
      explicit_override =
          lower (get_text "decision_enforcement_source" raw) == "explicit_override"
          || not (lower (get_text "override_type" raw) == "");
    }

abbrev optional_int : Option ℤ → Value
optional_int none = null
optional_int (some z) = int z

abbrev optional_bool : Option Bool → Value
optional_bool none = null
optional_bool (some b) = bool b

abbrev is_system : PathClass → Bool
is_system PathClass.windows_system = true
is_system _ = false

unfoldable pub class_key : PathClass → String
class_key PathClass.unknown = "unknown"
class_key PathClass.windows_system = "windows_system"
class_key PathClass.program_files = "program_files"
class_key PathClass.user_space = "user_space"

abbrev requested_by : Entry → Entry
requested_by raw =
    if has_key "requested_by" raw
    then ("requested_by", text (get_text "requested_by" raw)) ∷ []
    else []

-- `normalized_metadata` before its quality is known
unfoldable pub plain_metadata : Platform → String → Entry → Entry
unfolding request_of
plain_metadata p path raw =
    let r = request_of p path raw in
    let reason = get_text "action_reason" raw in
    let class = path_trust_class p path in
    ("metadata_version", int (pos 2))
    ∷ ("enforcement_source", text (Guards.source_key r.source))
    ∷ ("source_detail", text (get_text "source_detail" raw))
    ∷ ("decision_score", optional_int r.decision_score)
    ∷ ("decision_verdict", text r.decision_verdict)
    ∷ ("decision_action", text r.decision_action)
    ∷ ("file_action", text r.file_action)
    ∷ ("file_action_taken", text "quarantined")
    ∷ (
      "action_reason",
      text (if reason == "" then Guards.default_action_reason r.source else reason),
    )
    ∷ ("publisher", text r.publisher)
    ∷ ("signature_valid", optional_bool r.signature_valid)
    ∷ ("strong_evidence", bool r.strong_evidence)
    ∷ ("decision_enforcement_source", text (lower (get_text "decision_enforcement_source" raw)))
    ∷ ("override_type", text (lower (get_text "override_type" raw)))
    ∷ ("path_class", text (class_key class))
    ∷ (
      "path_trust_note",
      text (
          if is_system class
          then "Protected Windows system path. Quarantine requires corroborated evidence."
          else ""),
    )
    ∷ ("system_protected", bool (is_system class))
    ∷ ("process_action", text (lower (get_text "process_action" raw)))
    ∷ ("process_name", text (get_text "process_name" raw))
    ∷ ("pid", optional_int (Guards.as_optional_int (get "pid" raw)))
    ∷ ("metadata_quality", text "")
    ∷ ("metadata_note", text "")
    ∷ requested_by raw

unfoldable pub normalized_metadata : Platform → String → Entry → Entry
unfolding plain_metadata keep_others
normalized_metadata p path raw =
    let source = Guards.normalize_source_key raw in
    let plain = plain_metadata p path raw in
    let quality = Guards.metadata_quality source plain in
    let note = get_text "metadata_note" raw in
    keep_others
      (insert "metadata_note"
        (text (if note == "" then Guards.default_metadata_note source quality else note))
        (insert "metadata_quality" (text (Guards.quality_key quality)) plain))
      raw
