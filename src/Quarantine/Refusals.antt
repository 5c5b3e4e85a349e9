-- ===== src/Quarantine/Refusals.antt =====
-- What the guards of backend/engines/scanning/quarantine_manager.py let through.
use graduationp.Quarantine.Ops.{quarantined, quarantine_file}
use graduationp.Quarantine.Vault.{request_of, Vault, Entry, Env}
use graduationp.Quarantine.Guards.{
  weak_verdicts, is_positive, is_automatic, Request, refusal, incomplete_decision,
}
use graduationp.Prelude.{
  is_some, eq_iff, strip, lower, elem, some, ◌≢◌, arith, false, none, true, ◌≡◌, ℕ, String, List,
}
use graduationp.Platform.{is_windows_system_path, Platform}

complete_decision :
    (r : Request)
    → is_automatic r.source ≡ true
    → r.explicit_override ≡ false
    → incomplete_decision r ≡ none
    → (r.decision_action ≡ "block")
      × (is_positive r.decision_score ≡ true)
      × (elem (lower (strip r.decision_verdict)) weak_verdicts ≡ false)
      × (r.file_action ≡ "quarantine_file")
unfolding incomplete_decision
complete_decision r automatic plain h =
    ground (arith, eq_iff r.decision_action "block", eq_iff r.file_action "quarantine_file")

refusal_complete :
    (p : Platform) (path : String) (r : Request)
    → refusal p path r ≡ none
    → incomplete_decision r ≡ none
unfolding refusal
refusal_complete p path r h = ground arith

refusal_system :
    (p : Platform) (path : String) (r : Request)
    → p.is_windows ≡ true
    → is_windows_system_path p path ≡ true
    → r.signature_valid ≢ some false
    → r.allow_protected ≡ false
    → r.explicit_override ≡ false
    → is_some (refusal p path r) ≡ true
unfolding refusal
refusal_system p path r w s g a o = ground arith

module _ (p : Platform) (sha256 : List ℕ → String) (e : Env) (path : String) (raw : Entry)
    (v : Vault) where
  abbrev request : Request
  request = request_of p path raw

  quarantined-allowed :
      (id : String) (entry : Entry)
      → (quarantine_file p sha256 e path raw v).1 ≡ quarantined id entry
      → refusal p path request ≡ none
  unfolding quarantine_file
  quarantined-allowed id entry h = ground arith

  -- A quarantine that the real-time protection, the Scan Center or an unknown source asked for,
  -- without an explicit override, went through only with a final decision to block, a positive
  -- score, a verdict that is none of "", unknown, safe and suspicious, and the file action
  -- "quarantine_file".
  pub automatic_quarantine_needs_decision :
      (id : String) (entry : Entry)
      → is_automatic request.source ≡ true
      → request.explicit_override ≡ false
      → (quarantine_file p sha256 e path raw v).1 ≡ quarantined id entry
      → (request.decision_action ≡ "block")
        × (is_positive request.decision_score ≡ true)
        × (elem (lower (strip request.decision_verdict)) weak_verdicts ≡ false)
        × (request.file_action ≡ "quarantine_file")
  automatic_quarantine_needs_decision id entry automatic plain h =
      complete_decision request automatic plain
        (refusal_complete p path request (quarantined-allowed id entry h))

  refused_unchanged :
      is_some (refusal p path request) ≡ true
      → ((quarantine_file p sha256 e path raw v).0 ≡ v)
        × ((id : String) (entry : Entry)
            → (quarantine_file p sha256 e path raw v).1 ≢ quarantined id entry)
  unfolding quarantine_file
  refused_unchanged h = (ground arith, λ id entry k. ground arith)

  -- On Windows, a file under the system root whose signature is not known to be bad is not
  -- quarantined without an explicit override or a permission for protected files, whoever asks
  -- and however strong the evidence: the request is refused and nothing changes.
  pub system_file_protected :
      p.is_windows ≡ true
      → is_windows_system_path p path ≡ true
      → request.signature_valid ≢ some false
      → request.allow_protected ≡ false
      → request.explicit_override ≡ false
      → ((quarantine_file p sha256 e path raw v).0 ≡ v)
        × ((id : String) (entry : Entry)
            → (quarantine_file p sha256 e path raw v).1 ≢ quarantined id entry)
  system_file_protected w s g a o = refused_unchanged (refusal_system p path request w s g a o)
