-- ===== src/Quarantine/Paths.antt =====
-- The three paths of one quarantined file in the vault are different.
use text.Mathlib.TextLemmas.{append_cancel_left, append_assoc, append-nil}
use graduationp.Prelude.{String, ◌≡◌, ◌≢◌, ◌==◌, ◌++ˢ◌, false, eq_iff, arith, sym, ◌∙◌, ap}
use graduationp.Platform.{Platform}
use graduationp.Quarantine.Vault.{Env, payload_path, key_path}

pub ne-eq_false : (s t : String) → s ≢ t → (s == t) ≡ false
ne-eq_false s t h = ground (arith, eq_iff s t)

module _ (p : Platform) (e : Env) (id : String) where
  -- what follows the id tells them apart
  same_ending :
      (s t : String)
      → e.vault_dir ++ˢ p.sep ++ˢ id ++ˢ s ≡ e.vault_dir ++ˢ p.sep ++ˢ id ++ˢ t
      → s ≡ t
  same_ending s t h = append_cancel_left id s t (
      append_cancel_left p.sep (id ++ˢ s) (id ++ˢ t)
        (append_cancel_left e.vault_dir (p.sep ++ˢ id ++ˢ s) (p.sep ++ˢ id ++ˢ t) h))

  pub payload-ne-key : payload_path p e id ≢ key_path p e id
  unfolding payload_path key_path
  payload-ne-key h =
      let same = same_ending ".quarantine" ".key" h in ground (arith, eq_iff ".quarantine" ".key")

  pub moved-ne-payload : payload_path p e id ++ˢ ".bak" ≢ payload_path p e id
  moved-ne-payload h =
      let same : Path String ".bak" "" =
        append_cancel_left (payload_path p e id) ".bak" "" (h ∙ sym (append-nil _)) in
      ground (arith, eq_iff ".bak" "")

  regroup : payload_path p e id ++ˢ ".bak" ≡ e.vault_dir ++ˢ p.sep ++ˢ id ++ˢ ".quarantine.bak"
  unfolding payload_path
  regroup =
      append_assoc e.vault_dir (p.sep ++ˢ id ++ˢ ".quarantine") ".bak"
      ∙ ap (λ t. e.vault_dir ++ˢ t)
          (append_assoc p.sep (id ++ˢ ".quarantine") ".bak"
            ∙ ap (λ t. p.sep ++ˢ t) (append_assoc id ".quarantine" ".bak"))

  pub moved-ne-key : payload_path p e id ++ˢ ".bak" ≢ key_path p e id
  unfolding key_path
  moved-ne-key h =
      let same = same_ending ".quarantine.bak" ".key" (sym regroup ∙ h) in
      ground (arith, eq_iff ".quarantine.bak" ".key")
