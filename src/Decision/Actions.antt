-- ===== src/Decision/Actions.antt =====
-- When a final decision of backend/engines/scanning/decision.py blocks, and with which verdict.
use graduationp.Prelude.{
  ◌==◌, if◌then◌else◌, leb_ℤ, ◌||◌, true, false, ◌≡◌, ◌↔◌, ◌≤◌, arith, eq_iff, ℤ, pos,
}
use graduationp.Decision.{
  Input, build_final_decision, default_block_threshold, clamp_score, coerce_int, score_band,
}

clamp_score-le : (z : ℤ) → clamp_score z ≤ 100
unfolding clamp_score
clamp_score-le z = ground arith

-- Whatever the arguments, the score of a final decision is at most 100.
build_score-le : (i : Input) → (build_final_decision i).score ≤ 100
unfolding build_final_decision
build_score-le i = ground (arith, clamp_score-le (coerce_int i.score (pos 0)))

-- A scan that failed is allowed, with verdict code "unknown", whatever score, threshold or
-- explicit action was passed with it.
failed_scan_allows :
    (i : Input)
    → i.scan_failed ≡ true
    → ((build_final_decision i).action ≡ "allow")
      × ((build_final_decision i).verdict_code ≡ "unknown")
unfolding build_final_decision
failed_scan_allows i h = ground arith

-- Without an explicit action (none, or "allow"), a completed scan is blocked exactly when its
-- score reaches the threshold, and allowed otherwise.
pub action_by_threshold :
    (i : Input)
    → i.scan_failed ≡ false
    → (i.explicit_action == "" || i.explicit_action == "allow") ≡ true
    → (build_final_decision i).action
      ≡ (if leb_ℤ i.block_threshold (pos (build_final_decision i).score) then "block" else "allow")
unfolding build_final_decision
action_by_threshold i h e = ground arith

-- Under the static policy and the default threshold, a completed scan without an explicit action
-- is blocked exactly when its verdict code is "malicious".
pub static_block_iff_malicious :
    (i : Input)
    → i.scan_failed ≡ false
    → i.explicit_action ≡ ""
    → i.policy ≡ "static"
    → i.block_threshold ≡ default_block_threshold
    → ((build_final_decision i).action ≡ "block")
      ↔ ((build_final_decision i).verdict_code ≡ "malicious")
unfolding build_final_decision score_band
static_block_iff_malicious i h e p t =
    rw (h, e, p, t)
      (ground
        (arith, eq_iff "allow" "block", eq_iff "safe" "malicious", eq_iff "suspicious" "malicious"))
