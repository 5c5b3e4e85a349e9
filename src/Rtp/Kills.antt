-- ===== src/Rtp/Kills.antt =====
-- What an enforcement of backend/core/realtime_protection.py kills and quarantines.
use graduationp.Prelude.{
  ◌↔◌, is_some, suc, Bool, true, false, ◌&&◌, not, String, ◌==◌, ◌≡◌, ◌≢◌, none, arith, lower,
  if◌then◌else◌,
}
use graduationp.Prelude.Dict.{Dict}
use graduationp.Value.{Value}
use graduationp.Quarantine.Vault.{Vault}
use graduationp.Rtp.Trust.{Host}
use graduationp.Rtp.Plan.{ProcessAction, kill_process, quarantine_file, EnforcementPlan}
use graduationp.Rtp.Processes.{
  Call, gives, raises, exe, LiveProcess, ExeRead, Stats, terminated, check_path, kill,
  kill_verified, execute_process_action,
}
use graduationp.Rtp.Enforce.{Store, Launch, is_terminated, execute_file_action, apply_enforcement}

-- the process has the judged name
unfoldable pub names_process : String → Call String → Bool
unfolding lower
names_process name (raises _) = false
names_process name (gives live) = lower live == name

-- The system shows the judged path for it; on a cached decision it must show one.
unfoldable pub shows_path : Host → Bool → String → ExeRead → Bool
shows_path h cached path (exe (gives live)) =
    if live == "" then not cached else h.platform.canonical live == h.platform.canonical path
shows_path h cached path _ = not cached

module _ (h : Host) (cached : Bool) (name path : String) where
  kill_verified_lem :
      (p : LiveProcess) (s : Stats)
      → is_terminated (kill_verified h cached name path (gives p) s).1 ≡ (
          names_process name p.name
          && shows_path h cached path p.exe_read
          && not (is_some p.kill_fault))
  unfolding kill_verified kill check_path names_process shows_path
  kill_verified_lem p s = ground arith

  -- A live process is killed exactly when the plan says so, its name is the judged one, its
  -- executable is the judged one (a cached decision insists that the system shows it), and
  -- the system lets it be killed.
  pub killed_iff_same_process :
      (action : ProcessAction) (p : LiveProcess) (s : Stats)
      → ((execute_process_action h cached name path action (gives p) s).1 ≡ terminated) ↔ (
          (action ≡ kill_process)
          × (names_process name p.name ≡ true)
          × (shows_path h cached path p.exe_read ≡ true)
          × (p.kill_fault ≡ none))
  unfolding execute_process_action
  killed_iff_same_process action p s = ground (arith, kill_verified_lem p s)

  -- The counter of killed threats goes up by one where the process was terminated, and stays as
  -- it is everywhere else.
  pub killed_counted :
      (action : ProcessAction) (process : Call LiveProcess) (s : Stats)
      → (execute_process_action h cached name path action process s).0.threats_killed ≡ (
          if is_terminated (execute_process_action h cached name path action process s).1
          then suc s.threats_killed
          else s.threats_killed)
  unfolding execute_process_action kill_verified kill check_path
  killed_counted action process s = ground arith

module _ (h : Host) (store : Store) (l : Launch) (plan : EnforcementPlan) (d : Dict Value)
    (sha256 : String) (cached : Bool) (process : Call LiveProcess) (s : Stats) (v : Vault) where
  -- Where an enforcement changed the vault, the plan was to quarantine the file and the process
  -- had been terminated before.
  pub vault_changed_after_kill :
      (apply_enforcement h store l plan d sha256 cached process s v).1 ≢ v
      → (plan.file_action ≡ quarantine_file)
        × ((apply_enforcement h store l plan d sha256 cached process s v).2 ≡ terminated)
  unfolding apply_enforcement execute_file_action
  vault_changed_after_kill n = ground arith
