-- ===== src/Rtp/Processes.antt =====
-- `_execute_process_action` of backend/core/realtime_protection.py.
use graduationp.Prelude.{
  ℕ, suc, Bool, true, false, ◌&&◌, not, String, ◌==◌, Option, none, some, lower, if◌then◌else◌,
}
use graduationp.Rtp.Trust.{Host}
use graduationp.Rtp.Plan.{ProcessAction, allow_process, log_only, kill_process}

-- How a call on a process ends: `NoSuchProcess`, `AccessDenied`, or another exception.
pub data Fault : Type 0 where
  no_such_process access_denied other_error : Fault

pub data Call {ℓ} (A : Type ℓ) : Type ℓ where
  raises : Fault → Call A
  gives : A → Call A

-- `proc.exe`: missing, raised, or a path, which is "" where the system knows none
pub data ExeRead : Type 0 where
  no_attribute : ExeRead
  exe : Call String → ExeRead

-- The process behind a process id, as psutil shows it.
pub record LiveProcess : Type 0 where
  pub name : Call String
  pub exe_read : ExeRead
  pub kill_fault : Option Fault

pub data ProcessResult : Type 0 where
  logged_only allowed identity_mismatch path_mismatch identity_unverified : ProcessResult
  terminated already_exited access_denied failed_to_terminate : ProcessResult

-- The counters of the worker.
pub record Stats : Type 0 where
  pub threats_found : ℕ
  pub threats_killed : ℕ

-- the outer `except` clauses
abbrev result_of_fault : Fault → ProcessResult
result_of_fault Fault.no_such_process = already_exited
result_of_fault Fault.access_denied = ProcessResult.access_denied
result_of_fault Fault.other_error = failed_to_terminate

-- What the check of the executable path ends in: an early return, or `path_verified`.
pub data PathCheck : Type 0 where
  stop : ProcessResult → PathCheck
  verified : Bool → PathCheck

-- The `if hasattr(proc, "exe")` block; both of its `except` clauses do the same.
unfoldable pub check_path : Host → Bool → String → ExeRead → PathCheck
check_path h cached path no_attribute = verified false
check_path h cached path (exe (raises _)) =
    if cached then stop identity_unverified else verified false
check_path h cached path (exe (gives live)) =
    if live == ""
    then verified false
    else if not (h.platform.canonical live == h.platform.canonical path)
    then stop path_mismatch
    else verified true

unfoldable pub kill : Option Fault → Stats → Stats × ProcessResult
kill none s = (record s { threats_killed = suc s.threats_killed }, terminated)
kill (some fault) s = (s, result_of_fault fault)

-- from `psutil_mod.Process(pid)` on
unfoldable pub kill_verified :
    Host → Bool → String → String → Call LiveProcess → Stats → Stats × ProcessResult
unfolding check_path kill lower
kill_verified h cached name path (raises fault) s = (s, result_of_fault fault)
kill_verified h cached name path (gives process) s = elim process.name [
  | raises fault ↦ (s, result_of_fault fault)
  | gives live_name ↦
      if not (lower live_name == name)
      then (s, identity_mismatch)
      else elim (check_path h cached path process.exe_read) [
        | stop result ↦ (s, result)
        | verified path_verified ↦
            if cached && not path_verified
            then (s, identity_unverified)
            else kill process.kill_fault s
      ]
]

unfoldable pub execute_process_action :
    Host → Bool → String → String → ProcessAction → Call LiveProcess → Stats → Stats × ProcessResult
unfolding kill_verified
execute_process_action h cached name path log_only process s = (s, logged_only)
execute_process_action h cached name path allow_process process s = (s, allowed)
execute_process_action h cached name path kill_process process s =
    kill_verified h cached name path process s
