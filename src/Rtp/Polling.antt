-- ===== src/Rtp/Polling.antt =====
-- One round of `_run_linux` in backend/core/realtime_protection.py.
use Prim.Native.Nat.{zero}
use Prim.Native.String.{[], ◌∷◌}
use graduationp.Prelude.{
  ℕ, suc, Bool, ◌||◌, not, String, ◌==◌, List, starts_with, elem, if◌then◌else◌, ℤ, any,
}
use graduationp.Rtp.Trust.{Host, same_int, is_trusted_sentinel_internal_helper}
use graduationp.Rtp.Enforce.{Store}
use graduationp.Rtp.Watch.{Worker, Event, judge}
use graduationp.Rtp.Whitelist.{linux_skip_processes}

-- A process of the listing. Its path is "" where the system shows none, and its name is in lower case.
pub record Listed : Type 0 where
  pub event : Event
  pub is_zombie : Bool

-- `name.replace(".exe", "")`; the number counts the characters of a match that are left
unfoldable pub drop_exe : ℕ → String → String
unfolding starts_with
drop_exe n [] = ""
drop_exe zero (c ∷ s) =
    let matched = drop_exe 3 s in
    let kept = drop_exe 0 s in if starts_with (c ∷ s) ".exe" then matched else c ∷ kept
drop_exe (suc n) (c ∷ s) = drop_exe n s

abbrev pub pid_of : Listed → ℤ
pid_of x = x.event.launch.pid

unfoldable pub is_seen : ℤ → List ℤ → Bool
is_seen pid seen = any (λ other. same_int pid other) seen

-- The pids that were seen, and the worker.
pub record Polled : Type 0 where
  pub seen : List ℤ
  pub worker : Worker

-- `seen_pids &= current_pids`
unfoldable pub keep_listed : List Listed → List ℤ → List ℤ
unfolding is_seen
keep_listed xs List.[] = List.[]
keep_listed xs (List.◌∷◌ pid pids) =
    let rest = keep_listed xs pids in
    if any (λ x. same_int pid (pid_of x)) xs then List.◌∷◌ pid rest else rest

module _ (h : Host) (store : Store) where
  -- nothing is done with the process beyond marking it as seen
  unfoldable pub is_passed : Listed → Bool
  unfolding drop_exe elem is_trusted_sentinel_internal_helper
  is_passed x =
      let l = x.event.launch in
      l.path == ""
      || elem (drop_exe 0 l.name) linux_skip_processes
      || x.is_zombie
      || not (h.file_exists l.path)
      || is_trusted_sentinel_internal_helper h l.name l.path x.event.parent_pid

  unfoldable pub examine : Listed → Polled → Polled
  unfolding is_seen is_passed judge
  examine x p = if is_seen (pid_of x) p.seen then p else record {
    seen = List.◌∷◌ (pid_of x) p.seen;
    worker = if is_passed x then p.worker else judge h store x.event p.worker;
  }

  unfoldable pub examine_all : List Listed → Polled → Polled
  unfolding examine
  examine_all List.[] p = p
  examine_all (List.◌∷◌ x xs) p = examine_all xs (examine x p)

  unfoldable pub poll : List Listed → Polled → Polled
  unfolding examine_all keep_listed
  poll xs p = let q = examine_all xs p in record { seen = keep_listed xs q.seen; worker = q.worker }
