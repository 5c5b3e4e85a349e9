-- ===== src/Rtp/Seen.antt =====
-- Which pids `_run_linux` of backend/core/realtime_protection.py has seen.
use graduationp.Prelude.{
  ap, Bool, true, ◌&&◌, ◌||◌, List, [], ◌∷◌, ℤ, pos, negsuc, any, All, ◌≡◌, refl, ap, ◌∙◌, arith,
}
use graduationp.Rtp.Trust.{Host, same_int}
use graduationp.Rtp.Enforce.{Store}
use graduationp.Rtp.Coherence.{WellFormed, judge-WellFormed}
use graduationp.Rtp.Polling.{
  Listed, Polled, pid_of, is_seen, examine, examine_all, keep_listed, poll,
}

-- the pid of one of the processes
abbrev is_listed : ℤ → List Listed → Bool
is_listed pid xs = any (λ x. same_int pid (pid_of x)) xs

same_int_eq : (a b : ℤ) → same_int a b ≡ true → a ≡ b
same_int_eq (pos m) (pos n) h = ground arith
same_int_eq (pos m) (negsuc n) h = ground arith
same_int_eq (negsuc m) (pos n) h = ground arith
same_int_eq (negsuc m) (negsuc n) h = ground arith

same_int_refl : (a : ℤ) → same_int a a ≡ true
same_int_refl (pos m) = ground arith
same_int_refl (negsuc m) = ground arith

is_seen-keep_listed :
    (pid : ℤ) (xs : List Listed) (seen : List ℤ)
    → is_seen pid (keep_listed xs seen) ≡ (is_seen pid seen && is_listed pid xs)
unfolding is_seen keep_listed
is_seen-keep_listed pid xs [] = refl
is_seen-keep_listed pid xs (p ∷ seen) =
    ground (arith, is_seen-keep_listed pid xs seen, same_int_eq pid p)

module _ (h : Host) (store : Store) where
  is_seen-examine :
      (pid : ℤ) (x : Listed) (p : Polled)
      → is_seen pid (examine h store x p).seen ≡ (is_seen pid p.seen || same_int pid (pid_of x))
  unfolding examine is_seen
  is_seen-examine pid x p = ground (arith, same_int_eq pid (pid_of x))

  is_seen-examine_all :
      (pid : ℤ) (xs : List Listed) (p : Polled)
      → is_seen pid (examine_all h store xs p).seen ≡ (is_seen pid p.seen || is_listed pid xs)
  unfolding examine_all
  is_seen-examine_all pid [] p = ground arith
  is_seen-examine_all pid (x ∷ xs) p =
      ground (arith, is_seen-examine_all pid xs (examine h store x p), is_seen-examine pid x p)

  -- After a round, the pids that count as seen are exactly the pids of the listing: what was seen
  -- and has exited is forgotten, and what is new is remembered, whether it was examined or skipped.
  seen_is_listing :
      (xs : List Listed) (p : Polled) (pid : ℤ)
      → is_seen pid (poll h store xs p).seen ≡ is_listed pid xs
  unfolding poll
  seen_is_listing xs p pid = ground (
    arith,
    is_seen-keep_listed pid xs (examine_all h store xs p).seen,
    is_seen-examine_all pid xs p,
  )

  examine_all-seen :
      (xs : List Listed) (p : Polled)
      → All (λ x. is_seen (pid_of x) p.seen ≡ true) xs
      → examine_all h store xs p ≡ p
  unfolding examine_all examine
  examine_all-seen [] p all = refl
  examine_all-seen (x ∷ xs) p (one, all) = rw (one) (examine_all-seen xs p all)

  listed-All :
      (xs : List Listed) (p : Polled)
      → ((pid : ℤ) → is_listed pid xs ≡ true → is_seen pid p.seen ≡ true)
      → All (λ x. is_seen (pid_of x) p.seen ≡ true) xs
  listed-All [] p h = ground arith
  listed-All (x ∷ xs) p h = (
    h (pid_of x) (rw (same_int_refl (pid_of x)) refl),
    listed-All xs p (λ pid k. h pid (ground (arith, k))),
  )

  -- A second round over the same listing examines nothing: the worker stays as the first left it.
  second_round_idle :
      (xs : List Listed) (p : Polled)
      → (poll h store xs (poll h store xs p)).worker ≡ (poll h store xs p).worker
  unfolding poll
  second_round_idle xs p =
      ap (λ q. q.worker)
        (examine_all-seen xs (poll h store xs p)
          (listed-All xs (poll h store xs p) (λ pid k. seen_is_listing xs p pid ∙ k)))

  examine-WellFormed :
      (x : Listed) (p : Polled) → WellFormed p.worker → WellFormed (examine h store x p).worker
  unfolding examine
  examine-WellFormed x p wf = ground (arith, judge-WellFormed h store x.event p.worker wf)

  examine_all-WellFormed :
      (xs : List Listed) (p : Polled)
      → WellFormed p.worker
      → WellFormed (examine_all h store xs p).worker
  unfolding examine_all
  examine_all-WellFormed [] p wf = wf
  examine_all-WellFormed (x ∷ xs) p wf =
      examine_all-WellFormed xs (examine h store x p) (examine-WellFormed x p wf)

  -- A round of polling by the Linux loop keeps the worker well formed: no more kills than threats
  -- are counted, and the cache holds at most 5000 entries.
  poll-WellFormed :
      (xs : List Listed) (p : Polled) → WellFormed p.worker → WellFormed (poll h store xs p).worker
  unfolding poll
  poll-WellFormed xs p wf = examine_all-WellFormed xs p wf
