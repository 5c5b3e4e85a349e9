-- ===== src/Workers/Task.antt =====
-- `CancellableWorker.run` of backend/core/workers.py.
use graduationp.Prelude.{
  ℕ, Bool, false, String, ◌++ˢ◌, List, [], ◌∷◌, ltb, show_nat, if◌then◌else◌, ◌≡◌, ◌↔◌, ◌≤◌, arith,
}

-- How the task function ends: with an exception, shown as "type: text", or with a result.
pub data TaskEnd {ℓ} (A : Type ℓ) : Type ℓ where
  raises : String → TaskEnd A
  returns : A → TaskEnd A

pub data WorkerSignal {ℓ} (A : Type ℓ) : Type ℓ where
  started cancelled : WorkerSignal A
  finished : A → WorkerSignal A
  error : String → WorkerSignal A

module _ {ℓ} {A : Type ℓ} where
  -- The last signal. The limit and the elapsed time are in milliseconds, and the flag tells whether
  -- a cancellation was requested before the task function returned.
  unfoldable pub last_signal : ℕ → TaskEnd A → ℕ → Bool → WorkerSignal A
  last_signal timeout (raises why) elapsed is_cancelled = error why
  last_signal timeout (returns result) elapsed is_cancelled =
      if ltb timeout elapsed
      then error ("TimeoutError: Task exceeded " ++ˢ show_nat timeout ++ˢ "ms timeout")
      else if is_cancelled
      then cancelled
      else finished result

  -- The signals, in their order.
  unfoldable pub run : ℕ → TaskEnd A → ℕ → Bool → List (WorkerSignal A)
  run timeout end elapsed is_cancelled = started ∷ last_signal timeout end elapsed is_cancelled ∷ []

  -- A worker reports a result exactly when its task returned it, within the limit, and nobody had
  -- asked to cancel.
  finished_iff :
      (timeout : ℕ) (end : TaskEnd A) (elapsed : ℕ) (is_cancelled : Bool) (result : A)
      → (run timeout end elapsed is_cancelled ≡ started ∷ finished result ∷ [])
        ↔ ((end ≡ returns result) × (elapsed ≤ timeout) × (is_cancelled ≡ false))
  unfolding run last_signal
  finished_iff timeout (raises why) elapsed is_cancelled result = ground arith
  finished_iff timeout (returns value) elapsed is_cancelled result = ground arith
