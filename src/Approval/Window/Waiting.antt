-- ===== src/Approval/Window/Waiting.antt =====
-- A request is not left waiting.
use codex_hosts.Prelude.{ℕ, ◌+◌, ◌≤◌, ◌≡◌, ◌≢◌, refl, some, List, [], ◌∷◌, ◌++◌, All}
use codex_hosts.Model.{Uuid}
use codex_hosts.Approval.Queue.{Review, pending, Queue, lifetime, submit, take_status}
use codex_hosts.Approval.Window.{
  Event, submits, takes, cancels, frame, takes_unlock, unlocks, step, run,
}
use codex_hosts.Approval.Queue.Each.{submit-Each, take_status-Each, cancel-Each, current-Each}
use codex_hosts.Approval.Queue.Due.{Due, lapse-Due, settles-Due, submitted-Due, take_status-Over}
use codex_hosts.Approval.Queue.Kept.{take_unlock-Kept, finish_unlock-Kept}
use codex_hosts.Approval.Window.Cancelled.{Other}
use codex_hosts.Approval.Window.Frames.{show-Keeps}

module _ (id : Uuid) (t : ℕ) where
  step-Due :
      (e : Event) (q : Queue)
      → Other id e
      → All (Due id t) q.calls
      → All (Due id t) (step e q).calls
  unfolding step
  step-Due (submits now i r) q n h =
      submit-Each (Due id t) (lapse-Due id t) now i r q (λ e. absurd (n e)) h
  step-Due (takes now i) q n h = take_status-Each (Due id t) (lapse-Due id t) now i q h
  step-Due (cancels now i) q n h =
      cancel-Each (Due id t) (lapse-Due id t) now i q (λ c k e w. cc) (λ e w. cc) h
  step-Due (frame now time input) q n h =
      show-Keeps (All (Due id t)) (current-Each (Due id t) (lapse-Due id t)) (settles-Due id t) now
        time input q h
  step-Due takes_unlock q n h =
      take_unlock-Kept (All (Due id t)) (current-Each (Due id t) (lapse-Due id t))
        (settles-Due id t) q h
  step-Due (unlocks now failed) q n h =
      finish_unlock-Kept (All (Due id t)) (current-Each (Due id t) (lapse-Due id t))
        (settles-Due id t) now failed q h

  run-Due :
      (later past : List Event)
      → All (Other id) later
      → All (Due id t) (run past).calls
      → All (Due id t) (run (later ++ past)).calls
  unfolding run
  run-Due [] past a h = h
  run-Due (e ∷ later) past (n, a) h = step-Due e (run (later ++ past)) n (run-Due later past a h)

submitted-run :
    (id : Uuid) (past : List Event) (at : ℕ) (r : Review)
    → (submit at id r (run past)).0 ≡ some pending
    → All (Due id (at + lifetime)) (run (submits at id r ∷ past)).calls
unfolding run step
submitted-run id past at r h = submitted-Due id (at + lifetime) at r (run past) refl h

-- A request that is accepted is not left waiting: whatever happens next except a new request under the
-- same id, an agent that asks five minutes after it, or later, is not told that it still waits.
pub waiting-ends :
    (past later : List Event) (at now : ℕ) (id : Uuid) (r : Review)
    → All (Other id) later
    → (submit at id r (run past)).0 ≡ some pending
    → at + lifetime ≤ now
    → (take_status now id (run (later ++ submits at id r ∷ past))).0 ≢ some pending
waiting-ends past later at now id r a h l =
    take_status-Over id (at + lifetime) now (run (later ++ submits at id r ∷ past)) l
      (run-Due id (at + lifetime) later (submits at id r ∷ past) a (submitted-run id past at r h))
