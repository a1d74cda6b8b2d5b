-- ===== src/Approval/Window/Cancelled.antt =====
-- A call that has been cancelled is not approved later.
use codex_hosts.Prelude.{ℕ, ◌≢◌, some, List, [], ◌∷◌, ◌++◌, All}
use codex_hosts.Model.{Uuid}
use codex_hosts.Approval.Queue.{pending, approved, Queue, take_status}
use codex_hosts.Approval.Window.{
  Event, submits, takes, cancels, frame, takes_unlock, unlocks, step, run,
}
use codex_hosts.Approval.Queue.Revoked.{
  Revoked, IsRevoked, current-IsRevoked, settle-IsRevoked, submit-IsRevoked, cancel-IsRevoked,
  cancelled-IsRevoked, take_status-IsRevoked, take_status-revoked,
}
use codex_hosts.Approval.Queue.Kept.{take_unlock-Kept, finish_unlock-Kept}
use codex_hosts.Approval.Window.Runs.{run-AreTidy}
use codex_hosts.Approval.Window.Frames.{show-Keeps}

-- not a new request for the call
abbrev pub Other : Uuid → Event → Type 0
Other id (submits now i r) = i ≢ id
Other id _ = Unit

module _ (id : Uuid) where
  step-IsRevoked : (e : Event) (q : Queue) → Other id e → IsRevoked id q → IsRevoked id (step e q)
  unfolding step
  step-IsRevoked (submits now i r) q n h = submit-IsRevoked id now i r q n h
  step-IsRevoked (takes now i) q n h = take_status-IsRevoked id now i q h
  step-IsRevoked (cancels now i) q n h = cancel-IsRevoked id now i q h
  step-IsRevoked (frame now time input) q n h =
      show-Keeps (All (Revoked id)) (current-IsRevoked id) (settle-IsRevoked id) now time input q h
  step-IsRevoked takes_unlock q n h =
      take_unlock-Kept (All (Revoked id)) (current-IsRevoked id) (settle-IsRevoked id) q h
  step-IsRevoked (unlocks now failed) q n h =
      finish_unlock-Kept (All (Revoked id)) (current-IsRevoked id) (settle-IsRevoked id) now failed
        q h

  run-IsRevoked :
      (later past : List Event)
      → All (Other id) later
      → IsRevoked id (run past)
      → IsRevoked id (run (later ++ past))
  unfolding run
  run-IsRevoked [] past a h = h
  run-IsRevoked (e ∷ later) past (n, a) h =
      step-IsRevoked e (run (later ++ past)) n (run-IsRevoked later past a h)

cancelled-run : (id : Uuid) (past : List Event) (at : ℕ) → IsRevoked id (run (cancels at id ∷ past))
unfolding run step
cancelled-run id past at = cancelled-IsRevoked id at (run past) (run-AreTidy past)

-- Once a call has been cancelled, whatever happens next except a new request under the same id, it is
-- never answered as approved, and not as waiting either.
pub cancelled-final :
    (past later : List Event) (at now : ℕ) (id : Uuid)
    → All (Other id) later
    → ((take_status now id (run (later ++ cancels at id ∷ past))).0 ≢ some approved)
      × ((take_status now id (run (later ++ cancels at id ∷ past))).0 ≢ some pending)
cancelled-final past later at now id a =
    take_status-revoked id now (run (later ++ cancels at id ∷ past))
      (run-IsRevoked id later (cancels at id ∷ past) a (cancelled-run id past at))
