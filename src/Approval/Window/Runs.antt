-- ===== src/Approval/Window/Runs.antt =====
-- What holds of the calls after any history.
use codex_hosts.Prelude.{ℕ, ◌≡◌, ◌≢◌, none, some, List, [], ◌∷◌, arith}
use codex_hosts.Model.{Uuid}
use codex_hosts.Approval.Queue.{Status, pending, Queue, take_status}
use codex_hosts.Approval.Window.{
  Event, submits, takes, cancels, frame, takes_unlock, unlocks, step, run,
}
use codex_hosts.Approval.Queue.Tidy.{AreTidy, settle-AreTidy, current-AreTidy}
use codex_hosts.Approval.Queue.Bounds.{IsTidy, submit-IsTidy, cancel-IsTidy, take_status-IsTidy}
use codex_hosts.Approval.Queue.Kept.{take_unlock-Kept, finish_unlock-Kept}
use codex_hosts.Approval.Queue.Once.{taken-once}
use codex_hosts.Approval.Window.Frames.{show-Keeps}

step-IsTidy : (e : Event) (q : Queue) → IsTidy q → IsTidy (step e q)
unfolding step
step-IsTidy (submits now id r) q h = submit-IsTidy now id r q h
step-IsTidy (takes now id) q h = take_status-IsTidy now id q h
step-IsTidy (cancels now id) q h = cancel-IsTidy now id q h
step-IsTidy (frame now time input) q h =
    show-Keeps AreTidy current-AreTidy settle-AreTidy now time input q h
step-IsTidy takes_unlock q h = take_unlock-Kept AreTidy current-AreTidy settle-AreTidy q h
step-IsTidy (unlocks now failed) q h =
    finish_unlock-Kept AreTidy current-AreTidy settle-AreTidy now failed q h

-- After any history the queue holds at most sixteen calls, no two of them with one id, and each that
-- waits has its review to show.
pub run-AreTidy : (history : List Event) → AreTidy (run history).calls
unfolding run
run-AreTidy [] = record { few = omega arith; distinct = tt; reviewed = tt }
run-AreTidy (e ∷ past) = step-IsTidy e (run past) (run-AreTidy past)

-- After any history, a decision is handed over once: when a call has been answered with one, the next
-- question about the same call finds nothing.
pub take_status-once :
    (history : List Event) (now later : ℕ) (id : Uuid) (s : Status)
    → (take_status now id (run history)).0 ≡ some s
    → s ≢ pending
    → (take_status later id (take_status now id (run history)).1).0 ≡ none
take_status-once history now later id s h n =
    taken-once now later id s (run history) (run-AreTidy history) h n
