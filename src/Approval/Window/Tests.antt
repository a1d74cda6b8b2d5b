-- ===== src/Approval/Window/Tests.antt =====
-- Concrete histories of the approval window.
use codex_hosts.Prelude.{◌≡◌, ◌≢◌, refl, true, false, none, some, List, [], ◌∷◌, arith, codes}
use codex_hosts.Approval.Queue.{
  Review, pending, approved, expire, room, submit, take_status, pending_ids, start_batch, rearm,
  active, needs_unlock, decide, allow,
}
use codex_hosts.Approval.Window.{
  Input, active_ids, noticed, without_stale_detail, with_batch, reads_vault, decision,
  opened_detail, overview, detail_decision, detail_frame, show_detail, show, granted_if,
  detail_consents, consents, Event, submits, cancels, frame, step, given_by, run, granted,
}
use codex_hosts.Approval.Queue.Tidy.{AreTidy}
use codex_hosts.Approval.Window.Seen.{allowed_by_user}
use codex_hosts.Approval.Window.Allowed.{approved-allowed}
use codex_hosts.Approval.Window.Runs.{run-AreTidy, take_status-once}
use codex_hosts.Approval.Window.Cancelled.{cancelled-final}
use codex_hosts.Approval.Window.Waiting.{waiting-ends}

abbrev review : Review
review = record {
  hosts = [];
  commands = codes "ls" ∷ [];
  stdin = none;
  sudo_user = none;
  unlock_vault = false;
  uses_bitwarden = false;
}

abbrev looks : Input
looks = record {
  pressed = none;
  submitted = false;
  escape = false;
  include = false;
  opened = none;
  typed = [];
  detail_pressed = none;
  detail_submitted = false;
  detail_typed = [];
  back = false;
}

abbrev allows : Input
allows = record looks { pressed = some true }

-- The last event stands first: the buttons are pressed 300 ms after the call is first shown.
abbrev allowed_call : List Event
allowed_call = frame 1300 1300 allows ∷ frame 1000 1000 looks ∷ submits 900 7 review ∷ []

-- what the tests compute with
computed : Unit {0}
unfolding run granted step given_by show show_detail overview decision active_ids with_batch
    without_stale_detail noticed reads_vault opened_detail detail_frame detail_decision consents
    detail_consents granted_if expire room submit take_status pending_ids start_batch rearm active
    needs_unlock decide allow
computed = tt

answered : (take_status 1400 7 (run allowed_call)).0 ≡ some approved
unfolding computed
answered = refl

approved-allowed_example : allowed_by_user 7 allowed_call ≡ true
approved-allowed_example = approved-allowed allowed_call 1400 7 answered

take_status-once_example : (take_status 1500 7 (take_status 1400 7 (run allowed_call)).1).0 ≡ none
take_status-once_example = take_status-once allowed_call 1400 1500 7 approved answered (λ e. cc)

run-AreTidy_example : AreTidy (run allowed_call).calls
run-AreTidy_example = run-AreTidy allowed_call

cancelled-final_example :
    ((take_status 1500 7 (run (frame 1300 1300 allows ∷ cancels 1200 7 ∷ allowed_call))).0
      ≢ some approved)
    × ((take_status 1500 7 (run (frame 1300 1300 allows ∷ cancels 1200 7 ∷ allowed_call))).0
        ≢ some pending)
cancelled-final_example =
    cancelled-final allowed_call (frame 1300 1300 allows ∷ []) 1200 1500 7 (tt, tt)

submitted : (submit 900 7 review (run [])).0 ≡ some pending
unfolding computed
submitted = refl

waiting-ends_example :
    (take_status 400000 7 (run (frame 1000 1000 looks ∷ submits 900 7 review ∷ []))).0
    ≢ some pending
waiting-ends_example =
    waiting-ends [] (frame 1000 1000 looks ∷ []) 900 400000 7 review (tt, tt) submitted
      (omega arith)
