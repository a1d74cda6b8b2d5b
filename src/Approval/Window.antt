-- ===== src/Approval/Window.antt =====
-- src/approval.rs, `show` and `show_detail`: one frame of the approval window. What the widgets report
-- in the frame is an argument; `time` is the interface's clock.
pub mod Granted
pub mod Frames
pub mod Runs
pub mod Cancelled
mod Tests
pub mod Waiting
pub mod Covered
pub mod Seen
pub mod Late
pub mod Allowed
use codex_hosts.Prelude.{
  ℕ, Bool, true, false, not, ◌&&◌, Option, none, some, List, [], ◌∷◌, ◌++◌, if◌then◌else◌, ltb, leb,
  Text, is_empty, any, find, keep, map,
}
use codex_hosts.Model.{Uuid, is_some}
use codex_hosts.Approval.Queue.{
  Review, Pending, Batch, Detail, detail_invalid, lapsed, Queue, empty, arm, next_batch_arm,
  is_pending, is_busy, has_id, expire, submit, take_status, cancel, start_batch, rearm, include_new,
  active, wants_vault, is_open, decide, allow, take_unlock, finish_unlock,
}

pub record Input : Type 0 where
  -- the overview: its buttons, Enter in the password row, Escape, its other controls
  pub pressed : Option Bool
  pub submitted : Bool
  pub escape : Bool
  pub include : Bool
  pub opened : Option Detail
  pub typed : Text
  -- the detail view, whose Escape is `back`
  pub detail_pressed : Option Bool
  pub detail_submitted : Bool
  pub detail_typed : Text
  pub back : Bool

abbrev pub shown : Option Batch → List Uuid
shown none = []
shown (some b) = b.ids

abbrev pub is_armed : ℕ → Option Batch → Bool
is_armed time none = true
is_armed time (some b) = leb b.ready_at time

pub active_ids : Queue → List Uuid
active_ids q = map (λ (c : Pending). c.id) (keep (is_open (shown q.batch)) q.calls)

pub noticed : ℕ → Queue → Queue
noticed now q =
    let q' = expire now q in
    if ltb 0 q'.expired_notices
    then record q' { expired_notices = 0; feedback = lapsed q'.expired_notices }
    else q'

abbrev pub is_gone : Queue → Option Detail → Bool
is_gone q none = false
is_gone q (some d) = not (active q d.id)

pub without_stale_detail : ℕ → Queue → Queue
without_stale_detail time q =
    if is_gone q q.detail
    then record (rearm time (record q { detail = none })) { feedback = detail_invalid }
    else q

abbrev pub cleared : Queue → Queue
cleared q = record q { batch = none; detail = none; master_password = []; unlock_error = none }

pub with_batch : ℕ → Queue → Queue
with_batch time q =
    if any (active q) (shown q.batch)
    then q
    else start_batch time (if is_some q.batch then next_batch_arm else arm) q

pub reads_vault : Queue → Bool
reads_vault q = any (λ c. is_open (shown q.batch) c && wants_vault c.review) q.calls

abbrev pub pressed_or_submitted : Option Bool → Bool → Option Bool
pressed_or_submitted (some d) submitted = some d
pressed_or_submitted none submitted = if submitted then some true else none

pub decision : ℕ → Input → Queue → Option Bool
decision time input q =
    if not (is_armed time q.batch)
    then none
    else if not (is_some q.detail) && input.escape && not (is_empty (active_ids q))
    then some false
    else pressed_or_submitted input.pressed (reads_vault q && input.submitted)

abbrev pub typed_in : Bool → Text → Queue → Queue
typed_in shows_row text q =
    if shows_row && not (is_busy q.unlock) then record q { master_password = text } else q

abbrev pub answer : ℕ → List Uuid → Option Bool → Queue → Queue
answer now ids none q = q
answer now ids (some true) q = allow now ids q
answer now ids (some false) q = decide now ids false q

pub opened_detail : ℕ → Bool → Option Detail → Queue → Queue
opened_detail time armed none q = q
opened_detail time armed (some d) q =
    if armed && not (is_some q.detail) then rearm time (record q { detail = some d }) else q

pub overview : ℕ → ℕ → Input → Queue → Queue
overview now time input q =
    let d = decision time input q in
    let armed = is_armed time q.batch in
    let q' = answer now (active_ids q) d (typed_in (reads_vault q) input.typed q) in
    if is_some d
    then rearm time q'
    else if input.include && armed
    then include_new time q'
    else opened_detail time armed input.opened q'

abbrev pub detail_call : Queue → Detail → Option Pending
detail_call q d = find (λ c. has_id d.id c && is_pending c) q.calls

pub detail_decision : ℕ → Input → Pending → Queue → Option Bool
detail_decision time input c q =
    if is_armed time q.batch
    then pressed_or_submitted input.detail_pressed (wants_vault c.review && input.detail_submitted)
    else none

abbrev pub closed_unless_busy : Queue → Queue
closed_unless_busy q = if is_busy q.unlock then q else record q { detail = none }

pub detail_frame : ℕ → ℕ → Input → Detail → Pending → Queue → Queue
detail_frame now time input d c q =
    let q' = typed_in (wants_vault c.review) input.detail_typed q in
    let chosen = detail_decision time input c q in
    if is_some chosen
    then rearm time (closed_unless_busy (answer now (d.id ∷ []) chosen q'))
    else if input.back
    then rearm time (record q' { detail = none })
    else record q' { detail = some (record d { focus = false }) }

abbrev pub found_frame : ℕ → ℕ → Input → Detail → Option Pending → Queue → Queue
found_frame now time input d none q = record q { detail = none }
found_frame now time input d (some c) q = detail_frame now time input d c q

abbrev pub detail_view : ℕ → ℕ → Input → Option Detail → Queue → Queue
detail_view now time input none q = q
detail_view now time input (some d) q = found_frame now time input d (detail_call q d) q

pub show_detail : ℕ → ℕ → Input → Queue → Queue
show_detail now time input q = detail_view now time input q.detail q

abbrev pub has_pending : Queue → Bool
has_pending q = any is_pending q.calls

pub show : ℕ → ℕ → Input → Queue → Queue
show now time input q =
    let q' = without_stale_detail time (noticed now q) in
    if has_pending q'
    then show_detail now time input (overview now time input (with_batch time q'))
    else cleared q'

-- The consents as the window takes them, by its own tests; `Seen` reads them off the events.
pub granted_if : Option Bool → List Uuid → List Uuid
granted_if (some true) ids = ids
granted_if _ ids = []

abbrev pub found_consents : ℕ → Input → Detail → Option Pending → Queue → List Uuid
found_consents time input d none q = []
found_consents time input d (some c) q = granted_if (detail_decision time input c q) (d.id ∷ [])

abbrev pub view_consents : ℕ → Input → Option Detail → Queue → List Uuid
view_consents time input none q = []
view_consents time input (some d) q = found_consents time input d (detail_call q d) q

pub detail_consents : ℕ → Input → Queue → List Uuid
detail_consents time input q = view_consents time input q.detail q

pub consents : ℕ → ℕ → Input → Queue → List Uuid
consents now time input q =
    let q' = without_stale_detail time (noticed now q) in
    let drawn = with_batch time q' in
    if has_pending q'
    then granted_if (decision time input drawn) (active_ids drawn)
      ++ detail_consents time input (overview now time input drawn)
    else []

pub data Event : Type 0 where
  submits : ℕ → Uuid → Review → Event
  takes : ℕ → Uuid → Event
  cancels : ℕ → Uuid → Event
  frame : ℕ → ℕ → Input → Event
  takes_unlock : Event
  unlocks : ℕ → Option Text → Event

pub step : Event → Queue → Queue
step (submits now id review) q = (submit now id review q).1
step (takes now id) q = (take_status now id q).1
step (cancels now id) q = cancel now id q
step (frame now time input) q = show now time input q
step takes_unlock q = (take_unlock q).1
step (unlocks now failed) q = finish_unlock now failed q

pub given_by : Event → Queue → List Uuid
given_by (frame now time input) q = consents now time input q
given_by _ q = []

-- A history, its last event first, from the empty queue.
pub run : List Event → Queue
run [] = empty
run (e ∷ past) = step e (run past)

pub granted : List Event → List Uuid
granted [] = []
granted (e ∷ past) = given_by e (run past) ++ granted past
