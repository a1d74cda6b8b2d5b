-- ===== src/Approval/Window/Allowed.antt =====
-- No call is approved that the user has not seen and allowed.
use codex_hosts.Prelude.{
  ℕ, ◌≤◌, ◌≡◌, refl, sym, ap, ◌∙◌, inl, inr, Bool, true, false, not, ◌&&◌, ◌||◌, Option, none, some,
  List, [], ◌∷◌, ◌++◌, ◌==◌, is_empty, keep, arith, Bool-cases, map, All-weaken, if-case,
}
use codex_hosts.Model.{contains_id, Uuid, is_some}
use codex_hosts.Approval.Queue.{
  approved, Pending, Batch, Detail, Queue, waits, take_status, wants_vault, is_open,
}
use codex_hosts.Approval.Window.{
  Input, shown, is_armed, active_ids, noticed, without_stale_detail, with_batch, reads_vault,
  pressed_or_submitted, decision, overview, detail_call, detail_decision, found_consents,
  view_consents, has_pending, granted_if, detail_consents, consents, Event, submits, takes, cancels,
  frame, takes_unlock, unlocks, step, given_by, run, granted,
}
use codex_hosts.Approval.Queue.Screens.{
  submit-same, cancel-same, take_status-same, take_unlock-same, finish_unlock-IsLess,
}
use codex_hosts.Approval.Window.Seen.{
  view_ids, seen, is_yes, says_yes, is_allowed, allowed_by_user, ready, IsOld, IsLate, IsLate-IsOld,
  armed-seen,
}
use codex_hosts.Approval.Window.Late.{Ready, overview-Ready, show-Late, drawn-Ready}
use codex_hosts.Approval.Window.Granted.{approved-granted}

seen-later :
    (e : Event) (past : List Event) (l : ℕ) (id : Uuid)
    → seen l id past ≡ true
    → seen l id (e ∷ past) ≡ true
unfolding seen
seen-later e past l id h = ground arith

later-IsOld :
    (e : Event) (past : List Event) {b c : Option Batch} {d f : Option Detail}
    → c ≡ b
    → f ≡ d
    → IsOld past b d
    → IsOld (e ∷ past) c f
later-IsOld e past {b} {c} {d} {f} same_batch same_detail (h, k) =
    let older : (i : Uuid) → seen (ready b) i past ≡ true → seen (ready b) i (e ∷ past) ≡ true =
      λ i s. seen-later e past (ready b) i s in
    rw (same_batch, same_detail)
      (
        All-weaken (λ i. seen (ready b) i past ≡ true) (λ i. seen (ready b) i (e ∷ past) ≡ true)
            (shown b) older h,
        All-weaken (λ i. seen (ready b) i past ≡ true) (λ i. seen (ready b) i (e ∷ past) ≡ true)
            (view_ids d) older k,
      )

run-IsOld : (history : List Event) → IsOld history (run history).batch (run history).detail
unfolding run step
run-IsOld [] = (tt, tt)
run-IsOld (frame now time input ∷ past) =
    IsLate-IsOld now time input past
      (show-Late time past now input (run past) (inr (run-IsOld past)))
run-IsOld (submits now i r ∷ past) =
    let (b, d) = submit-same now i r (run past) in
    later-IsOld (submits now i r) past b d (run-IsOld past)
run-IsOld (takes now i ∷ past) =
    let (b, d) = take_status-same now i (run past) in
    later-IsOld (takes now i) past b d (run-IsOld past)
run-IsOld (cancels now i ∷ past) =
    let (b, d) = cancel-same now i (run past) in
    later-IsOld (cancels now i) past b d (run-IsOld past)
run-IsOld (takes_unlock ∷ past) =
    let (b, d) = take_unlock-same (run past) in later-IsOld takes_unlock past b d (run-IsOld past)
run-IsOld (unlocks now failed ∷ past) =
    let (b, d) = finish_unlock-IsLess now failed (run past) in
    let old = run-IsOld past in
    elim d [
      | inl e ↦ later-IsOld (unlocks now failed) past b e old
      | inr e ↦ later-IsOld (unlocks now failed) past b e (old.0, tt)
    ]

contains-append :
    (id : Uuid) (a b : List Uuid) → contains_id id (a ++ b) ≡ (contains_id id a || contains_id id b)
contains-append id [] b = refl
contains-append id (i ∷ a) b = let rest = contains-append id a b in ground arith

granted_if-yes :
    (d : Option Bool) (id : Uuid) (ids : List Uuid)
    → contains_id id (granted_if d ids) ≡ true
    → (d ≡ some true) × (contains_id id ids ≡ true)
unfolding granted_if
granted_if-yes none id ids h = cc
granted_if-yes (some true) id ids h = (refl, h)
granted_if-yes (some false) id ids h = cc

pressed-yes :
    (p : Option Bool) (s : Bool) → pressed_or_submitted p s ≡ some true → (is_yes p || s) ≡ true
pressed-yes none true h = refl
pressed-yes none false h = cc
pressed-yes (some true) s h = refl
pressed-yes (some false) s h = cc

armed_when :
    (time : ℕ) (o : Option Batch) (b : Batch)
    → o ≡ some b
    → is_armed time o ≡ true
    → b.ready_at ≤ time
armed_when time none b e h = cc
armed_when time (some c) b e h = let same : c ≡ b = cc in rw (← same) (ground arith)

decision-yes :
    (time : ℕ) (input : Input) (q : Queue)
    → decision time input q ≡ some true
    → (is_armed time q.batch ≡ true) × (says_yes input ≡ true)
unfolding decision
decision-yes time input q =
    if-case
      (λ (d : Option Bool).
        d ≡ some true → (is_armed time q.batch ≡ true) × (says_yes input ≡ true))
      (not (is_armed time q.batch)) (λ _ f. cc)
      (λ armed.
        if-case
          (λ (d : Option Bool).
            d ≡ some true → (is_armed time q.batch ≡ true) × (says_yes input ≡ true))
          (not (is_some q.detail) && input.escape && not (is_empty (active_ids q))) (λ _ f. cc)
          (λ _ f.
            let yes = pressed-yes input.pressed (reads_vault q && input.submitted) f in
            (ground arith, ground arith)))

detail_decision-yes :
    (time : ℕ) (input : Input) (c : Pending) (q : Queue)
    → detail_decision time input c q ≡ some true
    → (is_armed time q.batch ≡ true) × (says_yes input ≡ true)
unfolding detail_decision
detail_decision-yes time input c q =
    if-case
      (λ (d : Option Bool).
        d ≡ some true → (is_armed time q.batch ≡ true) × (says_yes input ≡ true))
      (is_armed time q.batch)
      (λ armed f.
        let yes =
          pressed-yes input.detail_pressed (wants_vault c.review && input.detail_submitted) f in
        (armed, ground arith))
      (λ _ f. cc)

open-shown :
    (id : Uuid) (ids : List Uuid) (calls : List Pending)
    → contains_id id (map (λ (c : Pending). c.id) (keep (is_open ids) calls)) ≡ true
    → contains_id id ids ≡ true
open-shown id ids [] h = cc
open-shown id ids (c ∷ calls) h = elim (Bool-cases (is_open ids c)) [
  | inr e ↦ open-shown id ids calls (rw e at h)
  | inl e ↦ elim (Bool-cases (c.id == id)) [
    | inl f ↦
        let same : c.id ≡ id = ground arith in
        let there : contains_id c.id ids ≡ true = ground arith in
        sym (ap (λ i. contains_id i ids) same) ∙ there
    | inr f ↦
        let h' : contains_id id (c.id ∷ map (λ (c : Pending). c.id) (keep (is_open ids) calls))
            ≡ true =
          (rw e at h) in
        open-shown id ids calls (ground arith)
  ]
]

module _ (time : ℕ) (past : List Event) (id : Uuid) (input : Input) where
  -- what the user says in the list, and in the details
  list-allowed :
      (q : Queue)
      → Ready time past q
      → contains_id id (granted_if (decision time input q) (active_ids q)) ≡ true
      → (says_yes input && seen time id past) ≡ true
  unfolding active_ids
  list-allowed q (late, (b, e)) h =
      let (d, waits) = granted_if-yes (decision time input q) id (active_ids q) h in
      let (armed, said) = decision-yes time input q d in
      let there = open-shown id (shown q.batch) q.calls waits in
      let listed : contains_id id (shown (some b)) ≡ true =
        sym (ap (λ o. contains_id id (shown o)) e) ∙ there in
      let was =
        armed-seen time past b q.detail id (rw e at late) (armed_when time q.batch b e armed)
          (ground arith) in
      ground arith

  details-allowed :
      (q : Queue)
      → Ready time past q
      → contains_id id (detail_consents time input q) ≡ true
      → (says_yes input && seen time id past) ≡ true
  unfolding detail_consents
  details-allowed q (late, (b, e)) = viewed q.detail refl
    where
      found :
          (d : Detail) (c : Option Pending)
          → q.detail ≡ some d
          → contains_id id (found_consents time input d c q) ≡ true
          → (says_yes input && seen time id past) ≡ true
      found d none f h = cc
      found d (some c) f h =
          let (chosen, is) = granted_if-yes (detail_decision time input c q) id (d.id ∷ []) h in
          let (armed, said) = detail_decision-yes time input c q chosen in
          let late' : IsLate time past (some b) (some d) = (rw (e, f) at late) in
          let was =
            armed-seen time past b (some d) id late' (armed_when time q.batch b e armed)
              (ground arith) in
          ground arith

      viewed :
          (o : Option Detail)
          → q.detail ≡ o
          → contains_id id (view_consents time input o q) ≡ true
          → (says_yes input && seen time id past) ≡ true
      viewed none f h = cc
      viewed (some d) f h = found d (detail_call q d) f h

  frame-allowed :
      (now : ℕ)
      → contains_id id (consents now time input (run past)) ≡ true
      → (says_yes input && seen time id past) ≡ true
  unfolding consents
  frame-allowed now =
      let q' = without_stale_detail time (noticed now (run past)) in
      let drawn = with_batch time q' in
      let listed = granted_if (decision time input drawn) (active_ids drawn) in
      let detailed = detail_consents time input (overview now time input drawn) in
      if-case
        (λ (ids : List Uuid).
          contains_id id ids ≡ true → (says_yes input && seen time id past) ≡ true)
        (has_pending q')
        (λ p h.
          let r = drawn-Ready time past now (run past) (inr (run-IsOld past)) p in
          let either = sym (contains-append id listed detailed) ∙ h in
          elim (Bool-cases (contains_id id listed)) [
            | inl e ↦ list-allowed drawn r e
            | inr e ↦
                details-allowed (overview now time input drawn)
                  (overview-Ready time past now input drawn r) (ground arith)
          ])
        (λ _ h. cc)

granted-allowed :
    (id : Uuid) (history : List Event)
    → contains_id id (granted history) ≡ true
    → allowed_by_user id history ≡ true
unfolding granted allowed_by_user given_by
granted-allowed id [] h = cc
granted-allowed id (e ∷ past) h =
    let either = sym (contains-append id (given_by e (run past)) (granted past)) ∙ h in
    elim (Bool-cases (contains_id id (granted past))) [
      | inl f ↦ let rest = granted-allowed id past f in ground arith
      | inr f ↦ let now_allowed = given e (ground arith) in ground arith
    ]
  where
    given :
        (e : Event) → contains_id id (given_by e (run past)) ≡ true → is_allowed id e past ≡ true
    given (frame now time input) k = frame-allowed time past id input now k
    given (submits _ _ _) k = cc
    given (takes _ _) k = cc
    given (cancels _ _) k = cc
    given takes_unlock k = cc
    given (unlocks _ _) k = cc

-- Whatever has happened, in whatever order, a call that is answered as approved is one that the user
-- has seen and allowed: there is a frame in which a button to allow, or Enter in a password row, was
-- pressed, and an earlier frame, drawn at least 250 ms before it, that left the call on the screen, in
-- its list or in the view of its details. (Escape, and a button that has just appeared, allow nothing.)
pub approved-allowed :
    (history : List Event) (now : ℕ) (id : Uuid)
    → (take_status now id (run history)).0 ≡ some approved
    → allowed_by_user id history ≡ true
approved-allowed history now id h = granted-allowed id history (approved-granted history now id h)
