-- ===== src/Approval/Window/Covered.antt =====
-- Every call that is approved, or is being unlocked, is covered by a consent that was given.
use codex_hosts.Prelude.{
  ℕ, refl, inr, Bool, true, false, not, ◌&&◌, Option, none, some, List, [], ◌∷◌, ◌++◌,
  if◌then◌else◌, ltb, Text, any, All, All-split, if-case,
}
use codex_hosts.Model.{Uuid, is_some}
use codex_hosts.Approval.Queue.{Pending, Detail, Queue, is_busy, expire, active, wants_vault}
use codex_hosts.Approval.Window.{
  Input, shown, is_armed, active_ids, noticed, is_gone, without_stale_detail, cleared, with_batch,
  reads_vault, decision, typed_in, answer, opened_detail, overview, detail_call, detail_decision,
  detail_frame, found_frame, detail_view, found_consents, view_consents, show_detail, has_pending,
  show, granted_if, detail_consents, consents, Event, submits, takes, cancels, frame, takes_unlock,
  unlocks, step, given_by,
}
use codex_hosts.Approval.Queue.Consent.{
  In, IsCovered, expire-IsCovered, submit-IsCovered, cancel-IsCovered, take_status-Covered,
}
use codex_hosts.Approval.Queue.Deciding.{
  decide-IsCovered, allow-IsCovered, take_unlock-IsCovered, finish_unlock-IsCovered,
  rearm-IsCovered, include_new-IsCovered, start_batch-IsCovered,
}

module _ (ids : List Uuid) where
  noticed-IsCovered : (now : ℕ) (q : Queue) → IsCovered ids q → IsCovered ids (noticed now q)
  unfolding noticed
  noticed-IsCovered now q h =
      let k = expire-IsCovered ids now q h in
      if-case (IsCovered ids) (ltb 0 (expire now q).expired_notices)
        (λ _. record { calls = k.calls; waiting = k.waiting }) (λ _. k)

  with_detail-IsCovered :
      (d : Option Detail) (q : Queue) → IsCovered ids q → IsCovered ids (record q { detail = d })
  with_detail-IsCovered d q h = record { calls = h.calls; waiting = h.waiting }

  without_stale_detail-IsCovered :
      (time : ℕ) (q : Queue) → IsCovered ids q → IsCovered ids (without_stale_detail time q)
  unfolding without_stale_detail
  without_stale_detail-IsCovered time q h =
      let k = rearm-IsCovered ids time _ (with_detail-IsCovered none q h) in
      if-case (IsCovered ids) (is_gone q q.detail)
        (λ _. record { calls = k.calls; waiting = k.waiting }) (λ _. h)

  with_batch-IsCovered :
      (time : ℕ) (q : Queue) → IsCovered ids q → IsCovered ids (with_batch time q)
  unfolding with_batch
  with_batch-IsCovered time q h =
      if-case (IsCovered ids) (any (active q) (shown q.batch)) (λ _. h)
        (λ _. start_batch-IsCovered ids time _ q h)

  typed_in-IsCovered :
      (shows : Bool) (text : Text) (q : Queue)
      → IsCovered ids q
      → IsCovered ids (typed_in shows text q)
  typed_in-IsCovered shows text q h =
      if-case (IsCovered ids) (shows && not (is_busy q.unlock))
        (λ _. record { calls = h.calls; waiting = h.waiting }) (λ _. h)

  answer-IsCovered :
      (now : ℕ) (given : List Uuid) (d : Option Bool) (q : Queue)
      → All (In ids) (granted_if d given)
      → IsCovered ids q
      → IsCovered ids (answer now given d q)
  unfolding granted_if
  answer-IsCovered now given none q a h = h
  answer-IsCovered now given (some true) q a h = allow-IsCovered ids now given q a h
  answer-IsCovered now given (some false) q a h =
      decide-IsCovered ids now given false q (inr refl) h

  opened_detail-IsCovered :
      (time : ℕ) (armed : Bool) (d : Option Detail) (q : Queue)
      → IsCovered ids q
      → IsCovered ids (opened_detail time armed d q)
  unfolding opened_detail
  opened_detail-IsCovered time armed none q h = h
  opened_detail-IsCovered time armed (some d) q h =
      if-case (IsCovered ids) (armed && not (is_some q.detail))
        (λ _. rearm-IsCovered ids time _ (with_detail-IsCovered (some d) q h)) (λ _. h)

  overview-IsCovered :
      (now time : ℕ) (input : Input) (q : Queue)
      → All (In ids) (granted_if (decision time input q) (active_ids q))
      → IsCovered ids q
      → IsCovered ids (overview now time input q)
  unfolding overview
  overview-IsCovered now time input q a h =
      let d = decision time input q in
      let k =
        answer-IsCovered now (active_ids q) d _ a
          (typed_in-IsCovered (reads_vault q) input.typed q h) in
      if-case (IsCovered ids) (is_some d) (λ _. rearm-IsCovered ids time _ k)
        (λ _.
          if-case (IsCovered ids) (input.include && is_armed time q.batch)
            (λ _. include_new-IsCovered ids time _ k)
            (λ _. opened_detail-IsCovered time (is_armed time q.batch) input.opened _ k))

  detail_frame-IsCovered :
      (now time : ℕ) (input : Input) (d : Detail) (c : Pending) (q : Queue)
      → All (In ids) (granted_if (detail_decision time input c q) (d.id ∷ []))
      → IsCovered ids q
      → IsCovered ids (detail_frame now time input d c q)
  unfolding detail_frame
  detail_frame-IsCovered now time input d c q a h =
      let q' = typed_in (wants_vault c.review) input.detail_typed q in
      let chosen = detail_decision time input c q in
      let k = typed_in-IsCovered (wants_vault c.review) input.detail_typed q h in
      let answered = answer now (d.id ∷ []) chosen q' in
      let m = answer-IsCovered now (d.id ∷ []) chosen q' a k in
      if-case (IsCovered ids) (is_some chosen)
        (λ _. rearm-IsCovered ids time _ (
          if-case (IsCovered ids) (is_busy answered.unlock) (λ _. m)
            (λ _. with_detail-IsCovered none answered m)))
        (λ _.
          if-case (IsCovered ids) input.back
            (λ _. rearm-IsCovered ids time _ (with_detail-IsCovered none q' k))
            (λ _. with_detail-IsCovered _ q' k))

  found_frame-IsCovered :
      (now time : ℕ) (input : Input) (d : Detail) (c : Option Pending) (q : Queue)
      → All (In ids) (found_consents time input d c q)
      → IsCovered ids q
      → IsCovered ids (found_frame now time input d c q)
  found_frame-IsCovered now time input d none q a h = with_detail-IsCovered none q h
  found_frame-IsCovered now time input d (some c) q a h =
      detail_frame-IsCovered now time input d c q a h

  detail_view-IsCovered :
      (now time : ℕ) (input : Input) (d : Option Detail) (q : Queue)
      → All (In ids) (view_consents time input d q)
      → IsCovered ids q
      → IsCovered ids (detail_view now time input d q)
  detail_view-IsCovered now time input none q a h = h
  detail_view-IsCovered now time input (some d) q a h =
      found_frame-IsCovered now time input d (detail_call q d) q a h

  show_detail-IsCovered :
      (now time : ℕ) (input : Input) (q : Queue)
      → All (In ids) (detail_consents time input q)
      → IsCovered ids q
      → IsCovered ids (show_detail now time input q)
  unfolding show_detail detail_consents
  show_detail-IsCovered now time input q a h = detail_view-IsCovered now time input q.detail q a h

  show-IsCovered :
      (now time : ℕ) (input : Input) (q : Queue)
      → All (In ids) (consents now time input q)
      → IsCovered ids q
      → IsCovered ids (show now time input q)
  unfolding show consents
  show-IsCovered now time input q a h =
      let q' = without_stale_detail time (noticed now q) in
      let drawn = with_batch time q' in
      let k = without_stale_detail-IsCovered time _ (noticed-IsCovered now q h) in
      let seen = granted_if (decision time input drawn) (active_ids drawn) in
      let detailed = detail_consents time input (overview now time input drawn) in
      let looked = overview now time input drawn in
      go seen detailed (show_detail now time input looked) q' k
        (λ b c.
          show_detail-IsCovered now time input looked c
            (overview-IsCovered now time input drawn b (with_batch-IsCovered time q' k)))
        (has_pending q') a
    where
      go :
          (seen detailed : List Uuid) (x y : Queue)
          → IsCovered ids y
          → (All (In ids) seen → All (In ids) detailed → IsCovered ids x)
          → (b : Bool) → All (In ids) (if b then seen ++ detailed else [])
          → IsCovered ids (if b then x else cleared y)
      go seen detailed x y k f true a = let (b, c) = All-split (In ids) seen detailed a in f b c
      go seen detailed x y k f false a = record { calls = k.calls; waiting = k.waiting }

  pub step-IsCovered :
      (e : Event) (q : Queue)
      → All (In ids) (given_by e q)
      → IsCovered ids q
      → IsCovered ids (step e q)
  unfolding step given_by
  step-IsCovered (submits now id r) q a h = submit-IsCovered ids now id r q h
  step-IsCovered (takes now id) q a h = (take_status-Covered ids now id q h).0
  step-IsCovered (cancels now id) q a h = cancel-IsCovered ids now id q h
  step-IsCovered (frame now time input) q a h = show-IsCovered now time input q a h
  step-IsCovered takes_unlock q a h = take_unlock-IsCovered ids q h
  step-IsCovered (unlocks now failed) q a h = finish_unlock-IsCovered ids now failed q h
