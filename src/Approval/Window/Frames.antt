-- ===== src/Approval/Window/Frames.antt =====
-- A frame of the window changes the calls only by letting some lapse and by deciding some: what these
-- two keep, a frame keeps.
use codex_hosts.Prelude.{
  ℕ, Bool, true, false, not, ◌&&◌, Option, none, some, List, [], ◌∷◌, ltb, Text, any, map, if-case,
}
use codex_hosts.Model.{Uuid, is_some}
use codex_hosts.Approval.Queue.{
  Pending, Detail, Queue, is_busy, expire, active, wants_vault, settle,
}
use codex_hosts.Approval.Window.{
  Input, shown, is_armed, active_ids, noticed, is_gone, without_stale_detail, with_batch,
  reads_vault, decision, typed_in, answer, opened_detail, overview, detail_call, detail_decision,
  detail_frame, found_frame, detail_view, show_detail, has_pending, show,
}
use codex_hosts.Approval.Queue.Tidy.{current}
use codex_hosts.Approval.Queue.Kept.{
  expire-Kept, decide-Kept, allow-Kept, rearm-Kept, include_new-Kept, start_batch-Kept,
}

module _ (P : List Pending → Type 0)
    (lapses : (now : ℕ) (calls : List Pending) → P calls → P (current now calls))
    (settles : (ids : List Uuid) (b : Bool) (calls : List Pending)
      → P calls
      → P (map (settle ids b) calls)) where
  abbrev Keeps : Queue → Type 0
  Keeps q = P q.calls

  noticed-Keeps : (now : ℕ) (q : Queue) → Keeps q → Keeps (noticed now q)
  unfolding noticed
  noticed-Keeps now q h =
      let k = expire-Kept P lapses settles now q h in
      if-case Keeps (ltb 0 (expire now q).expired_notices) (λ _. k) (λ _. k)

  without_stale_detail-Keeps :
      (time : ℕ) (q : Queue) → Keeps q → Keeps (without_stale_detail time q)
  unfolding without_stale_detail
  without_stale_detail-Keeps time q h =
      let k = rearm-Kept P lapses settles time (record q { detail = none }) h in
      if-case Keeps (is_gone q q.detail) (λ _. k) (λ _. h)

  with_batch-Keeps : (time : ℕ) (q : Queue) → Keeps q → Keeps (with_batch time q)
  unfolding with_batch
  with_batch-Keeps time q h =
      if-case Keeps (any (active q) (shown q.batch)) (λ _. h)
        (λ _. start_batch-Kept P lapses settles time _ q h)

  typed_in-Keeps :
      (shows : Bool) (text : Text) (q : Queue) → Keeps q → Keeps (typed_in shows text q)
  typed_in-Keeps shows text q h = if-case Keeps (shows && not (is_busy q.unlock)) (λ _. h) (λ _. h)

  answer-Keeps :
      (now : ℕ) (ids : List Uuid) (d : Option Bool) (q : Queue)
      → Keeps q
      → Keeps (answer now ids d q)
  answer-Keeps now ids none q h = h
  answer-Keeps now ids (some true) q h = allow-Kept P lapses settles now ids q h
  answer-Keeps now ids (some false) q h = decide-Kept P lapses settles now ids false q h

  opened_detail-Keeps :
      (time : ℕ) (armed : Bool) (d : Option Detail) (q : Queue)
      → Keeps q
      → Keeps (opened_detail time armed d q)
  unfolding opened_detail
  opened_detail-Keeps time armed none q h = h
  opened_detail-Keeps time armed (some d) q h =
      if-case Keeps (armed && not (is_some q.detail))
        (λ _. rearm-Kept P lapses settles time (record q { detail = some d }) h) (λ _. h)

  overview-Keeps :
      (now time : ℕ) (input : Input) (q : Queue) → Keeps q → Keeps (overview now time input q)
  unfolding overview
  overview-Keeps now time input q h =
      let d = decision time input q in
      let k =
        answer-Keeps now (active_ids q) d _ (typed_in-Keeps (reads_vault q) input.typed q h) in
      if-case Keeps (is_some d) (λ _. rearm-Kept P lapses settles time _ k)
        (λ _.
          if-case Keeps (input.include && is_armed time q.batch)
            (λ _. include_new-Kept P lapses settles time _ k)
            (λ _. opened_detail-Keeps time (is_armed time q.batch) input.opened _ k))

  detail_frame-Keeps :
      (now time : ℕ) (input : Input) (d : Detail) (c : Pending) (q : Queue)
      → Keeps q
      → Keeps (detail_frame now time input d c q)
  unfolding detail_frame
  detail_frame-Keeps now time input d c q h =
      let q' = typed_in (wants_vault c.review) input.detail_typed q in
      let chosen = detail_decision time input c q in
      let k = typed_in-Keeps (wants_vault c.review) input.detail_typed q h in
      let answered = answer now (d.id ∷ []) chosen q' in
      let m = answer-Keeps now (d.id ∷ []) chosen q' k in
      if-case Keeps (is_some chosen)
        (λ _.
          rearm-Kept P lapses settles time _
            (if-case Keeps (is_busy answered.unlock) (λ _. m) (λ _. m)))
        (λ _.
          if-case Keeps input.back
            (λ _. rearm-Kept P lapses settles time (record q' { detail = none }) k) (λ _. k))

  detail_view-Keeps :
      (now time : ℕ) (input : Input) (d : Option Detail) (q : Queue)
      → Keeps q
      → Keeps (detail_view now time input d q)
  detail_view-Keeps now time input none q h = h
  detail_view-Keeps now time input (some d) q h = found (detail_call q d)
    where
      found : (c : Option Pending) → Keeps (found_frame now time input d c q)
      found none = h
      found (some c) = detail_frame-Keeps now time input d c q h

  pub show-Keeps :
      (now time : ℕ) (input : Input) (q : Queue) → Keeps q → Keeps (show now time input q)
  unfolding show show_detail
  show-Keeps now time input q h =
      let q' = without_stale_detail time (noticed now q) in
      let k = without_stale_detail-Keeps time (noticed now q) (noticed-Keeps now q h) in
      let looked = overview now time input (with_batch time q') in
      if-case Keeps (has_pending q')
        (λ _.
          detail_view-Keeps now time input looked.detail looked
            (overview-Keeps now time input _ (with_batch-Keeps time q' k)))
        (λ _. k)
