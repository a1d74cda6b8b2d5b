-- ===== src/Approval/Window/Late.antt =====
-- Through one frame: before the buttons work, what is on the screen has been there.
use codex_hosts.Prelude.{
  ℕ, ◌+◌, ◌≤◌, ◌≡◌, refl, ◌∙◌, inl, inr, Bool, true, false, not, ◌&&◌, Option, none, some, List, [],
  ◌∷◌, if◌then◌else◌, ltb, Text, is_empty, any, arith, Bool-cases, Option-cases, All, max, if-case,
}
use codex_hosts.Model.{Uuid, is_some}
use codex_hosts.Approval.Queue.{
  Pending, Batch, Detail, Queue, arm, next_batch_arm, is_pending, is_busy, expire, pending_ids,
  start_batch, rearm, include_new, active, wants_vault,
}
use codex_hosts.Approval.Window.{
  Input, shown, is_armed, active_ids, noticed, is_gone, without_stale_detail, with_batch,
  reads_vault, decision, typed_in, answer, opened_detail, overview, detail_call, detail_decision,
  closed_unless_busy, detail_frame, found_frame, detail_view, show_detail, has_pending, show, Event,
}
use codex_hosts.Approval.Queue.Screens.{
  IsSameScreen, HasBatch, decide-same, allow-same, rearm-batch, rearm-none, include_new-rearm,
}
use codex_hosts.Approval.Window.Seen.{pause, view_ids, seen, ready, IsLate}

pub answer-same :
    (now : ℕ) (ids : List Uuid) (d : Option Bool) (q : Queue) → IsSameScreen q (answer now ids d q)
answer-same now ids none q = (refl, refl)
answer-same now ids (some true) q = allow-same now ids q
answer-same now ids (some false) q = decide-same now ids false q

pub typed_in-same : (b : Bool) (text : Text) (q : Queue) → IsSameScreen q (typed_in b text q)
typed_in-same b text q =
    if-case (IsSameScreen q) (b && not (is_busy q.unlock)) (λ _. (refl, refl)) (λ _. (refl, refl))

pending_ids-given :
    (calls : List Pending) → any is_pending calls ≡ true → is_empty (pending_ids calls) ≡ false
unfolding pending_ids
pending_ids-given [] h = cc
pending_ids-given (c ∷ calls) h = elim (Bool-cases (is_pending c)) [
  | inl e ↦ rw e refl
  | inr e ↦ let rest = pending_ids-given calls (ground arith) in rw e rest
]

shown-some :
    (p : Uuid → Bool) (o : Option Batch) → any p (shown o) ≡ true → (b : Batch) × (o ≡ some b)
shown-some p none h = cc
shown-some p (some b) h = (b, refl)

module _ (time : ℕ) (past : List Event) where
  abbrev pub Late : Queue → Type 0
  Late q = IsLate time past q.batch q.detail

  abbrev pub Ready : Queue → Type 0
  Ready q = Late q × HasBatch q

  same-Late : (q r : Queue) → IsSameScreen q r → Late q → Late r
  same-Late q r (b, d) h = rw (b, d) h

  same-Ready : (q r : Queue) → IsSameScreen q r → Ready q → Ready r
  same-Ready q r (b, d) (h, (batch, e)) = (same-Late q r (b, d) h, (batch, b ∙ e))

  rearm-Ready : (q : Queue) → HasBatch q → Ready (rearm time q)
  rearm-Ready q (b, e) =
      let f = rearm-batch time q b e in
      (inl (rw f (omega arith)), (record b { ready_at = max b.ready_at (time + arm) }, f))

  closed-Late : (q : Queue) → Late q → Late (record q { detail = none })
  closed-Late q (inl fresh) = inl fresh
  closed-Late q (inr (h, k)) = inr (h, tt)

  noticed-Late : (now : ℕ) (q : Queue) → Late q → Late (noticed now q)
  unfolding noticed expire
  noticed-Late now q h = if-case Late (ltb 0 (expire now q).expired_notices) (λ _. h) (λ _. h)

  without_stale_detail-Late : (q : Queue) → Late q → Late (without_stale_detail time q)
  unfolding without_stale_detail
  without_stale_detail-Late q h =
      if-case Late (is_gone q q.detail)
        (λ _. elim (Option-cases q.batch) [
          | inl e ↦
              same-Late (record q { detail = none }) (rearm time (record q { detail = none }))
                (rearm-none time (record q { detail = none }) e) (closed-Late q h)
          | inr (b, e) ↦ (rearm-Ready (record q { detail = none }) (b, e)).0
        ])
        (λ _. h)

  start_batch-Ready :
      (wait : ℕ) (q : Queue)
      → pause ≤ wait
      → any is_pending q.calls ≡ true
      → Ready (start_batch time wait q)
  unfolding start_batch
  start_batch-Ready wait q l h =
      let given = pending_ids-given q.calls h in rw given (inl (omega (arith, l)), (_, refl))

  with_batch-Ready : (q : Queue) → has_pending q ≡ true → Late q → Ready (with_batch time q)
  unfolding with_batch
  with_batch-Ready q p h =
      if-case Ready (any (active q) (shown q.batch)) (λ e. (h, shown-some (active q) q.batch e))
        (λ _.
          start_batch-Ready (if is_some q.batch then next_batch_arm else arm) q
            (if-case (λ n. pause ≤ n) (is_some q.batch) (λ _. omega arith) (λ _. omega arith)) p)

  include_new-Ready : (q : Queue) → HasBatch q → Ready (include_new time q)
  include_new-Ready q h =
      let (r, has, same) = include_new-rearm time q h in rw same (rearm-Ready r has)

  opened_detail-Ready :
      (armed : Bool) (d : Option Detail) (q : Queue)
      → Ready q
      → Ready (opened_detail time armed d q)
  unfolding opened_detail
  opened_detail-Ready armed none q h = h
  opened_detail-Ready armed (some d) q h =
      if-case Ready (armed && not (is_some q.detail))
        (λ _. rearm-Ready (record q { detail = some d }) h.1) (λ _. h)

  pub overview-Ready :
      (now : ℕ) (input : Input) (q : Queue) → Ready q → Ready (overview now time input q)
  unfolding overview
  overview-Ready now input q h =
      let d = decision time input q in
      let typed = typed_in (reads_vault q) input.typed q in
      let k =
        same-Ready typed (answer now (active_ids q) d typed)
          (answer-same now (active_ids q) d typed)
          (same-Ready q typed (typed_in-same (reads_vault q) input.typed q) h) in
      if-case Ready (is_some d) (λ _. rearm-Ready _ k.1)
        (λ _.
          if-case Ready (input.include && is_armed time q.batch) (λ _. include_new-Ready _ k.1)
            (λ _. opened_detail-Ready (is_armed time q.batch) input.opened _ k))

  detail_frame-Late :
      (now : ℕ) (input : Input) (d : Detail) (c : Pending) (q : Queue)
      → q.detail ≡ some d
      → Ready q
      → Late (detail_frame now time input d c q)
  unfolding detail_frame
  detail_frame-Late now input d c q e h =
      let typed = typed_in (wants_vault c.review) input.detail_typed q in
      let same = typed_in-same (wants_vault c.review) input.detail_typed q in
      let chosen = detail_decision time input c q in
      let k = same-Ready q typed same h in
      let answered = answer now (d.id ∷ []) chosen typed in
      let m = same-Ready typed answered (answer-same now (d.id ∷ []) chosen typed) k in
      if-case Late (is_some chosen)
        (λ _.
          (rearm-Ready (closed_unless_busy answered)
            (if-case HasBatch (is_busy answered.unlock) (λ _. m.1) (λ _. m.1))).0)
        (λ _.
          if-case Late input.back (λ _. (rearm-Ready (record typed { detail = none }) k.1).0)
            (λ _. looking typed (same.1 ∙ e) k.0))
    where
      looking :
          (q : Queue)
          → q.detail ≡ some d
          → Late q
          → Late (record q { detail = some (record d { focus = false }) })
      looking q f (inl fresh) = inl fresh
      looking q f (inr (h, k)) = inr (h, seen_details q.detail f k)
        where
          seen_details :
              (o : Option Detail)
              → o ≡ some d
              → All (λ i. seen (ready q.batch) i past ≡ true) (view_ids o)
              → All (λ i. seen (ready q.batch) i past ≡ true) (d.id ∷ [])
          seen_details none f k = cc
          seen_details (some x) f k = let same : x ≡ d = cc in rw (← same) k

  show_detail-Late :
      (now : ℕ) (input : Input) (q : Queue) → Ready q → Late (show_detail now time input q)
  unfolding show_detail
  show_detail-Late now input q h = viewed q.detail refl
    where
      found :
          (d : Detail) (c : Option Pending)
          → q.detail ≡ some d
          → Late (found_frame now time input d c q)
      found d none e = closed-Late q h.0
      found d (some c) e = detail_frame-Late now input d c q e h

      viewed : (o : Option Detail) → q.detail ≡ o → Late (detail_view now time input o q)
      viewed none e = h.0
      viewed (some d) e = found d (detail_call q d) e

  pub show-Late : (now : ℕ) (input : Input) (q : Queue) → Late q → Late (show now time input q)
  unfolding show
  show-Late now input q h =
      let q' = without_stale_detail time (noticed now q) in
      let k = without_stale_detail-Late (noticed now q) (noticed-Late now q h) in
      if-case Late (has_pending q')
        (λ p.
          show_detail-Late now input (overview now time input (with_batch time q'))
            (overview-Ready now input (with_batch time q') (with_batch-Ready q' p k)))
        (λ _. inr (tt, tt))

  -- what is drawn in the frame
  pub drawn-Ready :
      (now : ℕ) (q : Queue)
      → Late q
      → has_pending (without_stale_detail time (noticed now q)) ≡ true
      → Ready (with_batch time (without_stale_detail time (noticed now q)))
  drawn-Ready now q h p =
      with_batch-Ready (without_stale_detail time (noticed now q)) p
        (without_stale_detail-Late (noticed now q) (noticed-Late now q h))
