-- ===== src/Approval/Window/Seen.antt =====
-- What the user has been shown and has said, read off the events and the queue between them, with none
-- of the window's own tests.
use codex_hosts.Prelude.{
  ℕ, ◌+◌, ◌≤◌, ◌≡◌, inl, inr, ◌⊎◌, Bool, true, false, ◌&&◌, ◌||◌, Option, none, some, List, [], ◌∷◌,
  leb, ◌==◌, arith, Bool-cases, All, All-weaken,
}
use codex_hosts.Model.{contains_id, Uuid}
use codex_hosts.Approval.Queue.{Batch, Detail, Queue}
use codex_hosts.Approval.Window.{
  Input, shown, Event, submits, takes, cancels, frame, takes_unlock, unlocks, run,
}

-- a quarter of a second
abbrev pub pause : ℕ
pause = 250

abbrev pub view_ids : Option Detail → List Uuid
view_ids none = []
view_ids (some d) = d.id ∷ []

-- a call is on the screen: in the list that is shown, or in the view of its details
abbrev pub on_screen : Uuid → Option Batch → Option Detail → Bool
on_screen id batch detail = contains_id id (shown batch) || contains_id id (view_ids detail)

-- the call has been on the screen since a frame that was drawn `pause` before `limit`
abbrev pub is_drawn : ℕ → Uuid → Event → Queue → Bool
is_drawn limit id (frame now time input) q =
    leb (time + pause) limit && on_screen id q.batch q.detail
is_drawn limit id _ q = false

unfoldable pub seen : ℕ → Uuid → List Event → Bool
seen limit id [] = false
seen limit id (e ∷ past) = is_drawn limit id e (run (e ∷ past)) || seen limit id past

abbrev pub is_yes : Option Bool → Bool
is_yes none = false
is_yes (some b) = b

-- a button to allow, or Enter in a password row
abbrev pub says_yes : Input → Bool
says_yes input =
    is_yes input.pressed || input.submitted || is_yes input.detail_pressed || input.detail_submitted

-- the user allows in this frame what an earlier one has shown long enough
abbrev pub is_allowed : Uuid → Event → List Event → Bool
is_allowed id (frame now time input) past = says_yes input && seen time id past
is_allowed id _ past = false

unfoldable pub allowed_by_user : Uuid → List Event → Bool
allowed_by_user id [] = false
allowed_by_user id (e ∷ past) = is_allowed id e past || allowed_by_user id past

seen_mono :
    (k l : ℕ) (id : Uuid) (past : List Event)
    → k ≤ l
    → seen k id past ≡ true
    → seen l id past ≡ true
unfolding seen
seen_mono k l id [] h s = cc
seen_mono k l id (e ∷ past) h s = elim (Bool-cases (seen k id past)) [
  | inl f ↦ let rest = seen_mono k l id past h f in ground arith
  | inr f ↦
      let drawn : is_drawn k id e (run (e ∷ past)) ≡ true = ground arith in
      let still = later e (run (e ∷ past)) drawn in ground arith
]
  where
    later : (e : Event) (q : Queue) → is_drawn k id e q ≡ true → is_drawn l id e q ≡ true
    later (frame now time input) q d = ground arith
    later (submits _ _ _) q d = cc
    later (takes _ _) q d = cc
    later (cancels _ _) q d = cc
    later takes_unlock q d = cc
    later (unlocks _ _) q d = cc

abbrev pub ready : Option Batch → ℕ
ready none = 0
ready (some b) = b.ready_at

-- Before the buttons work, what is on the screen has been there.
abbrev pub IsOld : List Event → Option Batch → Option Detail → Type 0
IsOld past batch detail =
    All (λ i. seen (ready batch) i past ≡ true) (shown batch)
    × All (λ i. seen (ready batch) i past ≡ true) (view_ids detail)

-- Within a frame: the buttons wait again, or what is on the screen is old.
abbrev pub IsLate : ℕ → List Event → Option Batch → Option Detail → Type 0
IsLate time past batch detail = (time + pause ≤ ready batch) ⊎ IsOld past batch detail

contains_self : (ids : List Uuid) → All (λ i. contains_id i ids ≡ true) ids
contains_self [] = tt
contains_self (i ∷ ids) = (
  ground arith,
  All-weaken (λ j. contains_id j ids ≡ true) (λ j. contains_id j (i ∷ ids) ≡ true) ids
      (λ j h. ground arith) (contains_self ids),
)

-- after the frame
pub IsLate-IsOld :
    (now time : ℕ) (input : Input) (past : List Event)
    → IsLate time past
        (run (frame now time input ∷ past)).batch
        (run (frame now time input ∷ past)).detail
    → IsOld
        (frame now time input ∷ past)
        (run (frame now time input ∷ past)).batch
        (run (frame now time input ∷ past)).detail
unfolding seen
IsLate-IsOld now time input past (inl fresh) =
    let q = run (frame now time input ∷ past) in
    (
      All-weaken (λ i. contains_id i (shown q.batch) ≡ true)
          (λ i. seen (ready q.batch) i (frame now time input ∷ past) ≡ true) (shown q.batch)
          (λ i h. ground arith) (contains_self (shown q.batch)),
      All-weaken (λ i. contains_id i (view_ids q.detail) ≡ true)
          (λ i. seen (ready q.batch) i (frame now time input ∷ past) ≡ true) (view_ids q.detail)
          (λ i h. ground arith) (contains_self (view_ids q.detail)),
    )
IsLate-IsOld now time input past (inr (h, k)) =
    let q = run (frame now time input ∷ past) in
    (
      All-weaken (λ i. seen (ready q.batch) i past ≡ true)
          (λ i. seen (ready q.batch) i (frame now time input ∷ past) ≡ true) (shown q.batch)
          (λ i h. ground arith) h,
      All-weaken (λ i. seen (ready q.batch) i past ≡ true)
          (λ i. seen (ready q.batch) i (frame now time input ∷ past) ≡ true) (view_ids q.detail)
          (λ i h. ground arith) k,
    )

All-contains :
    (P : Uuid → Type 0) (id : Uuid) (ids : List Uuid) → All P ids → contains_id id ids ≡ true → P id
All-contains P id [] h c = cc
All-contains P id (i ∷ ids) (p, h) c = elim (Bool-cases (i == id)) [
  | inl e ↦ let same : i ≡ id = ground arith in rw (← same) p
  | inr e ↦ All-contains P id ids h (ground arith)
]

-- what is armed has been seen
pub armed-seen :
    (time : ℕ) (past : List Event) (b : Batch) (detail : Option Detail) (id : Uuid)
    → IsLate time past (some b) detail
    → b.ready_at ≤ time
    → on_screen id (some b) detail ≡ true
    → seen time id past ≡ true
armed-seen time past b detail id (inl fresh) l o = absurd (omega arith)
armed-seen time past b detail id (inr (h, k)) l o = elim (Bool-cases (contains_id id b.ids)) [
  | inl e ↦
      seen_mono b.ready_at time id past l
        (All-contains (λ i. seen b.ready_at i past ≡ true) id b.ids h e)
  | inr e ↦
      seen_mono b.ready_at time id past l
        (All-contains (λ i. seen b.ready_at i past ≡ true) id (view_ids detail) k (ground arith))
]
