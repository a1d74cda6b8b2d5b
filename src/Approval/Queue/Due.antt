-- ===== src/Approval/Queue/Due.antt =====
-- A call that waits has its deadline, and is no longer waiting once that is over.
use codex_hosts.Prelude.{
  ℕ, ◌+◌, ◌≤◌, ◌≡◌, ◌≢◌, refl, sym, ◌∙◌, Bool, true, false, not, Option, none, some, List, [], ◌∷◌,
  any, find, arith, All, All-append, map, All-map, All-keep, find-All, All-weaken, if-case,
}
use codex_hosts.Model.{Uuid}
use codex_hosts.Approval.Queue.{
  Review, Status, pending, approved, expired, cancelled, Pending, Queue, lifetime, waits,
  is_pending, has_id, is_late, lapse, expire, room, submit, taken, take_status, is_open, settle,
}
use codex_hosts.Approval.Queue.Tidy.{current, lapse-id}
use codex_hosts.Approval.Queue.Each.{room-Each}

module _ (id : Uuid) (t : ℕ) where
  abbrev pub Due : Pending → Type 0
  Due c = c.id ≡ id → is_pending c ≡ true → c.expires ≤ t

  abbrev pub Over : Pending → Type 0
  Over c = c.id ≡ id → is_pending c ≡ false

  pub lapse-Due : (now : ℕ) (c : Pending) → Due c → Due (lapse now c)
  lapse-Due now c h = if-case Due (is_late now c) (λ _ e w. cc) (λ _. h)

  settle-Due : (ids : List Uuid) (b : Bool) (c : Pending) → Due c → Due (settle ids b c)
  settle-Due ids true c h = if-case Due (is_open ids c) (λ _ e w. cc) (λ _. h)
  settle-Due ids false c h = if-case Due (is_open ids c) (λ _ e w. cc) (λ _. h)

  pub settles-Due :
      (ids : List Uuid) (b : Bool) (calls : List Pending)
      → All Due calls
      → All Due (map (settle ids b) calls)
  settles-Due ids b calls h = All-map Due (settle ids b) calls (settle-Due ids b) h

  fresh-Due : (now : ℕ) (q : Queue) → any (has_id id) q.calls ≡ false → All Due (room now q).1.calls
  fresh-Due now q h =
      All-weaken (λ c. c.id ≢ id) Due (room now q).1.calls (λ c n e. absurd (n e))
        (room-Each (λ c. c.id ≢ id) (λ at c n e. n (sym (lapse-id at c) ∙ e)) now q
          (others q.calls h))
    where
      others : (calls : List Pending) → any (has_id id) calls ≡ false → All (λ c. c.id ≢ id) calls
      others [] h = tt
      others (c ∷ calls) h = ((λ e. ground arith), others calls (ground arith))

  pub submitted-Due :
      (now : ℕ) (r : Review) (q : Queue)
      → t ≡ now + lifetime
      → (submit now id r q).0 ≡ some pending
      → All Due (submit now id r q).1.calls
  unfolding submit
  submitted-Due now r q l =
      if-case (λ (a : Option Status × Queue). a.0 ≡ some pending → All Due a.1.calls)
        (any (has_id id) q.calls) (λ _ e. cc)
        (λ new.
          if-case (λ (a : Option Status × Queue). a.0 ≡ some pending → All Due a.1.calls)
            (not (room now q).0) (λ _ e. cc)
            (λ _ _.
              All-append Due (room now q).1.calls _ (fresh-Due now q new)
                ((λ _ _. omega (arith, l)), tt)))

  lapse-Over : (now : ℕ) (c : Pending) → t ≤ now → Due c → Over (lapse now c)
  lapse-Over now c l h =
      if-case Over (is_late now c) (λ _ e. refl)
        (λ early e. waits-not (is_pending c) refl early (h e))
    where
      waits-not :
          (w : Bool)
          → is_pending c ≡ w
          → is_late now c ≡ false
          → (is_pending c ≡ true → c.expires ≤ t)
          → is_pending c ≡ false
      waits-not false e _ _ = e
      waits-not true e early due = let d = due e in ground arith

  lapses-Over :
      (now : ℕ) (calls : List Pending) → t ≤ now → All Due calls → All Over (map (lapse now) calls)
  lapses-Over now [] l h = tt
  lapses-Over now (c ∷ calls) l (h, k) = (lapse-Over now c l h, lapses-Over now calls l k)

  taken-Over :
      (o : Option Pending) (q : Queue)
      → find (has_id id) q.calls ≡ o
      → All Over q.calls
      → (taken id o q).0 ≢ some pending
  taken-Over none q e h = λ f. cc
  taken-Over (some c) q e h =
      let (over, same) = find-All Over (has_id id) q.calls h e in
      let is : c.id ≡ id = ground arith in let w = over is in λ f. decided c.status w cc
    where
      decided : (s : Status) → waits s ≡ false → s ≢ pending
      decided pending w = cc
      decided approved w = λ f. cc
      decided expired w = λ f. cc
      decided cancelled w = λ f. cc

  pub take_status-Over :
      (now : ℕ) (q : Queue) → t ≤ now → All Due q.calls → (take_status now id q).0 ≢ some pending
  unfolding take_status expire
  take_status-Over now q l h =
      taken-Over (find (has_id id) (current now q.calls)) (expire now q) refl
        (All-keep Over _ (map (lapse now) q.calls) (lapses-Over now q.calls l h))
