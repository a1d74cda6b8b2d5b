-- ===== src/Approval/Queue.antt =====
-- src/approval.rs, `Queue`: the calls that wait for a decision. An instant is a number of
-- milliseconds and is an argument; of a feedback text its numbers are kept.
pub mod Consent
pub mod Tidy
pub mod Bounds
pub mod Kept
pub mod Once
pub mod Each
pub mod Revoked
pub mod Due
pub mod Deciding
pub mod Screens
use codex_hosts.Prelude.{
  ℕ, ◌+◌, ◌-◌, Bool, true, false, not, ◌&&◌, Option, none, some, List, [], ◌∷◌, ◌++◌, if◌then◌else◌,
  ltb, leb, ◌==◌, Text, is_empty, length, any, find, keep, remove_first, update_first, count, map,
  max, ◌*◌, ◌%◌, ◌^◌,
}
use codex_hosts.Model.{contains_id, Uuid, Protocol}

pub record ReviewHost : Type 0 where
  pub alias : Text
  pub address : Text
  pub port : ℕ
  pub username : Text
  pub requires_approval : Bool
  pub protocol : Protocol
  pub is_target : Bool
  pub is_jump : Bool

pub record Review : Type 0 where
  pub hosts : List ReviewHost
  pub commands : List Text
  pub stdin : Option Text
  pub sudo_user : Option Text
  pub unlock_vault : Bool
  pub uses_bitwarden : Bool

pub data Status : Type 0 where
  pending approved expired cancelled : Status

pub record Pending : Type 0 where
  pub id : Uuid
  pub review : Option Review
  pub status : Status
  pub expires : ℕ

pub record Batch : Type 0 where
  pub ids : List Uuid
  pub serial : ℕ
  pub ready_at : ℕ

pub record Detail : Type 0 where
  pub id : Uuid
  pub command : Option ℕ
  pub focus : Bool

pub data Unlock : Type 0 where
  idle : Unlock
  requested : List Uuid → Text → Unlock
  running : List Uuid → Unlock

-- decided calls and skipped ones, lapsed calls, a detail that is gone
pub data Feedback : Type 0 where
  silent detail_invalid : Feedback
  decided : ℕ → Bool → ℕ → Feedback
  lapsed : ℕ → Feedback

pub record Queue : Type 0 where
  pub calls : List Pending
  pub batch : Option Batch
  pub serial : ℕ
  pub detail : Option Detail
  pub feedback : Feedback
  pub expired_notices : ℕ
  pub master_password : Text
  pub unlock : Unlock
  pub unlock_error : Option Text

-- `Queue::default()`
abbrev pub empty : Queue
empty = record {
  calls = [];
  batch = none;
  serial = 0;
  detail = none;
  feedback = silent;
  expired_notices = 0;
  master_password = [];
  unlock = idle;
  unlock_error = none;
}

abbrev pub lifetime : ℕ
lifetime = 300 * 1000

abbrev pub max_reviews : ℕ
max_reviews = 16

-- how long a decided call is kept behind its deadline
abbrev pub grace : ℕ
grace = 30 * 1000

abbrev pub arm : ℕ
arm = 250

abbrev pub next_batch_arm : ℕ
next_batch_arm = 600

abbrev pub waits : Status → Bool
waits pending = true
waits _ = false

abbrev pub is_pending : Pending → Bool
is_pending c = waits c.status

abbrev pub is_busy : Unlock → Bool
is_busy idle = false
is_busy _ = true

abbrev pub has_id : Uuid → Pending → Bool
has_id id c = c.id == id

abbrev pub is_late : ℕ → Pending → Bool
is_late now c = is_pending c && leb c.expires now

abbrev pub lapse : ℕ → Pending → Pending
lapse now c = if is_late now c then record c { status = expired } else c

unfoldable pub expire : ℕ → Queue → Queue
expire now q = record q {
  calls = keep (λ c. ltb now (c.expires + grace)) (map (lapse now) q.calls);
  expired_notices = q.expired_notices + count (is_late now) q.calls;
}

-- what the full queue gives up: its first decided call
unfoldable pub room : ℕ → Queue → Bool × Queue
room now q =
    let q' = expire now q in
    if ltb (length q'.calls) max_reviews
    then (true, q')
    else if any (λ c. not (is_pending c)) q'.calls
    then (true, record q' { calls = remove_first (λ c. not (is_pending c)) q'.calls })
    else (false, q')

abbrev pub pushed : Pending → Queue → Queue
pushed c q = record q { calls = q.calls ++ c ∷ [] }

abbrev pub call : ℕ → Uuid → Option Review → Status → Pending
call now id review status = record {
  id = id;
  review = review;
  status = status;
  expires = now + lifetime;
}

-- An answer: a status, or none for "unavailable".
unfoldable pub submit : ℕ → Uuid → Review → Queue → Option Status × Queue
submit now id review q =
    let (fits, q') = room now q in
    if any (has_id id) q.calls
    then (none, q)
    else if not fits
    then (none, q')
    else (some pending, pushed (call now id (some review) pending) q')

-- what is answered for the call that is found; a decision is handed over once
abbrev pub taken : Uuid → Option Pending → Queue → Option Status × Queue
taken id none q = (none, q)
taken id (some c) q = (
  some c.status,
  if is_pending c then q else record q { calls = remove_first (has_id id) q.calls },
)

unfoldable pub take_status : ℕ → Uuid → Queue → Option Status × Queue
take_status now id q = let q' = expire now q in taken id (find (has_id id) q'.calls) q'

pub cancel : ℕ → Uuid → Queue → Queue
cancel now id q =
    let (fits, q') = room now q in
    if any (has_id id) q.calls
    then record q {
      calls = update_first (has_id id) (λ (c : Pending). record c { status = cancelled }) q.calls;
    }
    else if fits
    then pushed (call now id none cancelled) q'
    else q'

unfoldable pub pending_ids : List Pending → List Uuid
pending_ids calls = map (λ (c : Pending). c.id) (keep is_pending calls)

unfoldable pub start_batch : ℕ → ℕ → Queue → Queue
start_batch now pause q =
    let ids = pending_ids q.calls in
    let serial = (q.serial + 1) % 2 ^ 64 in
    if is_empty ids then record q { batch = none } else record q {
      serial = serial;
      batch = some (record { ids = ids; serial = serial; ready_at = now + pause });
    }

abbrev pub add_ids : List Uuid → List Uuid → List Uuid
add_ids ids [] = ids
add_ids ids (i ∷ more) = add_ids (if contains_id i ids then ids else ids ++ i ∷ []) more

unfoldable pub rearm : ℕ → Queue → Queue
rearm now q = elim q.batch [
  | none ↦ q
  | some b ↦ record q { batch = some (record b { ready_at = max b.ready_at (now + arm) }) }
]

pub include_new : ℕ → Queue → Queue
include_new now q = elim q.batch [
  | none ↦ q
  | some b ↦
      rearm now (record q { batch = some (record b { ids = add_ids b.ids (pending_ids q.calls) }) })
]

unfoldable pub active : Queue → Uuid → Bool
active q id = any (λ c. has_id id c && is_pending c) q.calls

abbrev pub wants_vault : Option Review → Bool
wants_vault none = false
wants_vault (some r) = r.unlock_vault

-- the calls among `ids` that still wait
abbrev pub is_open : List Uuid → Pending → Bool
is_open ids c = contains_id c.id ids && is_pending c

unfoldable pub needs_unlock : List Uuid → Queue → Bool
needs_unlock ids q = any (λ c. is_open ids c && wants_vault c.review) q.calls

abbrev pub verdict : Bool → Status
verdict true = approved
verdict false = cancelled

abbrev pub settle : List Uuid → Bool → Pending → Pending
settle ids allowed c = if is_open ids c then record c { status = verdict allowed } else c

unfoldable pub decide : ℕ → List Uuid → Bool → Queue → Queue
decide now ids allowed q =
    let q' = expire now q in
    let n = count (is_open ids) q'.calls in
    record q' {
      calls = map (settle ids allowed) q'.calls;
      feedback = decided n allowed (length ids - n);
    }

unfoldable pub allow : ℕ → List Uuid → Queue → Queue
allow now ids q =
    if not (needs_unlock ids q)
    then decide now ids true q
    else if not (is_busy q.unlock) && not (is_empty q.master_password)
    then record q {
      unlock_error = none;
      unlock = requested ids q.master_password;
      master_password = [];
    }
    else q

abbrev pub handed_over : Unlock → Queue → Option Text × Queue
handed_over (requested ids password) q = (some password, record q { unlock = running ids })
handed_over _ q = (none, q)

pub take_unlock : Queue → Option Text × Queue
take_unlock q = handed_over q.unlock q

abbrev pub is_within : List Uuid → Option Detail → Bool
is_within ids none = false
is_within ids (some d) = contains_id d.id ids

abbrev pub without_detail : List Uuid → Queue → Queue
without_detail ids q = if is_within ids q.detail then record q { detail = none } else q

-- The unlock's result: nothing, or the reason why it failed.
abbrev pub finished : ℕ → Option Text → Unlock → Queue → Queue
finished now none (running ids) q =
    let q' = without_detail ids q in if any (active q') ids then decide now ids true q' else q'
finished now (some reason) (running ids) q = record q { unlock_error = some reason }
finished now failed _ q = q

pub finish_unlock : ℕ → Option Text → Queue → Queue
finish_unlock now failed q = finished now failed q.unlock (record q { unlock = idle })
