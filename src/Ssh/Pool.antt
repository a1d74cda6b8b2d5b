-- ===== src/Ssh/Pool.antt =====
-- src/ssh.rs, `SessionPool`: the sessions that calls share. An instant is a number of seconds; an
-- `Arc` is the number of its allocation. What the runtime knows of a session while the pool is
-- locked (its reference count, whether its connection is closed) is in `World`.
pub mod Room
pub mod Calls
pub mod Keys
pub mod Drained
pub mod Kept
pub mod Runs
pub mod Short
pub mod Within
pub mod Same
pub mod Batches
mod Tests
pub mod Oldest
use codex_hosts.Prelude.{
  ℕ, zero, suc, ◌+◌, ◌-◌, Bool, false, not, ◌&&◌, Option, none, some, List, [], ◌∷◌, ◌++◌,
  if◌then◌else◌, leb, ◌==◌, Text, codes, is_empty, length, find, keep, remove_first, Result, ok,
  err, count, map, ◌*◌,
}
use codex_hosts.Model.{Uuid, Retention, is_some}
use codex_hosts.Ssh.Key.{SessionKey, ◌=ᵏ◌}
use codex_hosts.Model.{idle}

-- of a session, what the pool reads
pub record PooledSession : Type 0 where
  pub serial : ℕ
  pub key : SessionKey
  pub parent : Option ℕ
  pub chain_ids : List Uuid

pub record PoolEntry : Type 0 where
  pub session : PooledSession
  pub last_used : ℕ
  pub retention : Option Retention

pub record PoolState : Type 0 where
  pub entries : List PoolEntry
  pub pending_connections : ℕ
  pub blocked_reconnects : List (Uuid × SessionKey)
  pub batch_connections : List (Uuid × SessionKey)

pub record World : Type 0 where
  pub now : ℕ
  pub strong_count : PooledSession → ℕ
  pub is_closed : PooledSession → Bool

-- `SessionPool::default()`
abbrev pub empty_pool : PoolState
empty_pool = record {
  entries = [];
  pending_connections = 0;
  blocked_reconnects = [];
  batch_connections = [];
}

abbrev pub default_retained_connections : ℕ
default_retained_connections = 16

abbrev pub max_retained_connections : ℕ
max_retained_connections = 32

abbrev pub connection_idle_timeout : ℕ
connection_idle_timeout = 5 * 60

-- `Arc::ptr_eq`
abbrev pub ptr_eq : PooledSession → PooledSession → Bool
ptr_eq a b = a.serial == b.serial

abbrev pub has_parent : PooledSession → PooledSession → Bool
has_parent p s = elim s.parent [ none ↦ false | some n ↦ n == p.serial ]

abbrev pub free_after : World → List PooledSession → PoolEntry → Bool
free_after w gone e = w.strong_count e.session == 1 + count (has_parent e.session) gone

abbrev pub idle_limit : Option Retention → Option ℕ
idle_limit none = some connection_idle_timeout
idle_limit (some Retention.session) = none
idle_limit (some (idle limit)) = some limit

abbrev pub idle_expired : World → PoolEntry → Bool
idle_expired w e = elim (idle_limit e.retention) [
  | none ↦ false
  | some limit ↦ leb limit (w.now - e.last_used)
]

abbrev pub has_key : SessionKey → PoolEntry → Bool
has_key k e = e.session.key =ᵏ k

-- `entries.remove`, one key after the other; what was there
abbrev pub add_taken :
    Option PoolEntry → List PooledSession × List PoolEntry → List PooledSession × List PoolEntry
add_taken none r = r
add_taken (some e) r = (e.session ∷ r.0, r.1)

abbrev pub take_keys : List SessionKey → List PoolEntry → List PooledSession × List PoolEntry
take_keys [] es = ([], es)
take_keys (k ∷ ks) es = add_taken (find (has_key k) es) (take_keys ks (remove_first (has_key k) es))

-- `PoolState::drain`: round after round until no entry is selected; each round takes an entry, so
-- that one round more than there are entries is enough
abbrev pub drain_rounds :
    ℕ
    → World
    → (PoolEntry → Bool)
    → List PooledSession
    → List PoolEntry
    → List PooledSession × List PoolEntry
drain_rounds zero w include gone es = (gone, es)
drain_rounds (suc n) w include gone es =
    let keys = map (λ e. e.session.key) (keep (λ e. include e && free_after w gone e) es) in
    let round = take_keys keys es in
    let rest = drain_rounds n w include (gone ++ round.0) round.1 in
    if is_empty keys then (gone, es) else rest

pub drain : World → (PoolEntry → Bool) → PoolState → List PooledSession × PoolState
drain w include s =
    let r = drain_rounds (suc (length s.entries)) w include [] s.entries in
    (r.0, record s { entries = r.1 })

-- `min_by_key(last_used)`: the first of the least recently used
abbrev pub older : PoolEntry → Option PoolEntry → Option PoolEntry
older e none = some e
older e (some o) = if leb e.last_used o.last_used then some e else some o

abbrev pub oldest : List PoolEntry → Option PoolEntry
oldest [] = none
oldest (e ∷ es) = older e (oldest es)

abbrev pub is_unretained : PoolEntry → Bool
is_unretained e = not (is_some e.retention)

abbrev pub is_evictable : World → List PooledSession → PoolEntry → Bool
is_evictable w gone e = is_unretained e && free_after w gone e

-- the loop of `begin_connection` that makes room
abbrev pub make_room :
    ℕ → World → ℕ → List PooledSession → List PoolEntry → List PooledSession × List PoolEntry
make_room zero w pending gone es = (gone, es)
make_room (suc n) w pending gone es =
    if leb default_retained_connections (length es + pending)
    then elim (oldest (keep (is_evictable w gone) es)) [
      | none ↦ (gone, es)
      | some o ↦
          let round = take_keys (o.session.key ∷ []) es in
          make_room n w pending (gone ++ round.0) round.1
    ]
    else (gone, es)

-- the sessions to disconnect, or the refusal; the pool in both cases
unfoldable pub begin_connection : World → PoolState → Result Text (List PooledSession) × PoolState
begin_connection w s =
    let expired = drain w (idle_expired w) s in
    let r =
      make_room (suc (length expired.1.entries)) w s.pending_connections expired.0
        expired.1.entries in
    if leb max_retained_connections (length r.1 + s.pending_connections)
    then (err (codes "SSH_CONNECTION_POOL_FULL"), record s { entries = r.1 })
    else (ok r.0, record s { entries = r.1; pending_connections = suc s.pending_connections })

-- the drop of a `ConnectionReservation`
unfoldable pub drop_reservation : PoolState → PoolState
drop_reservation s = record s { pending_connections = s.pending_connections - 1 }
