-- ===== src/Ssh/Lease.antt =====
-- src/ssh.rs, `ChainLease`, `connect_chain` and `pooled_connection`: the hops that a call holds.
pub mod Ended
pub mod Settled
pub mod Earned
mod Tests
use codex_hosts.Prelude.{
  Bool, not, Option, none, some, List, [], ◌∷◌, ◌++◌, if◌then◌else◌, ◌=ᵗ◌, Text, codes, keep,
  Result, ok, err, map,
}
use codex_hosts.Model.Keeping.{chain_retention}
use codex_hosts.Model.{Uuid, Retention, HostProfile, is_some}
use codex_hosts.Ssh.Key.{SessionKey}
use codex_hosts.Ssh.Pool.{PooledSession, PoolState, World, begin_connection, drop_reservation}
use codex_hosts.Ssh.Pool.Calls.{
  ready, finish_connection, forget, touch, block_reconnect, record_batch_connection, evict,
}

pub record ChainLease : Type 0 where
  pub hops : List (PooledSession × Option Retention)
  pub batch_scope : Option Uuid

abbrev pub unretained_hops : ChainLease → List PooledSession
unretained_hops lease = map (λ h. h.0) (keep (λ h. not (is_some h.1)) lease.hops)

-- the drop of the lease, and the sessions that it disconnects
pub drop_lease : World → ChainLease → PoolState → List PooledSession × PoolState
drop_lease w lease s =
    let touched = touch w (map (λ h. h.0) lease.hops) s in
    if is_some lease.batch_scope then ([], touched) else evict (unretained_hops lease) touched

-- the retention that each hop earns: that of the chain up to it
abbrev pub hop_retentions : Bool → List HostProfile → List HostProfile → List (Option Retention)
hop_retentions retain before [] = []
hop_retentions retain before (h ∷ hs) =
    let chain = before ++ h ∷ [] in
    (if retain then chain_retention chain else none) ∷ hop_retentions retain chain hs

pub connect_retentions : Bool → List HostProfile → List (Option Retention)
connect_retentions retain chain = hop_retentions retain [] chain

-- what a call sees of the world at each of the times that it locks the pool
pub record Visit : Type 0 where
  pub first : World
  pub second : World
  pub third : World
  pub last : World

abbrev pub block_parent : Text → Option Uuid → Option PooledSession → PoolState → PoolState
block_parent code scope none s = s
block_parent code scope (some parent) s =
    if code =ᵗ codes "JUMP_CHANNEL_FAILED"
    then block_reconnect scope parent.key (forget parent s)
    else s

-- what follows the connection, up to the drop of the reservation
pub finished :
    World
    → SessionKey
    → Option PooledSession
    → Option Uuid
    → Option Retention
    → Result Text PooledSession
    → PoolState
    → PoolState
finished w key parent scope policy (err code) s =
    drop_reservation (block_parent code scope parent (block_reconnect scope key s))
finished w key parent scope policy (ok session) s =
    drop_reservation
      (record_batch_connection scope session.key (finish_connection w policy (ok session) s))

abbrev pub open_connection :
    World
    → SessionKey
    → Option PooledSession
    → Option Uuid
    → Option Retention
    → Result Text PooledSession
    → Result Text (List PooledSession) × PoolState
    → Result Text PooledSession × PoolState
open_connection w key parent scope policy connected (err code, s) = (err code, s)
open_connection w key parent scope policy connected (ok _, s) =
    (connected, finished w key parent scope policy connected s)

abbrev pub unless_ready :
    Result Text (Option PooledSession) × PoolState
    → (PoolState → Result Text PooledSession × PoolState)
    → Result Text PooledSession × PoolState
unless_ready (err code, s) next = (err code, s)
unless_ready (ok (some session), s) next = (ok session, s)
unless_ready (ok none, s) next = next s

-- `pooled_connection` from the key on, where no other call comes between; what `connect_one` gives
-- is an argument
pub pooled_connection :
    Visit
    → SessionKey
    → Option PooledSession
    → Option Uuid
    → Option Retention
    → Result Text PooledSession
    → PoolState
    → Result Text PooledSession × PoolState
pooled_connection v key parent scope policy connected s =
    unless_ready (ready v.first key scope policy s) λ s'.
      unless_ready (ready v.second key scope policy s') λ s''.
        open_connection v.last key parent scope policy connected (begin_connection v.third s'')
