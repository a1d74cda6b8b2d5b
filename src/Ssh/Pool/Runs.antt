-- ===== src/Ssh/Pool/Runs.antt =====
-- The calls that share the pool, step by step, in any order.
use codex_hosts.Prelude.{ℕ, suc, ◌≡◌, Option, none, some, List, Text, Result, ok, err}
use codex_hosts.Model.{Uuid, Retention}
use codex_hosts.Ssh.Key.{SessionKey}
use codex_hosts.Ssh.Pool.{
  PooledSession, PoolState, World, empty_pool, begin_connection, drop_reservation,
}
use codex_hosts.Ssh.Pool.Calls.{
  ready, finish_connection, forget, touch, block_reconnect, record_batch_connection,
  finish_batch_scope, evict, release, invalidate_host, take_unretained, idle_sessions,
}

-- the pool, with the reservations whose session is not in it yet, and those whose session is
pub record Traffic : Type 0 where
  pub pool : PoolState
  pub connecting : ℕ
  pub connected : ℕ

abbrev pub admit : Result Text (List PooledSession) × PoolState → Traffic → Traffic
admit (ok _, s) t = record t { pool = s; connecting = suc t.connecting }
admit (err _, s) t = record t { pool = s }

-- One operation under the lock of the pool; the index is the batch that it ends.
pub data Step : Option Uuid → Traffic → Traffic → Type 0 where
  find_ready :
      (t : Traffic) (w : World) (key : SessionKey) (scope : Option Uuid) (policy : Option Retention)
      → Step none t (record t { pool = (ready w key scope policy t.pool).1 })
  begin : (t : Traffic) (w : World) → Step none t (admit (begin_connection w t.pool) t)
  -- the connection failed, or the call was cancelled
  give_up :
      (t : Traffic) (n : ℕ)
      → t.connecting ≡ suc n
      → Step none t (record t { pool = drop_reservation t.pool; connecting = n })
  connect :
      (t : Traffic) (w : World) (policy : Option Retention) (session : PooledSession) (n : ℕ)
      → t.connecting ≡ suc n
      → Step none t (record {
        pool = finish_connection w policy (ok session) t.pool;
        connecting = n;
        connected = suc t.connected;
      })
  settle :
      (t : Traffic) (n : ℕ)
      → t.connected ≡ suc n
      → Step none t (record t { pool = drop_reservation t.pool; connected = n })
  lose : (t : Traffic) (x : PooledSession) → Step none t (record t { pool = forget x t.pool })
  let_go :
      (t : Traffic) (w : World) (xs : List PooledSession)
      → Step none t (record t { pool = touch w xs t.pool })
  block :
      (t : Traffic) (scope : Option Uuid) (key : SessionKey)
      → Step none t (record t { pool = block_reconnect scope key t.pool })
  note :
      (t : Traffic) (scope : Option Uuid) (key : SessionKey)
      → Step none t (record t { pool = record_batch_connection scope key t.pool })
  finish_scope :
      (t : Traffic) (scope : Uuid)
      → Step (some scope) t (record t { pool = (finish_batch_scope scope t.pool).1 })
  end_call :
      (t : Traffic) (xs : List PooledSession)
      → Step none t (record t { pool = (evict xs t.pool).1 })
  disconnect :
      (t : Traffic) (w : World) (host : Option Uuid)
      → Step none t (record t { pool = (release w host t.pool).2 })
  invalidate :
      (t : Traffic) (host : Uuid)
      → Step none t (record t { pool = (invalidate_host host t.pool).1 })
  release_unused :
      (t : Traffic) (w : World) → Step none t (record t { pool = (take_unretained w t.pool).1 })
  reap : (t : Traffic) (w : World) → Step none t (record t { pool = (idle_sessions w t.pool).1 })

abbrev pub quiet : Traffic
quiet = record { pool = empty_pool; connecting = 0; connected = 0 }

pub data Reached : Traffic → Type 0 where
  start : Reached quiet
  after : {e : Option Uuid} {t u : Traffic} → Reached t → Step e t u → Reached u
