-- ===== src/Ssh/Pool/Within.antt =====
-- The pool never holds more sessions than it has slots.
use codex_hosts.Prelude.{
  suc, ◌+◌, ◌≤◌, ◌≡◌, refl, Bool, Option, none, some, List, leb, Text, length, Result, ok, err,
  arith, if-case,
}
use codex_hosts.Model.{Uuid, Retention}
use codex_hosts.Ssh.Key.{SessionKey}
use codex_hosts.Ssh.Pool.{
  PooledSession, PoolEntry, PoolState, World, max_retained_connections, idle_expired, drain,
  is_unretained, make_room, begin_connection, drop_reservation,
}
use codex_hosts.Ssh.Pool.Calls.{
  in_scope, pooled, ready_entry, ready, finish_connection, forget, touch, block_reconnect,
  record_batch_connection, scope_keys, host_keys, finish_batch_scope, evict, involves, release,
  invalidate_host, take_unretained, idle_sessions,
}
use codex_hosts.Ssh.Pool.Keys.{HasDistinctKeys}
use codex_hosts.Ssh.Pool.Kept.{
  take_keys-Outlives, drain-Outlives, begin_connection-Outlives, release_keys-Outlives,
  forget-Outlives, evict-Outlives,
}
use codex_hosts.Ssh.Pool.Same.{touch-same, forget-same, evict-same, drain-same}
use codex_hosts.Ssh.Pool.Runs.{
  Traffic, admit, Step, Reached, start, after, find_ready, begin, give_up, connect, settle, lose,
  let_go, block, note, finish_scope, end_call, disconnect, invalidate, release_unused, reap,
}
use codex_hosts.Ssh.Pool.Short.{
  IsShort, IsShort-Outlives, ready-IsShort, touch-IsShort, release-IsShort, connect-IsShort,
}

-- Keys are distinct, each reservation is counted, and with the sessions that are being opened no
-- more than 32 sessions are in the pool.
pub record IsWithin (t : Traffic) : Type 0 where
  pub distinct : HasDistinctKeys t.pool.entries
  pub counted : t.pool.pending_connections ≡ t.connecting + t.connected
  pub few : length t.pool.entries + t.connecting ≤ max_retained_connections

admit-IsWithin :
    (t : Traffic) (r : Result Text (List PooledSession) × PoolState)
    → ((gone : List PooledSession)
        → r.0 ≡ ok gone
        → (r.1.pending_connections ≡ suc t.pool.pending_connections)
          × (length r.1.entries + r.1.pending_connections ≤ max_retained_connections))
    → ((code : Text) → r.0 ≡ err code → r.1.pending_connections ≡ t.pool.pending_connections)
    → IsShort (length t.pool.entries) r.1.entries
    → IsWithin t
    → IsWithin (admit r t)
admit-IsWithin t (ok gone, s) f g (d, l) h =
    let (a, b) = f gone refl in
    record {
      distinct = d;
      counted = omega (arith, a, h.counted);
      few = omega (arith, a, b, h.counted);
    }
admit-IsWithin t (err code, s) f g (d, l) h =
    let a = g code refl in
    record { distinct = d; counted = omega (arith, a, h.counted); few = omega (arith, h.few, l) }

begin-admits :
    (w : World) (s : PoolState) (gone : List PooledSession)
    → (begin_connection w s).0 ≡ ok gone
    → ((begin_connection w s).1.pending_connections ≡ suc s.pending_connections)
      × (length (begin_connection w s).1.entries + (begin_connection w s).1.pending_connections
          ≤ max_retained_connections)
unfolding begin_connection
begin-admits w s gone =
    let expired = drain w (idle_expired w) s in
    let r =
      make_room (suc (length expired.1.entries)) w s.pending_connections expired.0
        expired.1.entries in
    if-case
      (λ (a : Result Text (List PooledSession) × PoolState).
        a.0 ≡ ok gone
        → (a.1.pending_connections ≡ suc s.pending_connections)
          × (length a.1.entries + a.1.pending_connections ≤ max_retained_connections))
      (leb max_retained_connections (length r.1 + s.pending_connections)) (λ _ f. cc)
      (λ few f. (refl, ground arith))

begin-refuses :
    (w : World) (s : PoolState) (code : Text)
    → (begin_connection w s).0 ≡ err code
    → (begin_connection w s).1.pending_connections ≡ s.pending_connections
unfolding begin_connection
begin-refuses w s code =
    let expired = drain w (idle_expired w) s in
    let r =
      make_room (suc (length expired.1.entries)) w s.pending_connections expired.0
        expired.1.entries in
    if-case
      (λ (a : Result Text (List PooledSession) × PoolState).
        a.0 ≡ err code → a.1.pending_connections ≡ s.pending_connections)
      (leb max_retained_connections (length r.1 + s.pending_connections)) (λ _ f. refl)
      (λ few f. cc)

shrunk-IsWithin :
    (t : Traffic) (s : PoolState)
    → IsShort (length t.pool.entries) s.entries
    → s.pending_connections ≡ t.pool.pending_connections
    → IsWithin t
    → IsWithin (record t { pool = s })
shrunk-IsWithin t s (d, l) e h = record {
  distinct = d;
  counted = omega (arith, e, h.counted);
  few = omega (arith, h.few, l);
}

IsShort-now : (t : Traffic) → IsWithin t → IsShort (length t.pool.entries) t.pool.entries
IsShort-now t h = (h.distinct, omega arith)

ready-pending :
    (w : World) (key : SessionKey) (scope : Option Uuid) (policy : Option Retention) (s : PoolState)
    → (ready w key scope policy s).1.pending_connections ≡ s.pending_connections
unfolding ready
ready-pending w key scope policy s =
    if-case
      (λ (a : Result Text (Option PooledSession) × PoolState).
        a.1.pending_connections ≡ s.pending_connections)
      (in_scope scope key s.blocked_reconnects) (λ _. refl) (λ _. entry (pooled key s))
  where
    entry :
        (m : Option PoolEntry)
        → (ready_entry w key scope policy m s).1.pending_connections ≡ s.pending_connections
    entry none = refl
    entry (some e) =
        if-case
          (λ (a : Result Text (Option PooledSession) × PoolState).
            a.1.pending_connections ≡ s.pending_connections)
          (w.is_closed e.session)
          (λ _.
            if-case
              (λ (a : Result Text (Option PooledSession) × PoolState).
                a.1.pending_connections ≡ s.pending_connections)
              (in_scope scope key s.batch_connections) (λ _. refl) (λ _. refl))
          (λ _. refl)

-- the entries of a sweep
drained :
    (w : World) (include : PoolEntry → Bool) (t : Traffic)
    → IsWithin t
    → IsWithin (record t { pool = (drain w include t.pool).1 })
drained w include t h =
    let n = length t.pool.entries in
    shrunk-IsWithin t (drain w include t.pool).1
      (drain-Outlives (IsShort n) (IsShort-Outlives n) w include t.pool (IsShort-now t h))
      (drain-same (λ s. s.pending_connections) (λ s es. refl) w include t.pool) h

Step-IsWithin : {e : Option Uuid} {t u : Traffic} → Step e t u → IsWithin t → IsWithin u
unfolding drop_reservation finish_connection block_reconnect record_batch_connection
    finish_batch_scope release invalidate_host take_unretained idle_sessions
Step-IsWithin (find_ready t w key scope policy) h =
    shrunk-IsWithin t (ready w key scope policy t.pool).1
      (ready-IsShort (length t.pool.entries) w key scope policy t.pool (IsShort-now t h))
      (ready-pending w key scope policy t.pool) h
Step-IsWithin (begin t w) h =
    let n = length t.pool.entries in
    admit-IsWithin t (begin_connection w t.pool) (begin-admits w t.pool) (begin-refuses w t.pool)
      (begin_connection-Outlives (IsShort n) (IsShort-Outlives n) w t.pool (IsShort-now t h)) h
Step-IsWithin (give_up t n e) h = record {
  distinct = h.distinct;
  counted = omega (arith, h.counted, e);
  few = omega (arith, h.few, e);
}
Step-IsWithin (connect t w policy x n e) h =
    let (d, l) = connect-IsShort (length t.pool.entries) w policy x t.pool (IsShort-now t h) in
    record { distinct = d; counted = omega (arith, h.counted, e); few = omega (arith, h.few, e, l) }
Step-IsWithin (settle t n e) h = record {
  distinct = h.distinct;
  counted = omega (arith, h.counted, e);
  few = h.few;
}
Step-IsWithin (lose t x) h =
    let n = length t.pool.entries in
    shrunk-IsWithin t (forget x t.pool)
      (forget-Outlives (IsShort n) (IsShort-Outlives n) x t.pool (IsShort-now t h))
      (forget-same (λ s. s.pending_connections) (λ s es. refl) x t.pool) h
Step-IsWithin (let_go t w xs) h =
    shrunk-IsWithin t (touch w xs t.pool)
      (touch-IsShort (length t.pool.entries) w xs t.pool (IsShort-now t h))
      (touch-same (λ s. s.pending_connections) (λ s es. refl) w xs t.pool) h
Step-IsWithin (block t scope key) h = record {
  distinct = h.distinct;
  counted = h.counted;
  few = h.few;
}
Step-IsWithin (note t scope key) h = record {
  distinct = h.distinct;
  counted = h.counted;
  few = h.few;
}
Step-IsWithin (finish_scope t scope) h =
    let n = length t.pool.entries in
    shrunk-IsWithin t (finish_batch_scope scope t.pool).1
      (release_keys-Outlives (IsShort n) (IsShort-Outlives n) (scope_keys scope t.pool)
        t.pool.entries (IsShort-now t h))
      refl h
Step-IsWithin (end_call t xs) h =
    let n = length t.pool.entries in
    shrunk-IsWithin t (evict xs t.pool).1
      (evict-Outlives (IsShort n) (IsShort-Outlives n) xs t.pool (IsShort-now t h))
      (evict-same (λ s. s.pending_connections) (λ s es. refl) xs t.pool) h
Step-IsWithin (disconnect t w host) h =
    shrunk-IsWithin t (release w host t.pool).2
      (release-IsShort (length t.pool.entries) w host t.pool (IsShort-now t h))
      (drain-same (λ s. s.pending_connections) (λ s es. refl) w (involves host) t.pool) h
Step-IsWithin (invalidate t host) h =
    let n = length t.pool.entries in
    shrunk-IsWithin t (invalidate_host host t.pool).1
      (take_keys-Outlives (IsShort n) (IsShort-Outlives n) (host_keys host t.pool) t.pool.entries
        (IsShort-now t h))
      refl h
Step-IsWithin (release_unused t w) h = drained w is_unretained t h
Step-IsWithin (reap t w) h = drained w (idle_expired w) t h

-- In whatever order calls find, open, share, lose and give up sessions, and batches and sweeps end
-- them, from an empty pool: the keys of the pool are distinct, the pending connections are the
-- reservations that are held, and the pooled sessions and those that are being opened are no more
-- than 32.
pub reached-IsWithin : {t : Traffic} → Reached t → IsWithin t
reached-IsWithin start = record { distinct = tt; counted = refl; few = omega arith }
reached-IsWithin (after r s) = Step-IsWithin s (reached-IsWithin r)
