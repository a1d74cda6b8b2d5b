-- ===== src/Ssh/Pool/Batches.antt =====
-- A batch that lost its shared connection never connects again.
use codex_hosts.Prelude.{
  suc, ◌+◌, ◌≡◌, ◌≢◌, refl, ap, inl, inr, true, false, not, Option, none, some, List, [], ◌∷◌, leb,
  ◌==◌, Text, codes, length, keep, Result, ok, err, arith, Bool-cases, if-case,
}
use codex_hosts.Model.{Uuid, Retention}
use codex_hosts.Ssh.Key.{SessionKey, eq_key_refl}
use codex_hosts.Ssh.Pool.{
  PooledSession, PoolEntry, PoolState, World, max_retained_connections, idle_expired, drain,
  is_unretained, make_room, begin_connection, drop_reservation,
}
use codex_hosts.Ssh.Pool.Calls.{
  is_pair, has_pair, add_pair, in_scope, add_in_scope, pooled, ready_entry, ready,
  finish_connection, block_reconnect, record_batch_connection, finish_batch_scope, involves,
  release, invalidate_host, take_unretained, idle_sessions,
}
use codex_hosts.Ssh.Pool.Same.{touch-same, forget-same, evict-same, drain-same}
use codex_hosts.Ssh.Pool.Runs.{
  Traffic, admit, Step, find_ready, begin, give_up, connect, settle, lose, let_go, block, note,
  finish_scope, end_call, disconnect, invalidate, release_unused, reap,
}

-- steps of which none ends the batch
pub data During (scope : Uuid) : Traffic → Traffic → Type 0 where
  here : {t : Traffic} → During scope t t
  next :
      {e : Option Uuid} {t u v : Traffic}
      → During scope t u
      → Step e u v
      → e ≢ some scope
      → During scope t v

abbrev pub IsBlocked : Uuid → SessionKey → PoolState → Type 0
IsBlocked scope key s = has_pair scope key s.blocked_reconnects ≡ true

pub add_pair-keeps :
    (scope : Uuid) (key : SessionKey) (other : Option Uuid) (k : SessionKey)
    (ps : List (Uuid × SessionKey))
    → has_pair scope key ps ≡ true
    → has_pair scope key (add_in_scope other k ps) ≡ true
add_pair-keeps scope key none k ps h = h
add_pair-keeps scope key (some o) k ps h =
    if-case (λ qs. has_pair scope key qs ≡ true) (has_pair o k ps) (λ _. h) (λ _. ground arith)

pub add_pair-has :
    (scope : Uuid) (key : SessionKey) (ps : List (Uuid × SessionKey))
    → has_pair scope key (add_pair scope key ps) ≡ true
add_pair-has scope key ps =
    if-case (λ qs. has_pair scope key qs ≡ true) (has_pair scope key ps) (λ h. h)
      (λ _. ground (arith, eq_key_refl key))

keep-keeps :
    (scope other : Uuid) (key : SessionKey) (ps : List (Uuid × SessionKey))
    → some other ≢ some scope
    → has_pair scope key ps ≡ true
    → has_pair scope key (keep (λ p. not (p.0 == other)) ps) ≡ true
keep-keeps scope other key [] n h = h
keep-keeps scope other key (p ∷ ps) n h =
    let apart : other ≢ scope = λ e. n (ap some e) in
    let rest = keep-keeps scope other key ps n in
    if-case (λ qs. has_pair scope key qs ≡ true) (not (p.0 == other))
      (λ _. elim (Bool-cases (is_pair scope key p)) [
        | inl t ↦ rw t refl
        | inr f ↦ rw f (rest (rw f at h))
      ])
      (λ e. rest (let f : is_pair scope key p ≡ false = ground arith in rw f at h))

ready-keeps :
    (scope : Uuid) (key : SessionKey) (w : World) (k : SessionKey) (o : Option Uuid)
    (policy : Option Retention) (s : PoolState)
    → IsBlocked scope key s
    → IsBlocked scope key (ready w k o policy s).1
unfolding ready
ready-keeps scope key w k o policy s h =
    if-case (λ (a : Result Text (Option PooledSession) × PoolState). IsBlocked scope key a.1)
      (in_scope o k s.blocked_reconnects) (λ _. h) (λ _. entry (pooled k s))
  where
    entry : (m : Option PoolEntry) → IsBlocked scope key (ready_entry w k o policy m s).1
    entry none = h
    entry (some e) =
        if-case (λ (a : Result Text (Option PooledSession) × PoolState). IsBlocked scope key a.1)
          (w.is_closed e.session)
          (λ _.
            if-case
              (λ (a : Result Text (Option PooledSession) × PoolState). IsBlocked scope key a.1)
              (in_scope o k s.batch_connections)
              (λ _. add_pair-keeps scope key o k s.blocked_reconnects h) (λ _. h))
          (λ _. h)

begin_connection-blocked :
    (w : World) (s : PoolState) → (begin_connection w s).1.blocked_reconnects ≡ s.blocked_reconnects
unfolding begin_connection
begin_connection-blocked w s =
    let expired = drain w (idle_expired w) s in
    let r =
      make_room (suc (length expired.1.entries)) w s.pending_connections expired.0
        expired.1.entries in
    if-case
      (λ (a : Result Text (List PooledSession) × PoolState).
        a.1.blocked_reconnects ≡ s.blocked_reconnects)
      (leb max_retained_connections (length r.1 + s.pending_connections)) (λ _. refl) (λ _. refl)

admit-pool :
    (r : Result Text (List PooledSession) × PoolState) (t : Traffic) → (admit r t).pool ≡ r.1
admit-pool (ok _, s) t = refl
admit-pool (err _, s) t = refl

step-IsBlocked :
    (scope : Uuid) (key : SessionKey) {e : Option Uuid} {t u : Traffic}
    → Step e t u
    → e ≢ some scope
    → IsBlocked scope key t.pool
    → IsBlocked scope key u.pool
unfolding drop_reservation finish_connection block_reconnect record_batch_connection
    finish_batch_scope release invalidate_host take_unretained idle_sessions
step-IsBlocked scope key (find_ready t w k o policy) n h =
    ready-keeps scope key w k o policy t.pool h
step-IsBlocked scope key (begin t w) n h =
    rw (admit-pool (begin_connection w t.pool) t, begin_connection-blocked w t.pool) h
step-IsBlocked scope key (give_up t m e) n h = h
step-IsBlocked scope key (connect t w policy x m e) n h = h
step-IsBlocked scope key (settle t m e) n h = h
step-IsBlocked scope key (lose t x) n h =
    rw (forget-same (λ s. s.blocked_reconnects) (λ s es. refl) x t.pool) h
step-IsBlocked scope key (let_go t w xs) n h =
    rw (touch-same (λ s. s.blocked_reconnects) (λ s es. refl) w xs t.pool) h
step-IsBlocked scope key (block t o k) n h =
    add_pair-keeps scope key o k t.pool.blocked_reconnects h
step-IsBlocked scope key (note t o k) n h = h
step-IsBlocked scope key (finish_scope t other) n h =
    keep-keeps scope other key t.pool.blocked_reconnects n h
step-IsBlocked scope key (end_call t xs) n h =
    rw (evict-same (λ s. s.blocked_reconnects) (λ s es. refl) xs t.pool) h
step-IsBlocked scope key (disconnect t w host) n h =
    rw (drain-same (λ s. s.blocked_reconnects) (λ s es. refl) w (involves host) t.pool) h
step-IsBlocked scope key (invalidate t host) n h = h
step-IsBlocked scope key (release_unused t w) n h =
    rw (drain-same (λ s. s.blocked_reconnects) (λ s es. refl) w is_unretained t.pool) h
step-IsBlocked scope key (reap t w) n h =
    rw (drain-same (λ s. s.blocked_reconnects) (λ s es. refl) w (idle_expired w) t.pool) h

During-IsBlocked :
    (scope : Uuid) (key : SessionKey) {t u : Traffic}
    → During scope t u
    → IsBlocked scope key t.pool
    → IsBlocked scope key u.pool
During-IsBlocked scope key here h = h
During-IsBlocked scope key (next d s n) h =
    step-IsBlocked scope key s n (During-IsBlocked scope key d h)

ready-blocked :
    (w : World) (scope : Uuid) (key : SessionKey) (policy : Option Retention) (s : PoolState)
    → IsBlocked scope key s
    → (ready w key (some scope) policy s).0 ≡ err (codes "SSH_BATCH_RECONNECT_BLOCKED")
unfolding ready
ready-blocked w scope key policy s h = rw h refl

lost-IsBlocked :
    (w : World) (scope : Uuid) (key : SessionKey) (policy : Option Retention) (s : PoolState)
    (e : PoolEntry)
    → has_pair scope key s.batch_connections ≡ true
    → pooled key s ≡ some e
    → w.is_closed e.session ≡ true
    → IsBlocked scope key (ready w key (some scope) policy s).1
unfolding ready
lost-IsBlocked w scope key policy s e b p c =
    if-case (λ (a : Result Text (Option PooledSession) × PoolState). IsBlocked scope key a.1)
      (has_pair scope key s.blocked_reconnects) (λ h. h)
      (λ _. rw (p, c, b) (add_pair-has scope key s.blocked_reconnects))

-- Where a batch has used the connection under a key, and the connection is found closed when a call
-- of the batch wants it, then from there on, in whatever order calls act on the pool and until the
-- batch ends, no call of the batch gets a connection under that key, and none opens one: each is
-- told that the batch does not reconnect.
pub lost-stays_lost :
    (scope : Uuid) (key : SessionKey) (t u : Traffic) (e : PoolEntry) (w v : World)
    (policy later : Option Retention)
    → has_pair scope key t.pool.batch_connections ≡ true
    → pooled key t.pool ≡ some e
    → w.is_closed e.session ≡ true
    → During scope (record t { pool = (ready w key (some scope) policy t.pool).1 }) u
    → (ready v key (some scope) later u.pool).0 ≡ err (codes "SSH_BATCH_RECONNECT_BLOCKED")
lost-stays_lost scope key t u e w v policy later b p c d =
    ready-blocked v scope key later u.pool
      (During-IsBlocked scope key d (lost-IsBlocked w scope key policy t.pool e b p c))
