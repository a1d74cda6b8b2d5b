-- ===== src/Ssh/Lease/Settled.antt =====
-- What a call leaves in the pool when it has tried to connect.
use codex_hosts.Prelude.{
  ℕ, suc, ◌+◌, ◌≡◌, refl, ap, ◌∙◌, inl, inr, ◌⊎◌, Bool, true, false, not, Option, none, some, List,
  [], ◌∷◌, ◌++◌, leb, ◌=ᵗ◌, Text, codes, length, find, keep, update_first, All-intro, find-here,
  Result, ok, err, arith, Bool-cases, ==_refl, find-All, if-case,
}
use codex_hosts.Model.{Uuid, Retention}
use codex_hosts.Ssh.Key.{SessionKey, eq_key_refl, key_eq}
use codex_hosts.Ssh.Pool.{
  PooledSession, PoolEntry, PoolState, World, max_retained_connections, ptr_eq, idle_expired,
  has_key, drain, make_room, begin_connection, drop_reservation,
}
use codex_hosts.Ssh.Pool.Calls.{
  has_pair, in_scope, add_in_scope, pooled, used_entry, ready_entry, ready, finish_connection,
  holds, forget, block_reconnect, record_batch_connection,
}
use codex_hosts.Ssh.Pool.Batches.{add_pair-has, add_pair-keeps}
use codex_hosts.Ssh.Pool.Same.{forget-same}
use codex_hosts.Ssh.Lease.{
  Visit, block_parent, finished, open_connection, unless_ready, pooled_connection,
}

-- in a batch, the key is blocked for the rest of it
abbrev pub IsBlockedIn : Option Uuid → SessionKey → List (Uuid × SessionKey) → Type 0
IsBlockedIn none key ps = Unit
IsBlockedIn (some scope) key ps = has_pair scope key ps ≡ true

-- what `ready` gives
abbrev IsFound :
    Option Uuid → SessionKey → ℕ → Result Text (Option PooledSession) × PoolState → Type 0
IsFound scope key n (err code, s) =
    (s.pending_connections ≡ n) × IsBlockedIn scope key s.blocked_reconnects
IsFound scope key n (ok none, s) = s.pending_connections ≡ n
IsFound scope key n (ok (some session), s) = (s.pending_connections ≡ n) × (holds s session ≡ true)

abbrev IsAdmitted : ℕ → Result Text (List PooledSession) × PoolState → Type 0
IsAdmitted n (err code, s) = (s.pending_connections ≡ n) × (code ≡ codes "SSH_CONNECTION_POOL_FULL")
IsAdmitted n (ok _, s) = s.pending_connections ≡ suc n

abbrev pub IsSettled : Option Uuid → SessionKey → ℕ → Result Text PooledSession × PoolState → Type 0
IsSettled scope key n (ok session, s) = (s.pending_connections ≡ n) × (holds s session ≡ true)
IsSettled scope key n (err code, s) =
    (s.pending_connections ≡ n)
    × ((code ≡ codes "SSH_CONNECTION_POOL_FULL") ⊎ IsBlockedIn scope key s.blocked_reconnects)

blocked_in :
    (scope : Option Uuid) (key : SessionKey) (s : PoolState)
    → in_scope scope key s.blocked_reconnects ≡ true
    → IsBlockedIn scope key s.blocked_reconnects
blocked_in none key s h = cc
blocked_in (some scope) key s h = h

added_in :
    (scope : Option Uuid) (key : SessionKey) (ps : List (Uuid × SessionKey))
    → IsBlockedIn scope key (add_in_scope scope key ps)
added_in none key ps = tt
added_in (some scope) key ps = add_pair-has scope key ps

still_in :
    (scope other : Option Uuid) (key k : SessionKey) (ps : List (Uuid × SessionKey))
    → IsBlockedIn scope key ps
    → IsBlockedIn scope key (add_in_scope other k ps)
still_in none other key k ps h = tt
still_in (some scope) other key k ps h = add_pair-keeps scope key other k ps h

key_of :
    (key : SessionKey) (es : List PoolEntry) (e : PoolEntry)
    → find (has_key key) es ≡ some e
    → e.session.key ≡ key
key_of key es e f =
    key_eq e.session.key key
      (find-All (λ _. Unit {0}) (has_key key) es (All-intro (λ _. Unit {0}) (λ _. tt) es) f).1

used-holds :
    (w : World) (key : SessionKey) (scope : Option Uuid) (policy : Option Retention) (s : PoolState)
    (e : PoolEntry)
    → pooled key s ≡ some e
    → holds (used_entry w key scope policy e.session s).1 e.session ≡ true
used-holds w key scope policy s e f =
    let at_key : e.session.key ≡ key = key_of key s.entries e f in
    let there =
      find-here (has_key key) (λ d. record d { last_used = w.now; retention = policy }) s.entries e
        (λ d. refl) f in
    ap
      (λ k.
        elim (find (has_key k) (
          update_first (has_key key) (λ d. record d { last_used = w.now; retention = policy })
            s.entries)) [ none ↦ false | some d ↦ ptr_eq d.session e.session ])
      at_key
    ∙ rw there (==_refl e.session.serial)

ready-IsFound :
    (w : World) (key : SessionKey) (scope : Option Uuid) (policy : Option Retention) (s : PoolState)
    → IsFound scope key s.pending_connections (ready w key scope policy s)
unfolding ready
ready-IsFound w key scope policy s =
    if-case (IsFound scope key s.pending_connections) (in_scope scope key s.blocked_reconnects)
      (λ h. (refl, blocked_in scope key s h)) (λ _. entry (pooled key s) refl)
  where
    entry :
        (m : Option PoolEntry)
        → pooled key s ≡ m
        → IsFound scope key s.pending_connections (ready_entry w key scope policy m s)
    entry none f = refl
    entry (some e) f =
        if-case (IsFound scope key s.pending_connections) (w.is_closed e.session)
          (λ _.
            if-case (IsFound scope key s.pending_connections)
              (in_scope scope key s.batch_connections)
              (λ h. (refl, added_in scope key s.blocked_reconnects)) (λ _. refl))
          (λ _. (refl, used-holds w key scope policy s e f))

begin-IsAdmitted :
    (w : World) (s : PoolState) → IsAdmitted s.pending_connections (begin_connection w s)
unfolding begin_connection
begin-IsAdmitted w s =
    let expired = drain w (idle_expired w) s in
    let r =
      make_room (suc (length expired.1.entries)) w s.pending_connections expired.0
        expired.1.entries in
    if-case (IsAdmitted s.pending_connections)
      (leb max_retained_connections (length r.1 + s.pending_connections)) (λ _. (refl, refl))
      (λ _. refl)

unless_ready-IsSettled :
    (scope : Option Uuid) (key : SessionKey) (n : ℕ)
    (r : Result Text (Option PooledSession) × PoolState)
    (next : PoolState → Result Text PooledSession × PoolState)
    → IsFound scope key n r
    → ((s : PoolState) → s.pending_connections ≡ n → IsSettled scope key n (next s))
    → IsSettled scope key n (unless_ready r next)
unless_ready-IsSettled scope key n (err code, s) next h g = (h.0, inr h.1)
unless_ready-IsSettled scope key n (ok none, s) next h g = g s h
unless_ready-IsSettled scope key n (ok (some x), s) next h g = h

find-new :
    (p : PoolEntry → Bool) (es : List PoolEntry) (e : PoolEntry)
    → p e ≡ true
    → find p (keep (λ d. not (p d)) es ++ e ∷ []) ≡ some e
find-new p [] e h = rw h refl
find-new p (d ∷ es) e h =
    let rest = find-new p es e h in
    elim (Bool-cases (p d)) [ inl t ↦ rw t rest | inr f ↦ rw (f, f) rest ]

new-holds :
    (w : World) (policy : Option Retention) (x : PooledSession) (s : PoolState)
    → holds (finish_connection w policy (ok x) s) x ≡ true
unfolding finish_connection
new-holds w policy x s =
    rw
      (
        holds,
        find-new (has_key x.key) s.entries
            (record { session = x; last_used = w.now; retention = policy }) (eq_key_refl x.key),
      )
      (==_refl x.serial)

parent-IsBlockedIn :
    (code : Text) (scope : Option Uuid) (key : SessionKey) (parent : Option PooledSession)
    (s : PoolState)
    → IsBlockedIn scope key s.blocked_reconnects
    → IsBlockedIn scope key (block_parent code scope parent s).blocked_reconnects
      × ((block_parent code scope parent s).pending_connections ≡ s.pending_connections)
unfolding block_reconnect
parent-IsBlockedIn code scope key none s h = (h, refl)
parent-IsBlockedIn code scope key (some p) s h =
    let same = forget-same (λ s. s.blocked_reconnects) (λ s es. refl) p s in
    if-case
      (λ (t : PoolState).
        IsBlockedIn scope key t.blocked_reconnects
        × (t.pending_connections ≡ s.pending_connections))
      (code =ᵗ codes "JUMP_CHANNEL_FAILED")
      (λ _. (
        still_in scope scope key p.key (forget p s).blocked_reconnects (rw same h),
        forget-same (λ s. s.pending_connections) (λ s es. refl) p s,
      ))
      (λ _. (h, refl))

open-IsSettled :
    (w : World) (key : SessionKey) (parent : Option PooledSession) (scope : Option Uuid)
    (policy : Option Retention) (connected : Result Text PooledSession) (n : ℕ)
    (r : Result Text (List PooledSession) × PoolState)
    → IsAdmitted n r
    → IsSettled scope key n (open_connection w key parent scope policy connected r)
unfolding finished drop_reservation record_batch_connection block_reconnect finish_connection
open-IsSettled w key parent scope policy connected n (err code, s) h = (h.0, inl h.1)
open-IsSettled w key parent scope policy (err code) n (ok _, s) h =
    let (b, p) =
      parent-IsBlockedIn code scope key parent (block_reconnect scope key s)
        (added_in scope key s.blocked_reconnects) in
    (omega (arith, h, p), inr b)
open-IsSettled w key parent scope policy (ok x) n (ok _, s) h =
    (omega (arith, h), new-holds w policy x s)

-- A call that wants the session of a key, where no other call comes between: it gives back the
-- reservation that it took, so that as many connections are pending as before. If it gets a session,
-- the pool holds that session. If it gets none, then either all slots were in use or, in a batch,
-- the key is blocked for the rest of the batch.
pub pooled_connection-IsSettled :
    (v : Visit) (key : SessionKey) (parent : Option PooledSession) (scope : Option Uuid)
    (policy : Option Retention) (connected : Result Text PooledSession) (s : PoolState)
    → IsSettled scope key s.pending_connections
        (pooled_connection v key parent scope policy connected s)
unfolding pooled_connection
pooled_connection-IsSettled v key parent scope policy connected s =
    unless_ready-IsSettled scope key s.pending_connections (ready v.first key scope policy s) _
      (ready-IsFound v.first key scope policy s)
      (λ s' e.
        unless_ready-IsSettled scope key s.pending_connections (ready v.second key scope policy s')
          _ (rw (← e) (ready-IsFound v.second key scope policy s'))
          (λ s'' f.
            open-IsSettled v.last key parent scope policy connected s.pending_connections
              (begin_connection v.third s'') (rw (← f) (begin-IsAdmitted v.third s''))))
