-- ===== src/Ssh/Pool/Room.antt =====
-- `begin_connection` makes room, and never at the cost of a session that is held or retained.
use codex_hosts.Prelude.{
  ℕ, zero, suc, ◌+◌, ◌≤◌, ◌<◌, ◌≡◌, ◌≢◌, refl, ◌∙◌, inl, inr, Bool, true, false, not, ◌&&◌, Option,
  none, some, List, [], ◌∷◌, ◌++◌, leb, Text, codes, length, find, keep, remove_first, keep-All,
  All-both, keep_equal, Result, ok, err, arith, Option-cases, All, count, if-case,
}
use codex_hosts.Model.{is_some}
use codex_hosts.Ssh.Pool.Keys.{HasDistinctKeys}
use codex_hosts.Ssh.Pool.Drained.{IsCountedIn, IsCounted, IsDraining, drain-IsDrained}
use codex_hosts.Ssh.Pool.{
  PooledSession, PoolEntry, PoolState, World, default_retained_connections,
  max_retained_connections, has_parent, idle_expired, has_key, drain, oldest, is_evictable,
  make_room, begin_connection, older,
}
use codex_hosts.Ssh.Pool.Oldest.{found-All, oldest-All, keep-remove_first, evicted-IsDraining}

evictable-free :
    (w : World) (gone : List PooledSession) (e : PoolEntry)
    → is_evictable w gone e ≡ true
    → w.strong_count e.session ≡ 1 + count (has_parent e.session) gone
evictable-free w gone e h = ground arith

-- what the loop leaves has no session that it may give up, unless there is room; a session that is
-- retained is not touched
record HasRoom (w : World) (pending : ℕ) (es : List PoolEntry)
    (r : List PooledSession × List PoolEntry) : Type 0 where
  safe : IsDraining w r.0 r.1
  done :
      default_retained_connections ≤ length r.1 + pending
      → All (λ e. is_evictable w r.0 e ≡ false) r.1
  untouched : keep (λ e. is_some e.retention) r.1 ≡ keep (λ e. is_some e.retention) es

oldest_ne_none : (e : PoolEntry) (m : Option PoolEntry) → older e m ≢ none
oldest_ne_none e none h = cc
oldest_ne_none e (some o) h =
    if-case (λ m. m ≢ none) (leb e.last_used o.last_used) (λ _ f. cc) (λ _ f. cc) h

oldest-none :
    (p : PoolEntry → Bool) (es : List PoolEntry)
    → oldest (keep p es) ≡ none
    → All (λ e. p e ≡ false) es
oldest-none p [] h = tt
oldest-none p (e ∷ es) h =
    if-case (λ xs. oldest xs ≡ none → (p e ≡ false) × All (λ e. p e ≡ false) es) (p e)
      (λ _ n. absurd (oldest_ne_none e (oldest (keep p es)) n)) (λ f n. (f, oldest-none p es n)) h

-- counted, and found by its key
abbrev IsPlaced : World → List PooledSession → List PoolEntry → PoolEntry → Type 0
IsPlaced w gone es x = IsCountedIn w gone es x × (find (has_key x.session.key) es ≡ some x)

make_room-HasRoom :
    (n : ℕ) (w : World) (pending : ℕ) (gone : List PooledSession) (es : List PoolEntry)
    → length es < n
    → IsDraining w gone es
    → HasRoom w pending es (make_room n w pending gone es)
make_room-HasRoom zero w pending gone es l d = ground arith
make_room-HasRoom (suc n) w pending gone es l d =
    if-case (HasRoom w pending es) (leb default_retained_connections (length es + pending))
      (λ _. elim (Option-cases (oldest (keep (is_evictable w gone) es))) [
        | inl e ↦ rw e record {
          safe = d;
          done = λ _. oldest-none (is_evictable w gone) es e;
          untouched = refl;
        }
        | inr (o, e) ↦
            let here =
              oldest-All (λ x. (is_evictable w gone x ≡ true) × IsPlaced w gone es x)
                (keep (is_evictable w gone) es) o e
                (keep-All (is_evictable w gone) (IsPlaced w gone es) es (
                  All-both (IsCountedIn w gone es) (λ x. find (has_key x.session.key) es ≡ some x)
                    (IsPlaced w gone es) es (λ x c f. (c, f)) d.counted
                    (found-All es d.distinct))) in
            let without =
              keep-remove_first (has_key o.session.key) (λ x. is_some x.retention) es o here.1.1
                (ground arith) in
            let i =
              make_room-HasRoom n w pending (gone ++ o.session ∷ [])
                (remove_first (has_key o.session.key) es) (omega (arith, without.1))
                (evicted-IsDraining w gone es o d here.1.1 (evictable-free w gone o here.0)
                  here.1.0) in
            rw (e, here.1.1)
              record { safe = i.safe; done = i.done; untouched = i.untouched ∙ without.0 }
      ])
      (λ e. record { safe = d; done = λ h. ground arith; untouched = refl })

held_still :
    (w : World) (gone : List PooledSession) (es : List PoolEntry) (e : PoolEntry)
    → IsCountedIn w gone es e
    → is_evictable w gone e ≡ false
    → is_evictable w [] e ≡ false
held_still w gone es e c h = ground arith

-- kept, and not for too long
abbrev is_lasting : World → PoolEntry → Bool
is_lasting w e = is_some e.retention && not (idle_expired w e)

abbrev HasLasting : World → PoolState → PoolState → Type 0
HasLasting w s t = keep (is_lasting w) t.entries ≡ keep (is_lasting w) s.entries

abbrev pub IsBegun : World → PoolState → Result Text (List PooledSession) × PoolState → Type 0
IsBegun w s (ok gone, t) =
    (t.pending_connections ≡ suc s.pending_connections)
    × (length t.entries + t.pending_connections ≤ max_retained_connections)
    × HasLasting w s t
IsBegun w s (err code, t) =
    (code ≡ codes "SSH_CONNECTION_POOL_FULL")
    × (t.pending_connections ≡ s.pending_connections)
    × (max_retained_connections ≤ length t.entries + t.pending_connections)
    × All (λ e. is_evictable w [] e ≡ false) t.entries
    × HasLasting w s t

-- What a call gets that wants to connect, in a pool whose keys are distinct and whose sessions count
-- the pool and the pooled sessions behind them. It gets a slot only where with it no more than 32
-- are in use. It is refused only where 32 are in use and no session could be given up: each is
-- retained or held by something besides the pool. Either way a session whose retention has not run
-- out stays.
pub begin_connection-IsBegun :
    (w : World) (s : PoolState)
    → HasDistinctKeys s.entries
    → IsCounted w s.entries
    → IsBegun w s (begin_connection w s)
unfolding begin_connection
begin_connection-IsBegun w s d c =
    let swept = drain-IsDrained w (idle_expired w) s d c in
    let expired = drain w (idle_expired w) s in
    let room =
      make_room-HasRoom (suc (length expired.1.entries)) w s.pending_connections expired.0
        expired.1.entries (omega arith) swept.safe in
    let r =
      make_room (suc (length expired.1.entries)) w s.pending_connections expired.0
        expired.1.entries in
    let kept : keep (is_lasting w) r.1 ≡ keep (is_lasting w) s.entries =
      keep_equal (λ e. is_some e.retention) (is_lasting w) r.1 expired.1.entries
        (λ e h. ground arith) room.untouched
      ∙ keep_equal (λ e. not (idle_expired w e)) (is_lasting w) expired.1.entries s.entries
          (λ e h. ground arith) swept.untouched in
    if-case (IsBegun w s) (leb max_retained_connections (length r.1 + s.pending_connections))
      (λ e. (
        refl,
        refl,
        ground arith,
        All-both (IsCountedIn w r.0 r.1) (λ x. is_evictable w r.0 x ≡ false)
            (λ x. is_evictable w [] x ≡ false) r.1 (held_still w r.0 r.1) room.safe.counted
            (room.done (ground arith)),
        kept,
      ))
      (λ e. (refl, ground arith, kept))
