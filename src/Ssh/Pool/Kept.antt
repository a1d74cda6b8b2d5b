-- ===== src/Ssh/Pool/Kept.antt =====
-- What outlives the loss of entries outlives every operation that only takes entries from the pool.
use codex_hosts.Prelude.{
  ℕ, zero, suc, ◌+◌, inl, inr, Bool, ◌&&◌, Option, none, some, List, [], ◌∷◌, ◌++◌, if◌then◌else◌,
  leb, Text, is_empty, length, find, keep, remove_first, Result, Option-cases, map, if-case,
}
use codex_hosts.Ssh.Key.{SessionKey}
use codex_hosts.Ssh.Pool.{
  PooledSession, PoolEntry, PoolState, World, default_retained_connections,
  max_retained_connections, free_after, idle_expired, has_key, add_taken, take_keys, drain_rounds,
  drain, oldest, is_evictable, make_room, begin_connection,
}
use codex_hosts.Ssh.Pool.Calls.{holds, forget, unretained_under, release_keys, evict}

abbrev pub Outlives {κ} : (List PoolEntry → Type κ) → Type κ
Outlives P = (k : SessionKey) (es : List PoolEntry) → P es → P (remove_first (has_key k) es)

module _ {κ} (P : List PoolEntry → Type κ) (o : Outlives P) where
  pub take_keys-Outlives :
      (ks : List SessionKey) (es : List PoolEntry) → P es → P (take_keys ks es).1
  take_keys-Outlives [] es p = p
  take_keys-Outlives (k ∷ ks) es p =
      added (find (has_key k) es) (take_keys ks (remove_first (has_key k) es))
        (take_keys-Outlives ks (remove_first (has_key k) es) (o k es p))
    where
      added :
          (m : Option PoolEntry) (r : List PooledSession × List PoolEntry)
          → P r.1
          → P (add_taken m r).1
      added none r q = q
      added (some _) r q = q

  drain_rounds-Outlives :
      (n : ℕ) (w : World) (include : PoolEntry → Bool) (gone : List PooledSession)
      (es : List PoolEntry)
      → P es
      → P (drain_rounds n w include gone es).1
  drain_rounds-Outlives zero w include gone es p = p
  drain_rounds-Outlives (suc n) w include gone es p =
      let keys = map (λ e. e.session.key) (keep (λ e. include e && free_after w gone e) es) in
      let round = take_keys keys es in
      if-case (λ (r : List PooledSession × List PoolEntry). P r.1) (is_empty keys) (λ _. p)
        (λ _.
          drain_rounds-Outlives n w include (gone ++ round.0) round.1
            (take_keys-Outlives keys es p))

  pub drain-Outlives :
      (w : World) (include : PoolEntry → Bool) (s : PoolState)
      → P s.entries
      → P (drain w include s).1.entries
  unfolding drain
  drain-Outlives w include s p =
      drain_rounds-Outlives (suc (length s.entries)) w include [] s.entries p

  make_room-Outlives :
      (n : ℕ) (w : World) (pending : ℕ) (gone : List PooledSession) (es : List PoolEntry)
      → P es
      → P (make_room n w pending gone es).1
  make_room-Outlives zero w pending gone es p = p
  make_room-Outlives (suc n) w pending gone es p =
      if-case (λ (r : List PooledSession × List PoolEntry). P r.1)
        (leb default_retained_connections (length es + pending))
        (λ _. elim (Option-cases (oldest (keep (is_evictable w gone) es))) [
          | inl e ↦ rw e p
          | inr (x, e) ↦
              let round = take_keys (x.session.key ∷ []) es in
              rw e (
                make_room-Outlives n w pending (gone ++ round.0) round.1
                  (take_keys-Outlives (x.session.key ∷ []) es p))
        ])
        (λ _. p)

  pub begin_connection-Outlives :
      (w : World) (s : PoolState) → P s.entries → P (begin_connection w s).1.entries
  unfolding begin_connection
  begin_connection-Outlives w s p =
      let expired = drain w (idle_expired w) s in
      let r =
        make_room (suc (length expired.1.entries)) w s.pending_connections expired.0
          expired.1.entries in
      let q =
        make_room-Outlives (suc (length expired.1.entries)) w s.pending_connections expired.0
          expired.1.entries (drain-Outlives w (idle_expired w) s p) in
      if-case (λ (a : Result Text (List PooledSession) × PoolState). P a.1.entries)
        (leb max_retained_connections (length r.1 + s.pending_connections)) (λ _. q) (λ _. q)

  pub release_keys-Outlives :
      (ks : List SessionKey) (es : List PoolEntry) → P es → P (release_keys ks es).1
  release_keys-Outlives [] es p = p
  release_keys-Outlives (k ∷ ks) es p =
      let taken = if unretained_under k es then take_keys (k ∷ []) es else ([], es) in
      release_keys-Outlives ks taken.1 (
        if-case (λ (r : List PooledSession × List PoolEntry). P r.1) (unretained_under k es)
          (λ _. take_keys-Outlives (k ∷ []) es p) (λ _. p))

  pub forget-Outlives : (x : PooledSession) (s : PoolState) → P s.entries → P (forget x s).entries
  unfolding forget
  forget-Outlives x s p =
      if-case (λ (t : PoolState). P t.entries) (holds s x) (λ _. o x.key s.entries p) (λ _. p)

  pub evict-Outlives :
      (xs : List PooledSession) (s : PoolState) → P s.entries → P (evict xs s).1.entries
  unfolding evict
  evict-Outlives [] s p = p
  evict-Outlives (x ∷ xs) s p = evict-Outlives xs (forget x s) (forget-Outlives x s p)
