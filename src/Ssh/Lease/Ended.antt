-- ===== src/Ssh/Lease/Ended.antt =====
-- What a call leaves in the pool when it ends.
use codex_hosts.Prelude.{
  ◌≡◌, refl, inl, inr, true, false, not, ◌&&◌, Option, none, some, List, [], ◌∷◌, ◌++◌, Text,
  length, find, keep, remove_first, Result, ok, arith, Bool-cases, All, map, All-remove_first,
  find-All, All-weaken, if-case, Apart-remove_first,
}
use codex_hosts.Model.{Uuid, Retention, is_some}
use codex_hosts.Ssh.Key.{SessionKey, ◌=ᵏ◌, eq_key_refl, key_eq}
use codex_hosts.Ssh.Pool.{PooledSession, PoolEntry, PoolState, World, ptr_eq, has_key}
use codex_hosts.Ssh.Pool.Calls.{in_scope, pooled, ready_entry, ready, holds, forget, touch, evict}
use codex_hosts.Ssh.Pool.Keys.{OtherKey, HasDistinctKeys}
use codex_hosts.Ssh.Pool.Kept.{Outlives, forget-Outlives, evict-Outlives}
use codex_hosts.Ssh.Pool.Short.{touch-IsShort}
use codex_hosts.Ssh.Lease.{ChainLease, unretained_hops, drop_lease}

-- no entry under the key
abbrev NoneUnder : SessionKey → List PoolEntry → Type 0
NoneUnder k es = All (λ e. has_key k e ≡ false) es

find-NoneUnder :
    (k : SessionKey) (es : List PoolEntry) → NoneUnder k es → find (has_key k) es ≡ none
find-NoneUnder k [] h = refl
find-NoneUnder k (e ∷ es) (h, hs) = rw h (find-NoneUnder k es hs)

flip_key : (k j : SessionKey) → (k =ᵏ j) ≡ false → (j =ᵏ k) ≡ false
flip_key k j h = elim (Bool-cases (j =ᵏ k)) [
  | inl t ↦
      let e : j ≡ k = key_eq j k t in
      let f : (k =ᵏ k) ≡ false = rw e at h in let g = eq_key_refl k in cc
  | inr f ↦ f
]

-- behind an entry under the key there is no other
behind-NoneUnder :
    (k : SessionKey) (e : PoolEntry) (es : List PoolEntry)
    → has_key k e ≡ true
    → All (OtherKey e) es
    → NoneUnder k es
behind-NoneUnder k e es t h =
    let same : e.session.key ≡ k = key_eq e.session.key k t in
    All-weaken (OtherKey e) (λ x. has_key k x ≡ false) es
      (λ x o. flip_key k x.session.key (rw same at o)) h

removed-NoneUnder :
    (k : SessionKey) (es : List PoolEntry)
    → HasDistinctKeys es
    → NoneUnder k (remove_first (has_key k) es)
removed-NoneUnder k [] d = tt
removed-NoneUnder k (e ∷ es) (h, d) =
    let rest = removed-NoneUnder k es d in
    if-case (NoneUnder k) (has_key k e) (λ t. behind-NoneUnder k e es t h) (λ f. (f, rest))

-- The pool does not hold the session, whatever is taken from it.
abbrev pub IsGone : PooledSession → List PoolEntry → Type 0
IsGone x es = All (λ e. has_key x.key e && ptr_eq e.session x ≡ false) es

NoneUnder-IsGone : (x : PooledSession) (es : List PoolEntry) → NoneUnder x.key es → IsGone x es
NoneUnder-IsGone x es h =
    All-weaken (λ e. has_key x.key e ≡ false) (λ e. (has_key x.key e && ptr_eq e.session x) ≡ false)
      es (λ e f. ground arith) h

unheld-IsGone :
    (x : PooledSession) (es : List PoolEntry)
    → HasDistinctKeys es
    → elim (find (has_key x.key) es) [ none ↦ false | some e ↦ ptr_eq e.session x ] ≡ false
    → IsGone x es
unheld-IsGone x [] d f = tt
unheld-IsGone x (e ∷ es) (h, d) f = elim (Bool-cases (has_key x.key e)) [
  | inl t ↦ (rw t (rw t at f), NoneUnder-IsGone x es (behind-NoneUnder x.key e es t h))
  | inr n ↦ (rw n refl, unheld-IsGone x es d (rw n at f))
]

forget-IsGone :
    (x : PooledSession) (s : PoolState) → HasDistinctKeys s.entries → IsGone x (forget x s).entries
unfolding forget
forget-IsGone x s d =
    if-case (λ (t : PoolState). IsGone x t.entries) (holds s x)
      (λ _.
        NoneUnder-IsGone x (remove_first (has_key x.key) s.entries)
          (removed-NoneUnder x.key s.entries d))
      (λ f. unheld-IsGone x s.entries d f)

IsGone-Outlives : (x : PooledSession) → Outlives (IsGone x)
IsGone-Outlives x k es h =
    All-remove_first (λ e. (has_key x.key e && ptr_eq e.session x) ≡ false) (has_key k) es h

distinct-Outlives : Outlives HasDistinctKeys
distinct-Outlives k es d = Apart-remove_first OtherKey (has_key k) es d

-- each session of the list is gone
evict-All-IsGone :
    (xs : List PooledSession) (s : PoolState)
    → HasDistinctKeys s.entries
    → All (λ x. IsGone x (evict xs s).1.entries) xs
unfolding evict
evict-All-IsGone [] s d = tt
evict-All-IsGone (x ∷ xs) s d = (
  evict-Outlives (IsGone x) (IsGone-Outlives x) xs (forget x s) (forget-IsGone x s d),
  evict-All-IsGone xs (forget x s) (forget-Outlives HasDistinctKeys distinct-Outlives x s d),
)

find-IsGone :
    (x : PooledSession) (es : List PoolEntry) (e : PoolEntry)
    → IsGone x es
    → find (has_key x.key) es ≡ some e
    → ptr_eq e.session x ≡ false
find-IsGone x es e h f =
    let (g, k) =
      find-All (λ e. (has_key x.key e && ptr_eq e.session x) ≡ false) (has_key x.key) es h f in
    ground arith

ready-finds :
    (w : World) (key : SessionKey) (scope : Option Uuid) (policy : Option Retention) (s : PoolState)
    (y : PooledSession)
    → (ready w key scope policy s).0 ≡ ok (some y)
    → (e : PoolEntry) × (pooled key s ≡ some e) × (e.session ≡ y)
unfolding ready
ready-finds w key scope policy s y =
    if-case
      (λ (a : Result Text (Option PooledSession) × PoolState).
        a.0 ≡ ok (some y) → (e : PoolEntry) × (pooled key s ≡ some e) × (e.session ≡ y))
      (in_scope scope key s.blocked_reconnects) (λ _ f. cc) (λ _. entry (pooled key s) refl)
  where
    entry :
        (m : Option PoolEntry)
        → pooled key s ≡ m
        → (ready_entry w key scope policy m s).0 ≡ ok (some y)
        → (e : PoolEntry) × (pooled key s ≡ some e) × (e.session ≡ y)
    entry none f = λ g. cc
    entry (some e) f =
        if-case
          (λ (a : Result Text (Option PooledSession) × PoolState).
            a.0 ≡ ok (some y) → (e : PoolEntry) × (pooled key s ≡ some e) × (e.session ≡ y))
          (w.is_closed e.session)
          (λ _.
            if-case
              (λ (a : Result Text (Option PooledSession) × PoolState).
                a.0 ≡ ok (some y) → (e : PoolEntry) × (pooled key s ≡ some e) × (e.session ≡ y))
              (in_scope scope key s.batch_connections) (λ _ g. cc) (λ _ g. cc))
          (λ _ g. (e, f, cc))

unretained_at {κ} :
    (P : PooledSession → Type κ) (before after : List (PooledSession × Option Retention))
    (x : PooledSession)
    → All P (map (λ h. h.0) (keep (λ h. not (is_some h.1)) (before ++ (x, none) ∷ after)))
    → P x
unretained_at P [] after x = λ h. h.0
unretained_at P (b ∷ before) after x =
    if-case (λ hs. All P (map (λ h. h.0) hs) → P x) (not (is_some b.1))
      (λ _ h. unretained_at P before after x h.1) (λ _ h. unretained_at P before after x h)

unretained_in {κ} :
    (P : PooledSession → Type κ) (hops before after : List (PooledSession × Option Retention))
    (x : PooledSession)
    → hops ≡ before ++ (x, none) ∷ after
    → All P (map (λ h. h.0) (keep (λ h. not (is_some h.1)) hops))
    → P x
unretained_in P hops before after x e h = unretained_at P before after x (rw e at h)

-- When a call ends that is not part of a batch, with a pool whose keys are distinct, a session of a
-- hop that is not retained is out of the pool: whoever asks for its key next, and whatever still
-- refers to it, is not handed that session.
pub ended-IsGone :
    (w v : World) (lease : ChainLease) (s : PoolState)
    (before after : List (PooledSession × Option Retention)) (x y : PooledSession)
    (scope : Option Uuid) (policy : Option Retention)
    → HasDistinctKeys s.entries
    → lease.batch_scope ≡ none
    → lease.hops ≡ before ++ (x, none) ∷ after
    → (ready v x.key scope policy (drop_lease w lease s).1).0 ≡ ok (some y)
    → ptr_eq y x ≡ false
unfolding drop_lease
ended-IsGone w v lease s before after x y scope policy d alone at_hop got =
    let touched = touch w (map (λ h. h.0) lease.hops) s in
    let left = (evict (unretained_hops lease) touched).1 in
    let short = touch-IsShort (length s.entries) w (map (λ h. h.0) lease.hops) s (d, omega arith) in
    let gone : IsGone x left.entries =
      unretained_in (λ z. IsGone z left.entries) lease.hops before after x at_hop
        (evict-All-IsGone (unretained_hops lease) touched short.0) in
    let (e, found, same) = ready-finds v x.key scope policy left y (rw alone at got) in
    rw (← same) (find-IsGone x left.entries e gone found)
