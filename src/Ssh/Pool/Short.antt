-- ===== src/Ssh/Pool/Short.antt =====
-- Each operation keeps the keys distinct, and adds no more than the session that was opened.
use codex_hosts.Prelude.{
  ℕ, suc, ◌≤◌, ◌≡◌, refl, Bool, true, not, Option, none, some, List, [], ◌∷◌, if◌then◌else◌, Text,
  length, keep, remove_first, update_first, keep-All, All-intro, Result, ok, arith, length-append,
  length-map, length-keep-le, length-update_first, All-weaken, if-case, Apart-map, Apart-keep,
  Apart-remove_first, Apart-update_first, Apart-concat,
}
use codex_hosts.Model.{Uuid, Retention}
use codex_hosts.Ssh.Key.{SessionKey}
use codex_hosts.Ssh.Pool.{PooledSession, PoolEntry, PoolState, World, ptr_eq, has_key, drain}
use codex_hosts.Ssh.Pool.Calls.{
  in_scope, pooled, ready_entry, ready, finish_connection, touch_one, touch, involves, release,
}
use codex_hosts.Ssh.Pool.Keys.{OtherKey, HasDistinctKeys}
use codex_hosts.Ssh.Pool.Kept.{Outlives, drain-Outlives}

-- distinct keys, and no more than `n` entries
abbrev pub IsShort : ℕ → List PoolEntry → Type 0
IsShort n es = HasDistinctKeys es × (length es ≤ n)

length-remove_first-le {ℓ} :
    {A : Type ℓ} (p : A → Bool) (xs : List A) → length (remove_first p xs) ≤ length xs
length-remove_first-le p [] = omega arith
length-remove_first-le p (x ∷ xs) = ground (arith, length-remove_first-le p xs)

pub IsShort-Outlives : (n : ℕ) → Outlives (IsShort n)
IsShort-Outlives n k es (d, l) = (
  Apart-remove_first OtherKey (has_key k) es d,
  omega (arith, length-remove_first-le (has_key k) es),
)

changed-IsShort :
    (n : ℕ) (k : SessionKey) (f : PoolEntry → PoolEntry) (es : List PoolEntry)
    → ((e : PoolEntry) → (f e).session ≡ e.session)
    → IsShort n es
    → IsShort n (update_first (has_key k) f es)
changed-IsShort n k f es same (d, l) = (
  Apart-update_first OtherKey (has_key k) f es (λ x y o. (rw (same y) o, rw (same x) o)) d,
  omega (arith, length-update_first (has_key k) f es),
)

pub ready-IsShort :
    (n : ℕ) (w : World) (key : SessionKey) (scope : Option Uuid) (policy : Option Retention)
    (s : PoolState)
    → IsShort n s.entries
    → IsShort n (ready w key scope policy s).1.entries
unfolding ready
ready-IsShort n w key scope policy s h =
    if-case (λ (a : Result Text (Option PooledSession) × PoolState). IsShort n a.1.entries)
      (in_scope scope key s.blocked_reconnects) (λ _. h) (λ _. entry (pooled key s))
  where
    entry : (m : Option PoolEntry) → IsShort n (ready_entry w key scope policy m s).1.entries
    entry none = h
    entry (some e) =
        if-case (λ (a : Result Text (Option PooledSession) × PoolState). IsShort n a.1.entries)
          (w.is_closed e.session)
          (λ _.
            if-case (λ (a : Result Text (Option PooledSession) × PoolState). IsShort n a.1.entries)
              (in_scope scope key s.batch_connections) (λ _. IsShort-Outlives n key s.entries h)
              (λ _. IsShort-Outlives n key s.entries h))
          (λ _.
            changed-IsShort n key (λ d. record d { last_used = w.now; retention = policy })
              s.entries (λ d. refl) h)

pub touch-IsShort :
    (n : ℕ) (w : World) (xs : List PooledSession) (s : PoolState)
    → IsShort n s.entries
    → IsShort n (touch w xs s).entries
unfolding touch
touch-IsShort n w [] s h = h
touch-IsShort n w (x ∷ xs) s h =
    touch-IsShort n w xs
      (record s { entries = update_first (has_key x.key) (touch_one w x) s.entries })
      (changed-IsShort n x.key (touch_one w x) s.entries
        (λ e.
          if-case (λ (d : PoolEntry). d.session ≡ e.session) (ptr_eq e.session x) (λ _. refl)
            (λ _. refl))
        h)

pub release-IsShort :
    (n : ℕ) (w : World) (host : Option Uuid) (s : PoolState)
    → IsShort n s.entries
    → IsShort n (release w host s).2.entries
unfolding release
release-IsShort n w host s h =
    let r = (drain w (involves host) s).1.entries in
    let (d, l) = drain-Outlives (IsShort n) (IsShort-Outlives n) w (involves host) s h in
    let same : (e : PoolEntry)
        → (if involves host e then record e { retention = none } else e).session ≡ e.session =
      λ e.
        if-case (λ (d : PoolEntry). d.session ≡ e.session) (involves host e) (λ _. refl)
          (λ _. refl) in
    (
      Apart-map OtherKey (λ e. if involves host e then record e { retention = none } else e) r
          (λ x y o. rw (same x, same y) o) d,
      omega (
        arith,
        length-map (λ e. if involves host e then record e { retention = none } else e) r,
        l,
      ),
    )

-- the new session takes the place of one, or is one more
pub connect-IsShort :
    (n : ℕ) (w : World) (policy : Option Retention) (x : PooledSession) (s : PoolState)
    → IsShort n s.entries
    → IsShort (suc n) (finish_connection w policy (ok x) s).entries
unfolding finish_connection
connect-IsShort n w policy x s (d, l) =
    let others = keep (λ e. not (has_key x.key e)) s.entries in
    let e : PoolEntry = record { session = x; last_used = w.now; retention = policy } in
    (
      Apart-concat OtherKey others e
          (All-weaken (λ y. (not (has_key x.key y) ≡ true) × Unit {0}) (λ y. OtherKey y e) others
            (λ y h. let (f, _) = h in ground arith)
            (keep-All (λ y. not (has_key x.key y)) (λ y. Unit {0}) s.entries
              (All-intro (λ y. Unit {0}) (λ y. tt) s.entries)))
          (Apart-keep OtherKey (λ y. not (has_key x.key y)) s.entries d),
      omega (
        arith,
        length-append others (e ∷ []),
        length-keep-le (λ y. not (has_key x.key y)) s.entries,
      ),
    )
