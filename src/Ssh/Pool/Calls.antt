-- ===== src/Ssh/Pool/Calls.antt =====
-- src/ssh.rs, `SessionPool`: the operations of the calls that share the pool.
use codex_hosts.Prelude.{
  ℕ, Bool, true, false, not, ◌&&◌, Option, none, some, List, [], ◌∷◌, ◌++◌, if◌then◌else◌, ◌==◌,
  Text, codes, any, find, keep, remove_first, update_first, Result, ok, err, count, map,
}
use codex_hosts.Model.{contains_id, Uuid, Retention, is_some}
use codex_hosts.Ssh.Key.{SessionKey, ◌=ᵏ◌}
use codex_hosts.Ssh.Pool.{
  PooledSession, PoolEntry, PoolState, World, ptr_eq, idle_expired, has_key, take_keys, drain,
  is_unretained,
}

abbrev pub is_pair : Uuid → SessionKey → Uuid × SessionKey → Bool
is_pair scope key p = p.0 == scope && p.1 =ᵏ key

-- `contains` and `insert` of the sets of pairs
abbrev pub has_pair : Uuid → SessionKey → List (Uuid × SessionKey) → Bool
has_pair scope key ps = any (is_pair scope key) ps

abbrev pub add_pair : Uuid → SessionKey → List (Uuid × SessionKey) → List (Uuid × SessionKey)
add_pair scope key ps = if has_pair scope key ps then ps else (scope, key) ∷ ps

abbrev pub in_scope : Option Uuid → SessionKey → List (Uuid × SessionKey) → Bool
in_scope none key ps = false
in_scope (some scope) key ps = has_pair scope key ps

abbrev pub add_in_scope :
    Option Uuid → SessionKey → List (Uuid × SessionKey) → List (Uuid × SessionKey)
add_in_scope none key ps = ps
add_in_scope (some scope) key ps = add_pair scope key ps

abbrev pub pooled : SessionKey → PoolState → Option PoolEntry
pooled key s = find (has_key key) s.entries

-- what `ready` does where the session under the key is closed, and where it is not
abbrev pub lost_entry :
    SessionKey → Option Uuid → PoolState → Result Text (Option PooledSession) × PoolState
lost_entry key scope s =
    let s' = record s { entries = remove_first (has_key key) s.entries } in
    if in_scope scope key s.batch_connections
    then (
      err (codes "SSH_BATCH_RECONNECT_BLOCKED"),
      record s' { blocked_reconnects = add_in_scope scope key s.blocked_reconnects },
    )
    else (ok none, s')

abbrev pub used_entry :
    World
    → SessionKey
    → Option Uuid
    → Option Retention
    → PooledSession
    → PoolState
    → Result Text (Option PooledSession) × PoolState
used_entry w key scope policy session s = (
  ok (some session),
  record s {
    entries =
        update_first (has_key key) (λ e. record e { last_used = w.now; retention = policy })
          s.entries;
    batch_connections = add_in_scope scope key s.batch_connections;
  },
)

abbrev pub ready_entry :
    World
    → SessionKey
    → Option Uuid
    → Option Retention
    → Option PoolEntry
    → PoolState
    → Result Text (Option PooledSession) × PoolState
ready_entry w key scope policy none s = (ok none, s)
ready_entry w key scope policy (some e) s =
    if w.is_closed e.session
    then lost_entry key scope s
    else used_entry w key scope policy e.session s

unfoldable pub ready :
    World
    → SessionKey
    → Option Uuid
    → Option Retention
    → PoolState
    → Result Text (Option PooledSession) × PoolState
ready w key scope policy s =
    if in_scope scope key s.blocked_reconnects
    then (err (codes "SSH_BATCH_RECONNECT_BLOCKED"), s)
    else ready_entry w key scope policy (pooled key s) s

-- `entries.insert`: one entry for each key
unfoldable pub finish_connection :
    World → Option Retention → Result Text PooledSession → PoolState → PoolState
finish_connection w policy (err _) s = s
finish_connection w policy (ok session) s = record s {
  entries =
      keep (λ e. not (has_key session.key e)) s.entries
      ++ record { session = session; last_used = w.now; retention = policy } ∷ [];
}

-- whether the pool holds this very session under its key
abbrev pub holds : PoolState → PooledSession → Bool
holds s session = elim (pooled session.key s) [ none ↦ false | some e ↦ ptr_eq e.session session ]

unfoldable pub forget : PooledSession → PoolState → PoolState
forget session s =
    if holds s session
    then record s { entries = remove_first (has_key session.key) s.entries }
    else s

abbrev pub touch_one : World → PooledSession → PoolEntry → PoolEntry
touch_one w session e = if ptr_eq e.session session then record e { last_used = w.now } else e

unfoldable pub touch : World → List PooledSession → PoolState → PoolState
touch w [] s = s
touch w (x ∷ xs) s =
    touch w xs (record s { entries = update_first (has_key x.key) (touch_one w x) s.entries })

unfoldable pub block_reconnect : Option Uuid → SessionKey → PoolState → PoolState
block_reconnect scope key s = record s {
  blocked_reconnects = add_in_scope scope key s.blocked_reconnects;
}

unfoldable pub record_batch_connection : Option Uuid → SessionKey → PoolState → PoolState
record_batch_connection scope key s = record s {
  batch_connections = add_in_scope scope key s.batch_connections;
}

-- `entries.get(&key).is_some_and(|entry| entry.retention.is_none())`
abbrev pub unretained_under : SessionKey → List PoolEntry → Bool
unretained_under key es = elim (find (has_key key) es) [ none ↦ false | some e ↦ is_unretained e ]

abbrev pub release_keys : List SessionKey → List PoolEntry → List PooledSession × List PoolEntry
release_keys [] es = ([], es)
release_keys (k ∷ ks) es =
    let taken = if unretained_under k es then take_keys (k ∷ []) es else ([], es) in
    let rest = release_keys ks taken.1 in (taken.0 ++ rest.0, rest.1)

abbrev pub scope_keys : Uuid → PoolState → List SessionKey
scope_keys scope s = map (λ p. p.1) (keep (λ p. p.0 == scope) s.batch_connections)

unfoldable pub finish_batch_scope : Uuid → PoolState → List PooledSession × PoolState
finish_batch_scope scope s =
    let r = release_keys (scope_keys scope s) s.entries in
    (
      r.0,
      record s {
        entries = r.1;
        blocked_reconnects = keep (λ p. not (p.0 == scope)) s.blocked_reconnects;
        batch_connections = keep (λ p. not (p.0 == scope)) s.batch_connections;
      },
    )

unfoldable pub evict : List PooledSession → PoolState → List PooledSession × PoolState
evict [] s = ([], s)
evict (x ∷ xs) s =
    let rest = evict xs (forget x s) in (if holds s x then x ∷ rest.0 else rest.0, rest.1)

abbrev pub involves : Option Uuid → PoolEntry → Bool
involves none e = true
involves (some id) e = contains_id id e.session.chain_ids

-- the sessions that are free, and how many lost their retention
unfoldable pub release : World → Option Uuid → PoolState → List PooledSession × ℕ × PoolState
release w host s =
    let r = drain w (involves host) s in
    (
      r.0,
      count (λ e. involves host e && is_some e.retention) r.1.entries,
      record r.1 {
        entries =
            map (λ e. if involves host e then record e { retention = none } else e) r.1.entries;
      },
    )

abbrev pub host_keys : Uuid → PoolState → List SessionKey
host_keys id s = map (λ e. e.session.key) (keep (involves (some id)) s.entries)

unfoldable pub invalidate_host : Uuid → PoolState → List PooledSession × PoolState
invalidate_host id s =
    let r = take_keys (host_keys id s) s.entries in (r.0, record s { entries = r.1 })

unfoldable pub take_unretained : World → PoolState → List PooledSession × PoolState
take_unretained w s = drain w is_unretained s

unfoldable pub idle_sessions : World → PoolState → List PooledSession × PoolState
idle_sessions w s = drain w (idle_expired w) s
