-- ===== src/Ssh/Lease/Tests.antt =====
-- Concrete calls that hold and open sessions.
use codex_hosts.Prelude.{
  ℕ, ◌≡◌, refl, true, false, Option, none, some, [], ◌∷◌, codes, ok, err, Apart,
}
use codex_hosts.Model.{Uuid, SshAuth, Retention}
use codex_hosts.Ssh.Key.{◌=ᵏ◌, HopKey, first, behind}
use codex_hosts.Ssh.Pool.{PooledSession, PoolState, World, empty_pool, ptr_eq}
use codex_hosts.Ssh.Pool.Calls.{ready, finish_connection, forget, touch, evict}
use codex_hosts.Ssh.Pool.Keys.{HasDistinctKeys}
use codex_hosts.Ssh.Key.{Admission}
use codex_hosts.Model.Samples.{gate, inner}
use codex_hosts.Ssh.Lease.{ChainLease, drop_lease, connect_retentions, Visit, pooled_connection}
use codex_hosts.Ssh.Lease.Ended.{ended-IsGone}
use codex_hosts.Ssh.Lease.Settled.{IsSettled, pooled_connection-IsSettled}
use codex_hosts.Ssh.Lease.Earned.{AtMost, connect_retentions-Apart}

abbrev hop_key : Uuid → HopKey
hop_key id = record {
  host_id = id;
  address = codes "10.0.0.2";
  port = 22;
  username = codes "root";
  auth = SshAuth.password;
  private_key_path = [];
  private_key_version = none;
  agent_key_fingerprint = [];
  host_fingerprint = some (codes "SHA256:a");
  host_key_algorithm = none;
  vault = some (Admission.one_password 5 (codes "r1"));
}

abbrev kept_session : PooledSession
kept_session = record { serial = 1; key = first (hop_key 1); parent = none; chain_ids = 1 ∷ [] }

abbrev per_call_session : PooledSession
per_call_session = record {
  serial = 2;
  key = behind (first (hop_key 1)) (hop_key 2);
  parent = some 1;
  chain_ids = 1 ∷ 2 ∷ [];
}

abbrev idle_hour : Option Retention
idle_hour = some (Retention.idle 3600)

abbrev pool : PoolState
pool = record empty_pool {
  entries =
      record { session = kept_session; last_used = 10; retention = idle_hour }
      ∷ record { session = per_call_session; last_used = 10; retention = none }
      ∷ [];
}

abbrev lease : ChainLease
lease = record {
  hops = (kept_session, idle_hour) ∷ (per_call_session, none) ∷ [];
  batch_scope = none;
}

abbrev at_time : ℕ → World
at_time n = record { now = n; strong_count = λ _. 1; is_closed = λ _. false }

distinct : HasDistinctKeys pool.entries
unfolding ◌=ᵏ◌
distinct = ((refl, tt), (tt, tt))

-- Another session under the key of the hop that has ended.
abbrev new_session : PooledSession
new_session = record per_call_session { serial = 3 }

-- the pool after the call, with the hop opened again
abbrev reopened : PoolState
reopened =
    finish_connection (at_time 30) none (ok new_session) (drop_lease (at_time 20) lease pool).1

disconnects : (drop_lease (at_time 20) lease pool).0 ≡ per_call_session ∷ []
unfolding drop_lease touch evict forget ◌=ᵏ◌
disconnects = refl

-- the same hop is held a second time, by a pool that has it again
found_again : (ready (at_time 31) per_call_session.key none none reopened).0 ≡ ok (some new_session)
unfolding ready finish_connection drop_lease touch evict forget ◌=ᵏ◌
found_again = refl

-- a pool in which a new session has taken the place of the one that the call holds
abbrev replaced : PoolState
replaced = record empty_pool {
  entries =
      record { session = kept_session; last_used = 10; retention = idle_hour }
      ∷ record { session = new_session; last_used = 15; retention = none }
      ∷ [];
}

replaced_distinct : HasDistinctKeys replaced.entries
unfolding ◌=ᵏ◌
replaced_distinct = ((refl, tt), (tt, tt))

finds_new :
    (ready (at_time 30) per_call_session.key none none (drop_lease (at_time 20) lease replaced).1).0
    ≡ ok (some new_session)
unfolding ready drop_lease touch evict forget ◌=ᵏ◌
finds_new = refl

ended-IsGone_example : ptr_eq new_session per_call_session ≡ false
ended-IsGone_example =
    ended-IsGone (at_time 20) (at_time 30) lease replaced ((kept_session, idle_hour) ∷ []) []
      per_call_session new_session none none replaced_distinct refl refl finds_new

abbrev visit : Visit
visit = record { first = at_time 20; second = at_time 21; third = at_time 22; last = at_time 25 }

pooled_connection-IsSettled_example : IsSettled (some 9) (first (hop_key 3)) 0 (
    pooled_connection visit (first (hop_key 3)) none (some 9) none (err (codes "AUTH_FAILED")) pool)
pooled_connection-IsSettled_example =
    pooled_connection-IsSettled visit (first (hop_key 3)) none (some 9) none
      (err (codes "AUTH_FAILED")) pool

-- hops without a limit in common: the second is kept for five minutes, as the first allows
connect_retentions-Apart_example : Apart AtMost (connect_retentions true (gate ∷ inner ∷ []))
connect_retentions-Apart_example = connect_retentions-Apart true (gate ∷ inner ∷ [])
