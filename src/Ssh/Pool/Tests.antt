-- ===== src/Ssh/Pool/Tests.antt =====
-- Concrete runs of the pool: a jump host's session, and one behind it.
use codex_hosts.Prelude.{
  ℕ, ◌≡◌, refl, Option, none, some, [], ◌∷◌, if◌then◌else◌, ◌==◌, codes, ok, err, arith,
}
use codex_hosts.Model.{Uuid, private_key, Retention}
use codex_hosts.Ssh.Key.{SessionKey, ◌=ᵏ◌, HopKey, first, behind}
use codex_hosts.Ssh.Pool.{
  PooledSession, PoolEntry, PoolState, World, empty_pool, drain, is_unretained, begin_connection,
  drop_reservation,
}
use codex_hosts.Ssh.Pool.Calls.{ready, finish_connection, finish_batch_scope, take_unretained}
use codex_hosts.Ssh.Pool.Keys.{HasDistinctKeys}
use codex_hosts.Ssh.Pool.Runs.{
  Traffic, Step, Reached, quiet, start, after, begin, connect, settle, finish_scope,
}
use codex_hosts.Ssh.Pool.Drained.{IsDrained, IsCounted, drain-IsDrained}
use codex_hosts.Ssh.Pool.Room.{IsBegun, begin_connection-IsBegun}
use codex_hosts.Ssh.Pool.Within.{IsWithin, reached-IsWithin}
use codex_hosts.Ssh.Pool.Batches.{here, next, lost-stays_lost}

abbrev hop_key : Uuid → HopKey
hop_key id = record {
  host_id = id;
  address = codes "10.0.0.1";
  port = 22;
  username = codes "admin";
  auth = private_key;
  private_key_path = codes "id_ed25519";
  private_key_version = some (411, 1700000000);
  agent_key_fingerprint = [];
  host_fingerprint = none;
  host_key_algorithm = none;
  vault = none;
}

abbrev gate_key : SessionKey
gate_key = first (hop_key 1)

abbrev inner_key : SessionKey
inner_key = behind gate_key (hop_key 2)

abbrev gate_session : PooledSession
gate_session = record { serial = 1; key = gate_key; parent = none; chain_ids = 1 ∷ [] }

abbrev inner_session : PooledSession
inner_session = record { serial = 2; key = inner_key; parent = some 1; chain_ids = 1 ∷ 2 ∷ [] }

abbrev entry : PooledSession → Option Retention → PoolEntry
entry x policy = record { session = x; last_used = 1000; retention = policy }

abbrev two : PoolState
two = record empty_pool { entries = entry gate_session none ∷ entry inner_session none ∷ [] }

-- the pool, and what stands behind a session, hold it
abbrev now_is : ℕ → World
now_is n = record {
  now = n;
  strong_count = λ x. if x.serial == 1 then 2 else 1;
  is_closed = λ x. x.serial == 2;
}

two-HasDistinctKeys : HasDistinctKeys two.entries
unfolding ◌=ᵏ◌
two-HasDistinctKeys = ((refl, tt), (tt, tt))

two-IsCounted : IsCounted (now_is 1010) two.entries
two-IsCounted = (omega arith, (omega arith, tt))

-- both sessions are taken, the jump host's in the second round
takes_both : (take_unretained (now_is 1010) two).0 ≡ inner_session ∷ gate_session ∷ []
unfolding take_unretained drain ◌=ᵏ◌
takes_both = refl

drain-IsDrained_example :
    let r = drain (now_is 1010) is_unretained two in
    IsDrained (now_is 1010) is_unretained [] two.entries (r.0, r.1.entries)
drain-IsDrained_example =
    drain-IsDrained (now_is 1010) is_unretained two two-HasDistinctKeys two-IsCounted

begin_connection-IsBegun_example : IsBegun (now_is 2000) two (begin_connection (now_is 2000) two)
begin_connection-IsBegun_example =
    begin_connection-IsBegun (now_is 2000) two two-HasDistinctKeys two-IsCounted

-- a call opens a session and gives back its reservation
abbrev one_begun : Traffic
one_begun = record {
  pool = record empty_pool { pending_connections = 1 };
  connecting = 1;
  connected = 0;
}

begins : Step none quiet one_begun
unfolding begin_connection drain
begins = begin quiet (now_is 1000)

abbrev one_open : Traffic
one_open = record {
  pool = finish_connection (now_is 1000) none (ok gate_session) one_begun.pool;
  connecting = 0;
  connected = 1;
}

abbrev one_settled : Traffic
one_settled = record { pool = drop_reservation one_open.pool; connecting = 0; connected = 0 }

opened : Reached one_settled
opened =
    after (after (after start begins) (connect one_begun (now_is 1000) none gate_session 0 refl))
      (settle one_open 0 refl)

reached-IsWithin_example : IsWithin one_settled
reached-IsWithin_example = reached-IsWithin opened

-- the batch 9 has used the inner session, whose connection is closed
abbrev shared : Traffic
shared = record {
  pool = record two { batch_connections = (9, inner_key) ∷ [] };
  connecting = 0;
  connected = 0;
}

abbrev found_lost : Traffic
found_lost = record shared { pool = (ready (now_is 1010) inner_key (some 9) none shared.pool).1 }

abbrev other_batch_over : Traffic
other_batch_over = record found_lost { pool = (finish_batch_scope 8 found_lost.pool).1 }

lost-stays_lost_example :
    (ready (now_is 1020) inner_key (some 9) none other_batch_over.pool).0
    ≡ err (codes "SSH_BATCH_RECONNECT_BLOCKED")
unfolding ◌=ᵏ◌
lost-stays_lost_example =
    lost-stays_lost 9 inner_key shared other_batch_over (entry inner_session none) (now_is 1010)
      (now_is 1020) none none refl refl refl (next here (finish_scope found_lost 8) (λ e. cc))
