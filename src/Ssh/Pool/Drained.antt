-- ===== src/Ssh/Pool/Drained.antt =====
-- `drain` takes what is selected and no call holds, jump hops with the sessions behind them.
use codex_hosts.Prelude.{
  ℕ, zero, suc, ◌+◌, ◌≤◌, ◌<◌, ◌≡◌, refl, sym, ◌∙◌, Bool, true, false, not, ◌&&◌, List, [], ◌++◌,
  is_empty, length, keep, count-parts, length-parts, keep-All, keep-nil, All-of_map, keep-keep,
  is_empty-map, length-pos, arith, All, All-append, count, count-append, map, All-keep, All-weaken,
  if-case, Apart-keep,
}
use codex_hosts.Ssh.Pool.Keys.{OtherKey, HasDistinctKeys, take_keys-keep}
use codex_hosts.Ssh.Pool.{
  PooledSession, PoolEntry, PoolState, World, has_parent, free_after, drain_rounds, drain,
}

abbrev pub sessions : List PoolEntry → List PooledSession
sessions es = map (λ e. e.session) es

-- a session that is counted by the pool and by every session behind it
abbrev pub IsCountedIn : World → List PooledSession → List PoolEntry → PoolEntry → Type 0
IsCountedIn w gone es e =
    1 + count (has_parent e.session) gone + count (has_parent e.session) (sessions es)
    ≤ w.strong_count e.session

abbrev pub IsCounted : World → List PoolEntry → Type 0
IsCounted w es = All (IsCountedIn w [] es) es

-- all that hold the session are the pool and sessions that are taken
abbrev pub IsLoose : World → List PooledSession → List PoolEntry → PooledSession → Type 0
IsLoose w gone es g =
    (w.strong_count g ≡ 1 + count (has_parent g) gone) × (count (has_parent g) (sessions es) ≡ 0)

pub record IsDraining (w : World) (gone : List PooledSession) (es : List PoolEntry) : Type 0 where
  pub distinct : HasDistinctKeys es
  pub counted : All (IsCountedIn w gone es) es
  pub loose : All (IsLoose w gone es) gone

-- one round: the entries that pass, and the others
abbrev pub chosen : World → (PoolEntry → Bool) → List PooledSession → PoolEntry → Bool
chosen w include gone e = include e && free_after w gone e

chosen-free :
    (w : World) (include : PoolEntry → Bool) (gone : List PooledSession) (e : PoolEntry)
    → chosen w include gone e ≡ true
    → w.strong_count e.session ≡ 1 + count (has_parent e.session) gone
chosen-free w include gone e h = ground arith

round-IsDraining :
    (w : World) (include : PoolEntry → Bool) (gone : List PooledSession) (es : List PoolEntry)
    → IsDraining w gone es
    → IsDraining w
        (gone ++ sessions (keep (chosen w include gone) es))
        (keep (λ e. not (chosen w include gone e)) es)
round-IsDraining w include gone es d =
    let p = chosen w include gone in
    let out = keep p es in
    let rest = keep (λ e. not (p e)) es in
    let parts : (g : PooledSession)
        → count (has_parent g) (sessions out) + count (has_parent g) (sessions rest)
          ≡ count (has_parent g) (sessions es) =
      λ g. count-parts p (has_parent g) (λ e. e.session) es in
    let more : (g : PooledSession)
        → count (has_parent g) (gone ++ sessions out)
          ≡ count (has_parent g) gone + count (has_parent g) (sessions out) =
      λ g. count-append (has_parent g) gone (sessions out) in
    record {
      distinct = Apart-keep OtherKey (λ e. not (p e)) es d.distinct;
      counted =
          All-keep (IsCountedIn w (gone ++ sessions out) rest) (λ e. not (p e)) es
            (All-weaken (IsCountedIn w gone es) (IsCountedIn w (gone ++ sessions out) rest) es
              (λ e h. omega (arith, parts e.session, more e.session)) d.counted);
      loose =
          All-append (IsLoose w (gone ++ sessions out) rest) gone (sessions out)
            (All-weaken (IsLoose w gone es) (IsLoose w (gone ++ sessions out) rest) gone
              (λ g h. (omega (arith, parts g, more g, h.0, h.1), omega (arith, parts g, h.1)))
              d.loose)
            (All-of_map (IsLoose w (gone ++ sessions out) rest) (λ e. e.session) out
              (All-weaken (λ e. (p e ≡ true) × IsCountedIn w gone es e)
                (λ e. IsLoose w (gone ++ sessions out) rest e.session) out
                (λ e h.
                  let f : w.strong_count e.session ≡ 1 + count (has_parent e.session) gone =
                    chosen-free w include gone e h.0 in
                  (
                    omega (arith, parts e.session, more e.session, h.1, f),
                    omega (arith, parts e.session, h.1, f),
                  ))
                (keep-All p (IsCountedIn w gone es) es d.counted)));
    }

-- what is left is not selected, and what was never selected is left as it was
pub record IsDrained (w : World) (include : PoolEntry → Bool) (gone : List PooledSession)
    (es : List PoolEntry) (r : List PooledSession × List PoolEntry) : Type 0 where
  pub moved :
      (q : PooledSession → Bool)
      → count q r.0 + count q (sessions r.1) ≡ count q gone + count q (sessions es)
  pub safe : IsDraining w r.0 r.1
  pub quiet : All (λ e. chosen w include r.0 e ≡ false) r.1
  pub untouched : keep (λ e. not (include e)) r.1 ≡ keep (λ e. not (include e)) es

drain_rounds-IsDrained :
    (n : ℕ) (w : World) (include : PoolEntry → Bool) (gone : List PooledSession)
    (es : List PoolEntry)
    → length es < n
    → IsDraining w gone es
    → IsDrained w include gone es (drain_rounds n w include gone es)
drain_rounds-IsDrained zero w include gone es l d = ground arith
drain_rounds-IsDrained (suc n) w include gone es l d =
    let p = chosen w include gone in
    let rest = keep (λ e. not (p e)) es in
    let round = take_keys-keep p es d.distinct in
    let ih : length rest < n
        → IsDrained w include (gone ++ sessions (keep p es)) rest
            (drain_rounds n w include (gone ++ sessions (keep p es)) rest) =
      λ k.
        drain_rounds-IsDrained n w include (gone ++ sessions (keep p es)) rest k
          (round-IsDraining w include gone es d) in
    rw round (
      if-case (IsDrained w include gone es) (is_empty (map (λ e. e.session.key) (keep p es)))
        (λ e. record {
          moved = λ q. refl;
          safe = d;
          quiet = keep-nil p es (sym (is_empty-map (λ e. e.session.key) (keep p es)) ∙ e);
          untouched = refl;
        })
        (λ e.
          let some_taken =
            length-pos (keep p es) (sym (is_empty-map (λ e. e.session.key) (keep p es)) ∙ e) in
          let i = ih (omega (arith, length-parts p es, some_taken)) in
          record {
            moved = λ q. omega (
              arith,
              i.moved q,
              count-append q gone (sessions (keep p es)),
              count-parts p q (λ e. e.session) es,
            );
            safe = i.safe;
            quiet = i.quiet;
            untouched =
                i.untouched
                ∙ keep-keep (λ e. not (p e)) (λ e. not (include e)) es (λ x h. ground arith);
          }))

-- A sweep of a pool whose keys are distinct, where the reference count of each pooled session counts
-- the pool and the pooled sessions behind it, ends with no selected session that is free; the
-- sessions it takes and those it leaves are the pool's; all that
-- holds a session it takes is the pool and sessions behind it that it takes too, so that no session
-- in the pool is behind a taken one; and the sessions that are not selected are left as they were.
pub drain-IsDrained :
    (w : World) (include : PoolEntry → Bool) (s : PoolState)
    → HasDistinctKeys s.entries
    → IsCounted w s.entries
    → let r = drain w include s in IsDrained w include [] s.entries (r.0, r.1.entries)
unfolding drain
drain-IsDrained w include s d c =
    drain_rounds-IsDrained (suc (length s.entries)) w include [] s.entries (omega arith)
      record { distinct = d; counted = c; loose = tt }
