-- ===== src/Approval/Window/Granted.antt =====
-- No call is approved that the window has not taken a consent for.
use codex_hosts.Prelude.{ℕ, ◌≡◌, true, some, List, [], ◌∷◌, ◌++◌, arith, All, All-weaken}
use codex_hosts.Model.{contains_id, Uuid}
use codex_hosts.Approval.Queue.{approved, Queue, take_status}
use codex_hosts.Approval.Window.{Event, given_by, run, granted}
use codex_hosts.Approval.Queue.Consent.{In, Covered, held, IsCovered, take_status-Covered}
use codex_hosts.Approval.Window.Covered.{step-IsCovered}

-- more ids cover what fewer cover
IsCovered-more : (new old : List Uuid) (q : Queue) → IsCovered old q → IsCovered (new ++ old) q
IsCovered-more new old q h = record {
  calls =
      All-weaken (Covered old) (Covered (new ++ old)) q.calls (λ c k e. In-more new c.id (k e))
        h.calls;
  waiting = All-weaken (In old) (In (new ++ old)) (held q.unlock) (In-more new) h.waiting;
}
  where
    In-more : (new : List Uuid) (i : Uuid) → In old i → In (new ++ old) i
    In-more [] i k = k
    In-more (j ∷ new) i k = ground (arith, In-more new i k)

All-In : (ids more : List Uuid) → All (In (ids ++ more)) ids
All-In [] more = tt
All-In (i ∷ ids) more =
    let rest = All-In ids more in
    (
      ground arith,
      All-weaken (In (ids ++ more)) (In (i ∷ ids ++ more)) ids (λ j k. ground arith) rest,
    )

run-IsCovered : (history : List Event) → IsCovered (granted history) (run history)
unfolding run granted
run-IsCovered [] = record { calls = tt; waiting = tt }
run-IsCovered (e ∷ past) =
    step-IsCovered (granted (e ∷ past)) e (run past) (All-In (given_by e (run past)) (granted past))
      (IsCovered-more (given_by e (run past)) (granted past) (run past) (run-IsCovered past))

-- a call that is answered as approved is one that the window has taken a consent for
pub approved-granted :
    (history : List Event) (now : ℕ) (id : Uuid)
    → (take_status now id (run history)).0 ≡ some approved
    → contains_id id (granted history) ≡ true
approved-granted history now id h =
    (take_status-Covered (granted history) now id (run history) (run-IsCovered history)).1 h
