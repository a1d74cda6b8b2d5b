-- ===== src/Model/Keeping.antt =====
-- src/model.rs, `chain_retention`: how long sessions of a chain are kept.
mod Tests
use codex_hosts.Prelude.{
  ◌≤◌, ◌≡◌, refl, inl, inr, Option, none, some, List, [], ◌∷◌, arith, Option-cases, none_ne_some,
  All, min,
}
use codex_hosts.Model.{HostProfile, Retention, retention, effective_auth_persistence}

-- the `match` on what the hops so far keep and what this hop keeps
abbrev pub stricter : Option Retention → Retention → Retention
stricter none hop = hop
stricter (some Retention.session) hop = hop
stricter (some (Retention.idle a)) Retention.session = Retention.idle a
stricter (some (Retention.idle a)) (Retention.idle b) = Retention.idle (min a b)

pub hop_retention : HostProfile → Option Retention
hop_retention host = retention (effective_auth_persistence host)

pub retention_from : Option Retention → List HostProfile → Option Retention
retention_from kept [] = kept
retention_from kept (host ∷ chain) = elim (hop_retention host) [
  | none ↦ none
  | some hop ↦ retention_from (some (stricter kept hop)) chain
]

pub chain_retention : List HostProfile → Option Retention
chain_retention chain = retention_from none chain

-- `r` keeps a session no longer than `q` does.
abbrev pub NoLonger : Retention → Retention → Type 0
NoLonger r Retention.session = Unit
NoLonger Retention.session (Retention.idle b) = ⊥
NoLonger (Retention.idle a) (Retention.idle b) = a ≤ b

abbrev pub Allows : Retention → HostProfile → Type 0
Allows r host = (q : Retention) × (hop_retention host ≡ some q) × NoLonger r q

NoLonger-refl : (r : Retention) → NoLonger r r
NoLonger-refl Retention.session = tt
NoLonger-refl (Retention.idle a) = omega arith

NoLonger-trans : (r q p : Retention) → NoLonger r q → NoLonger q p → NoLonger r p
NoLonger-trans r q Retention.session a b = tt
NoLonger-trans r Retention.session (Retention.idle p) a b = elim b [ ]
NoLonger-trans Retention.session (Retention.idle q) (Retention.idle p) a b = elim a [ ]
NoLonger-trans (Retention.idle r) (Retention.idle q) (Retention.idle p) a b = omega arith

stricter-NoLonger_old : (k hop : Retention) → NoLonger (stricter (some k) hop) k
stricter-NoLonger_old Retention.session hop = tt
stricter-NoLonger_old (Retention.idle a) Retention.session = omega arith
stricter-NoLonger_old (Retention.idle a) (Retention.idle b) = omega arith

stricter-NoLonger_hop : (k : Option Retention) (hop : Retention) → NoLonger (stricter k hop) hop
stricter-NoLonger_hop none hop = NoLonger-refl hop
stricter-NoLonger_hop (some Retention.session) hop = NoLonger-refl hop
stricter-NoLonger_hop (some (Retention.idle a)) Retention.session = tt
stricter-NoLonger_hop (some (Retention.idle a)) (Retention.idle b) = omega arith

from_bound :
    (chain : List HostProfile) (k r : Retention)
    → retention_from (some k) chain ≡ some r
    → NoLonger r k × All (Allows r) chain
unfolding retention_from
from_bound [] k r h = (subst_self k r (ground arith), tt)
  where
    subst_self : (k r : Retention) → k ≡ r → NoLonger r k
    subst_self k r e = rw e (NoLonger-refl r)
from_bound (host ∷ chain) k r h = elim (Option-cases (hop_retention host)) [
  | inl e ↦ absurd (none_ne_some (rw (e, retention_from) at h))
  | inr (hop, e) ↦
      let (le, rest) = from_bound chain (stricter (some k) hop) r (rw (e, retention_from) at h) in
      (
        NoLonger-trans r (stricter (some k) hop) k le (stricter-NoLonger_old k hop),
        (
          (
            hop,
            e,
            NoLonger-trans r (stricter (some k) hop) hop le (stricter-NoLonger_hop (some k) hop),
          ),
          rest,
        ),
      )
]

-- If a chain is kept at all, every hop of it keeps sessions, and at least as long.
pub chain_retention_bound :
    (chain : List HostProfile) (r : Retention)
    → chain_retention chain ≡ some r
    → All (Allows r) chain
unfolding chain_retention retention_from
chain_retention_bound [] r h = tt
chain_retention_bound (host ∷ chain) r h = elim (Option-cases (hop_retention host)) [
  | inl e ↦ absurd (none_ne_some (rw (e, retention_from) at h))
  | inr (hop, e) ↦
      let (le, rest) = from_bound chain hop r (rw (e, retention_from) at h) in ((hop, e, le), rest)
]

NoLonger-stricter :
    (r k hop : Retention) → NoLonger r k → NoLonger r hop → NoLonger r (stricter (some k) hop)
NoLonger-stricter r Retention.session hop a b = b
NoLonger-stricter r (Retention.idle k) Retention.session a b = a
NoLonger-stricter Retention.session (Retention.idle k) (Retention.idle h) a b = elim a [ ]
NoLonger-stricter (Retention.idle r) (Retention.idle k) (Retention.idle h) a b = omega arith

from_greatest :
    (chain : List HostProfile) (k r : Retention)
    → NoLonger r k
    → All (Allows r) chain
    → (q : Retention) × (retention_from (some k) chain ≡ some q) × NoLonger r q
unfolding retention_from
from_greatest [] k r h a = (k, refl, h)
from_greatest (host ∷ chain) k r h ((hop, e, le), a) =
    rw (e, retention_from)
      (from_greatest chain (stricter (some k) hop) r (NoLonger-stricter r k hop h le) a)

-- A chain whose hops all keep sessions is kept, and as long as every bound that all hops allow.
pub chain_retention_greatest :
    (host : HostProfile) (chain : List HostProfile) (r : Retention)
    → All (Allows r) (host ∷ chain)
    → (q : Retention) × (chain_retention (host ∷ chain) ≡ some q) × NoLonger r q
unfolding chain_retention retention_from
chain_retention_greatest host chain r ((hop, e, le), a) =
    rw (e, retention_from) (from_greatest chain hop r le a)
