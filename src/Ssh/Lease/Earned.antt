-- ===== src/Ssh/Lease/Earned.antt =====
-- How long the hops of a chain are kept.
use codex_hosts.Prelude.{
  ◌≡◌, inl, inr, Bool, true, false, Option, none, some, List, [], ◌∷◌, ◌++◌, if◌then◌else◌,
  Option-cases, append_assoc, append-nil, All, All-split, Apart,
}
use codex_hosts.Model.Keeping.{chain_retention}
use codex_hosts.Model.{Retention, HostProfile}
use codex_hosts.Model.Keeping.{NoLonger, Allows, chain_retention_bound, chain_retention_greatest}
use codex_hosts.Ssh.Lease.{hop_retentions, connect_retentions}

-- the later hop is kept no longer than the earlier one
abbrev pub AtMost : Option Retention → Option Retention → Type 0
AtMost earlier none = Unit
AtMost none (some later) = ⊥
AtMost (some earlier) (some later) = NoLonger later earlier

AtMost-of_greatest :
    (m : Option Retention) (r : Retention)
    → (q : Retention) × (m ≡ some q) × NoLonger r q
    → AtMost m (some r)
AtMost-of_greatest m r (q, e, l) = rw e l

prefix-AtMost :
    (h : HostProfile) (c rest : List HostProfile)
    → AtMost (chain_retention (h ∷ c)) (chain_retention (h ∷ c ++ rest))
prefix-AtMost h c rest = elim (Option-cases (chain_retention (h ∷ c ++ rest))) [
  | inl e ↦ rw e tt
  | inr (r, e) ↦ rw e (
      AtMost-of_greatest (chain_retention (h ∷ c)) r (
        chain_retention_greatest h c r
          (All-split (Allows r) (h ∷ c) rest (chain_retention_bound (h ∷ c ++ rest) r e)).0))
]

-- the same for a chain by its last hop
longer-AtMost :
    (before rest : List HostProfile) (h : HostProfile)
    → AtMost (chain_retention (before ++ h ∷ [])) (chain_retention ((before ++ h ∷ []) ++ rest))
longer-AtMost [] rest h = prefix-AtMost h [] rest
longer-AtMost (b ∷ before) rest h = prefix-AtMost b (before ++ h ∷ []) rest

later-AtMost :
    (retain : Bool) (before more hs : List HostProfile) (h : HostProfile)
    → All
        (AtMost (if retain then chain_retention (before ++ h ∷ []) else none))
        (hop_retentions retain ((before ++ h ∷ []) ++ more) hs)
later-AtMost retain before more [] h = tt
later-AtMost true before more (x ∷ hs) h =
    rw (append_assoc (before ++ h ∷ []) more (x ∷ []))
      (longer-AtMost before (more ++ x ∷ []) h, later-AtMost true before (more ++ x ∷ []) hs h)
later-AtMost false before more (x ∷ hs) h =
    rw (append_assoc (before ++ h ∷ []) more (x ∷ []))
      (tt, later-AtMost false before (more ++ x ∷ []) hs h)

hop_retentions-Apart :
    (retain : Bool) (before hs : List HostProfile) → Apart AtMost (hop_retentions retain before hs)
hop_retentions-Apart retain before [] = tt
hop_retentions-Apart retain before (h ∷ hs) = (
  rw (append-nil (before ++ h ∷ [])) at (later-AtMost retain before [] hs h),
  hop_retentions-Apart retain (before ++ h ∷ []) hs,
)

-- Along a chain no hop is kept longer than a hop before it: behind a hop that is not kept none is,
-- and a limit is never longer than one before it.
pub connect_retentions-Apart :
    (retain : Bool) (chain : List HostProfile) → Apart AtMost (connect_retentions retain chain)
unfolding connect_retentions
connect_retentions-Apart retain chain = hop_retentions-Apart retain [] chain
