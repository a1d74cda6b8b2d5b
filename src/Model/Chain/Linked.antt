-- ===== src/Model/Chain/Linked.antt =====
-- What `resolve_ssh_chain` finds: exactly the chains of at most eight distinct SSH hosts.
use codex_hosts.Prelude.{
  ℕ, zero, suc, ◌≤◌, ◌≡◌, ◌≢◌, refl, sym, ap, ◌∙◌, inl, inr, true, false, List, [], ◌∷◌, ◌++◌,
  length, ok, err_ne_ok, ok_injective, >>=-eq-ok, arith, Bool-cases, append_assoc, length-append,
  All, All-split, ◌↔◌,
}
use codex_hosts.Model.{contains_id, Uuid, HostProfile, is_ssh}
use codex_hosts.Model.Chain.{remove_id, max_depth, resolve_one, resolve_ssh_chain}
use codex_hosts.Model.Chain.Sound.{
  Links, direct, through, Unused, OtherHost, HasDistinctIds, guard_cases, resolve_sound,
}

remove_unused :
    (id : Uuid) (active : List Uuid) → contains_id id active ≡ false → remove_id id active ≡ active
remove_unused id [] h = refl
remove_unused id (j ∷ active) h = let rest = remove_unused id active (ground arith) in ground arith

remove_own :
    (id : Uuid) (active : List Uuid)
    → contains_id id active ≡ false
    → remove_id id (id ∷ active) ≡ active
remove_own id active h = let rest = remove_unused id active h in ground arith

join-Unused :
    (id : Uuid) (active : List Uuid) (hs : List HostProfile)
    → All (Unused active) hs
    → All (λ (h : HostProfile). id ≢ h.id) hs
    → All (Unused (id ∷ active)) hs
join-Unused id active [] h k = tt
join-Unused id active (x ∷ hs) (h, hs') (k, ks) = (ground arith, join-Unused id active hs hs' ks)

distinct-split :
    (hs : List HostProfile) (g : HostProfile)
    → HasDistinctIds (hs ++ g ∷ [])
    → HasDistinctIds hs × All (λ (h : HostProfile). g.id ≢ h.id) hs
distinct-split [] g h = (tt, tt)
distinct-split (x ∷ hs) g (k, h) =
    let (a, b) = distinct-split hs g h in
    let (c, d) = All-split (OtherHost x) hs (g ∷ []) k in ((c, a), (d.0, b))

resolve_complete :
    (depth : ℕ) (host : HostProfile) (hosts : List HostProfile) (active : List Uuid)
    (resolved outer : List HostProfile)
    → Links hosts host outer
    → length outer ≤ depth
    → All (Unused active) outer
    → HasDistinctIds outer
    → resolve_one depth host hosts active resolved ≡ ok (active, resolved ++ outer)
unfolding resolve_one
resolve_complete zero host hosts active resolved _ (direct _ is alone) l u d = absurd (omega arith)
resolve_complete zero host hosts active resolved _ (through _ jump id outer is jumps found links) l
      u d =
    absurd (omega (arith, length-append outer (host ∷ [])))
resolve_complete (suc depth) host hosts active resolved _ (direct _ is alone) l (u, _) d =
    let guard = (guard_cases host active).1 (is, u) in ground (arith, remove_own host.id active u)
resolve_complete (suc depth) host hosts active resolved _
      (through _ jump id outer is jumps found links) l u d =
    let (us, (un, _)) = All-split (Unused active) outer (host ∷ []) u in
    let (ds, apart) = distinct-split outer host d in
    let ih =
      resolve_complete depth jump hosts (host.id ∷ active) resolved outer links
        (omega (arith, length-append outer (host ∷ []))) (join-Unused host.id active outer us apart)
        ds in
    let guard = (guard_cases host active).1 (is, un) in
    ground (arith, ih, remove_own host.id active un, append_assoc resolved outer (host ∷ []))

All-Unused-nil : (hs : List HostProfile) → All (Unused []) hs
All-Unused-nil [] = tt
All-Unused-nil (h ∷ hs) = (refl, All-Unused-nil hs)

Links-ssh :
    (hosts outer : List HostProfile) (h : HostProfile)
    → Links hosts h outer
    → is_ssh h.protocol ≡ true
Links-ssh hosts _ h (direct _ is alone) = ap is_ssh is
Links-ssh hosts _ h (through _ jump id outer is jumps found links) = ap is_ssh is

-- The chain that is resolved for a target is the one that follows the jump hosts from it, outermost
-- hop first and the target last, and it is resolved exactly when all its hops are SSH hosts with
-- distinct ids and it has at most eight hops; a loop or a longer chain is refused.
pub resolve_ssh_chain_iff :
    (target : HostProfile) (hosts outer : List HostProfile)
    → (resolve_ssh_chain target hosts ≡ ok outer)
      ↔ (Links hosts target outer × (length outer ≤ max_depth) × HasDistinctIds outer)
unfolding resolve_ssh_chain
resolve_ssh_chain_iff target hosts outer = (sound, complete)
  where
    sound :
        resolve_ssh_chain target hosts ≡ ok outer
        → Links hosts target outer × (length outer ≤ max_depth) × HasDistinctIds outer
    sound e = elim (Bool-cases (is_ssh target.protocol)) [
      | inl is ↦
          let (r, run, same) =
            >>=-eq-ok (resolve_one max_depth target hosts [] []) _
              (rw (is, resolve_ssh_chain) at e) in
          let (c, eq, f) = resolve_sound max_depth target hosts [] [] r run in
          let whole : c ≡ outer = sym eq ∙ ok_injective same in
          rw (← whole) (f.links, f.short, f.distinct)
      | inr no_ssh ↦ absurd (err_ne_ok (rw (no_ssh, resolve_ssh_chain) at e))
    ]

    complete :
        Links hosts target outer × (length outer ≤ max_depth) × HasDistinctIds outer
        → resolve_ssh_chain target hosts ≡ ok outer
    complete (links, short, distinct) = rw (
      Links-ssh hosts outer target links,
      resolve_complete max_depth target hosts [] [] outer links short (All-Unused-nil outer)
          distinct,
      resolve_ssh_chain,
    )
