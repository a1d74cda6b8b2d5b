-- ===== src/Model/Chain/Sound.antt =====
-- What `resolve_one` finds is a chain.
use codex_hosts.Prelude.{
  ℕ, zero, suc, ◌≤◌, ◌≡◌, ◌≢◌, sym, ap, ◌∙◌, inl, inr, false, not, ◌||◌, none, some, List, [], ◌∷◌,
  ◌++◌, length, find, ok, err_ne_ok, ok_injective, >>=-eq-ok, arith, Bool-cases, Option-cases,
  append_assoc, length-append, All, All-append, ◌↔◌,
}
use codex_hosts.Model.{contains_id, Uuid, ssh, HostProfile, is_ssh}
use codex_hosts.Model.Chain.{by_id, resolve_one}

-- A chain of jump hosts, outermost first, that ends with `host`; each host names the one before it.
pub data Links (hosts : List HostProfile) : HostProfile → List HostProfile → Type 0 where
  direct :
      (host : HostProfile)
      → host.protocol ≡ ssh
      → host.jump_host ≡ none
      → Links hosts host (host ∷ [])
  through :
      (host jump : HostProfile) (id : Uuid) (outer : List HostProfile)
      → host.protocol ≡ ssh
      → host.jump_host ≡ some id
      → find (by_id id) hosts ≡ some jump
      → Links hosts jump outer
      → Links hosts host (outer ++ host ∷ [])

abbrev pub Unused : List Uuid → HostProfile → Type 0
Unused active h = contains_id h.id active ≡ false

-- No two hosts of the list have one id.
abbrev pub OtherHost : HostProfile → HostProfile → Type 0
OtherHost g h = h.id ≢ g.id

abbrev pub HasDistinctIds : List HostProfile → Type 0
HasDistinctIds [] = Unit
HasDistinctIds (h ∷ hs) = All (OtherHost h) hs × HasDistinctIds hs

pub record IsFound (hosts : List HostProfile) (depth : ℕ) (host : HostProfile) (active : List Uuid)
    (outer : List HostProfile) : Type 0 where
  pub links : Links hosts host outer
  pub short : length outer ≤ depth
  pub unused : All (Unused active) outer
  pub distinct : HasDistinctIds outer

abbrev pub Guarded : HostProfile → List Uuid → Type 0
Guarded host active = (host.protocol ≡ ssh) × Unused active host

pub guard_cases :
    (host : HostProfile) (active : List Uuid)
    → (not (is_ssh host.protocol) || contains_id host.id active ≡ false) ↔ Guarded host active
guard_cases host active = ground arith

split-Unused :
    (id : Uuid) (active : List Uuid) (hs : List HostProfile)
    → All (Unused (id ∷ active)) hs
    → All (Unused active) hs × All (λ (h : HostProfile). id ≢ h.id) hs
split-Unused id active [] h = (tt, tt)
split-Unused id active (x ∷ hs) (h, k) =
    let (a, b) = split-Unused id active hs k in ((ground arith, a), ((λ e. ground arith), b))

distinct-concat :
    (hs : List HostProfile) (g : HostProfile)
    → HasDistinctIds hs
    → All (λ (h : HostProfile). g.id ≢ h.id) hs
    → HasDistinctIds (hs ++ g ∷ [])
distinct-concat [] g h k = (tt, tt)
distinct-concat (x ∷ hs) g (h, hs') (k, ks) =
    (All-append (OtherHost x) hs (g ∷ []) h (k, tt), distinct-concat hs g hs' ks)

-- what is left to say when the recursive call has found the hops before `host`
module _ (depth : ℕ) (host jump : HostProfile) (hosts : List HostProfile) (active : List Uuid)
    (id : Uuid) (outer : List HostProfile) (guard : Guarded host active)
    (jumps : host.jump_host ≡ some id) (found : find (by_id id) hosts ≡ some jump) where
  extend-IsFound :
      IsFound hosts depth jump (host.id ∷ active) outer
      → IsFound hosts (suc depth) host active (outer ++ host ∷ [])
  extend-IsFound f =
      let (old, apart) = split-Unused host.id active outer f.unused in
      record {
        links = through host jump id outer guard.0 jumps found f.links;
        short = let l = f.short in omega (arith, length-append outer (host ∷ []));
        unused = All-append (Unused active) outer (host ∷ []) old (guard.1, tt);
        distinct = distinct-concat outer host f.distinct apart;
      }

pub resolve_sound :
    (depth : ℕ) (host : HostProfile) (hosts : List HostProfile) (active : List Uuid)
    (resolved : List HostProfile) (r : List Uuid × List HostProfile)
    → resolve_one depth host hosts active resolved ≡ ok r
    → (outer : List HostProfile) × (r.1 ≡ resolved ++ outer) × IsFound hosts depth host active outer
unfolding resolve_one
resolve_sound zero host hosts active resolved r e = cc
resolve_sound (suc depth) host hosts active resolved r e =
    elim (Bool-cases (not (is_ssh host.protocol) || contains_id host.id active)) [
      | inl bad ↦ absurd (err_ne_ok (rw (bad, resolve_one) at e))
      | inr good ↦
          let guard = (guard_cases host active).0 good in
          elim (Option-cases host.jump_host) [
            | inl alone ↦ (
              host ∷ [],
              ap (λ (q : List Uuid × List HostProfile). q.1)
                  (sym (ok_injective (rw (good, alone, resolve_one) at e))),
              record {
                links = direct host guard.0 alone;
                short = omega arith;
                unused = (guard.1, tt);
                distinct = (tt, tt);
              },
            )
            | inr (id, jumps) ↦ elim (Option-cases (find (by_id id) hosts)) [
              | inl missing ↦ absurd (err_ne_ok (rw (good, jumps, missing, resolve_one) at e))
              | inr (jump, found) ↦
                  let (q, run, same) =
                    >>=-eq-ok (resolve_one depth jump hosts (host.id ∷ active) resolved) _
                      (rw (good, jumps, found, resolve_one) at e) in
                  let (outer, eq, f) =
                    resolve_sound depth jump hosts (host.id ∷ active) resolved q run in
                  (
                    outer ++ host ∷ [],
                    ap (λ (q : List Uuid × List HostProfile). q.1) (sym (ok_injective same))
                        ∙ ap (λ l. l ++ host ∷ []) eq
                        ∙ append_assoc resolved outer (host ∷ []),
                    extend-IsFound depth host jump hosts active id outer guard jumps found f,
                  )
            ]
          ]
    ]
