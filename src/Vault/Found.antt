-- ===== src/Vault/Found.antt =====
-- src/vault_hosts.rs, `reconcile`: the mirror of an item, and where it stands in the list.
use codex_hosts.Prelude.{
  ◌≡◌, ◌≢◌, refl, sym, ap, ◌∙◌, inl, inr, Bool, true, not, ◌||◌, Option, none, some, List, [], ◌∷◌,
  ◌==◌, any, find, All-both, find-changed, find-none, find-none-any, find-last, find-other,
  find-here, find-keep, arith, Option-cases, All, ==_iff, ==_refl, ==_ne, All-weaken, if-case,
  Apart,
}
use codex_hosts.Model.{Uuid, VaultProvider, HostProfile, vault_provider}
use codex_hosts.Vault.Hosts.{
  HostFacts, ItemKey, eq_provider, is_of, endpoint_changed, apply, new_profile, mirror, has_id,
  retained, upsert, upsert_all,
}
use codex_hosts.Model.{bitwarden, one_password}
use codex_hosts.Vault.Accepted.{OtherItem}

-- a host that the provider does not describe
abbrev pub is_foreign : VaultProvider → HostProfile → Bool
is_foreign p h = not (is_of p h)

-- what an item becomes: its mirror brought up to date, or a new one
abbrev pub served_as : ItemKey × HostFacts → Option HostProfile → HostProfile
served_as a none = mirror a.1 a.0
served_as a (some h) = apply a.1 a.0 h

abbrev pub IsServed : List HostProfile → List HostProfile → ItemKey × HostFacts → Type 0
IsServed before after a =
    find (has_id a.0.id) after ≡ some (served_as a (find (has_id a.0.id) before))

eq_provider_refl : (p : VaultProvider) → eq_provider p p ≡ true
eq_provider_refl bitwarden = refl
eq_provider_refl one_password = refl

pub apply-id : (f : HostFacts) (item : ItemKey) (h : HostProfile) → (apply f item h).id ≡ h.id
unfolding apply
apply-id f item h =
    if-case (λ (g : HostProfile). g.id ≡ h.id) (endpoint_changed f h) (λ _. refl) (λ _. refl)

apply-is_of :
    (f : HostFacts) (item : ItemKey) (h : HostProfile) → is_of item.provider (apply f item h) ≡ true
unfolding apply vault_provider
apply-is_of f item h =
    if-case (λ (g : HostProfile). is_of item.provider g ≡ true) (endpoint_changed f h)
      (λ _. eq_provider_refl item.provider) (λ _. eq_provider_refl item.provider)

pub apply-owned :
    (p : VaultProvider) (f : HostFacts) (item : ItemKey) (h : HostProfile)
    → item.provider ≡ p
    → is_of p (apply f item h) ≡ true
apply-owned p f item h same = sym (ap (λ q. is_of q (apply f item h)) same) ∙ apply-is_of f item h

pub mirror-id : (f : HostFacts) (item : ItemKey) → (mirror f item).id ≡ item.id
unfolding mirror
mirror-id f item = apply-id f item (new_profile item.id f.alias)

mirror-is_of : (f : HostFacts) (item : ItemKey) → is_of item.provider (mirror f item) ≡ true
unfolding mirror
mirror-is_of f item = apply-is_of f item (new_profile item.id f.alias)

pub mirror-owned :
    (p : VaultProvider) (f : HostFacts) (item : ItemKey)
    → item.provider ≡ p
    → is_of p (mirror f item) ≡ true
mirror-owned p f item same = sym (ap (λ q. is_of q (mirror f item)) same) ∙ mirror-is_of f item

-- the item itself is served, and no other item's host is touched
upsert-IsServed :
    (a : ItemKey × HostFacts) (hosts : List HostProfile) → IsServed hosts (upsert a hosts) a
upsert-IsServed a hosts =
    let id = has_id a.0.id in
    if-case (λ hs. find id hs ≡ some (served_as a (find id hosts))) (any id hosts)
      (λ t. elim (Option-cases (find id hosts)) [
        | inl e ↦ let f = find-none-any id hosts e in cc
        | inr (h, e) ↦
            rw (find-here id (apply a.1 a.0) hosts h (λ y. rw (apply-id a.1 a.0 y) refl) e, e) refl
      ])
      (λ n.
        let e = find-none id hosts n in
        rw (find-last id hosts (mirror a.1 a.0) e (rw (mirror-id a.1 a.0) (==_refl a.0.id)), e)
          refl)

upsert-find :
    (a : ItemKey × HostFacts) (id : Uuid) (hosts : List HostProfile)
    → id ≢ a.0.id
    → find (has_id id) (upsert a hosts) ≡ find (has_id id) hosts
upsert-find a id hosts n =
    if-case (λ hs. find (has_id id) hs ≡ find (has_id id) hosts) (any (has_id a.0.id) hosts)
      (λ _.
        find-changed (has_id id) (has_id a.0.id) (apply a.1 a.0) hosts
          (λ x. rw (apply-id a.1 a.0 x) refl)
          (λ x t.
            let e : x.id ≡ a.0.id = (==_iff x.id a.0.id).0 t in ==_ne x.id id (λ q. n (sym q ∙ e))))
      (λ _.
        find-other (has_id id) hosts (mirror a.1 a.0)
          (rw (mirror-id a.1 a.0) (==_ne a.0.id id (λ q. n (sym q)))))

upsert_all-find :
    (id : Uuid) (items : List (ItemKey × HostFacts)) (hosts : List HostProfile)
    → All (λ a. id ≢ a.0.id) items
    → find (has_id id) (upsert_all items hosts) ≡ find (has_id id) hosts
upsert_all-find id [] hosts h = refl
upsert_all-find id (a ∷ items) hosts (n, h) =
    upsert_all-find id items (upsert a hosts) h ∙ upsert-find a id hosts n

pub upsert_all-All :
    (items : List (ItemKey × HostFacts)) (before hosts : List HostProfile)
    → Apart OtherItem items
    → All (λ a. find (has_id a.0.id) hosts ≡ find (has_id a.0.id) before) items
    → All (IsServed before (upsert_all items hosts)) items
upsert_all-All [] before hosts d h = tt
upsert_all-All (a ∷ items) before hosts (o, d) (e, h) = (
  upsert_all-find a.0.id items (upsert a hosts) o
      ∙ upsert-IsServed a hosts
      ∙ ap (λ m. some (served_as a m)) e,
  upsert_all-All items before (upsert a hosts) d (
      All-both (λ b. a.0.id ≢ b.0.id)
        (λ b. find (has_id b.0.id) hosts ≡ find (has_id b.0.id) before)
        (λ b. find (has_id b.0.id) (upsert a hosts) ≡ find (has_id b.0.id) before) items
        (λ b n f. upsert-find a b.0.id hosts (λ q. n (sym q)) ∙ f) o h),
)

pub listed_self :
    (items : List (ItemKey × HostFacts)) → All (λ a. any (λ b. b.0.id == a.0.id) items ≡ true) items
listed_self [] = tt
listed_self (a ∷ items) = (
  rw (==_refl a.0.id) refl,
  All-weaken (λ b. any (λ c. c.0.id == b.0.id) items ≡ true)
      (λ b. any (λ c. c.0.id == b.0.id) (a ∷ items) ≡ true) items (λ b h. ground arith)
      (listed_self items),
)

pub retained-find :
    (p : VaultProvider) (items : List (ItemKey × HostFacts)) (hosts : List HostProfile)
    → All (λ a. find (has_id a.0.id) (retained p items hosts) ≡ find (has_id a.0.id) hosts) items
retained-find p items hosts =
    All-weaken (λ a. any (λ b. b.0.id == a.0.id) items ≡ true)
      (λ a. find (has_id a.0.id) (retained p items hosts) ≡ find (has_id a.0.id) hosts) items
      (λ a h.
        find-keep (has_id a.0.id) (λ x. not (is_of p x) || any (λ b. b.0.id == x.id) items) hosts
          (λ x t.
            let e : x.id ≡ a.0.id = (==_iff x.id a.0.id).0 t in
            let there : any (λ b. b.0.id == x.id) items ≡ true = rw e h in ground arith))
      (listed_self items)
