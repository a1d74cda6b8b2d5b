-- ===== src/Vault/Served.antt =====
-- What `reconcile` makes of the saved hosts.
use codex_hosts.Prelude.{
  refl, ◌+◌, ◌≡◌, ◌∙◌, Bool, true, not, ◌||◌, List, ◌==◌, length, any, keep, length-parts, keep-All,
  All-intro, keep-keep, arith, length-append, All, All-keep, All-weaken, Apart,
}
use codex_hosts.Model.{VaultProvider, HostProfile}
use codex_hosts.Vault.Hosts.{
  upsert_all, ItemKey, HostFacts, is_of, Listed, Reconciled, has_id, mirrored_first, accept,
  taken_by_others, retained, accepted_items, reconcile,
}
use codex_hosts.Vault.Accepted.{
  accept-All, accept-Apart, OtherKey, mirrored_first-All, mirrored_first-Apart, accept-IsNamed,
  accept-told,
}
use codex_hosts.Vault.Described.{IsServedBy, IsServed-IsServedBy}
use codex_hosts.Vault.Fates.{
  Fate, names_other, AreNamed, accepted_items-Fate, accepted_items-AreNamed,
}
use codex_hosts.Vault.Found.{is_foreign, IsServed, upsert_all-All, retained-find, listed_self}
use codex_hosts.Vault.Upserts.{IsApart, IsOwn, IsKnown, upsert_all-foreign, upsert_all-IsKnown}

pub record IsReconciled (p : VaultProvider) (hosts : List HostProfile) (listed : List Listed)
    (accepted : List (ItemKey × HostFacts)) (r : Reconciled × List HostProfile) : Type 0 where
  pub foreign : keep (is_foreign p) r.1 ≡ keep (is_foreign p) hosts
  pub served : All (IsServedBy hosts r.1) accepted
  pub known : All (IsKnown p accepted) r.1
  pub fates : All (Fate (names_other p hosts) (accepted, r.0.problems)) listed
  pub counted : r.0.hosts ≡ length accepted
  pub told : r.0.hosts + length r.0.problems ≡ length listed
  pub named : AreNamed p hosts accepted

mirrored_first-length :
    (hosts : List HostProfile) (listed : List Listed)
    → length (mirrored_first hosts listed) ≡ length listed
mirrored_first-length hosts listed =
    length-append (keep (λ i. any (has_id i.key.id) hosts) listed)
      (keep (λ i. not (any (has_id i.key.id) hosts)) listed)
    ∙ length-parts (λ i. any (has_id i.key.id) hosts) listed

-- Bringing the mirrors in line with a listing of one provider's items, whose ids are all different
-- and are no id of a host from elsewhere. Hosts from elsewhere stay as they are, in their order. There
-- are accepted items, and each of them is served: the profile with its id has the item's name, address,
-- port, protocol, user, description and tags and refers to the item; where there was one before, its
-- jump host, privileges and other local settings stay, and the trust in its host key stays just if the
-- endpoint does; where there was none, it is not trusted. There is no other host of the provider. Each
-- item of the listing is accepted, or told of with its own problem, or told of because its name is in
-- use by a host from elsewhere or an accepted item; and no two accepted items, nor one and a host from
-- elsewhere, have one name, all but for the case of letters.
pub reconcile-IsReconciled :
    (p : VaultProvider) (hosts : List HostProfile) (listed : List Listed)
    → Apart (λ i j. OtherKey i.key j.key) listed
    → All (λ i. IsOwn p hosts i.key) listed
    → (accepted : List (ItemKey × HostFacts)) × IsReconciled p hosts listed accepted
        (reconcile p hosts listed)
unfolding reconcile accepted_items
reconcile-IsReconciled p hosts listed distinct own =
    let taken = taken_by_others p hosts in
    let order = mirrored_first hosts listed in
    let items = (accept taken order).0 in
    let known_to : HostProfile → Bool = λ h. not (is_of p h) || any (λ a. a.0.id == h.id) items in
    let own_items =
      accept-All (IsOwn p hosts) taken order
        (mirrored_first-All (λ i. IsOwn p hosts i.key) hosts listed own) in
    (
      items,
      record {
        foreign =
            upsert_all-foreign p items (retained p items hosts) (
              All-weaken (λ a. IsOwn p hosts a.0) (λ a. IsOwn p (retained p items hosts) a.0) items
                (λ a (e, k). (e, All-keep (IsApart p a.0) known_to hosts k)) own_items)
            ∙ keep-keep known_to (is_foreign p) hosts (λ h f. ground arith);
        served =
            All-weaken (IsServed hosts (upsert_all items (retained p items hosts)))
              (IsServedBy hosts (upsert_all items (retained p items hosts))) items
              (λ a k. IsServed-IsServedBy hosts (upsert_all items (retained p items hosts)) a k)
              (upsert_all-All items hosts (retained p items hosts)
                (accept-Apart taken order (mirrored_first-Apart hosts listed distinct))
                (retained-find p items hosts));
        known = upsert_all-IsKnown p items items (retained p items hosts) (listed_self items) (
            All-weaken (λ h. (known_to h ≡ true) × Unit {0}) (IsKnown p items)
              (retained p items hosts) (λ h k. k.0)
              (keep-All known_to (λ _. Unit {0}) hosts
                (All-intro (λ _. Unit {0}) (λ _. tt) hosts)));
        fates = accepted_items-Fate p hosts listed;
        counted = refl;
        told = accept-told taken order ∙ mirrored_first-length hosts listed;
        named = accepted_items-AreNamed p hosts items (accept-IsNamed taken order);
      },
    )
