-- ===== src/Vault/Upserts.antt =====
-- What each accepted item does to the hosts.
use codex_hosts.Prelude.{
  ◌≡◌, ◌≢◌, refl, ap, ◌∙◌, inl, inr, ◌⊎◌, true, false, ◌||◌, List, [], ◌∷◌, ◌==◌, any, keep,
  keep-update, keep-last, arith, All, All-append, ==_iff, All-update_found, All-weaken, if-case,
}
use codex_hosts.Model.{Uuid, VaultProvider, HostProfile}
use codex_hosts.Vault.Hosts.{HostFacts, ItemKey, is_of, apply, mirror, has_id, upsert, upsert_all}
use codex_hosts.Vault.Found.{is_foreign, apply-id, apply-owned, mirror-id, mirror-owned}

-- no host from elsewhere has the id of the item, which is the provider's
abbrev pub IsApart : VaultProvider → ItemKey → HostProfile → Type 0
IsApart p item h = (is_of p h ≡ true) ⊎ (h.id ≢ item.id)

not_foreign : (p : VaultProvider) (h : HostProfile) → is_of p h ≡ true → is_foreign p h ≡ false
not_foreign p h e = rw e refl

upsert-foreign :
    (p : VaultProvider) (a : ItemKey × HostFacts) (hosts : List HostProfile)
    → a.0.provider ≡ p
    → All (IsApart p a.0) hosts
    → keep (is_foreign p) (upsert a hosts) ≡ keep (is_foreign p) hosts
upsert-foreign p a hosts same h =
    let q = is_foreign p in
    if-case (λ hs. keep q hs ≡ keep q hosts) (any (has_id a.0.id) hosts)
      (λ _. keep-update q (has_id a.0.id) (apply a.1 a.0) hosts (
        All-weaken (IsApart p a.0)
          (λ x. has_id a.0.id x ≡ true → (q x ≡ false) × (q (apply a.1 a.0 x) ≡ false)) hosts
          (λ x o t. (own a p x o t, not_foreign p (apply a.1 a.0 x) (apply-owned p a.1 a.0 x same)))
          h))
      (λ _.
        keep-last q hosts (mirror a.1 a.0)
          (not_foreign p (mirror a.1 a.0) (mirror-owned p a.1 a.0 same)))
  where
    own :
        (a : ItemKey × HostFacts) (p : VaultProvider) (x : HostProfile)
        → IsApart p a.0 x
        → has_id a.0.id x ≡ true
        → is_foreign p x ≡ false
    own a p x (inl o) t = not_foreign p x o
    own a p x (inr n) t = absurd (n ((==_iff x.id a.0.id).0 t))

upsert-All :
    (P : HostProfile → Type 0) (a : ItemKey × HostFacts) (hosts : List HostProfile)
    → ((x : HostProfile) → has_id a.0.id x ≡ true → P x → P (apply a.1 a.0 x))
    → P (mirror a.1 a.0)
    → All P hosts
    → All P (upsert a hosts)
upsert-All P a hosts f m h =
    if-case (All P) (any (has_id a.0.id) hosts)
      (λ _. All-update_found P (has_id a.0.id) (apply a.1 a.0) hosts f h)
      (λ _. All-append P hosts (mirror a.1 a.0 ∷ []) h (m, tt))

-- the item is the provider's, and no host from elsewhere has its id
abbrev pub IsOwn : VaultProvider → List HostProfile → ItemKey → Type 0
IsOwn p hosts item = (item.provider ≡ p) × All (IsApart p item) hosts

pub upsert_all-foreign :
    (p : VaultProvider) (items : List (ItemKey × HostFacts)) (hosts : List HostProfile)
    → All (λ a. IsOwn p hosts a.0) items
    → keep (is_foreign p) (upsert_all items hosts) ≡ keep (is_foreign p) hosts
upsert_all-foreign p [] hosts h = refl
upsert_all-foreign p (a ∷ items) hosts ((same, apart), h) =
    upsert_all-foreign p items (upsert a hosts) (
      All-weaken (λ b. IsOwn p hosts b.0) (λ b. IsOwn p (upsert a hosts) b.0) items
        (λ b (e, k). (
          e,
          upsert-All (IsApart p b.0) a hosts (λ x _ _. inl (apply-owned p a.1 a.0 x same))
              (inl (mirror-owned p a.1 a.0 same)) k,
        ))
        h)
    ∙ upsert-foreign p a hosts same apart

-- a host from elsewhere, or one of the items
abbrev pub IsKnown : VaultProvider → List (ItemKey × HostFacts) → HostProfile → Type 0
IsKnown p items h = (is_foreign p h || any (λ b. b.0.id == h.id) items) ≡ true

item-IsKnown :
    (p : VaultProvider) (every : List (ItemKey × HostFacts)) (id : Uuid) (h : HostProfile)
    → any (λ b. b.0.id == id) every ≡ true
    → h.id ≡ id
    → IsKnown p every h
item-IsKnown p every id h e same =
    let there : any (λ b. b.0.id == h.id) every ≡ true =
      ap (λ i. any (λ b. b.0.id == i) every) same ∙ e in
    ground arith

pub upsert_all-IsKnown :
    (p : VaultProvider) (every items : List (ItemKey × HostFacts)) (hosts : List HostProfile)
    → All (λ a. any (λ b. b.0.id == a.0.id) every ≡ true) items
    → All (IsKnown p every) hosts
    → All (IsKnown p every) (upsert_all items hosts)
upsert_all-IsKnown p every [] hosts l h = h
upsert_all-IsKnown p every (a ∷ items) hosts (e, l) h =
    upsert_all-IsKnown p every items (upsert a hosts) l (
      upsert-All (IsKnown p every) a hosts
        (λ x t _.
          item-IsKnown p every a.0.id (apply a.1 a.0 x) e
            (apply-id a.1 a.0 x ∙ (==_iff x.id a.0.id).0 t))
        (item-IsKnown p every a.0.id (mirror a.1 a.0) e (mirror-id a.1 a.0)) h)
