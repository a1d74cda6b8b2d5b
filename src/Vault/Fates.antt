-- ===== src/Vault/Fates.antt =====
-- What becomes of each item of a listing.
use codex_hosts.Prelude.{
  ◌≡◌, ◌≢◌, refl, sym, ap, ◌∙◌, inl, inr, ◌⊎◌, Bool, true, false, not, ◌&&◌, ◌||◌, List, [], ◌∷◌,
  ◌=ᵗ◌, Text, any, keep, Result, ok, err, arith, Bool-cases, All, All-split, text_eq_iff,
  All-weaken, if-case, Apart,
}
use codex_hosts.Text.{trim}
use codex_hosts.Model.{VaultProvider, HostProfile}
use codex_hosts.Vault.Hosts.{
  ItemProblem, name_taken, HostFacts, ItemKey, is_of, Listed, has_id, lowered, has_text,
  mirrored_first, Accepted, place, accept, taken_by_others, accepted_items,
}
use codex_hosts.Vault.Accepted.{IsNamed}

abbrev pub Among : {A : Type 0} → A → List A → Type 0
Among x [] = ⊥
Among x (y ∷ ys) = (x ≡ y) ⊎ Among x ys

-- the name of an accepted item, but for the case of letters
abbrev pub names_item : Text → List (ItemKey × HostFacts) → Bool
names_item t accepted = any (λ a. lowered a.1.alias =ᵗ t) accepted

-- the name of a host that the provider does not describe
abbrev pub names_other : VaultProvider → List HostProfile → Text → Bool
names_other p hosts t = any (λ h. not (is_of p h) && lowered (trim h.alias) =ᵗ t) hosts

-- An item is accepted as it is; or it has a problem of its own and that is told; or its name is in use,
-- and that is told.
abbrev pub Fate : (Text → Bool) → Accepted → Listed → Type 0
Fate taken r i =
    ((f : HostFacts) × (i.facts ≡ ok f) × Among (i.key, f) r.0)
    ⊎ (((problem : ItemProblem) × (i.facts ≡ err problem) × Among (i.name, problem) r.1)
        ⊎ ((f : HostFacts) × (i.facts ≡ ok f)
            × ((taken (lowered f.alias) || names_item (lowered f.alias) r.0) ≡ true)
            × Among (i.name, name_taken) r.1))

told_more :
    (taken : List Text) (r : Accepted) (told : Text × ItemProblem) (j : Listed)
    → Fate (λ t. has_text t taken) r j
    → Fate (λ t. has_text t taken) (r.0, told ∷ r.1) j
told_more taken r told j (inl h) = inl h
told_more taken r told j (inr (inl (problem, e, m))) = inr (inl (problem, e, inr m))
told_more taken r told j (inr (inr (f, e, t, m))) = inr (inr (f, e, t, inr m))

accepted_more :
    (taken : List Text) (s : Accepted) (a : ItemKey × HostFacts) (j : Listed)
    → Fate (λ t. has_text t (lowered a.1.alias ∷ taken)) s j
    → Fate (λ t. has_text t taken) (a ∷ s.0, s.1) j
accepted_more taken s a j (inl (f, e, m)) = inl (f, e, inr m)
accepted_more taken s a j (inr (inl h)) = inr (inl h)
accepted_more taken s a j (inr (inr (f, e, t, m))) = inr (inr (f, e, ground arith, m))

place-Fate :
    (taken : List Text) (i : Listed) (r : Result ItemProblem HostFacts)
    (next : List Text → Accepted) (items : List Listed)
    → i.facts ≡ r
    → ((t : List Text) → All (Fate (λ u. has_text u t) (next t)) items)
    → Fate (λ u. has_text u taken) (place taken i r next) i
      × All (Fate (λ u. has_text u taken) (place taken i r next)) items
place-Fate taken i (err problem) next items e h = (
  inr (inl (problem, e, inl refl)),
  All-weaken (Fate (λ u. has_text u taken) (next taken)) _ items
      (λ j k. told_more taken (next taken) (i.name, problem) j k) (h taken),
)
place-Fate taken i (ok f) next items e h =
    if-case
      (λ (a : Accepted).
        Fate (λ u. has_text u taken) a i × All (Fate (λ u. has_text u taken) a) items)
      (has_text (lowered f.alias) taken)
      (λ known. (
        inr (inr (f, e, ground arith, inl refl)),
        All-weaken (Fate (λ u. has_text u taken) (next taken)) _ items
            (λ j k. told_more taken (next taken) (i.name, name_taken) j k) (h taken),
      ))
      (λ _. (
        inl (f, e, inl refl),
        All-weaken
            (Fate (λ u. has_text u (lowered f.alias ∷ taken)) (next (lowered f.alias ∷ taken))) _
            items (λ j k. accepted_more taken (next (lowered f.alias ∷ taken)) (i.key, f) j k)
            (h (lowered f.alias ∷ taken)),
      ))

accept-Fate :
    (taken : List Text) (listed : List Listed)
    → All (Fate (λ t. has_text t taken) (accept taken listed)) listed
accept-Fate taken [] = tt
accept-Fate taken (i ∷ items) =
    place-Fate taken i i.facts (λ t. accept t items) items refl (λ t. accept-Fate t items)

-- the two parts hold all
module _ {ℓ κ} {A : Type ℓ} (P : A → Type κ) (q : A → Bool) where
  All-parts : (xs : List A) → All P (keep q xs) → All P (keep (λ x. not (q x)) xs) → All P xs
  All-parts [] h k = tt
  All-parts (x ∷ xs) h k = elim (Bool-cases (q x)) [
    | inl e ↦ let (p, h') : All P (x ∷ keep q xs) = (rw e at h) in (p, All-parts xs h' (rw e at k))
    | inr e ↦
        let (p, k') : All P (x ∷ keep (λ y. not (q y)) xs) = (rw e at k) in
        (p, All-parts xs (rw e at h) k')
  ]

taken_by_others-names_other :
    (p : VaultProvider) (hosts : List HostProfile) (t : Text)
    → has_text t (taken_by_others p hosts) ≡ names_other p hosts t
taken_by_others-names_other p [] t = refl
taken_by_others-names_other p (h ∷ hosts) t =
    let rest = taken_by_others-names_other p hosts t in
    elim (Bool-cases (is_of p h)) [
      | inl e ↦ rw e rest
      | inr e ↦ rw e (ap (λ b. lowered (trim h.alias) =ᵗ t || b) rest)
    ]

pub accepted_items-Fate :
    (p : VaultProvider) (hosts : List HostProfile) (listed : List Listed)
    → All (Fate (names_other p hosts) (accepted_items p hosts listed)) listed
unfolding accepted_items
accepted_items-Fate p hosts listed =
    let r = accepted_items p hosts listed in
    let is_mirrored : Listed → Bool = λ i. any (has_id i.key.id) hosts in
    let known = accept-Fate (taken_by_others p hosts) (mirrored_first hosts listed) in
    let (h, k) =
      All-split (Fate (λ t. has_text t (taken_by_others p hosts)) r) (keep is_mirrored listed)
        (keep (λ i. not (is_mirrored i)) listed) known in
    All-weaken (Fate (λ t. has_text t (taken_by_others p hosts)) r) (Fate (names_other p hosts) r)
      listed (λ i f. named i f)
      (All-parts (Fate (λ t. has_text t (taken_by_others p hosts)) r) is_mirrored listed h k)
  where
    named :
        (i : Listed)
        → Fate (λ t. has_text t (taken_by_others p hosts)) (accepted_items p hosts listed) i
        → Fate (names_other p hosts) (accepted_items p hosts listed) i
    named i (inl h) = inl h
    named i (inr (inl h)) = inr (inl h)
    named i (inr (inr (f, e, t, m))) =
        let same = taken_by_others-names_other p hosts (lowered f.alias) in
        inr (inr (f, e, rw (← same) t, m))

-- no accepted name is in use elsewhere, and no two are the same, but for the case of letters
abbrev pub AreNamed : VaultProvider → List HostProfile → List (ItemKey × HostFacts) → Type 0
AreNamed p hosts accepted =
    All (λ a. names_other p hosts (lowered a.1.alias) ≡ false) accepted
    × Apart (λ a b. lowered a.1.alias ≢ lowered b.1.alias) accepted

IsNamed-parts :
    (taken : List Text) (accepted : List (ItemKey × HostFacts))
    → IsNamed taken accepted
    → All (λ a. has_text (lowered a.1.alias) taken ≡ false) accepted
      × Apart (λ a b. lowered a.1.alias ≢ lowered b.1.alias) accepted
IsNamed-parts taken [] h = (tt, tt)
IsNamed-parts taken (a ∷ accepted) (n, h) =
    let (fresh, apart) = IsNamed-parts (lowered a.1.alias ∷ taken) accepted h in
    (
      (
        n,
        All-weaken (λ b. has_text (lowered b.1.alias) (lowered a.1.alias ∷ taken) ≡ false)
            (λ b. has_text (lowered b.1.alias) taken ≡ false) accepted (λ b k. ground arith) fresh,
      ),
      (
        All-weaken (λ b. has_text (lowered b.1.alias) (lowered a.1.alias ∷ taken) ≡ false)
            (λ b. lowered a.1.alias ≢ lowered b.1.alias) accepted
            (λ b k same.
              let yes = (text_eq_iff (lowered a.1.alias) (lowered b.1.alias)).1 same in
              ground arith)
            fresh,
        apart,
      ),
    )

pub accepted_items-AreNamed :
    (p : VaultProvider) (hosts : List HostProfile) (accepted : List (ItemKey × HostFacts))
    → IsNamed (taken_by_others p hosts) accepted
    → AreNamed p hosts accepted
accepted_items-AreNamed p hosts accepted h =
    let (fresh, apart) = IsNamed-parts (taken_by_others p hosts) accepted h in
    (
      All-weaken (λ a. has_text (lowered a.1.alias) (taken_by_others p hosts) ≡ false)
          (λ a. names_other p hosts (lowered a.1.alias) ≡ false) accepted
          (λ a k. sym (taken_by_others-names_other p hosts (lowered a.1.alias)) ∙ k) fresh,
      apart,
    )
