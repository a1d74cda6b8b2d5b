-- ===== src/Ssh/Pool/Oldest.antt =====
-- src/ssh.rs, `PoolState`: the entry that is given up, and what is left without it.
use codex_hosts.Prelude.{
  suc, ◌+◌, ◌≡◌, refl, Bool, false, Option, none, some, List, [], ◌∷◌, ◌++◌, if◌then◌else◌, leb,
  length, find, keep, remove_first, All-both, arith, All, All-append, count, count-append, map,
  All-remove_first, All-weaken, if-case, Apart-remove_first,
}
use codex_hosts.Ssh.Key.{eq_key_refl}
use codex_hosts.Ssh.Pool.Keys.{OtherKey, HasDistinctKeys}
use codex_hosts.Ssh.Pool.Drained.{sessions, IsCountedIn, IsLoose, IsDraining}
use codex_hosts.Ssh.Pool.{PooledSession, PoolEntry, World, has_parent, has_key, oldest, older}

-- each entry is found by its key
pub found-All :
    (es : List PoolEntry)
    → HasDistinctKeys es
    → All (λ e. find (has_key e.session.key) es ≡ some e) es
found-All [] d = tt
found-All (e ∷ es) (h, d) = (
  rw (eq_key_refl e.session.key) refl,
  All-both (OtherKey e) (λ x. find (has_key x.session.key) es ≡ some x)
      (λ x. find (has_key x.session.key) (e ∷ es) ≡ some x) es (λ x o f. rw o f) h (found-All es d),
)

older-All {κ} :
    (P : PoolEntry → Type κ) (x : PoolEntry) (m : Option PoolEntry) (o : PoolEntry)
    → older x m ≡ some o
    → P x
    → ((y : PoolEntry) → m ≡ some y → P y)
    → P o
older-All P x none o e p h = let same : x ≡ o = cc in rw (← same) p
older-All P x (some y) o e p h =
    if-case (λ m. m ≡ some o → P o) (leb x.last_used y.last_used)
      (λ _ f. let same : x ≡ o = cc in rw (← same) p)
      (λ _ f. let same : y ≡ o = cc in rw (← same) (h y refl)) e

pub oldest-All {κ} :
    (P : PoolEntry → Type κ) (es : List PoolEntry) (o : PoolEntry)
    → oldest es ≡ some o
    → All P es
    → P o
oldest-All P [] o e h = cc
oldest-All P (x ∷ xs) o e (p, h) = older-All P x (oldest xs) o e p (λ y f. oldest-All P xs y f h)

count-remove_first {ℓ κ} :
    {A : Type ℓ} {B : Type κ} (p : A → Bool) (q : B → Bool) (f : A → B) (xs : List A) (x : A)
    → find p xs ≡ some x
    → count q (map f xs) ≡ (if q (f x) then 1 else 0) + count q (map f (remove_first p xs))
count-remove_first p q f [] x e = cc
count-remove_first p q f (y ∷ ys) x e =
    let rest = count-remove_first p q f ys x in
    if-case
      (λ o.
        o ≡ some x
        → count q (map f (y ∷ ys))
          ≡ (if q (f x) then 1 else 0) + count q (map f (remove_first p (y ∷ ys))))
      (p y) (λ t g. let same : y ≡ x = cc in rw (t, ← same) refl)
      (λ n g.
        let r : count q (map f ys)
            ≡ (if q (f x) then 1 else 0) + count q (map f (remove_first p ys)) =
          rest g in
        rw n (omega (arith, r)))
      e

pub keep-remove_first {ℓ} :
    {A : Type ℓ} (p q : A → Bool) (xs : List A) (x : A)
    → find p xs ≡ some x
    → q x ≡ false
    → (keep q (remove_first p xs) ≡ keep q xs) × (suc (length (remove_first p xs)) ≡ length xs)
keep-remove_first p q [] x e h = cc
keep-remove_first p q (y ∷ ys) x e h =
    let rest = keep-remove_first p q ys x in
    if-case
      (λ o.
        o ≡ some x
        → (keep q (remove_first p (y ∷ ys)) ≡ keep q (y ∷ ys))
          × (suc (length (remove_first p (y ∷ ys))) ≡ length (y ∷ ys)))
      (p y) (λ t f. let same : y ≡ x = cc in let no : q y ≡ false = cc in rw (t, no) (refl, refl))
      (λ n f. rw (n, (rest f h).0, (rest f h).1) (refl, refl)) e

pub evicted-IsDraining :
    (w : World) (gone : List PooledSession) (es : List PoolEntry) (o : PoolEntry)
    → IsDraining w gone es
    → find (has_key o.session.key) es ≡ some o
    → w.strong_count o.session ≡ 1 + count (has_parent o.session) gone
    → IsCountedIn w gone es o
    → IsDraining w (gone ++ o.session ∷ []) (remove_first (has_key o.session.key) es)
evicted-IsDraining w gone es o d found free counted =
    let rest = remove_first (has_key o.session.key) es in
    let gone' = gone ++ o.session ∷ [] in
    let parts : (g : PooledSession)
        → count (has_parent g) (sessions es)
          ≡ (if has_parent g o.session then 1 else 0) + count (has_parent g) (sessions rest) =
      λ g. count-remove_first (has_key o.session.key) (has_parent g) (λ e. e.session) es o found in
    let more : (g : PooledSession)
        → count (has_parent g) gone'
          ≡ count (has_parent g) gone + count (has_parent g) (o.session ∷ []) =
      λ g. count-append (has_parent g) gone (o.session ∷ []) in
    record {
      distinct = Apart-remove_first OtherKey (has_key o.session.key) es d.distinct;
      counted = All-remove_first (IsCountedIn w gone' rest) (has_key o.session.key) es (
          All-weaken (IsCountedIn w gone es) (IsCountedIn w gone' rest) es
            (λ e h. omega (arith, parts e.session, more e.session)) d.counted);
      loose =
          All-append (IsLoose w gone' rest) gone (o.session ∷ [])
            (All-weaken (IsLoose w gone es) (IsLoose w gone' rest) gone
              (λ g h. (omega (arith, parts g, more g, h.0, h.1), omega (arith, parts g, h.1)))
              d.loose)
            ((omega (arith, parts o.session, more o.session), omega (arith, parts o.session)), tt);
    }
