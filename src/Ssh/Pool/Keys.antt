-- ===== src/Ssh/Pool/Keys.antt =====
-- What the removal of keys takes, where each key is there once.
use codex_hosts.Prelude.{
  ◌≡◌, refl, ◌∙◌, inl, inr, Bool, false, not, Option, none, some, List, [], ◌∷◌, find, keep,
  remove_first, All-of_map, Bool-cases, All, map, All-keep, Apart,
}
use codex_hosts.Ssh.Key.{SessionKey, eq_key_refl}
use codex_hosts.Ssh.Pool.{PooledSession, PoolEntry, has_key, add_taken, take_keys}

-- the first entry is not under the key of the other
abbrev pub OtherKey : PoolEntry → PoolEntry → Type 0
OtherKey d e = has_key e.session.key d ≡ false

abbrev pub HasDistinctKeys : List PoolEntry → Type 0
HasDistinctKeys es = Apart OtherKey es

add_taken-skip :
    (o : Option PoolEntry) (e : PoolEntry) (r : List PooledSession × List PoolEntry)
    → add_taken o (r.0, e ∷ r.1) ≡ ((add_taken o r).0, e ∷ (add_taken o r).1)
add_taken-skip none e r = refl
add_taken-skip (some _) e r = refl

take_keys-skip :
    (e : PoolEntry) (ks : List SessionKey) (es : List PoolEntry)
    → All (λ k. has_key k e ≡ false) ks
    → take_keys ks (e ∷ es) ≡ ((take_keys ks es).0, e ∷ (take_keys ks es).1)
take_keys-skip e [] es h = refl
take_keys-skip e (k ∷ ks) es (h, hs) =
    let ih = take_keys-skip e ks (remove_first (has_key k) es) hs in
    rw (h, ih) (add_taken-skip (find (has_key k) es) e (take_keys ks (remove_first (has_key k) es)))

-- the entries that pass, by their keys
pub take_keys-keep :
    (p : PoolEntry → Bool) (es : List PoolEntry)
    → HasDistinctKeys es
    → take_keys (map (λ e. e.session.key) (keep p es)) es
      ≡ (map (λ e. e.session) (keep p es), keep (λ e. not (p e)) es)
take_keys-keep p [] a = refl
take_keys-keep p (e ∷ es) (h, a) =
    let ih = take_keys-keep p es a in
    let skip = take_keys-skip e (map (λ d. d.session.key) (keep p es)) es (
      All-of_map (λ k. has_key k e ≡ false) (λ d. d.session.key) (keep p es)
        (All-keep (OtherKey e) p es h)) in
    elim (Bool-cases (p e)) [
      | inl t ↦ rw (t, eq_key_refl e.session.key, ih) refl
      | inr f ↦ rw (f) (skip ∙ rw ih refl)
    ]
