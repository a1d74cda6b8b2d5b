-- ===== src/Bw/HostUri/Splits.antt =====
-- How texts are split that are put together from parts.
use codex_hosts.Prelude.{
  ℕ, ◌≡◌, refl, Bool, false, none, some, [], ◌∷◌, ◌++◌, ◌==◌, Text, any, All, ==_refl,
}
use codex_hosts.Bw.HostUri.{split_once, rsplit_once, is_delimiter, before_delimiter}

abbrev pub Lacks : ℕ → Text → Type 0
Lacks d s = All (λ c. (c == d) ≡ false) s

pub rsplit_once-none : (d : ℕ) (s : Text) → Lacks d s → rsplit_once d s ≡ none
unfolding rsplit_once
rsplit_once-none d [] h = refl
rsplit_once-none d (c ∷ s) (f, h) = rw (rsplit_once-none d s h, f) refl

pub rsplit_once-append : (d : ℕ) (s t : Text) → Lacks d t → rsplit_once d (s ++ d ∷ t) ≡ some (s, t)
unfolding rsplit_once
rsplit_once-append d [] t h = rw (rsplit_once-none d t h, ==_refl d) refl
rsplit_once-append d (c ∷ s) t h = rw (rsplit_once-append d s t h) refl

pub split_once-append : (d : ℕ) (s t : Text) → Lacks d s → split_once d (s ++ d ∷ t) ≡ some (s, t)
unfolding split_once
split_once-append d [] t h = rw (==_refl d) refl
split_once-append d (c ∷ s) t (f, h) = rw (f, split_once-append d s t h) refl

pub before_delimiter-none :
    (s : Text) → All (λ c. is_delimiter c ≡ false) s → before_delimiter s ≡ s
unfolding before_delimiter
before_delimiter-none [] h = refl
before_delimiter-none (c ∷ s) (f, h) = rw (f, before_delimiter-none s h) refl

pub any-none : (p : ℕ → Bool) (s : Text) → All (λ c. p c ≡ false) s → any p s ≡ false
any-none p [] h = refl
any-none p (c ∷ s) (f, h) = rw (f, any-none p s h) refl
