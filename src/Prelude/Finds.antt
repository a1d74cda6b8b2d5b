-- ===== src/Prelude/Finds.antt =====
-- Finding and keeping elements in a list that changes.
use mathlib.Core.Path.{◌≡◌, refl}
use mathlib.Core.Logic.{inl, inr}
use mathlib.Core.Bool.{Bool, true, false}
use mathlib.Core.List.{List, [], ◌∷◌, ◌++◌}
use mathlib.Core.Option.{none, some}
use native.Mathlib.Omega.{arith}
use codex_hosts.Prelude.Tests.{Bool-cases, if-case}
use codex_hosts.Prelude.Lists.{All, keep, any, find, update_first}

-- finding an element that was changed, or that was put behind the others
pub find-changed {ℓ} :
    {A : Type ℓ} (q p : A → Bool) (f : A → A) (xs : List A)
    → ((x : A) → q (f x) ≡ q x)
    → ((x : A) → p x ≡ true → q x ≡ false)
    → find q (update_first p f xs) ≡ find q xs
find-changed q p f [] same apart = refl
find-changed q p f (x ∷ xs) same apart =
    let rest = find-changed q p f xs same apart in
    if-case (λ ys. find q ys ≡ find q (x ∷ xs)) (p x)
      (λ t. let no = apart x t in rw (same x, no) refl) (λ _. rw rest refl)

pub find-none {ℓ} : {A : Type ℓ} (p : A → Bool) (xs : List A) → any p xs ≡ false → find p xs ≡ none
find-none p [] h = refl
find-none p (x ∷ xs) h =
    let f : p x ≡ false = ground arith in
    let g : any p xs ≡ false = ground arith in rw f (find-none p xs g)

pub find-none-any {ℓ} :
    {A : Type ℓ} (p : A → Bool) (xs : List A) → find p xs ≡ none → any p xs ≡ false
find-none-any p [] h = refl
find-none-any p (x ∷ xs) h =
    if-case (λ o. o ≡ none → any p (x ∷ xs) ≡ false) (p x) (λ _ f. cc)
      (λ n f. rw n (find-none-any p xs f)) h

pub find-last {ℓ} :
    {A : Type ℓ} (p : A → Bool) (xs : List A) (y : A)
    → find p xs ≡ none
    → p y ≡ true
    → find p (xs ++ y ∷ []) ≡ some y
find-last p [] y h e = rw e refl
find-last p (x ∷ xs) y h e =
    if-case (λ o. o ≡ none → find p ((x ∷ xs) ++ y ∷ []) ≡ some y) (p x) (λ _ f. cc)
      (λ n f. rw n (find-last p xs y f e)) h

pub find-other {ℓ} :
    {A : Type ℓ} (p : A → Bool) (xs : List A) (y : A)
    → p y ≡ false
    → find p (xs ++ y ∷ []) ≡ find p xs
find-other p [] y e = rw e refl
find-other p (x ∷ xs) y e =
    let rest = find-other p xs y e in
    elim (Bool-cases (p x)) [ inl t ↦ rw t refl | inr f ↦ rw f rest ]

pub find-here {ℓ} :
    {A : Type ℓ} (p : A → Bool) (f : A → A) (xs : List A) (x : A)
    → ((y : A) → p (f y) ≡ p y)
    → find p xs ≡ some x
    → find p (update_first p f xs) ≡ some (f x)
find-here p f [] x same h = cc
find-here p f (y ∷ ys) x same h =
    if-case (λ o. o ≡ some x → find p (update_first p f (y ∷ ys)) ≡ some (f x)) (p y)
      (λ t g. let here : y ≡ x = cc in rw (t, same y, t, here) refl)
      (λ n g. rw (n, n) (find-here p f ys x same g)) h

pub find-keep {ℓ} :
    {A : Type ℓ} (q r : A → Bool) (xs : List A)
    → ((x : A) → q x ≡ true → r x ≡ true)
    → find q (keep r xs) ≡ find q xs
find-keep q r [] h = refl
find-keep q r (x ∷ xs) h =
    let rest = find-keep q r xs h in
    if-case (λ ys. find q ys ≡ find q (x ∷ xs)) (r x) (λ _. rw rest refl)
      (λ n. if-case (λ o. find q (keep r xs) ≡ o) (q x) (λ t. let y = h x t in cc) (λ _. rest))

pub keep-update {ℓ} :
    {A : Type ℓ} (q p : A → Bool) (f : A → A) (xs : List A)
    → All (λ x. p x ≡ true → (q x ≡ false) × (q (f x) ≡ false)) xs
    → keep q (update_first p f xs) ≡ keep q xs
keep-update q p f [] h = refl
keep-update q p f (x ∷ xs) (g, h) =
    let rest = keep-update q p f xs h in
    if-case (λ ys. keep q ys ≡ keep q (x ∷ xs)) (p x) (λ t. rw ((g t).0, (g t).1) refl)
      (λ _. rw rest refl)

pub keep-last {ℓ} :
    {A : Type ℓ} (q : A → Bool) (xs : List A) (y : A)
    → q y ≡ false
    → keep q (xs ++ y ∷ []) ≡ keep q xs
keep-last q [] y e = rw e refl
keep-last q (x ∷ xs) y e = rw (keep-last q xs y e) refl
