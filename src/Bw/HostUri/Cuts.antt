-- ===== src/Bw/HostUri/Cuts.antt =====
-- What the parts of an address that is read are made of.
use codex_hosts.Prelude.{
  ℕ, ◌≡◌, ap, Bool, true, false, not, ◌&&◌, Option, none, some, [], ◌∷◌, ◌++◌, ◌==◌, Text, arith,
  All, All-split, if-case,
}
use codex_hosts.Bw.HostUri.{
  contains_char, behind, split_once, last_split, rsplit_once, is_delimiter, before_delimiter,
  bracketed, unbracketed, host_and_port,
}
use codex_hosts.Bw.HostUri.Splits.{Lacks}

abbrev pub IsFree : Text → Type 0
IsFree s = All (λ c. is_delimiter c ≡ false) s

pub before_delimiter-IsFree : (s : Text) → IsFree (before_delimiter s)
unfolding before_delimiter
before_delimiter-IsFree [] = tt
before_delimiter-IsFree (c ∷ s) =
    let rest = before_delimiter-IsFree s in
    if-case IsFree (is_delimiter c) (λ _. tt) (λ e. (e, rest))

-- the two sides of a split at the last such character
abbrev pub IsCut : ℕ → Text → Option (Text × Text) → Type 0
IsCut d s none = Lacks d s
IsCut d s (some (a, b)) = (s ≡ a ++ d ∷ b) × Lacks d b

pub rsplit_once-IsCut : (d : ℕ) (s : Text) → IsCut d s (rsplit_once d s)
unfolding rsplit_once
rsplit_once-IsCut d [] = tt
rsplit_once-IsCut d (c ∷ s) = head (rsplit_once d s) (rsplit_once-IsCut d s)
  where
    head : (o : Option (Text × Text)) → IsCut d s o → IsCut d (c ∷ s) (last_split d c s o)
    head (some (a, b)) (e, h) = (ap (λ t. c ∷ t) e, h)
    head none h =
        if-case (IsCut d (c ∷ s)) (c == d)
          (λ e. let same : c ≡ d = ground arith in (ap (λ x. x ∷ s) same, h)) (λ e. (e, h))

-- one at the first
abbrev IsFirstCut : ℕ → Text → Option (Text × Text) → Type 0
IsFirstCut d s none = Unit
IsFirstCut d s (some (a, b)) = s ≡ a ++ d ∷ b

split_once-IsFirstCut : (d : ℕ) (s : Text) → IsFirstCut d s (split_once d s)
unfolding split_once
split_once-IsFirstCut d [] = tt
split_once-IsFirstCut d (c ∷ s) =
    if-case (IsFirstCut d (c ∷ s)) (c == d)
      (λ e. let same : c ≡ d = ground arith in ap (λ x. x ∷ s) same)
      (λ _. head (split_once d s) (split_once-IsFirstCut d s))
  where
    head : (o : Option (Text × Text)) → IsFirstCut d s o → IsFirstCut d (c ∷ s) (behind c o)
    head none h = tt
    head (some (a, b)) h = ap (λ t. c ∷ t) h

-- what is known of the characters of a host and a user before they are checked
abbrev pub inside : ℕ → Bool
inside c = not (is_delimiter c) && not (c == b'@')

abbrev pub IsInside : Text → Type 0
IsInside s = All (λ c. inside c ≡ true) s

abbrev pub HasHost : Option (Text × Option Text) → Type 0
HasHost none = Unit
HasHost (some (host, _)) = IsInside host

unbracketed-HasHost :
    (s : Text) (o : Option (Text × Text))
    → IsCut b':' s o
    → IsInside s
    → IsInside (unbracketed s o).0
unbracketed-HasHost s none e h = h
unbracketed-HasHost s (some (a, b)) (e, _) h =
    if-case (λ (r : Text × Option Text). IsInside r.0) (contains_char b':' a) (λ _. h)
      (λ _. (All-split (λ c. inside c ≡ true) a (b':' ∷ b) (rw (← e) h)).0)

bracketed-HasHost :
    (s : Text) (o : Option (Text × Text)) → IsFirstCut b']' s o → IsInside s → HasHost (bracketed o)
bracketed-HasHost s none e h = tt
bracketed-HasHost s (some (a, [])) e h =
    (All-split (λ c. inside c ≡ true) a (b']' ∷ []) (rw (← e) h)).0
bracketed-HasHost s (some (a, c ∷ b)) e h =
    let k = (All-split (λ c. inside c ≡ true) a (b']' ∷ c ∷ b) (rw (← e) h)).0 in
    if-case HasHost (c == b':') (λ _. k) (λ _. tt)

pub host_and_port-HasHost : (s : Text) → IsInside s → HasHost (host_and_port s)
unfolding host_and_port
host_and_port-HasHost [] h = tt
host_and_port-HasHost (c ∷ s) (p, h) =
    if-case HasHost (c == b'[')
      (λ _. bracketed-HasHost s (split_once b']' s) (split_once-IsFirstCut b']' s) h)
      (λ _.
        unbracketed-HasHost (c ∷ s) (rsplit_once b':' (c ∷ s)) (rsplit_once-IsCut b':' (c ∷ s))
          (p, h))
