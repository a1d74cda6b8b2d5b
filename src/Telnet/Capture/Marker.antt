-- ===== src/Telnet/Capture/Marker.antt =====
use codex_hosts.Prelude.{
  ℕ, zero, suc, ◌+◌, ◌-◌, ◌≤◌, ◌≡◌, ◌≢◌, refl, sym, ap, ◌∙◌, inl, inr, true, false, Option, none,
  some, [], ◌∷◌, ◌++◌, leb, Bytes, starts_with, length, drop, arith, Bool-cases, Option-cases,
  length-append, length-le_of_starts_with,
}
use codex_hosts.Telnet.Capture.{find_in, find_bytes}

-- The end marker is looked for only behind what an earlier read has searched, and found all the same.

starts_with-longer :
    (t d m : Bytes) → length m ≤ length t → starts_with (t ++ d) m ≡ starts_with t m
starts_with-longer t d [] h = refl
starts_with-longer [] d (y ∷ m) h = ground arith
starts_with-longer (x ∷ t) d (y ∷ m) h = rw (starts_with-longer t d m (omega arith))

pub shifted : ℕ → Option ℕ → Option ℕ
shifted k none = none
shifted k (some i) = some (k + i)

shifted-zero : (o : Option ℕ) → o ≡ shifted 0 o
unfolding shifted
shifted-zero none = refl
shifted-zero (some i) = ap some (omega arith)

shifted-suc : (k : ℕ) (o : Option ℕ) → shifted 1 (shifted k o) ≡ shifted (suc k) o
unfolding shifted
shifted-suc k none = refl
shifted-suc k (some i) = ap some (omega arith)

pub find_in-cons :
    (x : ℕ) (t m : Bytes)
    → starts_with (x ∷ t) m ≡ false
    → find_in (x ∷ t) m ≡ shifted 1 (find_in t m)
unfolding find_in shifted
find_in-cons x t m h = elim (Option-cases (find_in t m)) [
  | inl e ↦ rw (e, h)
  | inr (i, e) ↦ rw (e, h) (ap some (omega arith))
]

not_at : (x : ℕ) (t m : Bytes) → find_in (x ∷ t) m ≡ none → starts_with (x ∷ t) m ≡ false
unfolding find_in
not_at x t m h = ground arith

not_in : (x : ℕ) (t m : Bytes) → find_in (x ∷ t) m ≡ none → find_in t m ≡ none
unfolding find_in
not_in x t m h = elim (Option-cases (find_in t m)) [ inl e ↦ e | inr (i, e) ↦ ground arith ]

find_in-tail :
    (k : ℕ) (t d m : Bytes)
    → k + (length m - 1) ≤ length t
    → find_in t m ≡ none
    → find_in (t ++ d) m ≡ shifted k (find_in (drop k (t ++ d)) m)
find_in-tail zero t d m h e = shifted-zero (find_in (t ++ d) m)
find_in-tail (suc k) [] d m h e = ground arith
find_in-tail (suc k) (x ∷ t) d m h e =
    let apart = starts_with-longer (x ∷ t) d m (omega arith) ∙ not_at x t m e in
    find_in-cons x (t ++ d) m apart
    ∙ ap (shifted 1) (find_in-tail k t d m (omega arith) (not_in x t m e))
    ∙ shifted-suc k (find_in (drop k (t ++ d)) m)

find_bytes-find_in :
    (k : ℕ) (t m : Bytes) → k ≤ length t → find_bytes t m k ≡ shifted k (find_in (drop k t) m)
unfolding find_bytes shifted
find_bytes-find_in k t m h = elim (Option-cases (find_in (drop k t) m)) [
  | inl e ↦ ground arith
  | inr (i, e) ↦ ground arith
]

-- Where the first bytes hold no whole marker, a search from the place where one could still begin
-- finds what a search of the whole text finds.
pub find_bytes-resume :
    (t d m : Bytes)
    → find_in t m ≡ none
    → find_bytes (t ++ d) m (length t - (length m - 1)) ≡ find_in (t ++ d) m
find_bytes-resume t d m h =
    let k = length t - (length m - 1) in
    elim (Bool-cases (leb (length m - 1) (length t))) [
      | inl e ↦
          find_bytes-find_in k (t ++ d) m (omega (arith, length-append t d))
          ∙ sym (find_in-tail k t d m (ground arith) h)
      | inr e ↦
          let z : k ≡ 0 = ground arith in
          ap (find_bytes (t ++ d) m) z
          ∙ find_bytes-find_in 0 (t ++ d) m (omega arith)
          ∙ sym (shifted-zero (find_in (t ++ d) m))
    ]

starts_with-more : (t d m : Bytes) → starts_with t m ≡ true → starts_with (t ++ d) m ≡ true
starts_with-more t d m h = starts_with-longer t d m (length-le_of_starts_with t m h) ∙ h

pub shifted-some :
    (k : ℕ) (o : Option ℕ) (i : ℕ) → shifted k o ≡ some i → (j : ℕ) × (o ≡ some j) × (i ≡ k + j)
unfolding shifted
shifted-some k none i h = cc
shifted-some k (some j) i h = (j, refl, ground arith)

pub find_in-fits : (t m : Bytes) (i : ℕ) → find_in t m ≡ some i → i + length m ≤ length t
unfolding find_in
find_in-fits [] m i h = cc
find_in-fits (x ∷ t) m i h = elim (Bool-cases (starts_with (x ∷ t) m)) [
  | inl e ↦ ground (arith, length-le_of_starts_with (x ∷ t) m e)
  | inr e ↦
      let (j, f, k) = shifted-some 1 (find_in t m) i (sym (find_in-cons x t m e) ∙ h) in
      omega (arith, find_in-fits t m j f)
]

pub find_in-here : (x : ℕ) (t m : Bytes) → starts_with (x ∷ t) m ≡ true → find_in (x ∷ t) m ≡ some 0
unfolding find_in
find_in-here x t m h = ground arith

pub find_in-empty : (m : Bytes) (i : ℕ) → find_in [] m ≢ some i
unfolding find_in
find_in-empty m i h = cc

-- an occurrence stays the first one when more bytes arrive
pub find_in-more : (t d m : Bytes) (i : ℕ) → find_in t m ≡ some i → find_in (t ++ d) m ≡ some i
find_in-more [] d m i h = elim (find_in-empty m i h) [ ]
find_in-more (x ∷ t) d m i h = elim (Bool-cases (starts_with (x ∷ t) m)) [
  | inl e ↦
      find_in-here x (t ++ d) m (starts_with-more (x ∷ t) d m e) ∙ sym (find_in-here x t m e) ∙ h
  | inr e ↦
      let (j, f, k) = shifted-some 1 (find_in t m) i (sym (find_in-cons x t m e) ∙ h) in
      let apart = starts_with-longer (x ∷ t) d m (omega (arith, find_in-fits t m j f)) ∙ e in
      find_in-cons x (t ++ d) m apart
      ∙ ap (shifted 1) (find_in-more t d m j f ∙ sym f)
      ∙ sym (find_in-cons x t m e)
      ∙ h
]
