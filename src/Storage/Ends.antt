-- ===== src/Storage/Ends.antt =====
-- What holds of the files when a program on them ends: it is done, it has failed, or the process has.
use codex_hosts.Prelude.{◌≡◌, refl, Option, none, some, List, [], ◌∷◌, Bytes}
use codex_hosts.Storage.Disk.{
  StorageError, io, Disk, Fate, works, fails, stops, Outcome, done, failed, crashed, Io, continue,
  handle, found, ◌>>=◌, ask, call, read,
}

abbrev pub Ends {ℓ} :
    {A : Type ℓ}
    → (A → Disk → Type 0)
    → (StorageError → Disk → Type 0)
    → (Disk → Type 0)
    → Outcome A × List Fate × Disk
    → Type 0
Ends Q F C (done a, _, d) = Q a d
Ends Q F C (failed e, _, d) = F e d
Ends Q F C (crashed, _, d) = C d

module _ (F : StorageError → Disk → Type 0) (C : Disk → Type 0) where
  pub continue-Ends {ℓ κ} :
      {A : Type ℓ} {B : Type κ} (Q : A → Disk → Type 0) (R : B → Disk → Type 0) (k : A → Io B)
      (r : Outcome A × List Fate × Disk)
      → Ends Q F C r
      → ((a : A) (fs : List Fate) (d : Disk) → Q a d → Ends R F C (k a fs d))
      → Ends R F C (continue k r)
  continue-Ends Q R k (done a, fs, d) h g = g a fs d h
  continue-Ends Q R k (failed e, fs, d) h g = h
  continue-Ends Q R k (crashed, fs, d) h g = h

  pub call-Ends :
      (Q : Unit {0} → Disk → Type 0) (well : Disk → Disk) (ill : Bytes → Disk → Disk)
      (fs : List Fate) (d : Disk)
      → Q tt (well d)
      → ((b : Bytes) → F io (ill b d) × C (ill b d))
      → Ends Q F C (call well ill fs d)
  call-Ends Q well ill [] d q h = q
  call-Ends Q well ill (works ∷ fs) d q h = q
  call-Ends Q well ill (fails b ∷ fs) d q h = (h b).0
  call-Ends Q well ill (stops b ∷ fs) d q h = (h b).1

  -- reading gives what is there, and changes nothing
  pub read-Ends :
      (file : Disk → Option Bytes) (fs : List Fate) (d : Disk) (Q : Bytes → Disk → Type 0)
      → ((b : Bytes) → file d ≡ some b → Q b d)
      → F io d
      → C d
      → Ends Q F C (read file fs d)
  read-Ends file fs d Q q f c =
      continue-Ends (λ _ e. e ≡ d) Q (λ _. ask file >>= found) (call (λ e. e) (λ _ e. e) fs d)
        (call-Ends (λ _ e. e ≡ d) (λ e. e) (λ _ e. e) fs d refl (λ _. (f, c)))
        (λ _ gs e same. rw same (found-Ends gs (file d) refl))
    where
      found-Ends : (gs : List Fate) (o : Option Bytes) → file d ≡ o → Ends Q F C (found o gs d)
      found-Ends gs none e = f
      found-Ends gs (some b) e = q b e

pub handle-Ends {ℓ κ} :
    {A : Type ℓ} {B : Type κ} (Q : A → Disk → Type 0) (R : B → Disk → Type 0)
    (F G : StorageError → Disk → Type 0) (C : Disk → Type 0) (k : A → Io B)
    (h : StorageError → Io B) (r : Outcome A × List Fate × Disk)
    → Ends Q F C r
    → ((a : A) (fs : List Fate) (d : Disk) → Q a d → Ends R G C (k a fs d))
    → ((e : StorageError) (fs : List Fate) (d : Disk) → F e d → Ends R G C (h e fs d))
    → Ends R G C (handle k h r)
handle-Ends Q R F G C k h (done a, fs, d) p g i = g a fs d p
handle-Ends Q R F G C k h (failed e, fs, d) p g i = i e fs d p
handle-Ends Q R F G C k h (crashed, fs, d) p g i = p

pub weaken-Ends {ℓ} :
    {A : Type ℓ} (Q R : A → Disk → Type 0) (F G : StorageError → Disk → Type 0)
    (C D : Disk → Type 0) (r : Outcome A × List Fate × Disk)
    → ((a : A) (d : Disk) → Q a d → R a d)
    → ((e : StorageError) (d : Disk) → F e d → G e d)
    → ((d : Disk) → C d → D d)
    → Ends Q F C r
    → Ends R G D r
weaken-Ends Q R F G C D (done a, fs, d) q f c h = q a d h
weaken-Ends Q R F G C D (failed e, fs, d) q f c h = f e d h
weaken-Ends Q R F G C D (crashed, fs, d) q f c h = c d h
