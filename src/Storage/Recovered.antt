-- ===== src/Storage/Recovered.antt =====
-- Recovering the hosts from the backup loses no bytes.
use codex_hosts.Prelude.{
  ◌≡◌, refl, ap, inl, inr, ◌⊎◌, Bool, true, false, not, ◌&&◌, Option, none, some, List, [], ◌∷◌,
  if◌then◌else◌, Bytes, Result, ok, err,
}
use codex_hosts.Storage.Disk.{
  StorageError, no_data_directory, changed, backup_recovery_required, recovery_failed, io, json,
  newer_version, write_blocked, Disk, Fate, Outcome, pure, fail, rename, ◌>>=◌, ◌>>◌, attempt, ask,
  read, write_spare, spare_to_primary, set_aside, primary_to_corrupt, put_back, corrupt_to_primary,
  drop_spare,
}
use codex_hosts.Storage.Ends.{Ends, continue-Ends, call-Ends, read-Ends, handle-Ends, weaken-Ends}
use codex_hosts.Storage.Store.{
  HostStore, Json, lift, parse_store, read_store, exists, after_failure, recovered, restore_backup,
  recover_from_backup, unreadable, from_backup, load_recovering,
}

-- reading a store changes nothing, and ends as its bytes say unless the call fails
lift-Ends :
    (P : Disk → Type 0) (r : Result StorageError HostStore) (fs : List Fate) (d : Disk)
    → P d
    → Ends (λ s e. P e × (r ≡ ok s)) (λ x e. P e × ((x ≡ io) ⊎ (r ≡ err x))) P (lift r fs d)
lift-Ends P (ok s) fs d h = (h, refl)
lift-Ends P (err x) fs d h = (h, inr refl)

read_store-Ends :
    (P : Disk → Type 0) (j : Json) (file : Disk → Option Bytes) (q : Bytes) (fs : List Fate)
    (d : Disk)
    → file d ≡ some q
    → P d
    → Ends
        (λ s e. P e × (parse_store j q ≡ ok s))
        (λ x e. P e × ((x ≡ io) ⊎ (parse_store j q ≡ err x)))
        P
        (read_store j file fs d)
read_store-Ends P j file q fs d there h =
    let F : StorageError → Disk → Type 0 = λ x e. P e × ((x ≡ io) ⊎ (parse_store j q ≡ err x)) in
    continue-Ends F P (λ x e. (x ≡ q) × P e) (λ s e. P e × (parse_store j q ≡ ok s))
      (λ bytes. lift (parse_store j bytes)) (read file fs d)
      (read-Ends F P file fs d (λ x e. (x ≡ q) × P e) (λ x e. (cc, h)) (h, inl refl) h)
      (λ x gs e (same, k). rw same (lift-Ends P (parse_store j q) gs e k))

-- what is handed out was read from the primary that is there now
abbrev pub IsRead : Json → HostStore → Disk → Type 0
IsRead j s e = (q : Bytes) × (e.primary ≡ some q) × (parse_store j q ≡ ok s)

module _ (p b : Bytes) (c : List Bytes) where
  -- the primary as it was, moved out of the way, or replaced by the backup
  abbrev IsFirst : Disk → Type 0
  IsFirst d = (d.primary ≡ some p) × (d.corrupt ≡ c) × (d.backup ≡ some b)

  abbrev IsAside : Disk → Type 0
  IsAside d = (d.primary ≡ none) × (d.corrupt ≡ p ∷ c) × (d.backup ≡ some b)

  abbrev IsRestored : Disk → Type 0
  IsRestored d = (d.primary ≡ some b) × (d.corrupt ≡ p ∷ c) × (d.backup ≡ some b)

  abbrev pub IsLossless : Disk → Type 0
  IsLossless d = IsFirst d ⊎ (IsAside d ⊎ IsRestored d)

  abbrev Recovers {ℓ} : {A : Type ℓ} → (A → Disk → Type 0) → Outcome A × List Fate × Disk → Type 0
  Recovers Q r = Ends Q (λ _. IsLossless) IsLossless r

  put_back-IsFirst :
      (cs : List Bytes) (d : Disk) → cs ≡ p ∷ c → d.backup ≡ some b → IsFirst (put_back cs d)
  put_back-IsFirst [] d e h = cc
  put_back-IsFirst (x ∷ xs) d e h = (cc, cc, h)

  set_aside-IsAside :
      (o : Option Bytes) (d : Disk)
      → o ≡ some p
      → d.corrupt ≡ c
      → d.backup ≡ some b
      → d.spare ≡ some b
      → IsAside (set_aside o d) × ((set_aside o d).spare ≡ some b)
  set_aside-IsAside none d e f g h = cc
  set_aside-IsAside (some x) d e f g h = ((refl, cc, g), h)

  back-Recovers :
      (x : StorageError) (there : Bool) (fs : List Fate) (d : Disk)
      → IsAside d
      → Recovers {A = Unit {0}}
          (λ _. IsRestored)
          ((if true && not there
              then attempt corrupt_to_primary (λ _. fail x) (λ _. fail recovery_failed)
              else fail x)
            fs d)
  back-Recovers x true fs d h = inr (inl h)
  back-Recovers x false fs d h =
      handle-Ends (λ _. IsLossless) (λ _. IsRestored) (λ _. IsLossless) (λ _. IsLossless) IsLossless
        (λ _. fail x) (λ _. fail recovery_failed) (corrupt_to_primary fs d)
        (call-Ends (λ _. IsLossless) IsLossless (λ _. IsLossless) (λ d. put_back d.corrupt d)
          (λ _ d. d) fs d (inl (put_back-IsFirst d.corrupt d h.1 h.2))
          (λ _. (inr (inl h), inr (inl h))))
        (λ _ gs e k. k) (λ _ gs e k. k)

  recovered-Recovers :
      (fs : List Fate) (d : Disk)
      → IsAside d × (d.spare ≡ some b)
      → Recovers (λ _. IsRestored) (recovered true fs d)
  recovered-Recovers fs d (h, spare) =
      handle-Ends (λ _. IsRestored) (λ _. IsRestored) (λ _. IsAside) (λ _. IsLossless) IsLossless
        pure
        (λ x. ask (λ d. exists d.primary) >>= λ there.
          if true && not there
          then attempt corrupt_to_primary (λ _. fail x) (λ _. fail recovery_failed)
          else fail x)
        (spare_to_primary fs d)
        (call-Ends (λ _. IsAside) IsLossless (λ _. IsRestored)
          (λ d. record d { primary = d.spare; spare = none }) (λ _ d. d) fs d (spare, h.1, h.2)
          (λ _. (h, inr (inl h))))
        (λ _ gs e k. k) (λ x gs e k. back-Recovers x (exists e.primary) gs e k)

  drop_spare-Recovers :
      (fs : List Fate) (d : Disk) → IsLossless d → Recovers (λ _. IsLossless) (drop_spare fs d)
  drop_spare-Recovers fs d h =
      handle-Ends (λ _. IsLossless) (λ _. IsLossless) (λ _. IsLossless) (λ _. IsLossless) IsLossless
        pure (λ _. pure tt) (rename (λ d. record d { spare = none }) fs d)
        (call-Ends (λ _. IsLossless) IsLossless (λ _. IsLossless) (λ d. record d { spare = none })
          (λ _ d. d) fs d h (λ _. (h, h)))
        (λ _ gs e k. k) (λ _ gs e k. k)

  -- the spare file written, the primary moved, the spare file in its place
  moved-Recovers :
      (x : Bytes) (there : Bool) (fs : List Fate) (d : Disk)
      → x ≡ b
      → exists d.primary ≡ there
      → IsFirst d
      → Recovers
          (λ _. IsRestored)
          ((write_spare x >> (if there then primary_to_corrupt else pure tt) >> recovered there) fs
            d)
  moved-Recovers x false fs d same f h = let t : exists d.primary ≡ true = ap exists h.0 in cc
  moved-Recovers x true fs d same f h =
      continue-Ends (λ _. IsLossless) IsLossless (λ _ e. IsAside e × (e.spare ≡ some b))
        (λ _. IsRestored) (λ _. recovered true) ((write_spare x >> primary_to_corrupt) fs d)
        (continue-Ends (λ _. IsLossless) IsLossless (λ _ e. IsFirst e × (e.spare ≡ some b))
          (λ _ e. IsAside e × (e.spare ≡ some b)) (λ _. primary_to_corrupt) (write_spare x fs d)
          (call-Ends (λ _. IsLossless) IsLossless (λ _ e. IsFirst e × (e.spare ≡ some b))
            (λ d. record d { spare = some x }) (λ y d. record d { spare = some y }) fs d
            (h, ap some same) (λ _. (inl h, inl h)))
          (λ _ gs e k.
            call-Ends (λ _. IsLossless) IsLossless (λ _ e. IsAside e × (e.spare ≡ some b))
              (λ d. set_aside d.primary d) (λ _ d. d) gs e
              (set_aside-IsAside e.primary e k.0.0 k.0.1 k.0.2 k.1) (λ _. (inl k.0, inl k.0))))
        (λ _ gs e k. recovered-Recovers gs e k)

  restore-Recovers :
      (fs : List Fate) (d : Disk) → IsFirst d → Recovers (λ _. IsRestored) (restore_backup fs d)
  unfolding restore_backup
  restore-Recovers fs d h =
      continue-Ends (λ _. IsLossless) IsLossless (λ x e. (x ≡ b) × IsFirst e) (λ _. IsRestored) _
        (read (λ d. d.backup) fs d)
        (read-Ends (λ _. IsLossless) IsLossless (λ d. d.backup) fs d (λ x e. (x ≡ b) × IsFirst e)
          (λ x e. (let g = h.2 in cc, h)) (inl h) (inl h))
        (λ x gs e (same, k).
          handle-Ends (λ _. IsRestored) (λ _. IsRestored) (λ _. IsLossless) (λ _. IsLossless)
            IsLossless pure (after_failure drop_spare) _
            (moved-Recovers x (exists e.primary) gs e same refl k) (λ _ hs f l. l)
            (λ y hs f l.
              continue-Ends (λ _. IsLossless) IsLossless (λ _. IsLossless) (λ _. IsRestored)
                (λ _. fail y) (drop_spare hs f) (drop_spare-Recovers hs f l) (λ _ is g m. m)))

  backup-Recovers :
      (j : Json) (x : StorageError) (there : Bool) (fs : List Fate) (d : Disk)
      → IsFirst d
      → Recovers (λ s e. IsLossless e × IsRead j s e) (recover_from_backup j x there fs d)
  backup-Recovers j x false fs d h = inl h
  backup-Recovers j x true fs d h =
      handle-Ends (λ s e. IsFirst e × (parse_store j b ≡ ok s)) (λ s e. IsLossless e × IsRead j s e)
        (λ x e. IsFirst e × ((x ≡ io) ⊎ (parse_store j b ≡ err x))) (λ _. IsLossless) IsLossless
        (λ s. restore_backup >> pure s) (λ _. fail x) (read_store j (λ d. d.backup) fs d)
        (weaken-Ends (λ s e. IsFirst e × (parse_store j b ≡ ok s))
          (λ s e. IsFirst e × (parse_store j b ≡ ok s))
          (λ x e. IsFirst e × ((x ≡ io) ⊎ (parse_store j b ≡ err x)))
          (λ x e. IsFirst e × ((x ≡ io) ⊎ (parse_store j b ≡ err x))) IsFirst IsLossless _
          (λ _ _ q. q) (λ _ _ q. q) (λ _ q. inl q)
          (read_store-Ends IsFirst j (λ d. d.backup) b fs d h.2 h))
        (λ s gs e (k, parses).
          continue-Ends (λ _. IsLossless) IsLossless (λ _. IsRestored)
            (λ s e. IsLossless e × IsRead j s e) (λ _. pure s) (restore_backup gs e)
            (restore-Recovers gs e k) (λ _ hs f l. (inr (inr l), (b, l.0, parses))))
        (λ _ gs e k. inl k.0)

  unreadable-Recovers :
      (j : Json) (x : StorageError) (fs : List Fate) (d : Disk)
      → IsFirst d
      → Recovers (λ s e. IsLossless e × IsRead j s e) (unreadable j x fs d)
  unreadable-Recovers j (newer_version _) fs d h = inl h
  unreadable-Recovers j no_data_directory fs d h =
      backup-Recovers j no_data_directory (exists d.backup) fs d h
  unreadable-Recovers j changed fs d h = backup-Recovers j changed (exists d.backup) fs d h
  unreadable-Recovers j backup_recovery_required fs d h =
      backup-Recovers j backup_recovery_required (exists d.backup) fs d h
  unreadable-Recovers j recovery_failed fs d h =
      backup-Recovers j recovery_failed (exists d.backup) fs d h
  unreadable-Recovers j io fs d h = backup-Recovers j io (exists d.backup) fs d h
  unreadable-Recovers j json fs d h = backup-Recovers j json (exists d.backup) fs d h
  unreadable-Recovers j (write_blocked t) fs d h =
      backup-Recovers j (write_blocked t) (exists d.backup) fs d h

  primary-Recovers :
      (j : Json) (there : Bool) (fs : List Fate) (d : Disk)
      → exists d.primary ≡ there
      → IsFirst d
      → Recovers
          (λ s e. IsLossless e × IsRead j s e)
          ((if there
              then attempt (read_store j (λ d. d.primary)) pure (unreadable j)
              else (ask (λ d. exists d.backup) >>= from_backup j))
            fs d)
  primary-Recovers j false fs d f h = let t : exists d.primary ≡ true = ap exists h.0 in cc
  primary-Recovers j true fs d f h =
      handle-Ends (λ s e. IsFirst e × (parse_store j p ≡ ok s)) (λ s e. IsLossless e × IsRead j s e)
        (λ x e. IsFirst e × ((x ≡ io) ⊎ (parse_store j p ≡ err x))) (λ _. IsLossless) IsLossless
        pure (unreadable j) (read_store j (λ d. d.primary) fs d)
        (weaken-Ends (λ s e. IsFirst e × (parse_store j p ≡ ok s))
          (λ s e. IsFirst e × (parse_store j p ≡ ok s))
          (λ x e. IsFirst e × ((x ≡ io) ⊎ (parse_store j p ≡ err x)))
          (λ x e. IsFirst e × ((x ≡ io) ⊎ (parse_store j p ≡ err x))) IsFirst IsLossless _
          (λ _ _ q. q) (λ _ _ q. q) (λ _ q. inl q)
          (read_store-Ends IsFirst j (λ d. d.primary) p fs d h.0 h))
        (λ s gs e k. (inl k.0, (p, k.0.0, k.1))) (λ x gs e k. unreadable-Recovers j x gs e k.0)

-- Loading with recovery, where there are hosts and a backup, whatever of its calls fails and wherever
-- the process ends. The backup stays as it is. The bytes of the primary stay where they are, or are
-- set aside first among the corrupt ones, whether or not the backup is then in their place. A store
-- that is handed out was read from the primary that is there now.
pub load_recovering-IsLossless :
    (j : Json) (fs : List Fate) (d : Disk) (p b : Bytes)
    → d.primary ≡ some p
    → d.backup ≡ some b
    → Ends
        (λ s e. IsLossless p b d.corrupt e × IsRead j s e)
        (λ _. IsLossless p b d.corrupt)
        (IsLossless p b d.corrupt)
        (load_recovering j fs d)
unfolding load_recovering
load_recovering-IsLossless j fs d p b there kept =
    primary-Recovers p b d.corrupt j (exists d.primary) fs d refl (there, refl, kept)
