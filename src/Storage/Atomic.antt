-- ===== src/Storage/Atomic.antt =====
-- Saving replaces the hosts at once, wherever it is cut off.
use codex_hosts.Prelude.{
  ◌≡◌, ◌≢◌, refl, sym, ap, ◌∙◌, inr, ◌⊎◌, Bool, true, false, not, ◌&&◌, Option, none, some, List,
  if◌then◌else◌, Bytes, Result, ok, err, if-case,
}
use codex_hosts.Storage.Disk.{
  StorageError, recovery_failed, Disk, Fate, Outcome, Io, pure, fail, rename, ◌>>=◌, ◌>>◌, attempt,
  ask, call, read, write_temporary, write_spare, temporary_to_primary, spare_to_backup,
  drop_temporary, drop_spare,
}
use codex_hosts.Storage.Ends.{Ends, continue-Ends, call-Ends, read-Ends, handle-Ends, weaken-Ends}
use codex_hosts.Storage.Store.{
  store_version, HostStore, Json, lift, parse_store, read_store, exists, after_failure,
  refresh_backup, restore_backup, replace_primary, keep_readable, save_store_to_path,
}

-- the primary is the old one, and the backup that or what it was
module _ (before : Option Bytes) (old : Bytes) (t : Option Bytes) where
  abbrev pub IsKept : Disk → Type 0
  IsKept d =
      (d.primary ≡ some old) × ((d.backup ≡ before) ⊎ (d.backup ≡ some old)) × (d.temporary ≡ t)

  abbrev Keeps {ℓ} : {A : Type ℓ} → Outcome A × List Fate × Disk → Type 0
  Keeps r = Ends (λ _. IsKept) (λ _. IsKept) IsKept r

  drop_spare-Keeps : (fs : List Fate) (d : Disk) → IsKept d → Keeps (drop_spare fs d)
  drop_spare-Keeps fs d h =
      handle-Ends (λ _. IsKept) (λ _. IsKept) (λ _. IsKept) (λ _. IsKept) IsKept pure (λ _. pure tt)
        (rename (λ d. record d { spare = none }) fs d)
        (call-Ends (λ _. IsKept) IsKept (λ _. IsKept) (λ d. record d { spare = none }) (λ _ d. d) fs
          d h (λ _. (h, h)))
        (λ _ gs e k. k) (λ _ gs e k. k)

  spare-Keeps :
      (fs : List Fate) (d : Disk) → IsKept d → Keeps ((write_spare old >> spare_to_backup) fs d)
  spare-Keeps fs d h =
      continue-Ends (λ _. IsKept) IsKept (λ _ e. IsKept e × (e.spare ≡ some old)) (λ _. IsKept)
        (λ _. spare_to_backup) (write_spare old fs d)
        (call-Ends (λ _. IsKept) IsKept (λ _ e. IsKept e × (e.spare ≡ some old))
          (λ d. record d { spare = some old }) (λ b d. record d { spare = some b }) fs d (h, refl)
          (λ _. (h, h)))
        (λ _ gs e (k, there).
          call-Ends (λ _. IsKept) IsKept (λ _. IsKept)
            (λ d. record d { backup = d.spare; spare = none }) (λ _ d. d) gs e (k.0, inr there, k.2)
            (λ _. (k, k)))

  pub refresh-Keeps : (fs : List Fate) (d : Disk) → IsKept d → Keeps (refresh_backup fs d)
  unfolding refresh_backup
  refresh-Keeps fs d h =
      continue-Ends (λ _. IsKept) IsKept (λ b e. (b ≡ old) × IsKept e) (λ _. IsKept) _
        (read (λ d. d.primary) fs d)
        (read-Ends (λ _. IsKept) IsKept (λ d. d.primary) fs d (λ b e. (b ≡ old) × IsKept e)
          (λ b e. (let f = h.0 in cc, h)) h h)
        (λ b gs e (same, k). rw same (
          handle-Ends (λ _. IsKept) (λ _. IsKept) (λ _. IsKept) (λ _. IsKept) IsKept pure
            (after_failure drop_spare) ((write_spare old >> spare_to_backup) gs e)
            (spare-Keeps gs e k) (λ _ hs f l. l)
            (λ x hs f l.
              continue-Ends (λ _. IsKept) IsKept (λ _. IsKept) (λ _. IsKept) (λ _. fail x)
                (drop_spare hs f) (drop_spare-Keeps hs f l) (λ _ is g m. m))))

  lift-Keeps :
      (r : Result StorageError HostStore) (fs : List Fate) (d : Disk)
      → IsKept d
      → Keeps (lift r fs d)
  lift-Keeps (ok _) fs d h = h
  lift-Keeps (err _) fs d h = h

  pub readable-Keeps :
      (j : Json) (there : Bool) (fs : List Fate) (d : Disk)
      → IsKept d
      → Keeps (keep_readable j there fs d)
  readable-Keeps j false fs d h = h
  readable-Keeps j true fs d h =
      handle-Ends (λ _. IsKept) (λ _. IsKept) (λ _. IsKept) (λ _. IsKept) IsKept
        (λ _. refresh_backup) (λ _. pure tt) (read_store j (λ d. d.primary) fs d)
        (continue-Ends (λ _. IsKept) IsKept (λ _. IsKept) (λ _. IsKept)
          (λ b. lift (parse_store j b)) (read (λ d. d.primary) fs d)
          (read-Ends (λ _. IsKept) IsKept (λ d. d.primary) fs d (λ _. IsKept) (λ _ _. h) h h)
          (λ b gs e k. lift-Keeps (parse_store j b) gs e k))
        (λ _ gs e k. refresh-Keeps gs e k) (λ _ gs e k. k)

true_ne_false : true ≢ false
true_ne_false e = cc

-- the files before the new primary is in its place, and after that
module _ (before : Option Bytes) (old new : Bytes) where
  abbrev pub IsOld : Disk → Type 0
  IsOld d = (d.primary ≡ some old) × ((d.backup ≡ before) ⊎ (d.backup ≡ some old))

  abbrev pub IsNew : Disk → Type 0
  IsNew d = (d.primary ≡ some new) × ((d.backup ≡ before) ⊎ (d.backup ≡ some old))

  replace-Ends :
      (fs : List Fate) (d : Disk)
      → IsKept before old (some new) d
      → Ends (λ _. IsNew) (λ _. IsOld) IsOld (replace_primary fs d)
  replace-Ends fs d h =
      handle-Ends (λ _. IsNew) (λ _. IsNew) (λ _. IsOld) (λ _. IsOld) IsOld pure
        (λ x. ask (λ d. not (exists d.primary) && exists d.backup) >>= λ lost.
          if lost then attempt restore_backup (λ _. fail x) (λ _. fail recovery_failed) else fail x)
        (temporary_to_primary fs d)
        (call-Ends (λ _. IsOld) IsOld (λ _. IsNew)
          (λ d. record d { primary = d.temporary; temporary = none }) (λ _ d. d) fs d (h.2, h.1)
          (λ _. ((h.0, h.1), (h.0, h.1))))
        (λ _ gs e k. k)
        (λ x gs e k.
          let there : (not (exists e.primary) && exists e.backup) ≡ false =
            ap (λ o. not (exists o) && exists e.backup) k.0 in
          if-case (λ (m : Io (Unit {0})). Ends (λ _. IsNew) (λ _. IsOld) IsOld (m gs e))
            (not (exists e.primary) && exists e.backup)
            (λ t. absurd (true_ne_false (sym t ∙ there))) (λ _. k))

  drop_temporary-Ends :
      (fs : List Fate) (d : Disk)
      → IsOld d
      → Ends (λ _. IsOld) (λ _. IsOld) IsOld (drop_temporary fs d)
  drop_temporary-Ends fs d h =
      handle-Ends (λ _. IsOld) (λ _. IsOld) (λ _. IsOld) (λ _. IsOld) IsOld pure (λ _. pure tt)
        (rename (λ d. record d { temporary = none }) fs d)
        (call-Ends (λ _. IsOld) IsOld (λ _. IsOld) (λ d. record d { temporary = none }) (λ _ d. d)
          fs d h (λ _. (h, h)))
        (λ _ gs e k. k) (λ _ gs e k. k)

  body-Ends :
      (j : Json) (fs : List Fate) (d : Disk)
      → IsOld d
      → Ends
          (λ _. IsNew)
          (λ _. IsOld)
          IsOld
          ((write_temporary new
              >> (ask (λ d. exists d.primary) >>= keep_readable j)
              >> replace_primary)
            fs d)
  body-Ends j fs d h =
      continue-Ends (λ _. IsOld) IsOld (λ _. IsKept before old (some new)) (λ _. IsNew)
        (λ _. replace_primary)
        ((write_temporary new >> (ask (λ d. exists d.primary) >>= keep_readable j)) fs d)
        (continue-Ends (λ _. IsOld) IsOld (λ _. IsKept before old (some new))
          (λ _. IsKept before old (some new)) (λ _. ask (λ d. exists d.primary) >>= keep_readable j)
          (write_temporary new fs d)
          (call-Ends (λ _. IsOld) IsOld (λ _. IsKept before old (some new))
            (λ d. record d { temporary = some new }) (λ b d. record d { temporary = some b }) fs d
            (h.0, h.1, refl) (λ _. (h, h)))
          (λ _ gs e k.
            weaken-Ends (λ _. IsKept before old (some new)) (λ _. IsKept before old (some new))
              (λ _. IsKept before old (some new)) (λ _. IsOld) (IsKept before old (some new)) IsOld
              (keep_readable j (exists e.primary) gs e) (λ _ g l. l) (λ _ g l. (l.0, l.1))
              (λ g l. (l.0, l.1))
              (readable-Keeps before old (some new) j (exists e.primary) gs e k)))
        (λ _ gs e k. replace-Ends gs e k)

  pub save_store_to_path-Ends :
      (j : Json) (store : HostStore) (fs : List Fate) (d : Disk)
      → j.to_vec (record store { version = store_version; write_blocked = none }) ≡ some new
      → IsOld d
      → Ends (λ _. IsNew) (λ _. IsOld) IsOld (save_store_to_path j store fs d)
  unfolding save_store_to_path
  save_store_to_path-Ends j store fs d encoded h =
      continue-Ends (λ _. IsOld) IsOld (λ _. IsOld) (λ _. IsNew) _ (call (λ d. d) (λ _ d. d) fs d)
        (call-Ends (λ _. IsOld) IsOld (λ _. IsOld) (λ d. d) (λ _ d. d) fs d h (λ _. (h, h)))
        (λ _ gs e k. rw encoded (
          handle-Ends (λ _. IsNew) (λ _. IsNew) (λ _. IsOld) (λ _. IsOld) IsOld pure
            (after_failure drop_temporary) _ (body-Ends j gs e k) (λ _ hs f l. l)
            (λ x hs f l.
              continue-Ends (λ _. IsOld) IsOld (λ _. IsOld) (λ _. IsNew) (λ _. fail x)
                (drop_temporary hs f) (drop_temporary-Ends hs f l) (λ _ is g m. m))))
