-- ===== src/Storage/Saved.antt =====
-- What a save of the hosts leaves behind, and what it does about a file that another has changed.
use codex_hosts.Prelude.{
  ◌≡◌, refl, ap, ◌∙◌, inl, inr, ◌⊎◌, Bool, true, false, Option, none, some, List, [], ◌=ᵗ◌, Bytes,
  Text,
}
use codex_hosts.Storage.Disk.{
  StorageError, write_blocked, Disk, Fate, Outcome, done, failed, crashed, Io, pure, fail, continue,
  ask, call,
}
use codex_hosts.Storage.Ends.{Ends, continue-Ends, call-Ends, handle-Ends, weaken-Ends}
use codex_hosts.Storage.Atomic.{IsOld, IsNew, save_store_to_path-Ends}
use codex_hosts.Storage.Store.{
  store_version, HostStore, Json, save_store_to_path, refuse_blocked, disk_revision, same_revision,
  refuse_changed, try_lock, locked_revision, save_checked_store_to_path, save,
}

-- What a reader finds after a save, whose outcome is the first index: a write of the whole at once.
pub data AtomicWrite (old new : Bytes) : Outcome (Option Bytes) → Bytes → Type 0 where
  written : AtomicWrite old new (done (some new)) new
  refused : (e : StorageError) → AtomicWrite old new (failed e) old
  cut_before : AtomicWrite old new crashed old
  reported_late : (e : StorageError) → AtomicWrite old new (failed e) new
  cut_after : AtomicWrite old new crashed new

-- calls that change nothing keep what holds
module _ (P : Disk → Type 0) where
  abbrev Stays {ℓ} : {A : Type ℓ} → Outcome A × List Fate × Disk → Type 0
  Stays r = Ends (λ _. P) (λ _. P) P r

  blocked-Stays :
      (o : Option Text) (fs : List Fate) (d : Disk) → P d → Stays (refuse_blocked o fs d)
  blocked-Stays none fs d h = h
  blocked-Stays (some _) fs d h = h

  call-Stays : (fs : List Fate) (d : Disk) → P d → Stays (call (λ d. d) (λ _ d. d) fs d)
  call-Stays fs d h = call-Ends (λ _. P) P (λ _. P) (λ d. d) (λ _ d. d) fs d h (λ _. (h, h))

  lock-Stays : (fs : List Fate) (d : Disk) → P d → Stays (try_lock fs d)
  lock-Stays fs d h =
      handle-Ends (λ _. P) (λ _. P) (λ _. P) (λ _. P) P pure (λ _. fail (write_blocked []))
        (call (λ d. d) (λ _ d. d) fs d) (call-Stays fs d h) (λ _ gs e k. k) (λ _ gs e k. k)

  revision-Stays :
      (fs : List Fate) (d : Disk)
      → P d
      → Ends (λ r e. P e × (r ≡ e.primary)) (λ _. P) P (disk_revision fs d)
  revision-Stays fs d h =
      continue-Ends (λ _. P) P (λ _. P) (λ r e. P e × (r ≡ e.primary)) (λ _. ask (λ d. d.primary))
        (call (λ d. d) (λ _ d. d) fs d) (call-Stays fs d h) (λ _ gs e k. (k, refl))

  opened-Stays :
      (store : HostStore) (fs : List Fate) (d : Disk)
      → P d
      → Ends (λ r e. P e × (r ≡ e.primary)) (λ _. P) P (locked_revision store fs d)
  opened-Stays store fs d h =
      let Q : Option Bytes → Disk → Type 0 = λ r e. P e × (r ≡ e.primary) in
      continue-Ends (λ _. P) P (λ _. P) Q _ (refuse_blocked store.write_blocked fs d)
        (blocked-Stays store.write_blocked fs d h)
        λ _ gs e k.
          continue-Ends (λ _. P) P (λ _. P) Q _ (call (λ d. d) (λ _ d. d) gs e) (call-Stays gs e k)
            λ _ hs f l.
              continue-Ends (λ _. P) P (λ _. P) Q _ (call (λ d. d) (λ _ d. d) hs f)
                (call-Stays hs f l)
                λ _ is g m.
                  continue-Ends (λ _. P) P (λ _. P) Q _ (try_lock is g) (lock-Stays is g m)
                    λ _ js i n. revision-Stays js i n

-- A save never writes over hosts that have changed since they were loaded: where the revision of the
-- store is not what is on the disk, it is not done, and leaves every file as it is, whatever becomes
-- of its calls.
pub save-Stays :
    (j : Json) (store : HostStore) (fs : List Fate) (d : Disk)
    → same_revision d.primary store.revision ≡ false
    → Ends (λ _ _. ⊥) (λ _ e. e ≡ d) (λ e. e ≡ d) (save j store fs d)
unfolding save save_checked_store_to_path
save-Stays j store fs d stale =
    let P : Disk → Type 0 = λ e. e ≡ d in
    continue-Ends (λ _. P) P (λ _. P) (λ _ _. ⊥) _ (refuse_blocked store.write_blocked fs d)
      (blocked-Stays P store.write_blocked fs d refl)
      λ _ gs e k.
        continue-Ends (λ _. P) P (λ r e. P e × (r ≡ e.primary)) (λ _ _. ⊥) _
          (locked_revision store gs e) (opened-Stays P store gs e k)
          λ r hs f (l, there).
            let differs : same_revision r store.revision ≡ false =
              ap (λ o. same_revision o store.revision) (there ∙ ap (λ x. x.primary) l) ∙ stale in
            rw differs l

module _ (before : Option Bytes) (old new : Bytes) where
  abbrev IsEither : Disk → Type 0
  IsEither d = IsOld before old new d ⊎ IsNew before old new d

  changed-Ends :
      (same : Bool) (fs : List Fate) (d : Disk)
      → IsOld before old new d
      → Ends
          (λ _. IsOld before old new)
          (λ _. IsOld before old new)
          (IsOld before old new)
          (refuse_changed same fs d)
  changed-Ends true fs d h = h
  changed-Ends false fs d h = h

  save-Ends :
      (j : Json) (store : HostStore) (fs : List Fate) (d : Disk)
      → j.to_vec (record store { version = store_version; write_blocked = none }) ≡ some new
      → IsOld before old new d
      → Ends
          (λ r e. IsNew before old new e × (r ≡ some new))
          (λ _. IsEither)
          IsEither
          (save j store fs d)
  unfolding save save_checked_store_to_path
  save-Ends j store fs d encoded h =
      let Old = IsOld before old new in
      let New = IsNew before old new in
      let Q : Option Bytes → Disk → Type 0 = λ r e. New e × (r ≡ some new) in
      seq Q _ (refuse_blocked store.write_blocked fs d)
        (blocked-Stays Old store.write_blocked fs d h)
        λ _ gs e k.
          seq Q _ (locked_revision store gs e)
            (weaken-Ends (λ r f. Old f × (r ≡ f.primary)) (λ _. Old) (λ _. Old) (λ _. Old) Old Old
              (locked_revision store gs e) (λ _ _ q. q.0) (λ _ _ q. q) (λ _ q. q)
              (opened-Stays Old store gs e k))
            λ r hs f l.
              seq Q _ (refuse_changed (same_revision r store.revision) hs f)
                (changed-Ends (same_revision r store.revision) hs f l)
                λ _ is g m.
                  continue-Ends (λ _. IsEither) IsEither (λ _. New) Q (λ _. disk_revision)
                    (save_store_to_path j store is g)
                    (weaken-Ends (λ _. New) (λ _. New) (λ _. Old) (λ _. IsEither) Old IsEither
                      (save_store_to_path j store is g) (λ _ _ q. q) (λ _ _ q. inl q) (λ _ q. inl q)
                      (save_store_to_path-Ends before old new j store is g encoded m))
                    (λ _ js i n.
                      weaken-Ends (λ r e. New e × (r ≡ e.primary)) Q (λ _. New) (λ _. IsEither) New
                        IsEither (disk_revision js i) (λ r e q. (q.0, q.1 ∙ q.0.0)) (λ _ _ q. inr q)
                        (λ _ q. inr q) (revision-Stays New js i n))
    where
      -- a part that leaves the old files, whatever becomes of it
      seq :
          {A : Type 0} (Q : Option Bytes → Disk → Type 0) (next : A → Io (Option Bytes))
          (r : Outcome A × List Fate × Disk)
          → Ends (λ _. IsOld before old new) (λ _. IsOld before old new) (IsOld before old new) r
          → ((a : A) (fs : List Fate) (d : Disk)
              → IsOld before old new d
              → Ends Q (λ _. IsEither) IsEither (next a fs d))
          → Ends Q (λ _. IsEither) IsEither (continue next r)
      seq Q next (done a, fs, d) h g = g a fs d h
      seq Q next (failed e, fs, d) h g = inl h
      seq Q next (crashed, fs, d) h g = inl h

  final :
      (r : Outcome (Option Bytes) × List Fate × Disk)
      → Ends (λ r e. IsNew before old new e × (r ≡ some new)) (λ _. IsEither) IsEither r
      → (b : Bytes) × (r.2.primary ≡ some b)
        × AtomicWrite old new r.0 b
        × ((r.2.backup ≡ before) ⊎ (r.2.backup ≡ some old))
  final (done r, fs, d) (n, e) = (new, n.0, rw e written, n.1)
  final (failed e, fs, d) (inl h) = (old, h.0, refused e, h.1)
  final (failed e, fs, d) (inr n) = (new, n.0, reported_late e, n.1)
  final (crashed, fs, d) (inl h) = (old, h.0, cut_before, h.1)
  final (crashed, fs, d) (inr n) = (new, n.0, cut_after, n.1)

-- A save refines a write of the whole at once. Where hosts are on the disk, whatever of its calls
-- fails and wherever the process ends, a reader then finds the old bytes or the new ones, never
-- others and never none: the new ones if the save is done, and the revision it reports is theirs.
-- The backup is what it was, or the old bytes.
pub save-AtomicWrite :
    (j : Json) (store : HostStore) (fs : List Fate) (d : Disk) (old new : Bytes)
    → d.primary ≡ some old
    → j.to_vec (record store { version = store_version; write_blocked = none }) ≡ some new
    → let r = save j store fs d in
      (b : Bytes) × (r.2.primary ≡ some b)
      × AtomicWrite old new r.0 b
      × ((r.2.backup ≡ d.backup) ⊎ (r.2.backup ≡ some old))
save-AtomicWrite j store fs d old new there encoded =
    final d.backup old new (save j store fs d)
      (save-Ends d.backup old new j store fs d encoded (there, inl refl))

-- No update is lost. Of two stores that were loaded from the same bytes, once the first is saved, with
-- bytes that are not those, the second is not saved, and leaves the first one's files as they are.
pub save-no_lost_update :
    (j : Json) (one two : HostStore) (fs gs hs : List Fate) (d e : Disk) (old new : Bytes)
    (r : Option Bytes)
    → d.primary ≡ some old
    → two.revision ≡ some old
    → j.to_vec (record one { version = store_version; write_blocked = none }) ≡ some new
    → (new =ᵗ old) ≡ false
    → save j one fs d ≡ (done r, gs, e)
    → Ends (λ _ _. ⊥) (λ _ f. f ≡ e) (λ f. f ≡ e) (save j two hs e)
save-no_lost_update j one two fs gs hs d e old new r there loaded encoded differs saved =
    let (n, _) = rw saved at (save-Ends d.backup old new j one fs d encoded (there, inl refl)) in
    save-Stays j two hs e (rw (n.0, loaded) differs)
