-- ===== src/Storage/Store.antt =====
-- src/storage.rs: loading and saving the hosts. The JSON library is a parameter: what it writes for a
-- store, the version that it finds, and the store that it reads. The texts of errors and paths are
-- left out.
use codex_hosts.Prelude.{
  ℕ, Bool, true, false, not, ◌&&◌, Option, none, some, List, [], if◌then◌else◌, ltb, ◌=ᵗ◌, Bytes,
  Text, Result, ok, err, ok_or,
}
use codex_hosts.Model.{Uuid, VaultProvider, HostProfile, is_some, vault_provider}
use codex_hosts.Storage.Disk.{
  StorageError, changed, backup_recovery_required, recovery_failed, json, newer_version,
  write_blocked, Disk, Io, pure, fail, ◌>>=◌, ◌>>◌, attempt, ask, call, read, write_temporary,
  write_spare, temporary_to_primary, spare_to_backup, spare_to_primary, primary_to_corrupt,
  corrupt_to_primary, drop_temporary, drop_spare,
}
use codex_hosts.Model.{VaultProvider, bitwarden, one_password}

pub record BitwardenProfile : Type 0 where
  pub id : Uuid
  pub email : Text
  pub server_url : Option Text
  pub folder_id : Option Uuid
  pub folder_name : Text

pub record BitwardenSettings : Type 0 where
  pub enabled : Bool
  pub cli_path : Option Text
  pub profile : Option BitwardenProfile
  pub sync_max_age_seconds : ℕ

pub record OnePasswordSettings : Type 0 where
  pub enabled : Bool
  pub cli_path : Option Text
  pub account : Option Text

abbrev pub store_version : ℕ
store_version = 2

pub record HostStore : Type 0 where
  pub version : ℕ
  pub preferred_locale : Option Text
  pub hosts : List HostProfile
  pub bitwarden : BitwardenSettings
  pub onepassword : OnePasswordSettings
  pub temporary_call_approval : Bool
  pub write_blocked : Option Text
  pub revision : Option Bytes

-- `HostStore::default()`, whose settings are switched on
abbrev pub default_store : HostStore
default_store = record {
  version = store_version;
  preferred_locale = none;
  hosts = [];
  bitwarden = record {
    enabled = true;
    cli_path = none;
    profile = none;
    sync_max_age_seconds = 300;
  };
  onepassword = record { enabled = true; cli_path = none; account = none };
  temporary_call_approval = true;
  write_blocked = none;
  revision = none;
}

pub provider_enabled : HostStore → VaultProvider → Bool
provider_enabled s bitwarden = s.bitwarden.enabled
provider_enabled s one_password = s.onepassword.enabled

pub serves : HostStore → HostProfile → Bool
serves s host = elim (vault_provider host) [ none ↦ true | some p ↦ provider_enabled s p ]

-- the JSON library
pub record Json : Type 0 where
  pub to_vec : HostStore → Option Bytes
  pub version_of : Bytes → Option ℕ
  pub from_slice : Bytes → Option HostStore

abbrev pub lift {ℓ} : {A : Type ℓ} → Result StorageError A → Io A
lift (ok a) = pure a
lift (err e) = fail e

-- `read_store`, from the bytes on
abbrev pub parsed : Bytes → Option HostStore → Result StorageError HostStore
parsed bytes none = err json
parsed bytes (some store) =
    ok (record store { version = store_version; write_blocked = none; revision = some bytes })

abbrev pub parse_version : Json → Bytes → Option ℕ → Result StorageError HostStore
parse_version j bytes none = err json
parse_version j bytes (some version) =
    if ltb store_version version
    then err (newer_version version)
    else parsed bytes (j.from_slice bytes)

abbrev pub parse_store : Json → Bytes → Result StorageError HostStore
parse_store j bytes = parse_version j bytes (j.version_of bytes)

abbrev pub read_store : Json → (Disk → Option Bytes) → Io HostStore
read_store j file = do bytes ← read file; lift (parse_store j bytes)

abbrev pub exists : Option Bytes → Bool
exists file = is_some file

abbrev pub unless_backup : Bool → Io HostStore
unless_backup there = if there then fail backup_recovery_required else pure default_store

-- `load_primary_strict`, under `load`
abbrev pub load : Json → Io HostStore
load j = ask (λ d. exists d.primary) >>= λ there.
    if there then read_store j (λ d. d.primary) else (ask (λ d. exists d.backup) >>= unless_backup)

-- what follows a failed rename of `refresh_backup`, `restore_backup` and `save_store_to_path`
abbrev pub after_failure : Io (Unit {0}) → StorageError → Io (Unit {0})
after_failure clean e = clean >> fail e

unfoldable pub refresh_backup : Io (Unit {0})
refresh_backup = do
  bytes ← read (λ d. d.primary)
  attempt (write_spare bytes >> spare_to_backup) pure (after_failure drop_spare)

-- the rename of the recovered file, and the way back where it fails
abbrev pub recovered : Bool → Io (Unit {0})
recovered preserved = attempt spare_to_primary pure λ e. ask (λ d. exists d.primary) >>= λ there.
    if preserved && not there
    then attempt corrupt_to_primary (λ _. fail e) (λ _. fail recovery_failed)
    else fail e

unfoldable pub restore_backup : Io (Unit {0})
restore_backup = do
  bytes ← read (λ d. d.backup)
  preserved ← ask (λ d. exists d.primary)
  attempt
      (write_spare bytes
        >> (if preserved then primary_to_corrupt else pure tt)
        >> recovered preserved)
      pure (after_failure drop_spare)

-- `fs::rename` over the primary, and what is tried where it fails
abbrev pub replace_primary : Io (Unit {0})
replace_primary = attempt temporary_to_primary pure λ e.
    ask (λ d. not (exists d.primary) && exists d.backup) >>= λ lost.
    if lost then attempt restore_backup (λ _. fail e) (λ _. fail recovery_failed) else fail e

-- a primary that can be read becomes the backup
abbrev pub keep_readable : Json → Bool → Io (Unit {0})
keep_readable j there =
    if there
    then attempt (read_store j (λ d. d.primary)) (λ _. refresh_backup) (λ _. pure tt)
    else pure tt

unfoldable pub save_store_to_path : Json → HostStore → Io (Unit {0})
save_store_to_path j store =
    call (λ d. d) (λ _ d. d)
    >> attempt
        (lift
            (ok_or (j.to_vec (record store { version = store_version; write_blocked = none })) json)
          >>= λ bytes.
              write_temporary bytes
              >> (ask (λ d. exists d.primary) >>= keep_readable j)
              >> replace_primary)
        pure (after_failure drop_temporary)

abbrev pub refuse_blocked : Option Text → Io (Unit {0})
refuse_blocked none = pure tt
refuse_blocked (some reason) = fail (write_blocked reason)

abbrev pub save_recovery_baseline_to_path : Json → HostStore → Io (Unit {0})
save_recovery_baseline_to_path j store = do
  refuse_blocked store.write_blocked
  save_store_to_path j store
  refresh_backup

-- `disk_revision`
abbrev pub disk_revision : Io (Option Bytes)
disk_revision = call (λ d. d) (λ _ d. d) >> ask (λ d. d.primary)

abbrev pub same_revision : Option Bytes → Option Bytes → Bool
same_revision none none = true
same_revision (some a) (some b) = a =ᵗ b
same_revision _ _ = false

abbrev pub refuse_changed : Bool → Io (Unit {0})
refuse_changed same = if same then pure tt else fail changed

-- the lock of the file beside, which another process may hold
abbrev pub try_lock : Io (Unit {0})
try_lock = attempt (call (λ d. d) (λ _ d. d)) pure (λ _. fail (write_blocked []))

-- the revision on the disk, once the lock is held
abbrev pub locked_revision : HostStore → Io (Option Bytes)
locked_revision store = do
  refuse_blocked store.write_blocked
  call (λ d. d) (λ _ d. d)
  call (λ d. d) (λ _ d. d)
  try_lock
  disk_revision

-- the revision that the store has from then on
unfoldable pub save_checked_store_to_path : Json → HostStore → HostStore → Bool → Io (Option Bytes)
save_checked_store_to_path j store expected recovery = do
  now ← locked_revision store
  refuse_changed (same_revision now expected.revision)
  if recovery then save_recovery_baseline_to_path j store else save_store_to_path j store
  disk_revision

unfoldable pub save : Json → HostStore → Io (Option Bytes)
save j store = do refuse_blocked store.write_blocked; save_checked_store_to_path j store store false

-- `load_primary_or_backup`, under `load_recovering`
abbrev pub recover_from_backup : Json → StorageError → Bool → Io HostStore
recover_from_backup j e there =
    if there
    then attempt (read_store j (λ d. d.backup)) (λ store. restore_backup >> pure store)
        (λ _. fail e)
    else fail e

abbrev pub unreadable : Json → StorageError → Io HostStore
unreadable j (newer_version v) = fail (newer_version v)
unreadable j e = ask (λ d. exists d.backup) >>= recover_from_backup j e

abbrev pub from_backup : Json → Bool → Io HostStore
from_backup j there =
    if there
    then (read_store j (λ d. d.backup) >>= λ store. restore_backup >> pure store)
    else pure default_store

unfoldable pub load_recovering : Json → Io HostStore
load_recovering j = ask (λ d. exists d.primary) >>= λ there.
    if there
    then attempt (read_store j (λ d. d.primary)) pure (unreadable j)
    else (ask (λ d. exists d.backup) >>= from_backup j)
