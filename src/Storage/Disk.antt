-- ===== src/Storage/Disk.antt =====
-- The files that src/storage.rs works on, and its calls of the operating system. A call works, fails
-- or is cut off by the end of the process; a write that does not work leaves some bytes behind.
use codex_hosts.Prelude.{ℕ, Option, none, some, List, [], ◌∷◌, Bytes, Text}

-- `StorageError`, without its texts
pub data StorageError : Type 0 where
  no_data_directory changed backup_recovery_required recovery_failed io json : StorageError
  newer_version : ℕ → StorageError
  write_blocked : Text → StorageError

pub record Disk : Type 0 where
  pub primary : Option Bytes
  pub backup : Option Bytes
  -- `hosts.<id>.tmp`, and the one of a backup or a recovery
  pub temporary : Option Bytes
  pub spare : Option Bytes
  -- `hosts.json.corrupt.<id>.bak`, the last one first
  pub corrupt : List Bytes

pub data Fate : Type 0 where
  works : Fate
  fails stops : Bytes → Fate

-- what becomes of a call and of those behind it
pub data Outcome {ℓ} (A : Type ℓ) : Type ℓ where
  done : A → Outcome A
  failed : StorageError → Outcome A
  crashed : Outcome A

-- a program on the files, under what becomes of its calls; calls beyond the list work
abbrev pub Io {ℓ} : Type ℓ → Type ℓ
Io A = List Fate → Disk → Outcome A × List Fate × Disk

abbrev pub pure {ℓ} : {A : Type ℓ} → A → Io A
pure a fs d = (done a, fs, d)

abbrev pub fail {ℓ} : {A : Type ℓ} → StorageError → Io A
fail e fs d = (failed e, fs, d)

abbrev pub continue {ℓ κ} :
    {A : Type ℓ} {B : Type κ}
    → (A → Io B)
    → Outcome A × List Fate × Disk
    → Outcome B × List Fate × Disk
continue k (done a, fs, d) = k a fs d
continue k (failed e, fs, d) = (failed e, fs, d)
continue k (crashed, fs, d) = (crashed, fs, d)

-- `?`
infixl 5 ◌>>=◌ ◌>>◌
abbrev pub ◌>>=◌ {ℓ κ} : {A : Type ℓ} {B : Type κ} → Io A → (A → Io B) → Io B
(m >>= k) fs d = continue k (m fs d)

abbrev pub ◌>>◌ {ℓ κ} : {A : Type ℓ} {B : Type κ} → Io A → Io B → Io B
m >> n = m >>= λ _. n

abbrev pub handle {ℓ κ} :
    {A : Type ℓ} {B : Type κ}
    → (A → Io B)
    → (StorageError → Io B)
    → Outcome A × List Fate × Disk
    → Outcome B × List Fate × Disk
handle k h (done a, fs, d) = k a fs d
handle k h (failed e, fs, d) = h e fs d
handle k h (crashed, fs, d) = (crashed, fs, d)

-- `match` on the result of a program
abbrev pub attempt {ℓ κ} :
    {A : Type ℓ} {B : Type κ} → Io A → (A → Io B) → (StorageError → Io B) → Io B
attempt m k h fs d = handle k h (m fs d)

-- what is read without a failure: whether a file is there
abbrev pub ask {ℓ} : {A : Type ℓ} → (Disk → A) → Io A
ask f fs d = (done (f d), fs, d)

-- a call that changes the files
abbrev pub call : (Disk → Disk) → (Bytes → Disk → Disk) → Io (Unit {0})
call well ill [] d = (done tt, [], well d)
call well ill (works ∷ fs) d = (done tt, fs, well d)
call well ill (fails b ∷ fs) d = (failed io, fs, ill b d)
call well ill (stops b ∷ fs) d = (crashed, fs, ill b d)

abbrev pub found : Option Bytes → Io Bytes
found none = fail io
found (some b) = pure b

-- `fs::read` of a file that is there or not
abbrev pub read : (Disk → Option Bytes) → Io Bytes
read file = call (λ d. d) (λ _ d. d) >> (ask file >>= found)

-- `write_synced_file`, to one of the two new files
abbrev pub write_temporary : Bytes → Io (Unit {0})
write_temporary bytes =
    call (λ d. record d { temporary = some bytes }) (λ b d. record d { temporary = some b })

abbrev pub write_spare : Bytes → Io (Unit {0})
write_spare bytes = call (λ d. record d { spare = some bytes }) (λ b d. record d { spare = some b })

-- `fs::rename`, which replaces its target at once or leaves both
abbrev pub rename : (Disk → Disk) → Io (Unit {0})
rename move = call move (λ _ d. d)

abbrev pub temporary_to_primary : Io (Unit {0})
temporary_to_primary = rename (λ d. record d { primary = d.temporary; temporary = none })

abbrev pub spare_to_backup : Io (Unit {0})
spare_to_backup = rename (λ d. record d { backup = d.spare; spare = none })

abbrev pub spare_to_primary : Io (Unit {0})
spare_to_primary = rename (λ d. record d { primary = d.spare; spare = none })

abbrev pub set_aside : Option Bytes → Disk → Disk
set_aside none d = d
set_aside (some b) d = record d { primary = none; corrupt = b ∷ d.corrupt }

abbrev pub primary_to_corrupt : Io (Unit {0})
primary_to_corrupt = rename (λ d. set_aside d.primary d)

abbrev pub put_back : List Bytes → Disk → Disk
put_back [] d = d
put_back (b ∷ bs) d = record d { primary = some b; corrupt = bs }

abbrev pub corrupt_to_primary : Io (Unit {0})
corrupt_to_primary = rename (λ d. put_back d.corrupt d)

-- `let _ = fs::remove_file(..)`
abbrev pub drop_temporary : Io (Unit {0})
drop_temporary = attempt (rename (λ d. record d { temporary = none })) pure (λ _. pure tt)

abbrev pub drop_spare : Io (Unit {0})
drop_spare = attempt (rename (λ d. record d { spare = none })) pure (λ _. pure tt)
