-- ===== src/Storage/Tests.antt =====
-- Concrete saves and loads, with a library that writes a store as the number of its hosts.
use codex_hosts.Prelude.{ℕ, zero, ◌≡◌, refl, ◌⊎◌, Option, none, some, List, [], ◌∷◌, Bytes, length}
use codex_hosts.Storage.Disk.{io, Disk, Fate, works, fails, done, failed}
use codex_hosts.Storage.Ends.{Ends}
use codex_hosts.Storage.Saved.{AtomicWrite, save-AtomicWrite, save-no_lost_update}
use codex_hosts.Storage.Recovered.{IsLossless, IsRead, load_recovering-IsLossless}
use codex_hosts.Model.Samples.{gate, inner}
use codex_hosts.Storage.Store.{
  HostStore, default_store, Json, refresh_backup, restore_backup, save_store_to_path,
  save_checked_store_to_path, save, load_recovering,
}

abbrev number_of : HostStore → Option Bytes
number_of s = some (s.version ∷ length s.hosts ∷ [])

abbrev version_byte : Bytes → Option ℕ
version_byte [] = none
version_byte (v ∷ _) = some v

abbrev counted : Bytes → Option HostStore
counted (v ∷ zero ∷ []) = some default_store
counted _ = none

abbrev plain : Json
plain = record { to_vec = number_of; version_of = version_byte; from_slice = counted }

abbrev one_host : HostStore
one_host = record default_store { hosts = gate ∷ []; revision = some (2 ∷ 0 ∷ []) }

abbrev two_hosts : HostStore
two_hosts = record default_store { hosts = gate ∷ inner ∷ []; revision = some (2 ∷ 0 ∷ []) }

abbrev saved_disk : Disk
saved_disk = record {
  primary = some (2 ∷ 0 ∷ []);
  backup = none;
  temporary = none;
  spare = none;
  corrupt = [];
}

-- the last rename fails
abbrev last_fails : List Fate
last_fails =
    works ∷ works ∷ works ∷ works ∷ works ∷ works ∷ works ∷ works ∷ works ∷ works ∷ fails [] ∷ []

unsaved : (save plain one_host last_fails saved_disk).0 ≡ failed io
unfolding save save_checked_store_to_path save_store_to_path refresh_backup
unsaved = refl

save-AtomicWrite_example :
    let r = save plain one_host last_fails saved_disk in
    (b : Bytes) × (r.2.primary ≡ some b)
    × AtomicWrite (2 ∷ 0 ∷ []) (2 ∷ 1 ∷ []) r.0 b
    × ((r.2.backup ≡ none) ⊎ (r.2.backup ≡ some (2 ∷ 0 ∷ [])))
save-AtomicWrite_example =
    save-AtomicWrite plain one_host last_fails saved_disk (2 ∷ 0 ∷ []) (2 ∷ 1 ∷ []) refl refl

abbrev after_one : Disk
after_one = record saved_disk { primary = some (2 ∷ 1 ∷ []); backup = some (2 ∷ 0 ∷ []) }

one_saved : save plain one_host [] saved_disk ≡ (done (some (2 ∷ 1 ∷ [])), [], after_one)
unfolding save save_checked_store_to_path save_store_to_path refresh_backup
one_saved = refl

save-no_lost_update_example :
    Ends (λ _ _. ⊥) (λ _ f. f ≡ after_one) (λ f. f ≡ after_one) (save plain two_hosts [] after_one)
save-no_lost_update_example =
    save-no_lost_update plain one_host two_hosts [] [] [] saved_disk after_one (2 ∷ 0 ∷ [])
      (2 ∷ 1 ∷ []) (some (2 ∷ 1 ∷ [])) refl refl refl refl one_saved

-- a primary that cannot be read, beside a backup that can
abbrev torn : Disk
torn = record saved_disk { primary = some (2 ∷ []); backup = some (2 ∷ 0 ∷ []) }

recovers :
    (load_recovering plain [] torn).2
    ≡ record torn { primary = some (2 ∷ 0 ∷ []); corrupt = (2 ∷ []) ∷ [] }
unfolding load_recovering restore_backup
recovers = refl

load_recovering-IsLossless_example :
    Ends
      (λ s e. IsLossless (2 ∷ []) (2 ∷ 0 ∷ []) [] e × IsRead plain s e)
      (λ _. IsLossless (2 ∷ []) (2 ∷ 0 ∷ []) [])
      (IsLossless (2 ∷ []) (2 ∷ 0 ∷ []) [])
      (load_recovering plain [] torn)
load_recovering-IsLossless_example =
    load_recovering-IsLossless plain [] torn (2 ∷ []) (2 ∷ 0 ∷ []) refl refl
