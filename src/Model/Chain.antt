-- ===== src/Model/Chain.antt =====
-- src/model.rs, `resolve_ssh_chain`: the jump hosts of a target, outermost first.
pub mod Linked
mod Tests
pub mod Sound
use codex_hosts.Prelude.{
  ℕ, zero, suc, ◌+◌, ◌-◌, ◌≤◌, ◌<◌, ◌≡◌, ◌≢◌, refl, sym, ap, ◌∙◌, inl, inr, ◌⊎◌, Bool, true, false,
  not, ◌&&◌, ◌||◌, Option, none, some, List, [], ◌∷◌, ◌++◌, if◌then◌else◌, ltb, leb, ◌==◌, ◌=ᵗ◌,
  Bytes, Text, codes, starts_with, position, is_empty, length, take, drop, any, all, find, keep,
  remove_first, update_first, concat, Result, ok, err, ◌>>=◌, ◌>>◌, refuse_if, err_ne_ok, ok_or,
  is_ok, >>=-eq-ok, arith, Bool-cases, Option-cases, none_ne_some, lt→ltb, take-append-drop,
  starts_with_split, drop-drop, position_split, position-lt, append_assoc, append-nil,
  length-append, length-drop, length-le_of_starts_with, All, All-append, count, count-append,
  String, map, length-map, length-keep-le, length-update_first, eq-nil_of_is_empty, text_eq_iff,
  text_eq_refl, ==_iff, ==_refl, ==_ne, min, max, ◌*◌, ◌/◌, ◌%◌, ◌^◌, contains, ◌↔◌, length-take,
  drop-append, starts_with-append, tests, concat,
}
use codex_hosts.Model.{
  ValidationIssue, chain, telnet_chain, contains_id, Uuid, Protocol, ssh, telnet, default_port,
  SshAuth, AuthPersistence, per_call, max_idle_persistence_minutes, Retention, retention, RemoteEnv,
  TelnetPrompts, SudoCredential, SudoSettings, SuSettings, valid_sudo_username, AdvancedSettings,
  VaultProvider, CredentialSource, VaultHostRef, HostProfile, is_ssh, is_password, is_private_key,
  is_some, uses_login_password, is_vault_host, vault_provider, credential_source,
  effective_auth_persistence, find_alias,
}

-- `HashSet::remove`
abbrev pub remove_id : Uuid → List Uuid → List Uuid
remove_id i ids = keep (λ j. not (j == i)) ids

abbrev pub max_depth : ℕ
max_depth = 8

abbrev pub by_id : Uuid → HostProfile → Bool
by_id i h = h.id == i

-- The first argument is `8 - depth`; the result is `active` and `resolved`, which the source mutates.
pub resolve_one :
    ℕ
    → HostProfile
    → List HostProfile
    → List Uuid
    → List HostProfile
    → Result ValidationIssue (List Uuid × List HostProfile)
resolve_one zero host hosts active resolved = err chain
resolve_one (suc depth) host hosts active resolved =
    elim (not (is_ssh host.protocol) || contains_id host.id active) [
      | true ↦ err chain
      | false ↦ elim host.jump_host [
        | none ↦ ok (remove_id host.id (host.id ∷ active), resolved ++ host ∷ [])
        | some jump_id ↦ elim (find (by_id jump_id) hosts) [
          | none ↦ err chain
          | some jump ↦ resolve_one depth jump hosts (host.id ∷ active) resolved >>= λ r.
              ok (remove_id host.id r.0, r.1 ++ host ∷ [])
        ]
      ]
    ]

pub resolve_ssh_chain : HostProfile → List HostProfile → Result ValidationIssue (List HostProfile)
resolve_ssh_chain target hosts = elim (is_ssh target.protocol) [
  | false ↦ err telnet_chain
  | true ↦ resolve_one max_depth target hosts [] [] >>= λ r. ok r.1
]

pub can_use_as_jump : HostProfile → HostProfile → List HostProfile → Bool
can_use_as_jump candidate target hosts =
    let proposed = record target { protocol = ssh; jump_host = some candidate.id } in
    if candidate.id == target.id || not (is_ssh candidate.protocol) || not candidate.verified
    then false
    else is_ok (resolve_ssh_chain proposed hosts)
