-- ===== src/Vault/Hosts.antt =====
-- src/vault_hosts.rs: the mirrors of a password manager's items among the saved hosts. Of
-- `reconcile` the flag that the store needs saving is left out.
use codex_hosts.Prelude.{
  ℕ, Bool, true, false, not, ◌&&◌, ◌||◌, Option, none, some, List, [], ◌∷◌, ◌++◌, if◌then◌else◌,
  ◌==◌, ◌=ᵗ◌, Text, codes, length, any, find, keep, update_first, Result, ok, err, map,
}
use codex_hosts.Text.{trim, eq_ignore_ascii_case, to_ascii_lowercase}
use codex_hosts.Model.{
  Uuid, Protocol, ssh, telnet, SshAuth, per_call, RemoteEnv, VaultProvider, HostProfile,
  vault_provider,
}
use codex_hosts.Model.{bitwarden, one_password}

pub data ItemProblem : Type 0 where
  not_login no_name no_host_uri no_username name_taken : ItemProblem

pub record HostFacts : Type 0 where
  pub alias : Text
  pub protocol : Protocol
  pub address : Text
  pub port : ℕ
  pub username : Text
  pub description : Text
  pub tags : List Text
  pub revision : Text

pub record ItemKey : Type 0 where
  pub provider : VaultProvider
  pub id : Uuid
  pub external_id : Option Text

-- `#[derive(PartialEq)]`
abbrev pub eq_protocol : Protocol → Protocol → Bool
eq_protocol ssh ssh = true
eq_protocol telnet telnet = true
eq_protocol _ _ = false

abbrev pub eq_provider : VaultProvider → VaultProvider → Bool
eq_provider bitwarden bitwarden = true
eq_provider one_password one_password = true
eq_provider _ _ = false

-- `host.vault_provider() == Some(provider)`
abbrev pub is_of : VaultProvider → HostProfile → Bool
is_of p h = elim (vault_provider h) [ none ↦ false | some q ↦ eq_provider q p ]

abbrev pub endpoint_changed : HostFacts → HostProfile → Bool
endpoint_changed f h =
    not (trim h.address =ᵗ f.address)
    || not (h.port == f.port)
    || not (eq_protocol h.protocol f.protocol)

-- the trust in the host's key
abbrev pub distrust : HostProfile → HostProfile
distrust h = record h {
  host_fingerprint = none;
  host_key_algorithm = none;
  host_key_first_seen_unix = none;
  host_key_last_verified_unix = none;
  verified = false;
}

abbrev pub described : HostFacts → ItemKey → HostProfile → HostProfile
described f item h = record h {
  alias = f.alias;
  description = f.description;
  tags = f.tags;
  address = f.address;
  port = f.port;
  protocol = f.protocol;
  username = f.username;
  login_password_id = none;
  vault = some (record {
    provider = item.provider;
    item_id = item.id;
    external_id = item.external_id;
    item_name = f.alias;
    revision_date = f.revision;
  });
}

unfoldable pub apply : HostFacts → ItemKey → HostProfile → HostProfile
apply f item h = if endpoint_changed f h then distrust (described f item h) else described f item h

-- `HostProfile::new`
abbrev pub new_profile : Uuid → Text → HostProfile
new_profile id alias = record {
  id = id;
  alias = alias;
  description = [];
  tags = [];
  address = [];
  port = 22;
  username = [];
  login_password_id = none;
  vault = none;
  protocol = ssh;
  ssh_auth = SshAuth.password;
  private_key_path = [];
  agent_key_fingerprint = [];
  host_fingerprint = none;
  host_key_algorithm = none;
  host_key_first_seen_unix = none;
  host_key_last_verified_unix = none;
  jump_host = none;
  verified = false;
  auth_persistence = per_call;
  advanced = record {
    max_channels = none;
    connect_timeout_s = none;
    command_timeout_s = none;
    keepalive_s = none;
    remote_env = RemoteEnv.auto;
    codex_hidden = false;
    require_call_approval = false;
    telnet_prompts = none;
    sudo = none;
    su = none;
  };
}

unfoldable pub mirror : HostFacts → ItemKey → HostProfile
mirror f item = apply f item (new_profile item.id f.alias)

pub record Listed : Type 0 where
  pub key : ItemKey
  pub name : Text
  pub facts : Result ItemProblem HostFacts

pub record Reconciled : Type 0 where
  pub hosts : ℕ
  pub problems : List (Text × ItemProblem)

abbrev pub has_id : Uuid → HostProfile → Bool
has_id id h = h.id == id

abbrev pub lowered : Text → Text
lowered t = to_ascii_lowercase t

abbrev pub has_text : Text → List Text → Bool
has_text t ts = any (λ s. s =ᵗ t) ts

-- the stable sort: items that are mirrored come first
abbrev pub mirrored_first : List HostProfile → List Listed → List Listed
mirrored_first hosts listed =
    let is_mirrored : Listed → Bool = λ i. any (has_id i.key.id) hosts in
    keep is_mirrored listed ++ keep (λ i. not (is_mirrored i)) listed

abbrev pub Accepted : Type 0
Accepted = List (ItemKey × HostFacts) × List (Text × ItemProblem)

-- what the loop does with one item, and with those behind it
abbrev pub place :
    List Text → Listed → Result ItemProblem HostFacts → (List Text → Accepted) → Accepted
place taken i (err problem) next = let r = next taken in (r.0, (i.name, problem) ∷ r.1)
place taken i (ok f) next =
    let r = next taken in
    let s = next (lowered f.alias ∷ taken) in
    if has_text (lowered f.alias) taken
    then (r.0, (i.name, name_taken) ∷ r.1)
    else ((i.key, f) ∷ s.0, s.1)

abbrev pub accept : List Text → List Listed → Accepted
accept taken [] = ([], [])
accept taken (i ∷ items) = place taken i i.facts (λ t. accept t items)

abbrev pub taken_by_others : VaultProvider → List HostProfile → List Text
taken_by_others p hosts = map (λ h. lowered (trim h.alias)) (keep (λ h. not (is_of p h)) hosts)

abbrev pub retained :
    VaultProvider → List (ItemKey × HostFacts) → List HostProfile → List HostProfile
retained p accepted hosts = keep (λ h. not (is_of p h) || any (λ a. a.0.id == h.id) accepted) hosts

-- the mirror of one accepted item, changed or new
abbrev pub upsert : ItemKey × HostFacts → List HostProfile → List HostProfile
upsert a hosts =
    if any (has_id a.0.id) hosts
    then update_first (has_id a.0.id) (apply a.1 a.0) hosts
    else hosts ++ mirror a.1 a.0 ∷ []

abbrev pub upsert_all : List (ItemKey × HostFacts) → List HostProfile → List HostProfile
upsert_all [] hosts = hosts
upsert_all (a ∷ rest) hosts = upsert_all rest (upsert a hosts)

unfoldable pub accepted_items : VaultProvider → List HostProfile → List Listed → Accepted
accepted_items p hosts listed = accept (taken_by_others p hosts) (mirrored_first hosts listed)

unfoldable pub reconcile :
    VaultProvider → List HostProfile → List Listed → Reconciled × List HostProfile
reconcile p hosts listed =
    let a = accepted_items p hosts listed in
    (record { hosts = length a.0; problems = a.1 }, upsert_all a.0 (retained p a.0 hosts))

-- `persist_refreshed`, on the hosts of the store; a renamed item whose name clashes keeps its alias
abbrev pub keep_alias : Bool → Text → HostProfile → HostProfile
keep_alias clash previous h = if clash then record h { alias = previous } else h

abbrev pub refresh : ItemKey → HostFacts → List HostProfile → Option HostProfile × List HostProfile
refresh item f hosts =
    let clash =
      any (λ h. not (has_id item.id h) && eq_ignore_ascii_case (trim h.alias) f.alias) hosts in
    let change : HostProfile → HostProfile = λ h. keep_alias clash h.alias (apply f item h) in
    let after = update_first (has_id item.id) change hosts in (find (has_id item.id) after, after)

-- `drop_mirror`, on the hosts of the store
abbrev pub drop_mirror : Uuid → List HostProfile → List HostProfile
drop_mirror id hosts = keep (λ h. not (has_id id h)) hosts

abbrev pub keep_approved_target : HostProfile → HostProfile → Bool → Result Text (Unit {0})
keep_approved_target shown admitted approved =
    let same =
      eq_protocol shown.protocol admitted.protocol
      && shown.address =ᵗ admitted.address
      && shown.port == admitted.port
      && shown.username =ᵗ admitted.username in
    if not approved || same then ok tt else err (codes "APPROVAL_TARGET_CHANGED")
