-- ===== src/Model/Samples.antt =====
-- Hosts that the tests of several parts use: `inner` is reached through `gate`.
use codex_hosts.Prelude.{true, false, none, some, [], ◌∷◌, Text, codes, Option}
use codex_hosts.Model.{ssh, SshAuth, AuthPersistence, auto, AdvancedSettings, HostProfile, Uuid}

abbrev pub advanced : AdvancedSettings
advanced = record {
  max_channels = some 4;
  connect_timeout_s = none;
  command_timeout_s = some 60;
  keepalive_s = some 30;
  remote_env = auto;
  codex_hidden = false;
  require_call_approval = false;
  telnet_prompts = none;
  sudo =
      some
        (record { enabled = true; credentials = record { id = 7; username = codes " root" } ∷ [] });
  su = none;
}

abbrev pub host : Uuid → Text → Option Uuid → HostProfile
host id alias jump = record {
  id = id;
  alias = alias;
  description = [];
  tags = [];
  address = codes "10.0.0.1";
  port = 22;
  username = codes "admin ";
  login_password_id = none;
  vault = none;
  protocol = ssh;
  ssh_auth = SshAuth.password;
  private_key_path = [];
  agent_key_fingerprint = [];
  host_fingerprint = none;
  host_key_algorithm = none;
  host_key_first_seen_unix = none;
  host_key_last_verified_unix = none;
  jump_host = jump;
  verified = true;
  auth_persistence = AuthPersistence.idle 5;
  advanced = advanced;
}

abbrev pub gate : HostProfile
gate = host 1 (codes "gate") none

abbrev pub inner : HostProfile
inner = host 2 (codes "inner") (some 1)
