-- ===== src/Telnet/Session.antt =====
-- src/telnet.rs, `run_session`: the login and the command. Whether each write succeeds is an argument;
-- the texts that have been typed are kept. Cutting the output out of the last transcript is left out.
pub mod Typed
mod Tests
use codex_hosts.Prelude.{
  ℕ, Bool, false, Option, none, some, List, [], ◌∷◌, ◌++◌, if◌then◌else◌, Bytes, Text, codes,
  is_empty, String,
}
use codex_hosts.Text.{trim}
use codex_hosts.Model.{TelnetPrompts, HostProfile}
use codex_hosts.Text.{trim_end}
use codex_hosts.Telnet.Capture.{
  Read, Link, Wait, done, failed, waiting, Markers, Capture, read_until, wait_for_shell,
  read_until_output,
}

abbrev default_login_prompts : List Text
default_login_prompts = codes "login:" ∷ codes "username:" ∷ codes "user:" ∷ []

abbrev default_password_prompts : List Text
default_password_prompts = codes "password:" ∷ []

pub record LoginPrompts : Type 0 where
  pub login : List Text
  pub password : List Text

abbrev pub pick : Option Text → List Text → List Text
pick none defaults = defaults
pick (some value) defaults = if is_empty (trim value) then defaults else trim value ∷ []

abbrev login_of : Option TelnetPrompts → Option Text
login_of none = none
login_of (some custom) = some custom.login

abbrev password_of : Option TelnetPrompts → Option Text
password_of none = none
password_of (some custom) = some custom.password

pub login_prompts : HostProfile → LoginPrompts
login_prompts profile = record {
  login = pick (login_of profile.advanced.telnet_prompts) default_login_prompts;
  password = pick (password_of profile.advanced.telnet_prompts) default_password_prompts;
}

abbrev pub with_line_end : Text → Text
with_line_end line = line ++ codes "\r\n"

abbrev pub cleared : Link → Link
cleared l = record l { transcript = [] }

-- how the session ends; `unfinished` where the server has done nothing more yet
pub data End : Type 0 where
  finished : Bytes → Option ℕ → End
  stopped : String → End
  unfinished : End

pub record Session : Type 0 where
  pub typed : List Text
  pub end : End

abbrev pub ends : List Text → End → Session
ends typed end = record { typed = typed; end = end }

module _ (lossy : Bytes → Text) (writes : ℕ → Bool) (username password request : Text)
    (markers : Markers) (prompts : LoginPrompts) where
  abbrev pub new_capture : Link → Capture lossy
  new_capture l = record {
    link = cleared l;
    begin_seen = false;
    end_search_from = 0;
    end_at = none;
  }

  pub after_output : Wait (Option ℕ) → Session
  after_output (done code l _) =
      ends (username ∷ password ∷ request ∷ []) (finished l.transcript code)
  after_output (failed e _) = ends (username ∷ password ∷ request ∷ []) (stopped e)
  after_output (waiting _) = ends (username ∷ password ∷ request ∷ []) unfinished

  pub after_shell : Wait (Unit {0}) → Session
  after_shell (done _ l reads) =
      if writes 2
      then after_output (read_until_output lossy (trim_end request) markers (new_capture l) reads)
      else ends (username ∷ password ∷ []) (stopped "TELNET_WRITE_FAILED")
  after_shell (failed e _) = ends (username ∷ password ∷ []) (stopped e)
  after_shell (waiting _) = ends (username ∷ password ∷ []) unfinished

  pub after_password : Wait (Unit {0}) → Session
  after_password (done _ l reads) =
      if writes 1
      then after_shell (wait_for_shell lossy (cleared l) reads)
      else ends (username ∷ []) (stopped "TELNET_WRITE_FAILED")
  after_password (failed e _) = ends (username ∷ []) (stopped e)
  after_password (waiting _) = ends (username ∷ []) unfinished

  pub after_login : Wait (Unit {0}) → Session
  after_login (done _ l reads) =
      if writes 0
      then after_password (read_until lossy prompts.password (cleared l) reads)
      else ends [] (stopped "TELNET_WRITE_FAILED")
  after_login (failed e _) = ends [] (stopped e)
  after_login (waiting _) = ends [] unfinished

  pub run_session : Link → List Read → Session
  run_session l reads = after_login (read_until lossy prompts.login l reads)
