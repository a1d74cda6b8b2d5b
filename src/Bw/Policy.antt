-- ===== src/Bw/Policy.antt =====
-- src/bw/policy.rs: which calls of the command-line tool are planned.
-- A path is a text; what the file system says of it is an argument, and so is the text of an id.
pub mod Environment
pub mod Env
pub mod Names
pub mod Planned
mod Tests
use codex_hosts.Prelude.{
  ℕ, Bool, true, false, not, Option, none, some, List, [], ◌∷◌, ◌++◌, Bytes, Text, codes, Result,
  ok, ◌>>=◌, ◌>>◌, refuse_if,
}
use codex_hosts.Text.{eq_ignore_ascii_case}

-- the variables a child may inherit
abbrev pub inherited_env : List Text
inherited_env =
    codes "SYSTEMROOT"
    ∷ codes "WINDIR"
    ∷ codes "SYSTEMDRIVE"
    ∷ codes "TEMP"
    ∷ codes "TMP"
    ∷ codes "USERPROFILE"
    ∷ codes "HOMEDRIVE"
    ∷ codes "HOMEPATH"
    ∷ codes "APPDATA"
    ∷ codes "LOCALAPPDATA"
    ∷ codes "PROGRAMDATA"
    ∷ codes "NUMBER_OF_PROCESSORS"
    ∷ codes "PROCESSOR_ARCHITECTURE"
    ∷ []

abbrev pub data_dir_env : Text
data_dir_env = codes "BITWARDENCLI_APPDATA_DIR"

abbrev pub session_env : Text
session_env = codes "BW_SESSION"

abbrev pub no_interaction_env : Text
no_interaction_env = codes "BW_NOINTERACTION"

abbrev pub password_env : Text
password_env = codes "CODEX_HOSTS_BW_PASSWORD"

pub data BwPolicyError : Type 0 where
  relative_path not_an_exe not_a_file relative_data_dir : Text → BwPolicyError

pub record BwExecutable : Type 0 where
  pub path : Text

pub record BwProfile : Type 0 where
  pub data_dir : Text

pub record Paths : Type 0 where
  pub is_absolute : Text → Bool
  pub extension : Text → Option Text
  pub is_file : Text → Bool

abbrev pub is_exe : Option Text → Bool
is_exe none = false
is_exe (some extension) = eq_ignore_ascii_case extension (codes "exe")

unfoldable pub new_executable : Paths → Text → Result BwPolicyError BwExecutable
new_executable paths path = do
  refuse_if (not (paths.is_absolute path)) (relative_path path)
  refuse_if (not (is_exe (paths.extension path))) (not_an_exe path)
  refuse_if (not (paths.is_file path)) (not_a_file path)
  ok (record { path = path })

unfoldable pub new_profile : Paths → Text → Result BwPolicyError BwProfile
new_profile paths data_dir = do
  refuse_if (not (paths.is_absolute data_dir)) (relative_data_dir data_dir)
  ok (record { data_dir = data_dir })

pub data TwoFactorMethod : Type 0 where
  authenticator email yubi_key : TwoFactorMethod

abbrev pub argument : TwoFactorMethod → Text
argument authenticator = codes "0"
argument email = codes "1"
argument yubi_key = codes "3"

-- A time-out is a number of seconds.
pub record BwInvocation : Type 0 where
  pub exe : BwExecutable
  pub profile : BwProfile
  pub args : List Text
  pub session : Option Text
  pub master_password : Option Text
  pub interactive : Bool
  pub stdin : Option Bytes
  pub timeout : ℕ

abbrev pub method_args : Option TwoFactorMethod → List Text
method_args none = []
method_args (some method) = codes "--method" ∷ argument method ∷ []

module _ (show_id : ℕ → Text) (exe : BwExecutable) (profile : BwProfile) where
  abbrev pub new : List Text → ℕ → BwInvocation
  new args timeout = record {
    exe = exe;
    profile = profile;
    args = args;
    session = none;
    master_password = none;
    interactive = false;
    stdin = none;
    timeout = timeout;
  }

  abbrev pub with_session : Option Text → BwInvocation → BwInvocation
  with_session session i = record i { session = session }

  abbrev pub raw : List Text → ℕ → Option Text → BwInvocation
  raw args timeout session = record (with_session session (new [] timeout)) { args = args }

  abbrev pub version : BwInvocation
  version = new (codes "--version" ∷ []) 10

  abbrev pub status : Option Text → BwInvocation
  status session = with_session session (new (codes "status" ∷ []) 15)

  abbrev pub unlock : Text → BwInvocation
  unlock password =
      record (new (codes "unlock" ∷ codes "--raw" ∷ codes "--passwordenv" ∷ password_env ∷ []) 60) {
        master_password = some password;
      }

  abbrev pub interactive_login : Text → Text → Option TwoFactorMethod → BwInvocation
  interactive_login address password method =
      record (new
        ((codes "login" ∷ address ∷ codes "--raw" ∷ codes "--passwordenv" ∷ password_env ∷ [])
          ++ method_args method)
        600) { master_password = some password; interactive = true }

  abbrev pub config_server : Text → BwInvocation
  config_server url = new (codes "config" ∷ codes "server" ∷ url ∷ []) 15

  abbrev pub create_folder : Text → Bytes → BwInvocation
  create_folder session json =
      record (with_session (some session) (new (codes "create" ∷ codes "folder" ∷ []) 30)) {
        stdin = some json;
      }

  abbrev pub sync : Text → BwInvocation
  sync session = with_session (some session) (new (codes "sync" ∷ []) 60)

  abbrev pub list_folders : Text → BwInvocation
  list_folders session = with_session (some session) (new (codes "list" ∷ codes "folders" ∷ []) 30)

  abbrev pub folder_args : Option ℕ → List Text
  folder_args none = []
  folder_args (some folder) = codes "--folderid" ∷ show_id folder ∷ []

  abbrev pub list_items : Text → Option ℕ → BwInvocation
  list_items session folder =
      with_session (some session)
        (new ((codes "list" ∷ codes "items" ∷ []) ++ folder_args folder) 30)

  abbrev pub get_item : Text → ℕ → BwInvocation
  get_item session item =
      with_session (some session) (new (codes "get" ∷ codes "item" ∷ show_id item ∷ []) 15)

  abbrev pub create_item : Text → Bytes → BwInvocation
  create_item session json =
      record (with_session (some session) (new (codes "create" ∷ codes "item" ∷ []) 30)) {
        stdin = some json;
      }

  abbrev pub edit_item : Text → ℕ → Bytes → BwInvocation
  edit_item session item json =
      record (with_session (some session)
        (new (codes "edit" ∷ codes "item" ∷ show_id item ∷ []) 30)) { stdin = some json }

  abbrev pub delete_item : Text → ℕ → BwInvocation
  delete_item session item =
      with_session (some session) (new (codes "delete" ∷ codes "item" ∷ show_id item ∷ []) 30)

  abbrev pub restore_item : Text → ℕ → BwInvocation
  restore_item session item =
      with_session (some session) (new (codes "restore" ∷ codes "item" ∷ show_id item ∷ []) 30)

  abbrev pub lock : Text → BwInvocation
  lock session = with_session (some session) (new (codes "lock" ∷ []) 15)

  abbrev pub logout : Option Text → BwInvocation
  logout session = with_session session (new (codes "logout" ∷ []) 15)
