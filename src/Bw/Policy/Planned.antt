-- ===== src/Bw/Policy/Planned.antt =====
-- What the calls that are planned let the process do.
use codex_hosts.Prelude.{
  ℕ, ◌≡◌, ◌≢◌, refl, Bool, true, false, ◌||◌, Option, none, some, List, [], ◌∷◌, ◌++◌,
  if◌then◌else◌, ◌=ᵗ◌, Bytes, Text, codes, arith,
}
use codex_hosts.Bw.Policy.{
  session_env, no_interaction_env, password_env, BwInvocation, BwExecutable, BwProfile,
  TwoFactorMethod, raw, version, status, unlock, interactive_login, config_server, create_folder,
  sync, list_folders, list_items, get_item, create_item, edit_item, delete_item, restore_item, lock,
  logout, method_args,
}
use codex_hosts.Bw.Policy.Environment.{Var, command_env, var, has_name}
use codex_hosts.Bw.Policy.Env.{command_env-IsClosed}

-- the calls that the code plans
pub data Planned (show_id : ℕ → Text) (exe : BwExecutable) (profile : BwProfile)
    : BwInvocation → Type 0 where
  plan_raw :
      (args : List Text) (timeout : ℕ) (session : Option Text)
      → Planned show_id exe profile (raw show_id exe profile args timeout session)
  plan_version : Planned show_id exe profile (version show_id exe profile)
  plan_status :
      (session : Option Text) → Planned show_id exe profile (status show_id exe profile session)
  plan_unlock :
      (password : Text) → Planned show_id exe profile (unlock show_id exe profile password)
  plan_interactive_login :
      (address password : Text) (method : Option TwoFactorMethod)
      → Planned show_id exe profile (interactive_login show_id exe profile address password method)
  plan_config_server :
      (url : Text) → Planned show_id exe profile (config_server show_id exe profile url)
  plan_create_folder :
      (session : Text) (json : Bytes)
      → Planned show_id exe profile (create_folder show_id exe profile session json)
  plan_sync : (session : Text) → Planned show_id exe profile (sync show_id exe profile session)
  plan_list_folders :
      (session : Text) → Planned show_id exe profile (list_folders show_id exe profile session)
  plan_list_items :
      (session : Text) (folder : Option ℕ)
      → Planned show_id exe profile (list_items show_id exe profile session folder)
  plan_get_item :
      (session : Text) (item : ℕ)
      → Planned show_id exe profile (get_item show_id exe profile session item)
  plan_create_item :
      (session : Text) (json : Bytes)
      → Planned show_id exe profile (create_item show_id exe profile session json)
  plan_edit_item :
      (session : Text) (item : ℕ) (json : Bytes)
      → Planned show_id exe profile (edit_item show_id exe profile session item json)
  plan_delete_item :
      (session : Text) (item : ℕ)
      → Planned show_id exe profile (delete_item show_id exe profile session item)
  plan_restore_item :
      (session : Text) (item : ℕ)
      → Planned show_id exe profile (restore_item show_id exe profile session item)
  plan_lock : (session : Text) → Planned show_id exe profile (lock show_id exe profile session)
  plan_logout :
      (session : Option Text) → Planned show_id exe profile (logout show_id exe profile session)

abbrev pub begins : Text → List Text → Bool
begins word [] = false
begins word (a ∷ args) = a =ᵗ word

-- when a process may have the master password, by its session and its arguments
abbrev pub PasswordFor : Option Text → Option Text → List Text → Type 0
PasswordFor none session args = Unit
PasswordFor (some _) session args =
    ((begins (codes "unlock") args || begins (codes "login") args) ≡ true)
    × (has_name password_env args ≡ true)
    × (session ≡ none)

-- when a process may lack the variable that turns prompts off
abbrev pub PromptsFor : Option Text → List Text → Type 0
PromptsFor none args = begins (codes "login") args ≡ true
PromptsFor (some _) args = Unit

-- when a call may be planned with a payload
abbrev pub PayloadFor : Option Bytes → Option Text → Type 0
PayloadFor none session = Unit
PayloadFor (some _) session = session ≢ none

listed :
    (address : Text) (more : List Text)
    → has_name password_env (
        (codes "login" ∷ address ∷ codes "--raw" ∷ codes "--passwordenv" ∷ password_env ∷ [])
        ++ more)
      ≡ true
listed address more = ground arith

module _ (show_id : ℕ → Text) (exe : BwExecutable) (profile : BwProfile) where
  Planned-IsGuarded :
      (i : BwInvocation)
      → Planned show_id exe profile i
      → PasswordFor i.master_password i.session i.args
        × PromptsFor (if i.interactive then none else some (codes "true")) i.args
        × PayloadFor i.stdin i.session
  Planned-IsGuarded _ (plan_raw args timeout session) = (tt, tt, tt)
  Planned-IsGuarded _ plan_version = (tt, tt, tt)
  Planned-IsGuarded _ (plan_status session) = (tt, tt, tt)
  Planned-IsGuarded _ (plan_unlock password) = ((refl, refl, refl), tt, tt)
  Planned-IsGuarded _ (plan_interactive_login address password method) =
      ((refl, listed address (method_args method), refl), refl, tt)
  Planned-IsGuarded _ (plan_config_server url) = (tt, tt, tt)
  Planned-IsGuarded _ (plan_create_folder session json) = (tt, tt, (λ e. cc))
  Planned-IsGuarded _ (plan_sync session) = (tt, tt, tt)
  Planned-IsGuarded _ (plan_list_folders session) = (tt, tt, tt)
  Planned-IsGuarded _ (plan_list_items session folder) = (tt, tt, tt)
  Planned-IsGuarded _ (plan_get_item session item) = (tt, tt, tt)
  Planned-IsGuarded _ (plan_create_item session json) = (tt, tt, (λ e. cc))
  Planned-IsGuarded _ (plan_edit_item session item json) = (tt, tt, (λ e. cc))
  Planned-IsGuarded _ (plan_delete_item session item) = (tt, tt, tt)
  Planned-IsGuarded _ (plan_restore_item session item) = (tt, tt, tt)
  Planned-IsGuarded _ (plan_lock session) = (tt, tt, tt)
  Planned-IsGuarded _ (plan_logout session) = (tt, tt, tt)

-- Of all calls that are planned, only `unlock` and `login` give the process the master password, in the
-- variable that their arguments name, and then it has no session; only `login` may prompt; and only a
-- call with a session is planned with a payload for its input. This holds whatever the parent's
-- environment is. It is about the plan: the codes that the user types at the prompts of a running
-- `login` are no part of it.
pub command_env-protects :
    (show_id : ℕ → Text) (exe : BwExecutable) (profile : BwProfile) (parent : List Var)
    (i : BwInvocation)
    → Planned show_id exe profile i
    → PasswordFor
        (var password_env (command_env parent i))
        (var session_env (command_env parent i))
        i.args
      × PromptsFor (var no_interaction_env (command_env parent i)) i.args
      × PayloadFor i.stdin (var session_env (command_env parent i))
command_env-protects show_id exe profile parent i h =
    let closed = command_env-IsClosed parent i in
    rw (closed.password, closed.session, closed.no_interaction)
      (Planned-IsGuarded show_id exe profile i h)
