-- ===== src/Bw/Policy/Tests.antt =====
-- Concrete calls.
use codex_hosts.Prelude.{ℕ, ◌≡◌, refl, none, some, List, [], ◌∷◌, Text, codes}
use codex_hosts.Bw.Policy.{
  data_dir_env, session_env, no_interaction_env, password_env, BwInvocation, BwExecutable,
  BwProfile, unlock,
}
use codex_hosts.Bw.Policy.Environment.{
  Var, may_inherit, inherited, command_env, var, has_name, env_names,
}
use codex_hosts.Bw.Policy.Env.{names}
use codex_hosts.Bw.Policy.Names.{env_names-names}
use codex_hosts.Bw.Policy.Planned.{
  PasswordFor, PromptsFor, PayloadFor, plan_unlock, command_env-protects,
}

abbrev exe : BwExecutable
exe = record { path = codes "C:/bw.exe" }

abbrev profile : BwProfile
profile = record { data_dir = codes "C:/vault" }

abbrev show_id : ℕ → Text
show_id n = codes "id"

abbrev parent : List Var
parent =
    (some (codes "Temp"), codes "C:/t")
    ∷ (some (codes "PATH"), codes "C:/bin")
    ∷ (none, codes "x")
    ∷ (some (codes "BW_SESSION"), codes "stale")
    ∷ []

abbrev unlocking : BwInvocation
unlocking = unlock show_id exe profile (codes "secret")

given :
    command_env parent unlocking
    ≡ (codes "Temp", codes "C:/t")
      ∷ (data_dir_env, codes "C:/vault")
      ∷ (no_interaction_env, codes "true")
      ∷ (password_env, codes "secret")
      ∷ []
unfolding command_env inherited may_inherit
given = refl

env_names-names_example :
    has_name (codes "PATH") (env_names parent unlocking)
    ≡ names (codes "PATH") (command_env parent unlocking)
env_names-names_example = env_names-names parent unlocking (codes "PATH")

command_env-protects_example :
    PasswordFor
      (var password_env (command_env parent unlocking))
      (var session_env (command_env parent unlocking))
      unlocking.args
    × PromptsFor (var no_interaction_env (command_env parent unlocking)) unlocking.args
    × PayloadFor unlocking.stdin (var session_env (command_env parent unlocking))
command_env-protects_example =
    command_env-protects show_id exe profile parent unlocking (plan_unlock (codes "secret"))
