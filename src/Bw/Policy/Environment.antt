-- ===== src/Bw/Policy/Environment.antt =====
-- src/bw/policy.rs: the environment of the process, and the list of its names.
use codex_hosts.Prelude.{
  ℕ, ◌-◌, Bool, not, ◌&&◌, Option, none, some, List, [], ◌∷◌, ◌++◌, if◌then◌else◌, leb, ◌=ᵗ◌, Text,
  codes, any, map,
}
use codex_hosts.Model.{is_some}
use codex_hosts.Bw.Policy.{
  data_dir_env, session_env, no_interaction_env, password_env, inherited_env, BwInvocation,
}

-- A variable of the parent: its name, if that is a text, and its value.
abbrev pub Var : Type 0
Var = Option Text × Text

abbrev pub upper_char : ℕ → ℕ
upper_char c = if leb b'a' c && leb c b'z' then c - 32 else c

unfoldable pub may_inherit : Text → Bool
may_inherit name = any (λ n. n =ᵗ map upper_char name) inherited_env

abbrev pub pass_on : Option Text → Text → List (Text × Text) → List (Text × Text)
pass_on none value rest = rest
pass_on (some name) value rest = if may_inherit name then (name, value) ∷ rest else rest

unfoldable pub inherited : List Var → List (Text × Text)
inherited [] = []
inherited (v ∷ parent) = pass_on v.0 v.1 (inherited parent)

abbrev pub if_some : Text → Option Text → List (Text × Text)
if_some name none = []
if_some name (some value) = (name, value) ∷ []

-- The variables that the process is given, in the order in which they are set.
unfoldable pub command_env : List Var → BwInvocation → List (Text × Text)
command_env parent i =
    inherited parent
    ++ ((data_dir_env, i.profile.data_dir)
        ∷ ((if i.interactive then [] else (no_interaction_env, codes "true") ∷ [])
            ++ (if_some session_env i.session ++ if_some password_env i.master_password)))

-- the value of a variable: the one that is set last
abbrev pub or_before : Option Text → Bool → Text → Option Text
or_before (some later) same value = some later
or_before none same value = if same then some value else none

unfoldable pub var : Text → List (Text × Text) → Option Text
var name [] = none
var name (x ∷ env) = or_before (var name env) (name =ᵗ x.0) x.1

-- a set of names
abbrev pub has_name : Text → List Text → Bool
has_name name names = any (λ n. name =ᵗ n) names

unfoldable pub insert : Text → List Text → List Text
insert name names = if has_name name names then names else names ++ name ∷ []

abbrev pub pass_name : Option Text → List Text → List Text
pass_name none names = names
pass_name (some name) names = if may_inherit name then insert name names else names

unfoldable pub inherited_names : List Var → List Text
inherited_names [] = []
inherited_names (v ∷ parent) = pass_name v.0 (inherited_names parent)

abbrev pub insert_if : Bool → Text → List Text → List Text
insert_if b name names = if b then insert name names else names

unfoldable pub env_names : List Var → BwInvocation → List Text
env_names parent i = insert_if (is_some i.master_password) password_env (
    insert_if (is_some i.session) session_env (
      insert_if (not i.interactive) no_interaction_env
        (insert data_dir_env (inherited_names parent))))
