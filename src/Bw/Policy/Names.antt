-- ===== src/Bw/Policy/Names.antt =====
-- The names that are listed for the process.
use codex_hosts.Prelude.{
  ◌≡◌, refl, ap, ◌∙◌, inl, inr, Bool, true, false, not, ◌&&◌, ◌||◌, Option, none, some, List, [],
  ◌∷◌, ◌++◌, ◌=ᵗ◌, Text, arith, Bool-cases, text_eq_iff, if-case,
}
use codex_hosts.Model.{is_some}
use codex_hosts.Bw.Policy.{
  data_dir_env, session_env, no_interaction_env, password_env, BwInvocation,
}
use codex_hosts.Bw.Policy.Environment.{
  Var, may_inherit, pass_on, inherited, command_env, has_name, insert, pass_name, inherited_names,
  insert_if, env_names,
}
use codex_hosts.Bw.Policy.Env.{names, own}

names-append :
    (name : Text) (xs ys : List (Text × Text))
    → names name (xs ++ ys) ≡ (names name xs || names name ys)
names-append name [] ys = refl
names-append name (x ∷ xs) ys = let rest = names-append name xs ys in ground arith

has_name-insert :
    (name n : Text) (ns : List Text) → has_name name (insert n ns) ≡ (has_name name ns || name =ᵗ n)
unfolding insert
has_name-insert name n ns =
    if-case (λ (r : List Text). has_name name r ≡ (has_name name ns || name =ᵗ n)) (has_name n ns)
      (λ known. elim (Bool-cases (name =ᵗ n)) [
        | inl e ↦
            let same : name ≡ n = (text_eq_iff name n).0 e in
            let there : has_name name ns ≡ true = ap (λ m. has_name m ns) same ∙ known in
            ground arith
        | inr e ↦ ground arith
      ])
      (λ _. last ns)
  where
    last : (ns : List Text) → has_name name (ns ++ n ∷ []) ≡ (has_name name ns || name =ᵗ n)
    last [] = ground arith
    last (m ∷ ns) = let rest = last ns in ground arith

inherited-names :
    (name : Text) (parent : List Var)
    → has_name name (inherited_names parent) ≡ names name (inherited parent)
unfolding inherited_names inherited
inherited-names name [] = refl
inherited-names name (v ∷ parent) =
    passed v.0 v.1 (inherited_names parent) (inherited parent) (inherited-names name parent)
  where
    passed :
        (o : Option Text) (value : Text) (ns : List Text) (env : List (Text × Text))
        → has_name name ns ≡ names name env
        → has_name name (pass_name o ns) ≡ names name (pass_on o value env)
    passed none value ns env h = h
    passed (some n) value ns env h = elim (Bool-cases (may_inherit n)) [
      | inl e ↦ let k = has_name-insert name n ns in rw e (ground arith)
      | inr e ↦ rw e h
    ]

has_name-insert_if :
    (b : Bool) (name n : Text) (ns : List Text)
    → has_name name (insert_if b n ns) ≡ (has_name name ns || (b && name =ᵗ n))
has_name-insert_if true name n ns = has_name-insert name n ns
has_name-insert_if false name n ns = ground arith

own-names :
    (name d : Text) (b : Bool) (s p : Option Text)
    → names name (own d b s p) ≡ (
        name =ᵗ data_dir_env
        || (not b && name =ᵗ no_interaction_env)
        || (is_some s && name =ᵗ session_env)
        || (is_some p && name =ᵗ password_env))
own-names name d true none none = ground arith
own-names name d true none (some p) = ground arith
own-names name d true (some s) none = ground arith
own-names name d true (some s) (some p) = ground arith
own-names name d false none none = ground arith
own-names name d false none (some p) = ground arith
own-names name d false (some s) none = ground arith
own-names name d false (some s) (some p) = ground arith

-- The names that are listed for a call are exactly those of the variables that its process is given.
pub env_names-names :
    (parent : List Var) (i : BwInvocation) (name : Text)
    → has_name name (env_names parent i) ≡ names name (command_env parent i)
unfolding env_names command_env
env_names-names parent i name =
    rw
      (
        has_name-insert_if (is_some i.master_password) name password_env,
        has_name-insert_if (is_some i.session) name session_env,
        has_name-insert_if (not i.interactive) name no_interaction_env,
        has_name-insert name data_dir_env (inherited_names parent),
        inherited-names name parent,
        names-append name (inherited parent),
        own-names name i.profile.data_dir i.interactive i.session i.master_password,
      )
      (regroup (names name (inherited parent)) (name =ᵗ data_dir_env)
        (not i.interactive && name =ᵗ no_interaction_env) (is_some i.session && name =ᵗ session_env)
        (is_some i.master_password && name =ᵗ password_env))
  where
    regroup : (a b c d e : Bool) → (a || b || c || d || e) ≡ (a || (b || c || d || e))
    regroup true b c d e = ground arith
    regroup false b c d e = refl
