-- ===== src/Bw/Policy/Env.antt =====
-- The environment of the process.
use codex_hosts.Prelude.{
  ◌≡◌, refl, sym, ap, ◌∙◌, inl, inr, Bool, true, false, Option, none, some, List, [], ◌∷◌, ◌++◌,
  if◌then◌else◌, ◌=ᵗ◌, Text, codes, any, arith, Bool-cases, text_eq_iff, if-case,
}
use codex_hosts.Bw.Policy.{
  data_dir_env, session_env, no_interaction_env, password_env, BwInvocation,
}
use codex_hosts.Bw.Policy.Environment.{
  Var, may_inherit, pass_on, inherited, if_some, command_env, or_before, var, has_name,
}

abbrev pub names : Text → List (Text × Text) → Bool
names name env = any (λ x. name =ᵗ x.0) env

abbrev or_else : Option Text → Option Text → Option Text
or_else (some later) o = some later
or_else none o = o

var-append :
    (name : Text) (xs ys : List (Text × Text))
    → var name (xs ++ ys) ≡ or_else (var name ys) (var name xs)
unfolding var
var-append name [] ys = last (var name ys)
  where
    last : (o : Option Text) → o ≡ or_else o none
    last none = refl
    last (some value) = refl
var-append name (x ∷ xs) ys =
    rw (var-append name xs ys) (behind_later (var name ys) (var name xs) (name =ᵗ x.0) x.1)
  where
    behind_later :
        (later o : Option Text) (same : Bool) (value : Text)
        → or_before (or_else later o) same value ≡ or_else later (or_before o same value)
    behind_later none o same value = refl
    behind_later (some later) o same value = refl

var-inherited :
    (name : Text) (parent : List Var)
    → may_inherit name ≡ false
    → var name (inherited parent) ≡ none
unfolding var inherited
var-inherited name [] h = refl
var-inherited name (v ∷ parent) h = passed v.0 v.1 (inherited parent) (var-inherited name parent h)
  where
    passed :
        (o : Option Text) (value : Text) (rest : List (Text × Text))
        → var name rest ≡ none
        → var name (pass_on o value rest) ≡ none
    passed none value rest k = k
    passed (some n) value rest k =
        if-case (λ (env : List (Text × Text)). var name env ≡ none) (may_inherit n)
          (λ allowed.
            let differ : (name =ᵗ n) ≡ false = elim (Bool-cases (name =ᵗ n)) [
              | inl e ↦
                  let same : name ≡ n = (text_eq_iff name n).0 e in
                  let refused : may_inherit n ≡ false = ap may_inherit (sym same) ∙ h in cc
              | inr e ↦ e
            ] in
            rw (k, differ) refl)
          (λ _. k)

var-none : (name : Text) (env : List (Text × Text)) → names name env ≡ false → var name env ≡ none
unfolding var
var-none name [] h = refl
var-none name (x ∷ env) h =
    let other : (name =ᵗ x.0) ≡ false = ground arith in
    let rest : names name env ≡ false = ground arith in rw (var-none name env rest, other) refl

-- the variables of its own
abbrev pub own : Text → Bool → Option Text → Option Text → List (Text × Text)
own dir interactive session password =
    (data_dir_env, dir)
    ∷ ((if interactive then [] else (no_interaction_env, codes "true") ∷ [])
        ++ (if_some session_env session ++ if_some password_env password))

abbrev own_names : List Text
own_names = data_dir_env ∷ session_env ∷ no_interaction_env ∷ password_env ∷ []

own-var :
    (d : Text) (b : Bool) (s p : Option Text)
    → (var data_dir_env (own d b s p) ≡ some d)
      × (var session_env (own d b s p) ≡ s)
      × (var password_env (own d b s p) ≡ p)
      × (var no_interaction_env (own d b s p) ≡ (if b then none else some (codes "true")))
unfolding var
own-var d true none none = (refl, refl, refl, refl)
own-var d true none (some p) = (refl, refl, refl, refl)
own-var d true (some s) none = (refl, refl, refl, refl)
own-var d true (some s) (some p) = (refl, refl, refl, refl)
own-var d false none none = (refl, refl, refl, refl)
own-var d false none (some p) = (refl, refl, refl, refl)
own-var d false (some s) none = (refl, refl, refl, refl)
own-var d false (some s) (some p) = (refl, refl, refl, refl)

own-others :
    (d : Text) (b : Bool) (s p : Option Text) (name : Text)
    → has_name name own_names ≡ false
    → names name (own d b s p) ≡ false
own-others d true none none name h = ground arith
own-others d true none (some p) name h = ground arith
own-others d true (some s) none name h = ground arith
own-others d true (some s) (some p) name h = ground arith
own-others d false none none name h = ground arith
own-others d false none (some p) name h = ground arith
own-others d false (some s) none name h = ground arith
own-others d false (some s) (some p) name h = ground arith

-- What the variables of the process are: its own, whatever the parent has under their names, and
-- those that it may inherit.
pub record IsClosed (parent : List Var) (i : BwInvocation) : Type 0 where
  pub data_dir : var data_dir_env (command_env parent i) ≡ some i.profile.data_dir
  pub session : var session_env (command_env parent i) ≡ i.session
  pub password : var password_env (command_env parent i) ≡ i.master_password
  pub no_interaction :
      var no_interaction_env (command_env parent i)
      ≡ (if i.interactive then none else some (codes "true"))
  pub others :
      (name : Text)
      → may_inherit name ≡ false
      → has_name name own_names ≡ false
      → var name (command_env parent i) ≡ none

pub command_env-IsClosed : (parent : List Var) (i : BwInvocation) → IsClosed parent i
unfolding command_env may_inherit
command_env-IsClosed parent i =
    let (d, s, p, n) = own-var i.profile.data_dir i.interactive i.session i.master_password in
    record {
      data_dir = found data_dir_env refl ∙ d;
      session = found session_env refl ∙ s;
      password = found password_env refl ∙ p;
      no_interaction = found no_interaction_env refl ∙ n;
      others = λ name h k.
          found name h
          ∙ var-none name _
              (own-others i.profile.data_dir i.interactive i.session i.master_password name k);
    }
  where
    either : (o : Option Text) → or_else o none ≡ o
    either none = refl
    either (some value) = refl

    found :
        (name : Text)
        → may_inherit name ≡ false
        → var name (command_env parent i)
          ≡ var name (own i.profile.data_dir i.interactive i.session i.master_password)
    found name h =
        var-append name (inherited parent)
          (own i.profile.data_dir i.interactive i.session i.master_password)
        ∙ rw (var-inherited name parent h)
            (either (var name (own i.profile.data_dir i.interactive i.session i.master_password)))
