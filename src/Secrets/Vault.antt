-- ===== src/Secrets/Vault.antt =====
-- src/temporary_secrets.rs, `Vault`, `Field` and `Execution`: the named secrets and the processes that
-- ask for them. Whether a path is absolute depends on the platform and is an argument; an error is its
-- code. An environment is the list of its entries.
pub mod Fields
pub mod Given
mod Tests
pub mod Runnable
use codex_hosts.Prelude.{
  ℕ, ◌+◌, ◌-◌, Bool, true, false, not, ◌&&◌, ◌||◌, Option, none, some, List, [], ◌∷◌, ◌++◌,
  if◌then◌else◌, ltb, leb, ◌==◌, ◌=ᵗ◌, Text, is_empty, length, any, all, find, Result, ok, err,
  ◌>>=◌, ◌>>◌, refuse_if, ok_or, count, String, map, ◌*◌,
}
use codex_hosts.Text.{trim, is_control, byte_len}
use codex_hosts.Model.Validation.{contains_text}

abbrev pub max_fields : ℕ
max_fields = 64

abbrev pub max_value_bytes : ℕ
max_value_bytes = 32 * 1024

pub record Execution : Type 0 where
  pub program : Text
  pub args : List Text
  pub cwd : Text
  pub env : List (Text × Text)
  pub timeout_ms : ℕ

pub record Field : Type 0 where
  pub name : Text
  pub draft : Text
  pub value : Option Text
  pub requires_approval : Bool

abbrev pub cleared : Field → Field
cleared f = record f { draft = []; value = none }

pub save : Field → Result String Field
save f =
    if is_empty f.draft || ltb max_value_bytes (byte_len f.draft) || any (λ c. c == 0) f.draft
    then err "SECRET_VALUE_INVALID"
    else ok (record f { value = some f.draft; draft = [] })

pub record Vault : Type 0 where
  pub fields : List Field
  pub default_requires_approval : Bool

unfoldable pub name_ok : Text → Bool
name_ok name =
    not (is_empty (trim name))
    && name =ᵗ trim name
    && leb (byte_len name) 256
    && not (any is_control name)

-- the loop of `validate_names`, with its set
unfoldable pub names_ok : List Text → List Text → Bool
names_ok seen [] = true
names_ok seen (n ∷ ns) = name_ok n && not (contains_text seen n) && names_ok (n ∷ seen) ns

abbrev pub bad_names : List Text → Bool → Bool
bad_names names allow_empty =
    not allow_empty && is_empty names || ltb max_fields (length names) || not (names_ok [] names)

unfoldable pub validate_names : List Text → Bool → Result String (Unit {0})
validate_names names allow_empty = refuse_if (bad_names names allow_empty) "FIELD_NAMES_INVALID"

abbrev pub called : Text → Field → Bool
called name f = f.name =ᵗ name

abbrev pub has_field : List Field → Text → Bool
has_field fields name = any (called name) fields

abbrev pub new_field : Bool → Text → Field
new_field requires name = record {
  name = name;
  draft = [];
  value = none;
  requires_approval = requires;
}

pub add_fields : Bool → List Text → List Field → List Field
add_fields requires [] fields = fields
add_fields requires (n ∷ ns) fields =
    add_fields requires ns
      (if has_field fields n then fields else fields ++ new_field requires n ∷ [])

-- how many of the names are new
abbrev pub missing : List Field → List Text → ℕ
missing fields names = count (λ n. not (has_field fields n)) names

pub request : List Text → Vault → Result String Vault
request names v = do
  validate_names names false
  refuse_if (ltb max_fields (length v.fields + count (λ n. not (has_field v.fields n)) names))
      "FIELD_LIMIT"
  ok (record v { fields = add_fields v.default_requires_approval names v.fields })

pub set_all_approval : Bool → Vault → Vault
set_all_approval on v = record {
  default_requires_approval = on;
  fields = map (λ (f : Field). record f { requires_approval = on }) v.fields;
}

unfoldable pub clear : List Text → Vault → Result String Vault
clear names v = do
  validate_names names true
  refuse_if (any (λ n. not (has_field v.fields n)) names) "FIELD_NOT_FOUND"
  ok (record v {
    fields =
        map (λ (f : Field). if is_empty names || contains_text names f.name then cleared f else f)
          v.fields;
  })

abbrev uppercase : ℕ → ℕ
uppercase c = if leb b'a' c && leb c b'z' then c - 32 else c

unfoldable pub to_ascii_uppercase : Text → Text
to_ascii_uppercase t = map uppercase t

abbrev pub is_letter : ℕ → Bool
is_letter c = c == b'_' || leb b'a' c && leb c b'z' || leb b'A' c && leb c b'Z'

abbrev pub is_digit : ℕ → Bool
is_digit c = leb b'0' c && leb c b'9'

unfoldable pub env_name_ok : Text → Bool
env_name_ok [] = false
env_name_ok (c ∷ name) =
    leb (byte_len (c ∷ name)) 256 && is_letter c && all (λ d. is_letter d || is_digit d) name

-- the loop over the keys, with its set of names in capitals
unfoldable pub env_names_ok : List Text → List (Text × Text) → Bool
env_names_ok seen [] = true
env_names_ok seen (e ∷ env) =
    let name = to_ascii_uppercase e.0 in
    env_name_ok e.0 && not (contains_text seen name) && env_names_ok (name ∷ seen) env

-- the values, each once
unfoldable pub distinct_values : List (Text × Text) → List Text
distinct_values [] = []
distinct_values (e ∷ env) =
    let rest = distinct_values env in if contains_text rest e.1 then rest else e.1 ∷ rest

abbrev pub sum_len : List Text → ℕ
sum_len [] = 0
sum_len (a ∷ args) = byte_len a + sum_len args

abbrev pub bad_arg : Text → Bool
bad_arg a = ltb 8192 (byte_len a) || any (λ c. c == 0) a

abbrev pub value_of : Option Field → Option Text
value_of none = none
value_of (some f) = f.value

unfoldable pub values : List Field → List (Text × Text) → Result String (List (Text × Text))
values fields [] = ok []
values fields (e ∷ env) = do
  value ← ok_or (value_of (find (called e.1) fields)) "SECRET_MISSING"
  rest ← values fields env
  ok ((e.0, value) ∷ rest)

module _ (is_absolute : Text → Bool) where
  unfoldable pub bad_execution : Execution → Bool
  bad_execution e =
      not (is_absolute e.program)
      || not (is_absolute e.cwd)
      || ltb 128 (length e.args)
      || any bad_arg e.args
      || ltb (32 * 1024) (sum_len e.args)
      || not (leb 1 e.timeout_ms && leb e.timeout_ms 600000)
      || is_empty e.env
      || ltb max_fields (length e.env)

  unfoldable pub validate : Execution → Result String (Unit {0})
  validate e = do
    refuse_if (bad_execution e) "EXECUTION_INVALID"
    refuse_if (not (env_names_ok [] e.env)) "ENVIRONMENT_INVALID"
    validate_names (distinct_values e.env) false

  unfoldable pub environment : Vault → Execution → Result String (List (Text × Text))
  environment v e = do validate e; values v.fields e.env

abbrev pub asks : Option Field → Bool
asks none = true
asks (some f) = f.requires_approval

unfoldable pub requires_approval : Vault → Execution → Bool
requires_approval v e = any (λ (x : Text × Text). asks (find (called x.1) v.fields)) e.env
