-- ===== src/Ssh/Key.antt =====
-- src/ssh.rs, `SessionKey`: what a pooled session is found by. A file's version and a session of the
-- vault are values that are only compared.
use codex_hosts.Prelude.{
  ℕ, ◌≡◌, refl, ap, Bool, true, false, ◌&&◌, Option, none, some, ◌==◌, ◌=ᵗ◌, Text, arith,
  text_eq_iff, text_eq_refl, ==_iff,
}
use codex_hosts.Model.{Uuid, SshAuth, password, private_key, ssh_agent}

-- `vault_hosts::Admission`: the item, its revision and, for Bitwarden, the fingerprint of its session
pub data Admission : Type 0 where
  bitwarden : Uuid → Text → ℕ → Admission
  one_password : Uuid → Text → Admission

-- the fields of a key beside its parent
pub record HopKey : Type 0 where
  pub host_id : Uuid
  pub address : Text
  pub port : ℕ
  pub username : Text
  pub auth : SshAuth
  pub private_key_path : Text
  pub private_key_version : Option (ℕ × ℕ)
  pub agent_key_fingerprint : Text
  pub host_fingerprint : Option Text
  pub host_key_algorithm : Option Text
  pub vault : Option Admission

-- a key without a parent, and one behind its parent
pub data SessionKey : Type 0 where
  first : HopKey → SessionKey
  behind : SessionKey → HopKey → SessionKey

-- `#[derive(PartialEq)]`
abbrev pub eq_auth : SshAuth → SshAuth → Bool
eq_auth password password = true
eq_auth private_key private_key = true
eq_auth ssh_agent ssh_agent = true
eq_auth _ _ = false

abbrev pub eq_admission : Admission → Admission → Bool
eq_admission (bitwarden i r s) (bitwarden j q t) = i == j && r =ᵗ q && s == t
eq_admission (one_password i r) (one_password j q) = i == j && r =ᵗ q
eq_admission _ _ = false

abbrev pub eq_option {ℓ} : {A : Type ℓ} → (A → A → Bool) → Option A → Option A → Bool
eq_option eq none none = true
eq_option eq (some x) (some y) = eq x y
eq_option eq _ _ = false

abbrev pub same_version : ℕ × ℕ → ℕ × ℕ → Bool
same_version v w = v.0 == w.0 && v.1 == w.1

abbrev pub same_text : Text → Text → Bool
same_text s t = s =ᵗ t

abbrev pub eq_hop : HopKey → HopKey → Bool
eq_hop a b =
    a.host_id == b.host_id
    && a.address =ᵗ b.address
    && a.port == b.port
    && a.username =ᵗ b.username
    && eq_auth a.auth b.auth
    && a.private_key_path =ᵗ b.private_key_path
    && eq_option same_version a.private_key_version b.private_key_version
    && a.agent_key_fingerprint =ᵗ b.agent_key_fingerprint
    && eq_option same_text a.host_fingerprint b.host_fingerprint
    && eq_option same_text a.host_key_algorithm b.host_key_algorithm
    && eq_option eq_admission a.vault b.vault

infix 50 ◌=ᵏ◌
unfoldable pub ◌=ᵏ◌ : SessionKey → SessionKey → Bool
first a =ᵏ first b = eq_hop a b
behind p a =ᵏ behind q b = p =ᵏ q && eq_hop a b
_ =ᵏ _ = false

eq_admission_refl : (a : Admission) → eq_admission a a ≡ true
eq_admission_refl (bitwarden i r s) = ground (arith, text_eq_refl r)
eq_admission_refl (one_password i r) = ground (arith, text_eq_refl r)

eq_option_refl {ℓ} :
    {A : Type ℓ} (eq : A → A → Bool)
    → ((x : A) → eq x x ≡ true)
    → (o : Option A) → eq_option eq o o ≡ true
eq_option_refl eq h none = refl
eq_option_refl eq h (some x) = h x

eq_auth_refl : (a : SshAuth) → eq_auth a a ≡ true
eq_auth_refl password = refl
eq_auth_refl private_key = refl
eq_auth_refl ssh_agent = refl

eq_hop_refl : (h : HopKey) → eq_hop h h ≡ true
eq_hop_refl h = ground (
  arith,
  text_eq_refl h.address,
  text_eq_refl h.username,
  eq_auth_refl h.auth,
  text_eq_refl h.private_key_path,
  eq_option_refl same_version (λ v. ground arith) h.private_key_version,
  text_eq_refl h.agent_key_fingerprint,
  eq_option_refl same_text text_eq_refl h.host_fingerprint,
  eq_option_refl same_text text_eq_refl h.host_key_algorithm,
  eq_option_refl eq_admission eq_admission_refl h.vault,
)

pub eq_key_refl : (k : SessionKey) → (k =ᵏ k) ≡ true
unfolding ◌=ᵏ◌
eq_key_refl (first h) = eq_hop_refl h
eq_key_refl (behind p h) = ground (arith, eq_key_refl p, eq_hop_refl h)

auth_eq : (a b : SshAuth) → eq_auth a b ≡ true → a ≡ b
auth_eq password password h = refl
auth_eq private_key private_key h = refl
auth_eq ssh_agent ssh_agent h = refl
auth_eq password private_key h = cc
auth_eq password ssh_agent h = cc
auth_eq private_key password h = cc
auth_eq private_key ssh_agent h = cc
auth_eq ssh_agent password h = cc
auth_eq ssh_agent private_key h = cc

text_eq : (s t : Text) → (s =ᵗ t) ≡ true → s ≡ t
text_eq s t h = (text_eq_iff s t).0 h

admission_eq : (a b : Admission) → eq_admission a b ≡ true → a ≡ b
admission_eq (bitwarden i r s) (bitwarden j q t) h =
    let e : i ≡ j = ground arith in
    let f : r ≡ q = text_eq r q (ground arith) in let g : s ≡ t = ground arith in cc
admission_eq (one_password i r) (one_password j q) h =
    let e : i ≡ j = ground arith in let f : r ≡ q = text_eq r q (ground arith) in cc
admission_eq (bitwarden i r s) (one_password j q) h = cc
admission_eq (one_password i r) (bitwarden j q t) h = cc

option_eq {ℓ} :
    {A : Type ℓ} (eq : A → A → Bool)
    → ((x y : A) → eq x y ≡ true → x ≡ y)
    → (o p : Option A) → eq_option eq o p ≡ true
    → o ≡ p
option_eq eq h none none e = refl
option_eq eq h (some x) (some y) e = ap some (h x y e)
option_eq eq h none (some y) e = cc
option_eq eq h (some x) none e = cc

version_eq : (v w : ℕ × ℕ) → same_version v w ≡ true → v ≡ w
version_eq (a, b) (c, d) h = let e : a ≡ c = ground arith in let f : b ≡ d = ground arith in cc

and_true : (x y : Bool) → (x && y) ≡ true → (x ≡ true) × (y ≡ true)
and_true true y h = (refl, h)
and_true false y h = cc

hop_eq : (a b : HopKey) → eq_hop a b ≡ true → a ≡ b
hop_eq a b h0 =
    let (h10, f10) = and_true _ (eq_option eq_admission a.vault b.vault) h0 in
    let (h9, f9) = and_true _ (eq_option same_text a.host_key_algorithm b.host_key_algorithm) h10 in
    let (h8, f8) = and_true _ (eq_option same_text a.host_fingerprint b.host_fingerprint) h9 in
    let (h7, f7) = and_true _ (a.agent_key_fingerprint =ᵗ b.agent_key_fingerprint) h8 in
    let (h6, f6) =
      and_true _ (eq_option same_version a.private_key_version b.private_key_version) h7 in
    let (h5, f5) = and_true _ (a.private_key_path =ᵗ b.private_key_path) h6 in
    let (h4, f4) = and_true _ (eq_auth a.auth b.auth) h5 in
    let (h3, f3) = and_true _ (a.username =ᵗ b.username) h4 in
    let (h2, f2) = and_true _ (a.port == b.port) h3 in
    let (f0, f1) = and_true _ (a.address =ᵗ b.address) h2 in
    let e0 : a.host_id ≡ b.host_id = (==_iff a.host_id b.host_id).0 f0 in
    let e1 : a.address ≡ b.address = text_eq a.address b.address f1 in
    let e2 : a.port ≡ b.port = (==_iff a.port b.port).0 f2 in
    let e3 : a.username ≡ b.username = text_eq a.username b.username f3 in
    let e4 : a.auth ≡ b.auth = auth_eq a.auth b.auth f4 in
    let e5 : a.private_key_path ≡ b.private_key_path =
      text_eq a.private_key_path b.private_key_path f5 in
    let e6 : a.private_key_version ≡ b.private_key_version =
      option_eq same_version version_eq a.private_key_version b.private_key_version f6 in
    let e7 : a.agent_key_fingerprint ≡ b.agent_key_fingerprint =
      text_eq a.agent_key_fingerprint b.agent_key_fingerprint f7 in
    let e8 : a.host_fingerprint ≡ b.host_fingerprint =
      option_eq same_text text_eq a.host_fingerprint b.host_fingerprint f8 in
    let e9 : a.host_key_algorithm ≡ b.host_key_algorithm =
      option_eq same_text text_eq a.host_key_algorithm b.host_key_algorithm f9 in
    let e10 : a.vault ≡ b.vault = option_eq eq_admission admission_eq a.vault b.vault f10 in cc

-- keys that the test takes for equal are equal
pub key_eq : (a b : SessionKey) → (a =ᵏ b) ≡ true → a ≡ b
unfolding ◌=ᵏ◌
key_eq (first a) (first b) h = ap first (hop_eq a b h)
key_eq (behind p a) (behind q b) h =
    let e : p ≡ q = key_eq p q (ground arith) in let f : a ≡ b = hop_eq a b (ground arith) in cc
key_eq (first a) (behind q b) h = cc
key_eq (behind p a) (first b) h = cc
