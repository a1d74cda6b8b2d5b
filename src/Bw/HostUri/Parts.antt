-- ===== src/Bw/HostUri/Parts.antt =====
-- The host and the port of an address that is written out.
use codex_hosts.Prelude.{
  ℕ, ◌<◌, ◌≡◌, refl, ap, ◌∙◌, Bool, true, false, not, ◌&&◌, ◌||◌, Option, none, some, [], ◌∷◌, ◌++◌,
  ◌==◌, Text, is_empty, arith, append_assoc, append-nil, All, All-append, ◌^◌, All-weaken, if-case,
}
use codex_hosts.Text.{trim, is_whitespace}
use codex_hosts.Bw.HostUri.{
  HostUri, decimal, contains_char, host_part, port_part, split_once, rsplit_once, is_delimiter,
  is_digit, and_then, bracketed, unbracketed, host_and_port, port_of, checked,
}
use codex_hosts.Text.Trims.{visible, trim-clean}
use codex_hosts.Bw.HostUri.Decimals.{decimal-IsDigits, parse_u16-decimal}
use codex_hosts.Bw.HostUri.Splits.{
  Lacks, rsplit_once-none, rsplit_once-append, split_once-append, any-none,
}

-- characters that have no meaning of their own in an address
abbrev pub plain : ℕ → Bool
plain c =
    not (is_whitespace c)
    && not (is_delimiter c)
    && not (c == b'@')
    && not (c == b'[')
    && not (c == b']')

abbrev pub IsPlain : Text → Type 0
IsPlain s = All (λ c. plain c ≡ true) s

abbrev pub IsUser : Option Text → Type 0
IsUser none = Unit
IsUser (some user) =
    (trim user ≡ user) × (is_empty user ≡ false) × All (λ c. is_delimiter c ≡ false) user

abbrev pub IsPort : Option ℕ → Type 0
IsPort none = Unit
IsPort (some port) = (0 < port) × (port < 2 ^ 16)

pub record IsPrintable (u : HostUri) : Type 0 where
  pub user : IsUser u.username
  pub host_given : is_empty u.host ≡ false
  pub host : IsPlain u.host
  pub port : IsPort u.port

abbrev port_text : Option ℕ → Option Text
port_text none = none
port_text (some port) = some (decimal 5 port)

-- neither white space nor a delimiter, and no sign behind which the host begins
abbrev pub inner : ℕ → Bool
inner c = not (is_whitespace c) && not (is_delimiter c) && not (c == b'@')

abbrev pub IsInner : Text → Type 0
IsInner s = All (λ c. inner c ≡ true) s

-- the signs that stand around a host and before a port
abbrev is_sign : ℕ → Bool
is_sign c = c == b':' || c == b'[' || c == b']'

digit-inner : (c : ℕ) → is_digit c ≡ true → inner c ≡ true
digit-inner c h =
    let seen : is_whitespace c ≡ false = visible c (ground arith) (ground arith) in ground arith

plain-inner : (c : ℕ) → plain c ≡ true → inner c ≡ true
plain-inner c h = ground arith

sign-inner : (c : ℕ) → is_sign c ≡ true → inner c ≡ true
sign-inner c h =
    let seen : is_whitespace c ≡ false = visible c (ground arith) (ground arith) in ground arith

host_part-IsInner : (host : Text) → IsPlain host → IsInner (host_part host)
unfolding host_part
host_part-IsInner host h =
    let k = All-weaken (λ c. plain c ≡ true) (λ c. inner c ≡ true) host plain-inner h in
    if-case IsInner (contains_char b':' host)
      (λ _. (
        sign-inner b'[' refl,
        All-append (λ c. inner c ≡ true) host _ k (sign-inner b']' refl, tt),
      ))
      (λ _. k)

port_part-IsInner : (port : Option ℕ) → IsInner (port_part port)
port_part-IsInner none = tt
port_part-IsInner (some port) = (
  sign-inner b':' refl,
  All-weaken (λ c. is_digit c ≡ true) (λ c. inner c ≡ true) (decimal 5 port) digit-inner
      (decimal-IsDigits 5 port),
)

pub parts-IsInner :
    (host : Text) (port : Option ℕ) → IsPlain host → IsInner (host_part host ++ port_part port)
parts-IsInner host port h =
    All-append (λ c. inner c ≡ true) (host_part host) (port_part port) (host_part-IsInner host h)
      (port_part-IsInner port)

bracketed-port :
    (host : Text) (port : Option ℕ)
    → bracketed (some (host, port_part port)) ≡ some (host, port_text port)
bracketed-port host none = refl
bracketed-port host (some port) = refl

colon-Lacks : (host : Text) → contains_char b':' host ≡ false → Lacks b':' host
unfolding contains_char
colon-Lacks [] h = tt
colon-Lacks (c ∷ s) h = (ground arith, colon-Lacks s (ground arith))

unbracketed-port :
    (host : Text) (port : Option ℕ)
    → contains_char b':' host ≡ false
    → unbracketed (host ++ port_part port) (rsplit_once b':' (host ++ port_part port))
      ≡ (host, port_text port)
unbracketed-port host none h =
    rw (append-nil host, rsplit_once-none b':' host (colon-Lacks host h)) refl
unbracketed-port host (some port) h =
    rw
      (
        rsplit_once-append b':' host (decimal 5 port) (
            All-weaken (λ c. is_digit c ≡ true) (λ c. (c == b':') ≡ false) (decimal 5 port)
              (λ c d. ground arith) (decimal-IsDigits 5 port)),
        h,
      )
      refl

pub host_and_port-parts :
    (host : Text) (port : Option ℕ)
    → is_empty host ≡ false
    → IsPlain host
    → host_and_port (host_part host ++ port_part port) ≡ some (host, port_text port)
unfolding host_and_port host_part
host_and_port-parts [] port n h = cc
host_and_port-parts (c ∷ s) port n h =
    if-case (λ (t : Text). host_and_port (t ++ port_part port) ≡ some (c ∷ s, port_text port))
      (contains_char b':' (c ∷ s))
      (λ _.
        ap (λ t. bracketed (split_once b']' t)) (append_assoc (c ∷ s) (b']' ∷ []) (port_part port))
        ∙ ap bracketed (
            split_once-append b']' (c ∷ s) (port_part port) (
              All-weaken (λ d. plain d ≡ true) (λ d. (d == b']') ≡ false) (c ∷ s)
                (λ d k. ground arith) h))
        ∙ bracketed-port (c ∷ s) port)
      (λ none_there.
        let (p, _) = h in
        let not_bracket : (c == b'[') ≡ false = ground arith in
        rw not_bracket (ap some (unbracketed-port (c ∷ s) port none_there)))

pub checked-parts :
    (u : HostUri) → IsPrintable u → checked u.scheme u.username (u.host, port_text u.port) ≡ some u
unfolding checked
checked-parts u h =
    let clean =
      All-weaken (λ c. plain c ≡ true) (λ c. is_whitespace c ≡ false) u.host (λ c k. ground arith)
        h.host in
    rw (trim-clean u.host clean, h.host_given, any-none is_whitespace u.host clean)
      (port_read u.port h.port)
  where
    port_read :
        (port : Option ℕ)
        → IsPort port
        → and_then {B = HostUri} (port_of (port_text port)) (λ p.
          some (record { scheme = u.scheme; username = u.username; host = u.host; port = p }))
          ≡ some (record { scheme = u.scheme; username = u.username; host = u.host; port = port })
    port_read none k = refl
    port_read (some port) (k, l) =
        let not_zero : (port == 0) ≡ false = ground arith in
        rw (parse_u16-decimal port l, not_zero) refl
