-- ===== src/Bw/HostUri.antt =====
-- src/bw/host_uri.rs: the address of a host that stands in an item of a password manager. A number of
-- sixteen bits is printed with five rounds at most; `write!` and `parse` of numbers are as in Rust.
pub mod Splits
pub mod Decimals
pub mod Parts
pub mod RoundTrip
mod Tests
pub mod Cuts
pub mod Reread
use codex_hosts.Prelude.{
  ℕ, zero, suc, ◌+◌, ◌-◌, Bool, ◌&&◌, ◌||◌, Option, none, some, [], ◌∷◌, ◌++◌, if◌then◌else◌, ltb,
  leb, ◌==◌, ◌=ᵗ◌, Text, codes, starts_with, is_empty, length, drop, any, ◌*◌, ◌/◌, ◌%◌, ◌^◌,
}
use codex_hosts.Text.{trim, is_whitespace, to_ascii_lowercase}

pub data UriScheme : Type 0 where
  ssh telnet : UriScheme

abbrev pub default_port : UriScheme → ℕ
default_port ssh = 22
default_port telnet = 23

abbrev pub name : UriScheme → Text
name ssh = codes "ssh"
name telnet = codes "telnet"

pub record HostUri : Type 0 where
  pub scheme : UriScheme
  pub username : Option Text
  pub host : Text
  pub port : Option ℕ

abbrev pub port_or_default : HostUri → ℕ
port_or_default u = elim u.port [ none ↦ default_port u.scheme | some port ↦ port ]

-- a number in decimal digits, at most as many as the first argument says
unfoldable pub decimal : ℕ → ℕ → Text
decimal zero n = []
decimal (suc fuel) n =
    let more = decimal fuel (n / 10) in
    let digit = b'0' + n % 10 in if ltb n 10 then digit ∷ [] else more ++ digit ∷ []

abbrev pub user_prefix : Option Text → Text
user_prefix none = []
user_prefix (some user) = user ++ b'@' ∷ []

unfoldable pub contains_char : ℕ → Text → Bool
contains_char c s = any (λ d. d == c) s

unfoldable pub host_part : Text → Text
host_part host = if contains_char b':' host then b'[' ∷ (host ++ b']' ∷ []) else host

abbrev pub port_part : Option ℕ → Text
port_part none = []
port_part (some port) = b':' ∷ decimal 5 port

-- `to_string`
unfoldable pub to_string : HostUri → Text
to_string u =
    name u.scheme
    ++ codes "://"
    ++ (user_prefix u.username ++ (host_part u.host ++ port_part u.port))

abbrev pub behind : ℕ → Option (Text × Text) → Option (Text × Text)
behind c none = none
behind c (some (a, b)) = some (c ∷ a, b)

-- `split_once` at a character
unfoldable pub split_once : ℕ → Text → Option (Text × Text)
split_once c [] = none
split_once c (x ∷ s) = let rest = behind x (split_once c s) in if x == c then some ([], s) else rest

abbrev pub last_split : ℕ → ℕ → Text → Option (Text × Text) → Option (Text × Text)
last_split c x s none = if x == c then some ([], s) else none
last_split c x s (some (a, b)) = some (x ∷ a, b)

-- `rsplit_once`, at the last such character
unfoldable pub rsplit_once : ℕ → Text → Option (Text × Text)
rsplit_once c [] = none
rsplit_once c (x ∷ s) = last_split c x s (rsplit_once c s)

-- `split_once` at a text
unfoldable pub split_once_at : Text → Text → Option (Text × Text)
split_once_at sep [] = none
split_once_at sep (x ∷ s) =
    let rest = behind x (split_once_at sep s) in
    if starts_with (x ∷ s) sep then some ([], drop (length sep) (x ∷ s)) else rest

abbrev pub is_delimiter : ℕ → Bool
is_delimiter c = c == b'/' || c == b'?' || c == b'#'

-- the first part of the text that is split at the delimiters
unfoldable pub before_delimiter : Text → Text
before_delimiter [] = []
before_delimiter (c ∷ s) = let rest = before_delimiter s in if is_delimiter c then [] else c ∷ rest

abbrev pub is_digit : ℕ → Bool
is_digit c = leb b'0' c && leb c b'9'

unfoldable pub parse_digits : ℕ → Text → Option ℕ
parse_digits n [] = some n
parse_digits n (c ∷ s) =
    let m = n * 10 + (c - b'0') in
    let rest = parse_digits m s in if is_digit c && ltb m (2 ^ 16) then rest else none

abbrev pub some_digits : Text → Option ℕ
some_digits [] = none
some_digits (c ∷ s) = parse_digits 0 (c ∷ s)

-- `parse::<u16>`
unfoldable pub parse_u16 : Text → Option ℕ
parse_u16 [] = none
parse_u16 (c ∷ s) = if c == b'+' then some_digits s else parse_digits 0 (c ∷ s)

abbrev pub and_then : {A B : Type 0} → Option A → (A → Option B) → Option B
and_then none f = none
and_then (some x) f = f x

unfoldable pub scheme_of : Text → Option UriScheme
scheme_of s =
    if to_ascii_lowercase s =ᵗ codes "ssh"
    then some ssh
    else if to_ascii_lowercase s =ᵗ codes "telnet"
    then some telnet
    else none

unfoldable pub user_of : Text → Option Text
user_of s = let user = trim s in if is_empty user then none else some user

abbrev pub user_and_host : Text → Option (Text × Text) → Option Text × Text
user_and_host authority none = (none, authority)
user_and_host authority (some (user, host_port)) = (user_of user, host_port)

abbrev pub bracketed : Option (Text × Text) → Option (Text × Option Text)
bracketed none = none
bracketed (some (host, [])) = some (host, none)
bracketed (some (host, c ∷ tail)) = if c == b':' then some (host, some tail) else none

abbrev pub unbracketed : Text → Option (Text × Text) → Text × Option Text
unbracketed host_port none = (host_port, none)
unbracketed host_port (some (host, port)) =
    if contains_char b':' host then (host_port, none) else (host, some port)

unfoldable pub host_and_port : Text → Option (Text × Option Text)
host_and_port [] = some (unbracketed [] none)
host_and_port (c ∷ s) =
    if c == b'['
    then bracketed (split_once b']' s)
    else some (unbracketed (c ∷ s) (rsplit_once b':' (c ∷ s)))

abbrev pub nonzero : ℕ → Option (Option ℕ)
nonzero value = if value == 0 then none else some (some value)

abbrev pub port_of : Option Text → Option (Option ℕ)
port_of none = some none
port_of (some digits) = and_then (parse_u16 digits) nonzero

-- what follows the reading of the parts
unfoldable pub checked : UriScheme → Option Text → Text × Option Text → Option HostUri
checked scheme username (host, port) =
    let host = trim host in
    if is_empty host || any is_whitespace host
    then none
    else and_then (port_of port)
        (λ port. some (record { scheme = scheme; username = username; host = host; port = port }))

unfoldable pub authority_uri : UriScheme → Text → Option HostUri
authority_uri scheme authority =
    let (username, host_port) = user_and_host authority (rsplit_once b'@' authority) in
    and_then (host_and_port host_port) (checked scheme username)

unfoldable pub parse_host_uri : Text → Option HostUri
parse_host_uri text = and_then (split_once_at (codes "://") (trim text)) (λ parts.
    and_then (scheme_of parts.0) (λ scheme. authority_uri scheme (trim (before_delimiter parts.1))))
