-- ===== src/Bw/HostUri/Reread.antt =====
-- An address that is read, written out and read again.
use codex_hosts.Prelude.{
  ℕ, ◌+◌, ◌-◌, ◌<◌, ◌≡◌, true, false, ◌&&◌, ◌||◌, Option, none, some, [], ◌∷◌, ltb, ◌==◌, Text,
  codes, is_empty, any, All-both, arith, All, All-split, ◌*◌, ◌^◌, if-case,
}
use codex_hosts.Text.{trim, is_whitespace}
use codex_hosts.Bw.HostUri.{
  UriScheme, HostUri, to_string, rsplit_once, split_once_at, is_delimiter, before_delimiter,
  is_digit, parse_digits, some_digits, parse_u16, and_then, scheme_of, user_of, user_and_host,
  host_and_port, nonzero, port_of, checked, authority_uri, parse_host_uri,
}
use codex_hosts.Bw.HostUri.Splits.{Lacks}
use codex_hosts.Bw.HostUri.Parts.{plain, IsUser, IsPort, IsPrintable}
use codex_hosts.Text.Kept.{trim-All, trim-twice}
use codex_hosts.Bw.HostUri.Cuts.{
  IsFree, before_delimiter-IsFree, IsCut, rsplit_once-IsCut, inside, IsInside, HasHost,
  host_and_port-HasHost,
}
use codex_hosts.Bw.HostUri.RoundTrip.{parse_host_uri-to_string}

abbrev Below : Option ℕ → Type 0
Below none = Unit
Below (some n) = n < 2 ^ 16

parse_digits-Below : (n : ℕ) (s : Text) → n < 2 ^ 16 → Below (parse_digits n s)
unfolding parse_digits
parse_digits-Below n [] h = h
parse_digits-Below n (c ∷ s) h =
    if-case Below (is_digit c && ltb (n * 10 + (c - b'0')) (2 ^ 16))
      (λ e. parse_digits-Below (n * 10 + (c - b'0')) s (ground arith)) (λ _. tt)

parse_u16-Below : (s : Text) → Below (parse_u16 s)
unfolding parse_u16
parse_u16-Below [] = tt
parse_u16-Below (c ∷ s) =
    if-case Below (c == b'+') (λ _. signed s) (λ _. parse_digits-Below 0 (c ∷ s) (omega arith))
  where
    signed : (s : Text) → Below (some_digits s)
    signed [] = tt
    signed (d ∷ s) = parse_digits-Below 0 (d ∷ s) (omega arith)

-- what is known of an address that is read
record IsRead (u : HostUri) : Type 0 where
  user : IsUser u.username
  host_given : is_empty u.host ≡ false
  clean : any is_whitespace u.host ≡ false
  inner_host : IsInside u.host
  port : IsPort u.port

abbrev Reads : Option HostUri → Type 0
Reads none = Unit
Reads (some u) = IsRead u

port-Reads :
    (scheme : UriScheme) (user : Option Text) (host : Text) (port : Option Text)
    → IsUser user
    → is_empty host ≡ false
    → any is_whitespace host ≡ false
    → IsInside host
    → Reads (
        and_then {B = HostUri}
          (port_of port)
          (λ p. some (record { scheme = scheme; username = user; host = host; port = p })))
port-Reads scheme user host none u g c i = record {
  user = u;
  host_given = g;
  clean = c;
  inner_host = i;
  port = tt;
}
port-Reads scheme user host (some digits) u g c i =
    value (parse_u16 digits) (parse_u16-Below digits)
  where
    value :
        (o : Option ℕ)
        → Below o
        → Reads (
            and_then {B = HostUri}
              (and_then o nonzero)
              (λ p. some (record { scheme = scheme; username = user; host = host; port = p })))
    value none b = tt
    value (some n) b =
        if-case
          (λ (r : Option (Option ℕ)). Reads (
            and_then {B = HostUri} r
              (λ p. some (record { scheme = scheme; username = user; host = host; port = p }))))
          (n == 0) (λ _. tt)
          (λ e. record {
            user = u;
            host_given = g;
            clean = c;
            inner_host = i;
            port = (ground arith, b);
          })

checked-Reads :
    (scheme : UriScheme) (user : Option Text) (r : Option (Text × Option Text))
    → IsUser user
    → HasHost r
    → Reads (and_then r (checked scheme user))
unfolding checked
checked-Reads scheme user none u h = tt
checked-Reads scheme user (some (host, port)) u h =
    if-case Reads (is_empty (trim host) || any is_whitespace (trim host)) (λ _. tt)
      (λ e.
        port-Reads scheme user (trim host) port u (ground arith) (ground arith)
          (trim-All (λ c. inside c ≡ true) host h))

user_of-IsUser : (s : Text) → IsFree s → IsUser (user_of s)
unfolding user_of
user_of-IsUser s h =
    if-case IsUser (is_empty (trim s)) (λ _. tt)
      (λ e. (trim-twice s, e, trim-All (λ c. is_delimiter c ≡ false) s h))

free-IsInside : (s : Text) → IsFree s → Lacks b'@' s → IsInside s
free-IsInside s h k =
    All-both (λ c. is_delimiter c ≡ false) (λ c. (c == b'@') ≡ false) (λ c. inside c ≡ true) s
      (λ c d e. ground arith) h k

authority_uri-Reads : (scheme : UriScheme) (a : Text) → IsFree a → Reads (authority_uri scheme a)
unfolding authority_uri
authority_uri-Reads scheme a h = cut (rsplit_once b'@' a) (rsplit_once-IsCut b'@' a)
  where
    cut :
        (o : Option (Text × Text))
        → IsCut b'@' a o
        → Reads
            (and_then (host_and_port (user_and_host a o).1) (checked scheme (user_and_host a o).0))
    cut none k =
        checked-Reads scheme none (host_and_port a) tt
          (host_and_port-HasHost a (free-IsInside a h k))
    cut (some (x, b)) (e, k) =
        let (free_user, (_, free_host)) =
          All-split (λ c. is_delimiter c ≡ false) x (b'@' ∷ b) (rw (← e) h) in
        checked-Reads scheme (user_of x) (host_and_port b) (user_of-IsUser x free_user)
          (host_and_port-HasHost b (free-IsInside b free_host k))

parse_host_uri-Reads : (text : Text) → Reads (parse_host_uri text)
unfolding parse_host_uri
parse_host_uri-Reads text = parts (split_once_at (codes "://") (trim text))
  where
    schemed :
        (o : Option UriScheme) (rest : Text)
        → Reads (and_then o (λ scheme. authority_uri scheme (trim (before_delimiter rest))))
    schemed none rest = tt
    schemed (some scheme) rest = authority_uri-Reads scheme (trim (before_delimiter rest)) (
        trim-All (λ c. is_delimiter c ≡ false) (before_delimiter rest)
          (before_delimiter-IsFree rest))

    parts :
        (o : Option (Text × Text))
        → Reads (
            and_then o (λ p.
              and_then
                (scheme_of p.0)
                (λ scheme. authority_uri scheme (trim (before_delimiter p.1)))))
    parts none = tt
    parts (some (a, b)) = schemed (scheme_of a) b

abbrev pub HasNoBracket : Text → Type 0
HasNoBracket s = All (λ c. (c == b'[' || c == b']') ≡ false) s

IsRead-IsPrintable : (u : HostUri) → IsRead u → HasNoBracket u.host → IsPrintable u
IsRead-IsPrintable u h k = record {
  user = h.user;
  host_given = h.host_given;
  host =
      All-both (λ c. inside c ≡ true) (λ c. ((c == b'[' || c == b']') || is_whitespace c) ≡ false)
        (λ c. plain c ≡ true) u.host (λ c i e. ground arith) h.inner_host
        (All-both (λ c. (c == b'[' || c == b']') ≡ false) (λ c. is_whitespace c ≡ false)
          (λ c. ((c == b'[' || c == b']') || is_whitespace c) ≡ false) u.host
          (λ c b e. ground arith) k (clean_all u.host h.clean));
  port = h.port;
}
  where
    clean_all : (s : Text) → any is_whitespace s ≡ false → All (λ c. is_whitespace c ≡ false) s
    clean_all [] e = tt
    clean_all (c ∷ s) e = (ground arith, clean_all s (ground arith))

-- Whatever text an address is read from: if its host has no bracket in it, the address is read again,
-- the same, from the text it is written as.
pub parse_host_uri-twice :
    (text : Text) (u : HostUri)
    → parse_host_uri text ≡ some u
    → HasNoBracket u.host
    → parse_host_uri (to_string u) ≡ some u
parse_host_uri-twice text u e k =
    parse_host_uri-to_string u
      (IsRead-IsPrintable u (read_one (parse_host_uri text) e (parse_host_uri-Reads text)) k)
  where
    read_one : (o : Option HostUri) → o ≡ some u → Reads o → IsRead u
    read_one none e h = cc
    read_one (some v) e h = let same : v ≡ u = cc in rw (← same) h
