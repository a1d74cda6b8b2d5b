-- ===== src/Bw/HostUri/RoundTrip.antt =====
-- An address that is written out is read back.
use codex_hosts.Prelude.{
  ◌≡◌, refl, sym, ap, ◌∙◌, true, false, Option, none, some, [], ◌∷◌, ◌++◌, ◌==◌, Text, codes,
  is_empty, arith, append_assoc, All, All-append, All-weaken, if-case,
}
use codex_hosts.Text.{trim, is_whitespace, to_ascii_lowercase, lower_char}
use codex_hosts.Bw.HostUri.{
  UriScheme, ssh, telnet, name, HostUri, user_prefix, contains_char, host_part, port_part,
  to_string, rsplit_once, split_once_at, is_delimiter, before_delimiter, scheme_of, user_of,
  user_and_host, authority_uri, parse_host_uri,
}
use codex_hosts.Text.Trims.{visible, IsClean, trim-around, trim-clean, trim-append}
use codex_hosts.Bw.HostUri.Splits.{
  Lacks, rsplit_once-none, rsplit_once-append, before_delimiter-none,
}
use codex_hosts.Bw.HostUri.Parts.{
  IsUser, IsPrintable, inner, IsInner, parts-IsInner, host_and_port-parts, checked-parts,
}

inner-IsClean : (s : Text) → IsInner s → IsClean s
inner-IsClean s h =
    All-weaken (λ c. inner c ≡ true) (λ c. is_whitespace c ≡ false) s (λ c k. ground arith) h

not_empty-append : (s t : Text) → is_empty s ≡ false → is_empty (s ++ t) ≡ false
not_empty-append [] t h = cc
not_empty-append (c ∷ s) t h = refl

host_part-given : (host : Text) → is_empty host ≡ false → is_empty (host_part host) ≡ false
unfolding host_part
host_part-given host h =
    if-case (λ (s : Text). is_empty s ≡ false) (contains_char b':' host) (λ _. refl) (λ _. h)

-- the user in front of the host
module _ (host_port : Text) (h : IsInner host_port) (given : is_empty host_port ≡ false) where
  at-Lacks : Lacks b'@' host_port
  at-Lacks =
      All-weaken (λ c. inner c ≡ true) (λ c. (c == b'@') ≡ false) host_port (λ c k. ground arith) h

  no_delimiter : All (λ c. is_delimiter c ≡ false) host_port
  no_delimiter =
      All-weaken (λ c. inner c ≡ true) (λ c. is_delimiter c ≡ false) host_port (λ c k. ground arith)
        h

  user_and_host-prefix :
      (user : Option Text)
      → IsUser user
      → user_and_host
          (user_prefix user ++ host_port)
          (rsplit_once b'@' (user_prefix user ++ host_port))
        ≡ (user, host_port)
  unfolding user_of
  user_and_host-prefix none k = rw (rsplit_once-none b'@' host_port at-Lacks) refl
  user_and_host-prefix (some user) (k, n, d) =
      ap (λ t. user_and_host t (rsplit_once b'@' t)) (append_assoc user (b'@' ∷ []) host_port)
      ∙ rw (rsplit_once-append b'@' user host_port at-Lacks, k, n) refl

  authority-kept :
      (user : Option Text)
      → IsUser user
      → trim (before_delimiter (user_prefix user ++ host_port)) ≡ user_prefix user ++ host_port
  authority-kept none k =
      ap trim (before_delimiter-none host_port no_delimiter)
      ∙ trim-clean host_port (inner-IsClean host_port h)
  authority-kept (some user) (k, n, d) =
      let whole = append_assoc user (b'@' ∷ []) host_port in
      ap (λ t. trim (before_delimiter t)) whole
      ∙ ap trim (
          before_delimiter-none (user ++ b'@' ∷ host_port) (
            All-append (λ c. is_delimiter c ≡ false) user (b'@' ∷ host_port) d
              (refl, no_delimiter)))
      ∙ trim-append user (b'@' ∷ host_port) k n
          (visible b'@' (omega arith) (omega arith), inner-IsClean host_port h) refl
      ∙ sym whole

  read_scheme :
      (scheme : UriScheme) (before : Text)
      → parse_host_uri (name scheme ++ codes "://" ++ (before ++ host_port))
        ≡ authority_uri scheme (trim (before_delimiter (before ++ host_port)))
  unfolding parse_host_uri split_once_at scheme_of to_ascii_lowercase lower_char
  read_scheme ssh before =
      rw
        (trim-around b's' (codes "sh://" ++ before) host_port
          (visible b's' (omega arith) (omega arith)) (inner-IsClean host_port h) given)
        refl
  read_scheme telnet before =
      rw
        (trim-around b't' (codes "elnet://" ++ before) host_port
          (visible b't' (omega arith) (omega arith)) (inner-IsClean host_port h) given)
        refl

-- An address whose host has only plain characters, whose user is trimmed and not empty and has no
-- delimiter, and whose port is not zero and has sixteen bits, is read back from the text it is
-- written as: the scheme, the user, the host (in brackets if it has a colon) and the port, if any.
pub parse_host_uri-to_string : (u : HostUri) → IsPrintable u → parse_host_uri (to_string u) ≡ some u
unfolding to_string authority_uri
parse_host_uri-to_string u h =
    let host_port = host_part u.host ++ port_part u.port in
    let k = parts-IsInner u.host u.port h.host in
    let given =
      not_empty-append (host_part u.host) (port_part u.port)
        (host_part-given u.host h.host_given) in
    read_scheme host_port k given u.scheme (user_prefix u.username)
    ∙ ap (authority_uri u.scheme) (authority-kept host_port k given u.username h.user)
    ∙ rw
        (
          user_and_host-prefix host_port k given u.username h.user,
          host_and_port-parts u.host u.port h.host_given h.host,
        )
        (checked-parts u h)
