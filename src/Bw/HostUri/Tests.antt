-- ===== src/Bw/HostUri/Tests.antt =====
-- Concrete addresses.
use codex_hosts.Prelude.{◌≡◌, refl, none, some, [], ◌∷◌, codes, arith, All}
use codex_hosts.Text.{trim, is_whitespace, to_ascii_lowercase, lower_char}
use codex_hosts.Bw.HostUri.{
  ssh, HostUri, decimal, contains_char, host_part, to_string, split_once, rsplit_once,
  split_once_at, before_delimiter, parse_digits, parse_u16, scheme_of, user_of, host_and_port,
  checked, authority_uri, parse_host_uri,
}
use codex_hosts.Bw.HostUri.Parts.{IsPrintable}
use codex_hosts.Bw.HostUri.RoundTrip.{parse_host_uri-to_string}
use codex_hosts.Bw.HostUri.Reread.{parse_host_uri-twice}

abbrev gateway : HostUri
gateway = record {
  scheme = ssh;
  username = some (codes "deploy");
  host = codes "fe80::1";
  port = some 2222;
}

-- what the tests compute with
computed : Unit {0}
unfolding trim is_whitespace contains_char host_part decimal to_string split_once rsplit_once
    split_once_at before_delimiter parse_digits parse_u16 scheme_of user_of host_and_port checked
    authority_uri parse_host_uri to_ascii_lowercase lower_char
computed = tt

printed : to_string gateway ≡ codes "ssh://deploy@[fe80::1]:2222"
unfolding computed
printed = refl

parsed :
    parse_host_uri (codes " SSH://10.0.0.5:22/ignored?x#y ")
    ≡ some (record { scheme = ssh; username = none; host = codes "10.0.0.5"; port = some 22 })
unfolding computed
parsed = refl

refused :
    All
      (λ s. parse_host_uri (codes s) ≡ none)
      ("https://vault.example" ∷ "10.0.0.5" ∷ "ssh://" ∷ "ssh://user@" ∷ "ssh://host:0"
        ∷ "ssh://host:70000" ∷ "ssh://host:abc" ∷ "ssh://[fe80::1" ∷ "ssh://[fe80::1]x"
        ∷ "ssh://bad host" ∷ "sftp://host" ∷ [])
unfolding computed
refused = (refl, (refl, (refl, (refl, (refl, (refl, (refl, (refl, (refl, (refl, (refl, tt)))))))))))

printable : IsPrintable gateway
unfolding computed
printable = record {
  user = (refl, refl, (refl, (refl, (refl, (refl, (refl, (refl, tt)))))));
  host_given = refl;
  host = (refl, (refl, (refl, (refl, (refl, (refl, (refl, tt)))))));
  port = (omega arith, omega arith);
}

parse_host_uri-to_string_example : parse_host_uri (to_string gateway) ≡ some gateway
parse_host_uri-to_string_example = parse_host_uri-to_string gateway printable

abbrev plain_host : HostUri
plain_host = record { scheme = ssh; username = none; host = codes "a"; port = some 22 }

read_once : parse_host_uri (codes " SSH://a:022/x") ≡ some plain_host
unfolding computed
read_once = refl

parse_host_uri-twice_example : parse_host_uri (to_string plain_host) ≡ some plain_host
parse_host_uri-twice_example =
    parse_host_uri-twice (codes " SSH://a:022/x") plain_host read_once (refl, tt)

-- an opening bracket in the host is read, but not read back
bracket_read :
    parse_host_uri (codes "ssh://[[a]")
    ≡ some (record { scheme = ssh; username = none; host = codes "[a"; port = none })
unfolding computed
bracket_read = refl

bracket_refused : parse_host_uri (codes "ssh://[a") ≡ none
unfolding computed
bracket_refused = refl
