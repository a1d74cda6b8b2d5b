-- ===== src/Sudo/Redactor/Tests.antt =====
-- The redaction of a concrete stream.
use codex_hosts.Prelude.{◌≡◌, [], ◌∷◌, codes}
use codex_hosts.Sudo.Redactor.{new, stream}
use codex_hosts.Sudo.Redactor.Packets.{redact, stream-new}

stream-new_example :
    stream (new (codes "pass")) (codes "my pa" ∷ codes "ss" ∷ [])
    ≡ redact 0 (codes "pass") (codes "my pass")
stream-new_example = stream-new (codes "pass") (codes "my pa" ∷ codes "ss" ∷ [])
