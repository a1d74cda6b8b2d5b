-- ===== src/Sudo/Redactor.antt =====
-- src/sudo.rs, `Redactor`: a secret that the remote side echoes is replaced, packet by packet.
-- The cursor into `pending` is the suffix that it points at.
pub mod Packets
mod Tests
use codex_hosts.Prelude.{
  ℕ, zero, suc, ◌≡◌, refl, Bool, true, false, not, ◌&&◌, List, [], ◌∷◌, ◌++◌, if◌then◌else◌, ltb,
  Bytes, codes, starts_with, is_empty, length, drop,
}

pub record Redactor : Type 0 where
  pub secret : Bytes
  pub pending : Bytes

abbrev pub mask : Bytes
mask = codes "[REDACTED]"

pub new : Bytes → Redactor
new secret = record { secret = secret; pending = [] }

-- One round of the `while`: what is written, and what is left of the buffer.
pub advance : Bytes → Bytes → Bytes × Bytes
advance secret [] = ([], [])
advance secret (b ∷ rest) =
    if starts_with (b ∷ rest) secret
    then (mask, drop (length secret) (b ∷ rest))
    else (b ∷ [], rest)

-- The `while`, on fuel: the output and the tail shorter than the secret.
pub scan : ℕ → Bytes → Bytes → Bytes × Bytes
scan zero secret buffer = ([], buffer)
scan (suc fuel) secret buffer = elim (ltb (length buffer) (length secret)) [
  | true ↦ ([], buffer)
  | false ↦
      let (out, rest) = advance secret buffer in
      let (more, tail) = scan fuel secret rest in (out ++ more, tail)
]

pub last : Bytes → Bytes → Bytes
last secret tail = if not (is_empty tail) && starts_with secret tail then mask else tail

pub feed : Redactor → Bytes → Bool → Bytes × Redactor
feed r bytes finish =
    let buffer = r.pending ++ bytes in
    let (out, tail) = scan (length buffer) r.secret buffer in
    if is_empty r.secret
    then (bytes, r)
    else if finish
    then (out ++ last r.secret tail, record r { pending = [] })
    else (out, record r { pending = tail })

-- The packets of a channel, the last of them with `finish`.
pub stream : Redactor → List Bytes → Bytes
stream r [] = (feed r [] true).0
stream r (packet ∷ packets) = let (out, r') = feed r packet false in out ++ stream r' packets

-- redaction across packets, and of a secret that is cut off at the end
scan_tests :
    (stream (new (codes "pass")) (codes "my pa" ∷ codes "ss is pas" ∷ codes "swo" ∷ [])
      ≡ codes "my [REDACTED] is [REDACTED]wo")
    × (stream (new (codes "pass")) (codes "end pas" ∷ []) ≡ codes "end [REDACTED]")
unfolding stream feed scan advance last new
scan_tests = (refl, refl)
