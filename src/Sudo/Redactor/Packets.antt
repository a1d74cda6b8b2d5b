-- ===== src/Sudo/Redactor/Packets.antt =====
-- Redaction does not depend on how the stream is cut into packets.
use codex_hosts.Prelude.{
  ℕ, zero, suc, ◌-◌, ◌≤◌, ◌<◌, ◌≡◌, refl, sym, ap, ◌∙◌, inl, inr, true, false, List, [], ◌∷◌, ◌++◌,
  if◌then◌else◌, ltb, Bytes, starts_with, is_empty, length, drop, concat, arith, Bool-cases, lt→ltb,
  append_assoc, length-append, length-drop, concat,
}
use codex_hosts.Sudo.Redactor.{Redactor, mask, new, advance, scan, last, feed, stream}

advance_shorter :
    (secret p : Bytes)
    → 0 < length secret
    → length secret ≤ length p
    → length (advance secret p).1 < length p
unfolding advance
advance_shorter secret [] h k = absurd (omega arith)
advance_shorter secret (b ∷ rest) h k =
    let l = length-drop (length secret) (b ∷ rest) in ground arith

starts_with-append_long :
    (p secret d : Bytes)
    → length secret ≤ length p
    → starts_with (p ++ d) secret ≡ starts_with p secret
starts_with-append_long p [] d h = refl
starts_with-append_long [] (s ∷ secret) d h = elim h [ ]
starts_with-append_long (x ∷ p) (s ∷ secret) d h =
    ground (arith, starts_with-append_long p secret d)

drop-append_long : (n : ℕ) (p d : Bytes) → n ≤ length p → drop n (p ++ d) ≡ drop n p ++ d
drop-append_long zero p d h = refl
drop-append_long (suc n) [] d h = elim h [ ]
drop-append_long (suc n) (x ∷ p) d h = drop-append_long n p d (omega arith)

-- A reference definition: one pass over the whole text, which skips the rest of a secret that it
-- has replaced, and at the end replaces a tail that is the beginning of the secret.
pub redact : ℕ → Bytes → Bytes → Bytes
redact skip secret [] = []
redact (suc skip) secret (b ∷ rest) = redact skip secret rest
redact zero secret (b ∷ rest) =
    let hit = mask ++ redact (length secret - 1) secret rest in
    let miss = b ∷ redact zero secret rest in
    if ltb (length (b ∷ rest)) (length secret)
    then last secret (b ∷ rest)
    else if starts_with (b ∷ rest) secret
    then hit
    else miss

redact_skip : (k : ℕ) (secret p : Bytes) → redact k secret p ≡ redact zero secret (drop k p)
unfolding redact
redact_skip zero secret p = refl
redact_skip (suc k) secret [] = refl
redact_skip (suc k) secret (b ∷ p) = redact_skip k secret p

advance-append :
    (secret p d : Bytes)
    → 0 < length secret
    → length secret ≤ length p
    → advance secret (p ++ d) ≡ ((advance secret p).0, (advance secret p).1 ++ d)
unfolding advance
advance-append secret [] d h k = absurd (omega arith)
advance-append secret (b ∷ rest) d h k = ground (
  arith,
  starts_with-append_long (b ∷ rest) secret d k,
  drop-append_long (length secret) (b ∷ rest) d k,
)

suc_of_pos : (n : ℕ) → 0 < n → n ≡ suc (n - 1)
suc_of_pos n h = omega arith

is_empty_of_pos : (xs : Bytes) → 0 < length xs → is_empty xs ≡ false
is_empty_of_pos [] h = elim h [ ]
is_empty_of_pos (x ∷ xs) h = refl

module _ (secret : Bytes) (h : 0 < length secret) where
  scan_fuel :
      (f g : ℕ) (p : Bytes) → length p ≤ f → length p ≤ g → scan f secret p ≡ scan g secret p
  unfolding scan
  scan_fuel zero zero p a b = refl
  scan_fuel zero (suc g) [] a b = ground arith
  scan_fuel (suc f) zero [] a b = ground arith
  scan_fuel zero (suc g) (x ∷ p) a b = absurd (omega arith)
  scan_fuel (suc f) zero (x ∷ p) a b = absurd (omega arith)
  scan_fuel (suc f) (suc g) p a b = elim (Bool-cases (ltb (length p) (length secret))) [
    | inl short ↦ rw (short, scan)
    | inr long ↦
        let k : length secret ≤ length p = ground arith in
        let s = advance_shorter secret p h k in
        rw (long, scan) (rw (scan_fuel f g (advance secret p).1 (omega arith) (omega arith)))
  ]

  abbrev pub run : Bytes → Bytes × Bytes
  run p = scan (length p) secret p

  run_short : (p : Bytes) → ltb (length p) (length secret) ≡ true → run p ≡ ([], p)
  unfolding scan
  run_short [] e = ground arith
  run_short (x ∷ p) e = ground arith

  run_long :
      (p : Bytes)
      → ltb (length p) (length secret) ≡ false
      → run p ≡ ((advance secret p).0 ++ (run (advance secret p).1).0, (run (advance secret p).1).1)
  unfolding scan
  run_long [] e = absurd (ground arith)
  run_long (x ∷ p) e =
      let k : length secret ≤ length (x ∷ p) = ground arith in
      let s = advance_shorter secret (x ∷ p) h k in
      let same =
        scan_fuel (length p) (length (advance secret (x ∷ p)).1) (advance secret (x ∷ p)).1
          (omega arith) (omega arith) in
      rw (e, scan) (rw same)

  run-append :
      (n : ℕ) (p d : Bytes)
      → length p ≤ n
      → run (p ++ d) ≡ ((run p).0 ++ (run ((run p).1 ++ d)).0, (run ((run p).1 ++ d)).1)
  run-append zero [] d a = rw (run_short [] (lt→ltb 0 (length secret) h))
  run-append zero (x ∷ p) d a = absurd (omega arith)
  run-append (suc n) p d a = elim (Bool-cases (ltb (length p) (length secret))) [
    | inl short ↦ rw (run_short p short)
    | inr long ↦
        let k : length secret ≤ length p = ground arith in
        let long' : ltb (length (p ++ d)) (length secret) ≡ false =
          ground (arith, length-append p d) in
        let shorter = advance_shorter secret p h k in
        let ih = run-append n (advance secret p).1 d (omega arith) in
        run_long (p ++ d) long'
        ∙ rw (advance-append secret p d h k, ih, run_long p long) (rw append_assoc)
  ]

  abbrev pub finished : Bytes → Bytes
  finished p = (run p).0 ++ last secret (run p).1

  finished-append : (p d : Bytes) → finished (p ++ d) ≡ (run p).0 ++ finished ((run p).1 ++ d)
  finished-append p d = rw (run-append (length p) p d (omega arith)) (rw append_assoc)

  module _ (p packet : Bytes) where
    abbrev holding : Bytes → Redactor
    holding pending = record { secret = secret; pending = pending }

    feed_more :
        feed (holding p) packet false ≡ ((run (p ++ packet)).0, holding (run (p ++ packet)).1)
    unfolding feed
    feed_more = ground (arith, is_empty_of_pos secret h)

    feed_end : (feed (holding p) packet true).0 ≡ finished (p ++ packet)
    unfolding feed
    feed_end = ground (arith, is_empty_of_pos secret h)

  stream-finished :
      (packets : List Bytes) (p : Bytes)
      → stream (record { secret = secret; pending = p }) packets ≡ finished (p ++ concat packets)
  unfolding stream
  stream-finished [] p = feed_end p []
  stream-finished (packet ∷ packets) p =
      rw (feed_more p packet, stream-finished packets (run (p ++ packet)).1)
        (sym (finished-append (p ++ packet) (concat packets))
          ∙ ap finished (append_assoc p packet (concat packets)))

  advance-redact :
      (b : ℕ) (rest : Bytes)
      → ltb (length (b ∷ rest)) (length secret) ≡ false
      → (advance secret (b ∷ rest)).0 ++ redact zero secret (advance secret (b ∷ rest)).1
        ≡ redact zero secret (b ∷ rest)
  unfolding redact advance
  advance-redact b rest long = ground (
    arith,
    redact_skip (length secret - 1) secret rest,
    ap (λ n. drop n (b ∷ rest)) (suc_of_pos (length secret) h),
  )

  finished-redact : (n : ℕ) (p : Bytes) → length p ≤ n → finished p ≡ redact zero secret p
  unfolding redact last
  finished-redact n [] a = rw (run_short [] (lt→ltb 0 (length secret) h))
  finished-redact zero (b ∷ rest) a = absurd (omega arith)
  finished-redact (suc n) (b ∷ rest) a =
      elim (Bool-cases (ltb (length (b ∷ rest)) (length secret))) [
        | inl short ↦ rw (run_short (b ∷ rest) short) (rw short)
        | inr long ↦
            let k : length secret ≤ length (b ∷ rest) = ground arith in
            let s = advance_shorter secret (b ∷ rest) h k in
            let ih = finished-redact n (advance secret (b ∷ rest)).1 (omega arith) in
            rw (run_long (b ∷ rest) long) (
              append_assoc (advance secret (b ∷ rest)).0 (run (advance secret (b ∷ rest)).1).0
                (last secret (run (advance secret (b ∷ rest)).1).1)
              ∙ ap (λ r. (advance secret (b ∷ rest)).0 ++ r) ih
              ∙ advance-redact b rest long)
      ]

stream_empty :
    (packets : List Bytes) (p : Bytes)
    → stream (record { secret = []; pending = p }) packets ≡ concat packets
unfolding stream feed
stream_empty [] p = refl
stream_empty (packet ∷ packets) p = rw (stream_empty packets p)

-- However the stream is cut into packets, the output is the one-pass redaction of the whole; an
-- empty secret changes nothing.
pub stream-new :
    (secret : Bytes) (packets : List Bytes)
    → stream (new secret) packets
      ≡ (if is_empty secret then concat packets else redact zero secret (concat packets))
unfolding new
stream-new [] packets = stream_empty packets []
stream-new (b ∷ secret) packets =
    stream-finished (b ∷ secret) (omega arith) packets []
    ∙ finished-redact (b ∷ secret) (omega arith) (length (concat packets)) (concat packets)
        (omega arith)
