-- ===== src/Sudo/Frames/Prompts.antt =====
-- How often a password is asked for, and what may follow the ready marker: the frames of a session
-- are accepted by a small automaton.
use codex_hosts.Prelude.{
  ℕ, suc, ◌+◌, ◌≤◌, ◌≡◌, refl, sym, ap, ◌∙◌, inl, inr, Bool, true, false, ◌||◌, Option, none, some,
  List, [], ◌∷◌, ◌++◌, if◌then◌else◌, Bytes, length, ok, arith, Bool-cases, Option-cases,
  none_ne_some,
}
use codex_hosts.Sudo.Frames.Rules.{drive_rule, session_rule, received, feed_of_seen, feed_of_closed}
use codex_hosts.Sudo.Frames.{
  Frame, output, authenticate, ready, AuthProtocol, new, next, stop, opened, named, asked, plain,
  turn, drive, feed, Outcome, session,
}

pub record Gate : Type 0 where
  pub asked : Bool
  pub opened : Bool

-- One password request at most, and none after the ready marker, which comes at most once.
pub accept : Gate → Frame → Option Gate
accept g (output _) = some g
accept g (authenticate _) = if g.asked || g.opened then none else some (record g { asked = true })
accept g ready = if g.opened then none else some (record g { opened = true })

pub scan : Gate → List Frame → Option Gate
scan g [] = some g
scan g (f ∷ fs) = elim (accept g f) [ none ↦ none | some g' ↦ scan g' fs ]

abbrev pub gate : AuthProtocol → Gate
gate s = record { asked = s.prompted; opened = s.ready_seen }

scan-append : (fs gs : List Frame) (g h : Gate) → scan g fs ≡ some h → scan g (fs ++ gs) ≡ scan h gs
unfolding scan
scan-append [] gs g h e = ap (λ (g : Gate). scan g gs) (ground arith)
scan-append (f ∷ fs) gs g h e = elim (Option-cases (accept g f)) [
  | inl refused ↦ absurd (none_ne_some (rw (refused, scan) at e))
  | inr (g', taken) ↦ rw (taken, scan) (scan-append fs gs g' h (rw (taken, scan) at e))
]

turn-next_accept :
    (s s' : AuthProtocol) (f : Frame)
    → turn s ≡ next f s'
    → s.ready_seen ≡ false
    → (accept (gate s) f ≡ some (gate s')) × (s'.ready_seen ≡ false)
unfolding turn opened asked named plain accept
turn-next_accept s s' f h closed = ground arith

turn-stop_scan :
    (s s' : AuthProtocol) (fs : List Frame)
    → turn s ≡ stop fs s'
    → s.ready_seen ≡ false
    → scan (gate s) fs ≡ some (gate s')
unfolding turn opened asked named plain accept scan
turn-stop_scan s s' fs h closed = ground arith

drive-scan :
    (fuel : ℕ) (s s' : AuthProtocol) (fs : List Frame)
    → drive fuel s ≡ some (ok fs, s')
    → s.ready_seen ≡ false
    → scan (gate s) fs ≡ some (gate s')
unfolding scan
drive-scan =
    drive_rule (λ s fs s'. s.ready_seen ≡ false → scan (gate s) fs ≡ some (gate s'))
      (λ s s₁ s' f fs e ih closed.
        let (taken, still) = turn-next_accept s s₁ f e closed in rw (taken, scan) (ih still))
      turn-stop_scan

feed-scan :
    (s s' : AuthProtocol) (packet : Bytes) (fs : List Frame)
    → feed s packet ≡ some (ok fs, s')
    → scan (gate s) fs ≡ some (gate s')
unfolding scan accept
feed-scan s s' packet fs h = elim (Bool-cases s.ready_seen) [
  | inl seen ↦
      let e : ◌≡◌ {A = Outcome} (some (ok (output packet ∷ []), s)) (some (ok fs, s')) =
        sym (feed_of_seen s packet seen) ∙ h in
      ground arith
  | inr closed ↦
      let t = received s packet in
      drive-scan (suc (length t.pending)) t s' fs (sym (feed_of_closed s packet closed) ∙ h) closed
]

-- The frames of any session, whatever the packets, are accepted by the automaton: no second
-- password request, and no request and no second ready marker once the program has started.
pub session_accepted :
    (packets : List Bytes) (s s' : AuthProtocol) (fs : List Frame)
    → session s packets ≡ some (ok fs, s')
    → scan (gate s) fs ≡ some (gate s')
session_accepted =
    session_rule (λ s packets fs s'. scan (gate s) fs ≡ some (gate s')) (λ s. unfold scan in refl)
      (λ s s₁ s' packet packets fs gs fed ih.
        scan-append fs gs _ _ (feed-scan s s₁ packet fs fed) ∙ ih)

abbrev pub asks : List Frame → ℕ
asks [] = 0
asks (authenticate _ ∷ fs) = suc (asks fs)
asks (_ ∷ fs) = asks fs

abbrev flag : Bool → ℕ
flag true = 1
flag false = 0

asks-scan :
    (fs : List Frame) (g h : Gate) → scan g fs ≡ some h → asks fs + flag g.asked ≡ flag h.asked
unfolding scan accept
asks-scan [] g h e = ground arith
asks-scan (output b ∷ fs) g h e = asks-scan fs g h e
asks-scan (authenticate n ∷ fs) g h e = ground (arith, asks-scan fs (record g { asked = true }) h)
asks-scan (ready ∷ fs) g h e = ground (arith, asks-scan fs (record g { opened = true }) h)

-- A session from a new protocol state asks for a password at most once.
pub session-asks :
    (nonce : Bytes) (packets : List Bytes) (s' : AuthProtocol) (fs : List Frame)
    → session (new nonce) packets ≡ some (ok fs, s')
    → asks fs ≤ 1
unfolding new
session-asks nonce packets s' fs h =
    let e = asks-scan fs _ _ (session_accepted packets (new nonce) s' fs h) in
    elim (Bool-cases s'.prompted) [ inl p ↦ ground (arith) | inr p ↦ ground (arith) ]
