-- ===== src/Sudo/Frames/Rules.antt =====
-- Induction over the rounds of one `feed`, and over the packets of a session.
use codex_hosts.Prelude.{
  ℕ, zero, suc, ◌≡◌, refl, ◌∙◌, inl, inr, ◌⊎◌, true, false, none, some, List, [], ◌∷◌, ◌++◌, Bytes,
  length, ok, err, arith,
}
use codex_hosts.Sudo.Frames.{
  Frame, output, AuthProtocol, Failure, Turn, next, stop, fail, turn, prepend, drive, feed, Outcome,
  append, after, session,
}

pub Turn-cases :
    (t : Turn)
    → ((f : Frame) × (s : AuthProtocol) × (t ≡ next f s))
      ⊎ (((fs : List Frame) × (s : AuthProtocol) × (t ≡ stop fs s))
          ⊎ ((e : Failure) × (s : AuthProtocol) × (t ≡ fail e s)))
Turn-cases (next f s) = inl (f, s, refl)
Turn-cases (stop fs s) = inr (inl (fs, s, refl))
Turn-cases (fail e s) = inr (inr (e, s, refl))

prepend-eq-ok :
    (f : Frame) (r : Outcome) {fs : List Frame} {s : AuthProtocol}
    → prepend f r ≡ some (ok fs, s)
    → (gs : List Frame) × (r ≡ some (ok gs, s)) × (fs ≡ f ∷ gs)
prepend-eq-ok f (some (ok gs, t)) h = (gs, cc, cc)
prepend-eq-ok f (some (err e, t)) h = cc
prepend-eq-ok f none h = cc

module _ (P : AuthProtocol → List Frame → AuthProtocol → Type 0)
    (on_next : (s s₁ s' : AuthProtocol) (f : Frame) (fs : List Frame)
      → turn s ≡ next f s₁
      → P s₁ fs s'
      → P s (f ∷ fs) s')
    (on_stop : (s s' : AuthProtocol) (fs : List Frame) → turn s ≡ stop fs s' → P s fs s') where
  pub drive_rule :
      (fuel : ℕ) (s s' : AuthProtocol) (fs : List Frame)
      → drive fuel s ≡ some (ok fs, s')
      → P s fs s'
  unfolding drive
  drive_rule zero s s' fs h = cc
  drive_rule (suc fuel) s s' fs h = elim (Turn-cases (turn s)) [
    | inl (f, s₁, e) ↦
        let (gs, run, same) = prepend-eq-ok f (drive fuel s₁) (rw (e, drive) at h) in
        rw same (on_next s s₁ s' f gs e (drive_rule fuel s₁ s' gs run))
    | inr (inl (gs, s₁, e)) ↦
        let done : ◌≡◌ {A = Outcome} (some (ok gs, s₁)) (some (ok fs, s')) = rw (e, drive) at h in
        on_stop s s' fs (e ∙ cc)
    | inr (inr (c, s₁, e)) ↦
        let done : ◌≡◌ {A = Outcome} (some (err c, s₁)) (some (ok fs, s')) = rw (e, drive) at h in
        cc
  ]

append-eq-ok :
    (gs : List Frame) (r : Outcome) {fs : List Frame} {s' : AuthProtocol}
    → append gs r ≡ some (ok fs, s')
    → (hs : List Frame) × (r ≡ some (ok hs, s')) × (fs ≡ gs ++ hs)
append-eq-ok gs (some (ok hs, t)) h = (hs, cc, cc)
append-eq-ok gs (some (err e, t)) h = cc
append-eq-ok gs none h = cc

after-eq-ok :
    (r : Outcome) (k : AuthProtocol → Outcome) {fs : List Frame} {s' : AuthProtocol}
    → after r k ≡ some (ok fs, s')
    → (gs hs : List Frame) × (s : AuthProtocol) × (r ≡ some (ok gs, s))
      × (k s ≡ some (ok hs, s'))
      × (fs ≡ gs ++ hs)
after-eq-ok (some (ok gs, s)) k h =
    let (hs, run, same) = append-eq-ok gs (k s) h in (gs, hs, s, refl, run, same)
after-eq-ok (some (err e, s)) k h = cc
after-eq-ok none k h = cc

module _ (s : AuthProtocol) (packet : Bytes) where
  pub feed_of_seen : s.ready_seen ≡ true → feed s packet ≡ some (ok (output packet ∷ []), s)
  unfolding feed
  feed_of_seen e = ground arith

  abbrev pub received : AuthProtocol
  received = record s { pending = s.pending ++ packet }

  pub feed_of_closed :
      s.ready_seen ≡ false → feed s packet ≡ drive (suc (length received.pending)) received
  unfolding feed
  feed_of_closed e = ground arith

module _ (P : AuthProtocol → List Bytes → List Frame → AuthProtocol → Type 0)
    (on_end : (s : AuthProtocol) → P s [] [] s)
    (on_packet : (s s₁ s' : AuthProtocol) (packet : Bytes) (packets : List Bytes)
        (fs gs : List Frame)
      → feed s packet ≡ some (ok fs, s₁)
      → P s₁ packets gs s'
      → P s (packet ∷ packets) (fs ++ gs) s') where
  pub session_rule :
      (packets : List Bytes) (s s' : AuthProtocol) (fs : List Frame)
      → session s packets ≡ some (ok fs, s')
      → P s packets fs s'
  unfolding session
  session_rule [] s s' fs h =
      let same : fs ≡ [] = cc in let same_state : s ≡ s' = cc in rw (same, ← same_state) (on_end s)
  session_rule (packet ∷ packets) s s' fs h =
      let (gs, hs, s₁, fed, run, same) = after-eq-ok (feed s packet) _ h in
      rw same (on_packet s s₁ s' packet packets gs hs fed (session_rule packets s₁ s' hs run))
