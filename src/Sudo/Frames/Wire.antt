-- ===== src/Sudo/Frames/Wire.antt =====
-- No byte of the stream is lost, invented or moved: the frames, written out, and what is pending are the bytes that came in.
use codex_hosts.Prelude.{
  ℕ, suc, ◌+◌, ◌≡◌, refl, sym, ap, ◌∙◌, inl, inr, true, false, some, List, [], ◌∷◌, ◌++◌, Bytes,
  starts_with, position, is_empty, length, take, drop, ok, arith, Bool-cases, Option-cases,
  take-append-drop, starts_with_split, drop-drop, position_split, append_assoc, append-nil, concat,
  eq-nil_of_is_empty,
}
use codex_hosts.Sudo.Frames.{
  Frame, output, authenticate, ready, AuthProtocol, next, stop, opened, named, asked, plain,
  next_marker, turn, drive, feed, Outcome, session,
}
use codex_hosts.Sudo.Frames.Rules.{drive_rule, session_rule, received, feed_of_seen, feed_of_closed}

-- What the remote side wrote for a frame.
module _ (s : AuthProtocol) where
  abbrev pub wire : Frame → Bytes
  wire (output bytes) = bytes
  wire (authenticate name) = s.auth ++ (name ++ 0x1f ∷ [])
  wire ready = s.ready

  abbrev pub wires : List Frame → Bytes
  wires [] = []
  wires (f ∷ fs) = wire f ++ wires fs

abbrev SameMarkers : AuthProtocol → AuthProtocol → Type 0
SameMarkers s s' = (s'.auth ≡ s.auth) × (s'.ready ≡ s.ready)

named_split :
    (s : AuthProtocol) (end : ℕ)
    → starts_with s.pending s.auth ≡ true
    → position 0x1f (drop (length s.auth) s.pending) ≡ some end
    → (s.auth ++ (take end (drop (length s.auth) s.pending) ++ 0x1f ∷ []))
        ++ drop (length s.auth + end + 1) s.pending
      ≡ s.pending
named_split s end found at =
    let rest = drop (length s.auth) s.pending in
    let tail : drop (length s.auth + end + 1) s.pending ≡ drop (suc end) rest =
      ap (λ k. drop k s.pending) (omega arith)
      ∙ sym (drop-drop (length s.auth) (suc end) s.pending) in
    rw tail (
      simp append_assoc (
        ap (λ r. s.auth ++ r) (sym (position_split 0x1f rest end at))
        ∙ sym (starts_with_split s.pending s.auth found)))

asked-next_wire :
    (s s' : AuthProtocol) (f : Frame)
    → starts_with s.pending s.auth ≡ true
    → asked s (drop (length s.auth) s.pending) ≡ next f s'
    → (wire s f ++ s'.pending ≡ s.pending) × SameMarkers s s'
unfolding asked named
asked-next_wire s s' f found h =
    elim (Option-cases (position 0x1f (drop (length s.auth) s.pending))) [
      | inl e ↦ ground arith
      | inr (end, e) ↦ ground (arith, named_split s end)
    ]

turn-next_wire :
    (s s' : AuthProtocol) (f : Frame)
    → turn s ≡ next f s'
    → (wire s f ++ s'.pending ≡ s.pending) × SameMarkers s s'
unfolding turn opened plain
turn-next_wire s s' f h =
    ground (arith, asked-next_wire s s' f, take-append-drop (next_marker s.pending) s.pending)

opened_wire :
    (s s' : AuthProtocol) (fs : List Frame)
    → opened s ≡ stop fs s'
    → (wires s fs ++ s'.pending ≡ s.ready ++ s.pending) × SameMarkers s s'
unfolding opened
opened_wire s s' fs h = elim (Bool-cases (is_empty s.pending)) [
  | inl e ↦ ground (arith, append-nil s.ready)
  | inr e ↦ ground (arith, append-nil s.pending, append-nil (s.ready ++ s.pending))
]

asked-stop_wire :
    (s s' : AuthProtocol) (rest : Bytes) (fs : List Frame)
    → asked s rest ≡ stop fs s'
    → (wires s fs ++ s'.pending ≡ s.pending) × SameMarkers s s'
unfolding asked named
asked-stop_wire s s' rest fs h = ground arith

turn-stop_wire :
    (s s' : AuthProtocol) (fs : List Frame)
    → turn s ≡ stop fs s'
    → (wires s fs ++ s'.pending ≡ s.pending) × SameMarkers s s'
unfolding turn plain
turn-stop_wire s s' fs h = ground (
  arith,
  opened_wire (record s { pending = drop (length s.ready) s.pending; ready_seen = true }) s' fs,
  asked-stop_wire s s' (drop (length s.auth) s.pending) fs,
  starts_with_split s.pending s.ready,
)

wire_eq : (s s' : AuthProtocol) (f : Frame) → SameMarkers s s' → wire s' f ≡ wire s f
wire_eq s s' (output bytes) h = refl
wire_eq s s' (authenticate name) h = ap (λ a. a ++ (name ++ 0x1f ∷ [])) h.0
wire_eq s s' ready h = h.1

wires_eq : (s s' : AuthProtocol) (fs : List Frame) → SameMarkers s s' → wires s' fs ≡ wires s fs
wires_eq s s' [] h = refl
wires_eq s s' (f ∷ fs) h = rw (wire_eq s s' f h, wires_eq s s' fs h)

wires-append :
    (s : AuthProtocol) (fs gs : List Frame) → wires s (fs ++ gs) ≡ wires s fs ++ wires s gs
wires-append s [] gs = refl
wires-append s (f ∷ fs) gs = simp (wires-append s fs gs, append_assoc)

abbrev Kept : AuthProtocol → List Frame → AuthProtocol → Type 0
Kept s fs s' = (wires s fs ++ s'.pending ≡ s.pending) × SameMarkers s s'

drive_wire :
    (fuel : ℕ) (s s' : AuthProtocol) (fs : List Frame)
    → drive fuel s ≡ some (ok fs, s')
    → Kept s fs s'
drive_wire =
    drive_rule Kept
      (λ s s₁ s' f fs e ih.
        let (here, same) = turn-next_wire s s₁ f e in
        (
          simp append_assoc (
              ap (λ r. wire s f ++ r)
                (ap (λ r. r ++ s'.pending) (sym (wires_eq s s₁ fs same)) ∙ ih.0)
              ∙ here),
          (ih.1.0 ∙ same.0, ih.1.1 ∙ same.1),
        ))
      turn-stop_wire

-- Nothing is kept back once the ready marker has been seen.
abbrev pub IsOpen : AuthProtocol → Type 0
IsOpen s = s.ready_seen ≡ true → s.pending ≡ []

turn-next-closed :
    (s s' : AuthProtocol) (f : Frame)
    → turn s ≡ next f s'
    → s.ready_seen ≡ false
    → s'.ready_seen ≡ false
unfolding turn opened asked named plain
turn-next-closed s s' f h c = ground arith

turn-stop-IsOpen :
    (s s' : AuthProtocol) (fs : List Frame) → turn s ≡ stop fs s' → s.ready_seen ≡ false → IsOpen s'
unfolding turn opened asked named plain
turn-stop-IsOpen s s' fs h c = λ o. elim (Bool-cases (is_empty (drop (length s.ready) s.pending))) [
  | inl e ↦ ground (arith, eq-nil_of_is_empty (drop (length s.ready) s.pending))
  | inr e ↦ ground arith
]

drive-IsOpen :
    (fuel : ℕ) (s s' : AuthProtocol) (fs : List Frame)
    → drive fuel s ≡ some (ok fs, s')
    → s.ready_seen ≡ false
    → IsOpen s'
drive-IsOpen =
    drive_rule (λ s fs s'. s.ready_seen ≡ false → IsOpen s')
      (λ s s₁ s' f fs e ih c. ih (turn-next-closed s s₁ f e c)) turn-stop-IsOpen

feed_wire :
    (s s' : AuthProtocol) (packet : Bytes) (fs : List Frame)
    → feed s packet ≡ some (ok fs, s')
    → IsOpen s
    → (wires s fs ++ s'.pending ≡ s.pending ++ packet) × SameMarkers s s' × IsOpen s'
feed_wire s s' packet fs h o = elim (Bool-cases s.ready_seen) [
  | inl seen ↦
      let e : ◌≡◌ {A = Outcome} (some (ok (output packet ∷ []), s)) (some (ok fs, s')) =
        sym (feed_of_seen s packet seen) ∙ h in
      let frames : fs ≡ output packet ∷ [] = cc in
      let same : s ≡ s' = cc in
      rw (frames, ← same) (rw (o seen, append-nil, append-nil) refl, (refl, refl), o)
  | inr closed ↦
      let t = received s packet in
      let e : drive (suc (length t.pending)) t ≡ some (ok fs, s') =
        sym (feed_of_closed s packet closed) ∙ h in
      let (kept, same) = drive_wire (suc (length t.pending)) t s' fs e in
      (
        ap (λ r. r ++ s'.pending) (wires_eq t s fs (refl, refl)) ∙ kept,
        same,
        drive-IsOpen (suc (length t.pending)) t s' fs e closed,
      )
]

-- Whatever the packets, the frames written out again, with what is still pending behind them, are
-- the bytes that were pending and the bytes of the packets: none is lost, invented or reordered.
pub session-wires :
    (packets : List Bytes) (s s' : AuthProtocol) (fs : List Frame)
    → session s packets ≡ some (ok fs, s')
    → IsOpen s
    → wires s fs ++ s'.pending ≡ s.pending ++ concat packets
session-wires =
    session_rule
      (λ s packets fs s'. IsOpen s → wires s fs ++ s'.pending ≡ s.pending ++ concat packets)
      (λ s o. sym (append-nil s.pending))
      (λ s s₁ s' packet packets fs gs fed ih o.
        let (kept, same, o₁) = feed_wire s s₁ packet fs fed o in
        rw wires-append (
          append_assoc (wires s fs) (wires s gs) s'.pending
          ∙ ap (λ r. wires s fs ++ r)
              (ap (λ r. r ++ s'.pending) (sym (wires_eq s s₁ gs same)) ∙ ih o₁)
          ∙ sym (append_assoc (wires s fs) s₁.pending (concat packets))
          ∙ ap (λ r. r ++ concat packets) kept
          ∙ append_assoc s.pending packet (concat packets)))
