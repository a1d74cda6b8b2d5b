-- ===== src/Sudo/Frames/Total.antt =====
-- `feed` always returns: the loop has enough fuel.
use codex_hosts.Prelude.{
  ℕ, zero, suc, ◌+◌, ◌<◌, ◌≡◌, refl, inl, inr, false, none, some, List, [], ◌∷◌, ◌++◌, Bytes,
  position, is_empty, length, drop, Result, ok, err, arith, Bool-cases, Option-cases, none_ne_some,
  position-lt, length-drop,
}
use codex_hosts.Sudo.Frames.Rules.{Turn-cases, received, feed_of_seen, feed_of_closed}
use codex_hosts.Sudo.Frames.{
  Frame, output, AuthProtocol, Failure, next, opened, named, asked, next_marker, plain, turn,
  prepend, drive, feed, Outcome,
}

length-drop-lt : (n : ℕ) (xs : Bytes) → 0 < n → 0 < length xs → length (drop n xs) < length xs
length-drop-lt n xs h k = omega (arith, length-drop n xs)

asked-next_shorter :
    (s s' : AuthProtocol) (f : Frame)
    → asked s (drop (length s.auth) s.pending) ≡ next f s'
    → length s'.pending < length s.pending
unfolding asked named
asked-next_shorter s s' f h = elim (Option-cases (position 0x1f (drop (length s.auth) s.pending))) [
  | inl e ↦ ground arith
  | inr (end, e) ↦
      let lt = position-lt 0x1f (drop (length s.auth) s.pending) end e in
      let l = length-drop (length s.auth) s.pending in
      ground (arith, length-drop-lt (length s.auth + end + 1) s.pending, lt, l)
]

plain_shorter :
    (s s' : AuthProtocol) (f : Frame)
    → is_empty s.pending ≡ false
    → plain s ≡ next f s'
    → length s'.pending < length s.pending
unfolding plain next_marker
plain_shorter s s' f h e = ground (arith, length-drop-lt (next_marker s.pending) s.pending)

turn-next_shorter :
    (s s' : AuthProtocol) (f : Frame) → turn s ≡ next f s' → length s'.pending < length s.pending
unfolding turn opened
turn-next_shorter s s' f h = ground (arith, asked-next_shorter s s' f, plain_shorter s s' f)

prepend-total :
    (f : Frame) (r : Outcome)
    → (x : Result Failure (List Frame) × AuthProtocol) × (r ≡ some x)
    → (x : Result Failure (List Frame) × AuthProtocol) × (prepend f r ≡ some x)
prepend-total f (some (ok fs, s)) h = ((ok (f ∷ fs), s), refl)
prepend-total f (some (err e, s)) h = ((err e, s), refl)
prepend-total f none h = absurd (none_ne_some h.1)

drive_total :
    (fuel : ℕ) (s : AuthProtocol)
    → length s.pending < fuel
    → (x : Result Failure (List Frame) × AuthProtocol) × (drive fuel s ≡ some x)
unfolding drive
drive_total zero s h = absurd (omega arith)
drive_total (suc fuel) s h = elim (Turn-cases (turn s)) [
  | inl (f, s₁, e) ↦
      let shorter = turn-next_shorter s s₁ f e in
      rw (e, drive) (prepend-total f (drive fuel s₁) (drive_total fuel s₁ (omega arith)))
  | inr (inl (fs, s₁, e)) ↦ ((ok fs, s₁), rw (e, drive))
  | inr (inr (c, s₁, e)) ↦ ((err c, s₁), rw (e, drive))
]

-- Whatever the state and the packet, `feed` returns frames or an error: its loop ends.
pub feed_total :
    (s : AuthProtocol) (packet : Bytes)
    → (x : Result Failure (List Frame) × AuthProtocol) × (feed s packet ≡ some x)
feed_total s packet = elim (Bool-cases s.ready_seen) [
  | inl seen ↦ ((ok (output packet ∷ []), s), feed_of_seen s packet seen)
  | inr closed ↦
      rw (feed_of_closed s packet closed)
        (drive_total (suc (length (s.pending ++ packet))) (received s packet) (omega arith))
]
