-- ===== src/Sudo/SuFrames/Total.antt =====
-- The loop ends.
use codex_hosts.Prelude.{
  ℕ, zero, suc, ◌+◌, ◌≤◌, ◌≡◌, refl, true, false, none, some, List, [], ◌∷◌, ◌++◌, if◌then◌else◌,
  Bytes, length, drop, Result, ok, err, arith, length-drop, String, if-case,
}
use codex_hosts.Sudo.Frames.{Frame}
use codex_hosts.Sudo.SuFrames.{
  SuProtocol, password_prompt, Turn, begins, starts, asks, repeats, waits, passes, turn, ends_line,
  Outcome, prepend, act, drive, feed,
}

abbrev IsDone : Outcome → Type 0
IsDone o = (x : Result String (List Frame) × SuProtocol) × (o ≡ some x)

-- what is left to do: a round for each byte, one for the begin marker, and one to end
abbrev rounds : SuProtocol → Bytes → ℕ
rounds s rest = (if s.begun then 1 else 2) + length rest

prepend-IsDone : (f : List Frame → List Frame) (o : Outcome) → IsDone o → IsDone (prepend f o)
prepend-IsDone f none (x, e) = cc
prepend-IsDone f (some (ok frames, s)) h = ((ok (f frames), s), refl)
prepend-IsDone f (some (err e, s)) h = ((err e, s), refl)

turn-begins : (s : SuProtocol) (rest : Bytes) → turn s rest ≡ begins → s.begun ≡ false
unfolding turn
turn-begins s rest h = ground arith

module _ (fuel : ℕ) (later : SuProtocol → Bytes → Outcome)
    (done : (s : SuProtocol) (rest : Bytes) → rounds s rest ≤ fuel → IsDone (later s rest)) where
  act-IsDone :
      (t : Turn) (s : SuProtocol) (b : ℕ) (rest : Bytes)
      → (t ≡ begins → s.begun ≡ false)
      → rounds s (b ∷ rest) ≤ suc fuel
      → IsDone (act later t s b rest)
  unfolding act
  act-IsDone begins s b rest n h =
      let left = drop (length s.begin) (b ∷ rest) in
      let l = length-drop (length s.begin) (b ∷ rest) in
      let new = n refl in done (record s { begun = true; line_start = true }) left (ground arith)
  act-IsDone starts s b rest n h = (_, refl)
  act-IsDone asks s b rest n h =
      let left = drop (length password_prompt) (b ∷ rest) in
      let l = length-drop (length password_prompt) (b ∷ rest) in
      prepend-IsDone _ _
        (done (record s { prompted = true; line_start = true }) left (ground arith))
  act-IsDone repeats s b rest n h = (_, refl)
  act-IsDone waits s b rest n h = (_, refl)
  act-IsDone passes s b rest n h =
      prepend-IsDone _ _ (done (record s { line_start = ends_line b }) rest (ground arith))

drive-IsDone :
    (fuel : ℕ) (s : SuProtocol) (rest : Bytes) → rounds s rest ≤ fuel → IsDone (drive fuel s rest)
unfolding drive
drive-IsDone zero s rest h = ground arith
drive-IsDone (suc fuel) s [] h = (_, refl)
drive-IsDone (suc fuel) s (b ∷ rest) h =
    act-IsDone fuel (drive fuel) (drive-IsDone fuel) (turn s (b ∷ rest)) s b rest
      (turn-begins s (b ∷ rest)) h

rounds-le : (s : SuProtocol) (rest : Bytes) → rounds s rest ≤ 2 + length rest
rounds-le s rest = ground arith

-- Whatever the state and the packet, `feed` returns frames or an error: its loop ends, whatever the
-- markers are.
pub su_feed_total :
    (s : SuProtocol) (packet : Bytes)
    → (x : Result String (List Frame) × SuProtocol) × (feed s packet ≡ some x)
unfolding feed
su_feed_total s packet =
    let bytes = s.pending ++ packet in
    if-case IsDone s.ready_seen (λ _. (_, refl))
      (λ _. drive-IsDone (2 + length bytes) s bytes (rounds-le s bytes))
