-- ===== src/Sudo/SuFrames/Asking.antt =====
-- How often a password is asked for, and for whom.
use codex_hosts.Prelude.{
  ℕ, zero, suc, ◌+◌, ◌≤◌, ◌≡◌, refl, ◌∙◌, Bool, true, false, none, some, List, [], ◌∷◌, ◌++◌,
  if◌then◌else◌, Bytes, Text, length, drop, ok, err, arith, All, All-append, count, count-append,
  if-case,
}
use codex_hosts.Sudo.Frames.{Frame, output, authenticate, ready}
use codex_hosts.Sudo.SuFrames.{
  SuProtocol, new, password_prompt, Turn, begins, starts, asks, repeats, waits, passes, turn,
  join_output, after_ready, ends_line, Outcome, prepend, act, drive, feed, then_session, session,
}

abbrev is_request : Frame → Bool
is_request (authenticate _) = true
is_request _ = false

pub requests : List Frame → ℕ
requests frames = count is_request frames

abbrev pub IsFor : Text → Frame → Type 0
IsFor target (authenticate user) = user ≡ target
IsFor target _ = Unit

abbrev once : Bool → ℕ
once b = if b then 1 else 0

-- What a call returns from a state: the requests are for the target, and with the one that may have
-- come before there is at most one; the target and the readiness stay.
record Asks (s : SuProtocol) (frames : List Frame) (s' : SuProtocol) : Type 0 where
  pub few : requests frames + once s.prompted ≤ once s'.prompted
  pub target : s'.target ≡ s.target
  pub own : All (IsFor s.target) frames

abbrev Sound : SuProtocol → Outcome → Type 0
Sound s o = (frames : List Frame) (s' : SuProtocol) → o ≡ some (ok frames, s') → Asks s frames s'

join-requests : (b : ℕ) (frames : List Frame) → requests (join_output b frames) ≡ requests frames
unfolding requests
join-requests b [] = omega arith
join-requests b (output _ ∷ frames) = omega arith
join-requests b (authenticate _ ∷ frames) = omega arith
join-requests b (ready ∷ frames) = omega arith

join-own :
    (target : Text) (b : ℕ) (frames : List Frame)
    → All (IsFor target) frames
    → All (IsFor target) (join_output b frames)
join-own target b [] h = (tt, tt)
join-own target b (output _ ∷ frames) h = h
join-own target b (authenticate _ ∷ frames) h = (tt, h)
join-own target b (ready ∷ frames) h = (tt, h)

after_ready-requests : (rest : Bytes) → requests (after_ready rest) ≡ 0
unfolding requests
after_ready-requests [] = omega arith
after_ready-requests (b ∷ rest) = omega arith

after_ready-own : (target : Text) (rest : Bytes) → All (IsFor target) (after_ready rest)
after_ready-own target [] = (tt, tt)
after_ready-own target (b ∷ rest) = (tt, (tt, tt))

prepended :
    (f : List Frame → List Frame) (o : Outcome) (frames : List Frame) (s' : SuProtocol)
    → prepend f o ≡ some (ok frames, s')
    → (inner : List Frame) × (o ≡ some (ok inner, s')) × (f inner ≡ frames)
prepended f none frames s' h = cc
prepended f (some (err e, t)) frames s' h = cc
prepended f (some (ok inner, t)) frames s' h =
    let made : f inner ≡ frames = cc in let same : t ≡ s' = cc in (inner, rw same refl, made)

turn-asks : (s : SuProtocol) (rest : Bytes) → turn s rest ≡ asks → s.prompted ≡ false
unfolding turn
turn-asks s rest h = ground arith

module _ (later : SuProtocol → Bytes → Outcome)
    (sound : (s : SuProtocol) (rest : Bytes) → Sound s (later s rest)) where
  act-Sound :
      (t : Turn) (s : SuProtocol) (b : ℕ) (rest : Bytes)
      → (t ≡ asks → s.prompted ≡ false)
      → Sound s (act later t s b rest)
  unfolding act requests
  act-Sound begins s b rest n frames s' e =
      let h =
        sound (record s { begun = true; line_start = true }) (drop (length s.begin) (b ∷ rest))
          frames s' e in
      record { few = h.few; target = h.target; own = h.own }
  act-Sound starts s b rest n frames s' e =
      let left = drop (length s.ready) (b ∷ rest) in
      let same : record s { ready_seen = true; pending = [] } ≡ s' = cc in
      let made : after_ready left ≡ frames = cc in
      rw (← same, ← made)
        (record {
          few = omega (arith, after_ready-requests left);
          target = refl;
          own = after_ready-own s.target left;
        })
  act-Sound asks s b rest n frames s' e =
      let s₁ = record s { prompted = true; line_start = true } in
      let left = drop (length password_prompt) (b ∷ rest) in
      let (inner, i, made) =
        prepended (λ frames. authenticate s.target ∷ frames) (later s₁ left) frames s' e in
      let h = sound s₁ left inner s' i in
      let l = h.few in
      rw (← made)
        (record { few = rw (n refl) (omega arith); target = h.target; own = (refl, h.own) })
  act-Sound repeats s b rest n frames s' e = cc
  act-Sound waits s b rest n frames s' e =
      let same : record s { pending = b ∷ rest } ≡ s' = cc in
      let made : [] ≡ frames = cc in
      rw (← same, ← made) (record { few = omega arith; target = refl; own = tt })
  act-Sound passes s b rest n frames s' e =
      let s₁ = record s { line_start = ends_line b } in
      let (inner, i, made) = prepended (join_output b) (later s₁ rest) frames s' e in
      let h = sound s₁ rest inner s' i in
      let l = h.few in
      rw (← made) (record {
        few = omega (arith, join-requests b inner);
        target = h.target;
        own = join-own s.target b inner h.own;
      })

drive-Sound : (fuel : ℕ) (s : SuProtocol) (rest : Bytes) → Sound s (drive fuel s rest)
unfolding drive requests
drive-Sound zero s rest frames s' e = cc
drive-Sound (suc fuel) s [] frames s' e =
    let same : record s { pending = [] } ≡ s' = cc in
    let made : [] ≡ frames = cc in
    rw (← same, ← made) (record { few = omega arith; target = refl; own = tt })
drive-Sound (suc fuel) s (b ∷ rest) frames s' e =
    act-Sound (drive fuel) (drive-Sound fuel) (turn s (b ∷ rest)) s b rest (turn-asks s (b ∷ rest))
      frames s' e

feed-Sound : (s : SuProtocol) (packet : Bytes) → Sound s (feed s packet)
unfolding feed requests
feed-Sound s packet =
    if-case (Sound s) s.ready_seen
      (λ _ frames s' e.
        let same : s ≡ s' = cc in
        let made : output packet ∷ [] ≡ frames = cc in
        rw (← same, ← made) (record { few = omega arith; target = refl; own = (tt, tt) }))
      (λ _. drive-Sound (2 + length (s.pending ++ packet)) s (s.pending ++ packet))

append-requests : (xs ys : List Frame) → requests (xs ++ ys) ≡ requests xs + requests ys
unfolding requests
append-requests xs ys = count-append is_request xs ys

joined-Sound :
    (s : SuProtocol) (later : SuProtocol → Outcome) (o : Outcome)
    → ((t : SuProtocol) → Sound t (later t))
    → Sound s o
    → Sound s (then_session later o)
joined-Sound s later none sound h frames s' e = cc
joined-Sound s later (some (err _, t)) sound h frames s' e = cc
joined-Sound s later (some (ok now, t)) sound h frames s' e =
    let (more, l, made) = prepended (λ more. now ++ more) (later t) frames s' e in
    let a = h now t refl in
    let b = sound t more s' l in
    let few_now = a.few in
    let few_more = b.few in
    let own : All (IsFor s.target) more = rw (← a.target) b.own in
    rw (← made) (record {
      few = omega (arith, append-requests now more);
      target = b.target ∙ a.target;
      own = All-append (IsFor s.target) now more a.own own;
    })

session-Sound : (packets : List Bytes) (s : SuProtocol) → Sound s (session s packets)
unfolding session requests
session-Sound [] s frames s' e =
    let same : s ≡ s' = cc in
    let made : [] ≡ frames = cc in
    rw (← same, ← made) (record { few = omega arith; target = refl; own = tt })
session-Sound (packet ∷ packets) s frames s' e =
    joined-Sound s (λ t. session t packets) (feed s packet) (session-Sound packets)
      (feed-Sound s packet) frames s' e

once-le : (b : Bool) → once b ≤ 1
once-le true = omega arith
once-le false = omega arith

-- Whatever su says, in whatever packets, its password is asked for at most once in a session, and only
-- for the user that the session is for.
pub session-asks_once :
    (nonce : Bytes) (target : Text) (packets : List Bytes) (frames : List Frame) (s' : SuProtocol)
    → session (new nonce target) packets ≡ some (ok frames, s')
    → (requests frames ≤ 1) × All (IsFor target) frames
unfolding new
session-asks_once nonce target packets frames s' e =
    let h = session-Sound packets (new nonce target) frames s' e in
    let l = h.few in (omega (arith, once-le s'.prompted), h.own)
