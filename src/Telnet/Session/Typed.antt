-- ===== src/Telnet/Session/Typed.antt =====
-- What is typed, and after which prompts.
use codex_hosts.Prelude.{
  ℕ, ◌≤◌, ◌≡◌, refl, Bool, true, Option, List, [], ◌∷◌, Bytes, Text, take, any, arith, contains,
  if-case,
}
use codex_hosts.Text.{to_ascii_lowercase}
use codex_hosts.Telnet.Capture.{
  Read, chunk, closed, broken, quiet, Link, Wait, done, failed, waiting, absorb, is_full,
  unanswered, Markers, read_until,
}
use codex_hosts.Telnet.Session.{
  LoginPrompts, cleared, End, Session, ends, after_output, after_shell, after_password, after_login,
  run_session,
}

module _ (lossy : Bytes → Text) where
  -- one of the prompts stands in the text, in whatever case
  pub Shows : List Text → Link → Type 0
  Shows needles l =
      any (λ n. contains (to_ascii_lowercase (lossy l.transcript)) (to_ascii_lowercase n)) needles
      ≡ true

  abbrev ShowsAtEnd : List Text → Wait (Unit {0}) → Type 0
  ShowsAtEnd needles w = (l : Link) (rest : List Read) → w ≡ done tt l rest → Shows needles l

  read_until-Shows :
      (needles : List Text) (reads : List Read) (l : Link)
      → ShowsAtEnd needles (read_until lossy needles l reads)
  unfolding read_until Shows
  read_until-Shows needles [] l l' rest e = cc
  read_until-Shows needles (closed ∷ reads) l l' rest e = cc
  read_until-Shows needles (broken ∷ reads) l l' rest e = cc
  read_until-Shows needles (quiet ∷ reads) l l' rest e = read_until-Shows needles reads l l' rest e
  read_until-Shows needles (chunk writable bytes ∷ reads) l l' rest e =
      let now = absorb l bytes in
      if-case (ShowsAtEnd needles) (unanswered writable l bytes) (λ _ l' rest e. cc)
        (λ _.
          if-case (ShowsAtEnd needles)
            (any (λ n. contains (to_ascii_lowercase (lossy now.transcript)) (to_ascii_lowercase n))
              needles)
            (λ shown l' rest e. let same : now ≡ l' = cc in rw (← same) shown)
            (λ _.
              if-case (ShowsAtEnd needles) (is_full now) (λ _ l' rest e. cc)
                (λ _. read_until-Shows needles reads now)))
        l' rest e

  -- this wait has ended, with such a text
  abbrev pub Asked : List Text → Link → List Read → Link → List Read → Type 0
  Asked needles l reads l' rest =
      (read_until lossy needles l reads ≡ done tt l' rest) × Shows needles l'

  module _ (writes : ℕ → Bool) (username password request : Text) (markers : Markers)
      (prompts : LoginPrompts) where
    -- The first `k` of the three texts have been typed, each where it was asked for.
    pub record IsTyped (Name Password : Type 0) (s : Session) : Type 0 where
      pub k : ℕ
      pub typed : s.typed ≡ take k (username ∷ password ∷ request ∷ [])
      pub asked_name : 1 ≤ k → Name
      pub asked_password : 2 ≤ k → Password

    module _ (Name Password : Type 0) where
      none-IsTyped : (end : End) → IsTyped Name Password (ends [] end)
      none-IsTyped end = record {
        k = 0;
        typed = refl;
        asked_name = λ m. absurd (omega arith);
        asked_password = λ m. absurd (omega arith);
      }

      IsTyped-name : (end : End) → Name → IsTyped Name Password (ends (username ∷ []) end)
      IsTyped-name end n = record {
        k = 1;
        typed = refl;
        asked_name = λ _. n;
        asked_password = λ m. absurd (omega arith);
      }

      IsTyped-password :
          (end : End)
          → Name
          → Password
          → IsTyped Name Password (ends (username ∷ password ∷ []) end)
      IsTyped-password end n p = record {
        k = 2;
        typed = refl;
        asked_name = λ _. n;
        asked_password = λ _. p;
      }

      IsTyped-all :
          (end : End)
          → Name
          → Password
          → IsTyped Name Password (ends (username ∷ password ∷ request ∷ []) end)
      IsTyped-all end n p = record {
        k = 3;
        typed = refl;
        asked_name = λ _. n;
        asked_password = λ _. p;
      }

      output-IsTyped :
          (w : Wait (Option ℕ))
          → Name
          → Password
          → IsTyped Name Password
              (after_output lossy writes username password request markers prompts w)
      unfolding after_output
      output-IsTyped (done code _ _) n p = IsTyped-all _ n p
      output-IsTyped (failed e _) n p = IsTyped-all _ n p
      output-IsTyped (waiting _) n p = IsTyped-all _ n p

      shell-IsTyped :
          (w : Wait (Unit {0}))
          → Name
          → Password
          → IsTyped Name Password
              (after_shell lossy writes username password request markers prompts w)
      unfolding after_shell
      shell-IsTyped (done _ m reads) n p =
          if-case (IsTyped Name Password) (writes 2) (λ _. output-IsTyped _ n p)
            (λ _. IsTyped-password _ n p)
      shell-IsTyped (failed e _) n p = IsTyped-password _ n p
      shell-IsTyped (waiting _) n p = IsTyped-password _ n p

      password-IsTyped :
          (w : Wait (Unit {0}))
          → Name
          → ((m : Link) (rest : List Read) → w ≡ done tt m rest → Password)
          → IsTyped Name Password
              (after_password lossy writes username password request markers prompts w)
      unfolding after_password
      password-IsTyped (done _ m reads) n p =
          if-case (IsTyped Name Password) (writes 1) (λ _. shell-IsTyped _ n (p m reads refl))
            (λ _. IsTyped-name _ n)
      password-IsTyped (failed e _) n p = IsTyped-name _ n
      password-IsTyped (waiting _) n p = IsTyped-name _ n

    module _ (l : Link) (reads : List Read) where
      -- the wait for a login prompt has ended, and then the one for a password prompt
      abbrev pub NameAsked : Type 0
      NameAsked = (m : Link) × ((rest : List Read) × Asked prompts.login l reads m rest)

      abbrev pub PasswordAsked : Type 0
      PasswordAsked =
          (m : Link) × ((rest : List Read) × (Asked prompts.login l reads m rest
              × ((m' : Link) × ((rest' : List Read) × Asked prompts.password (cleared m) rest m'
                      rest'))))

      login-IsTyped :
          (w : Wait (Unit {0}))
          → read_until lossy prompts.login l reads ≡ w
          → IsTyped NameAsked PasswordAsked
              (after_login lossy writes username password request markers prompts w)
      unfolding after_login
      login-IsTyped (done _ m rest) e =
          let asked : Asked prompts.login l reads m rest =
            (e, read_until-Shows prompts.login reads l m rest e) in
          if-case (IsTyped NameAsked PasswordAsked) (writes 0)
            (λ _.
              password-IsTyped NameAsked PasswordAsked
                (read_until lossy prompts.password (cleared m) rest) (m, (rest, asked))
                (λ m' rest' e'. (
                  m,
                  (
                    rest,
                    (
                      asked,
                      (
                        m',
                        (
                          rest',
                          (e', read_until-Shows prompts.password rest (cleared m) m' rest' e'),
                        ),
                      ),
                    ),
                  ),
                )))
            (λ _. none-IsTyped NameAsked PasswordAsked _)
      login-IsTyped (failed f _) e = none-IsTyped NameAsked PasswordAsked _
      login-IsTyped (waiting _) e = none-IsTyped NameAsked PasswordAsked _

      -- However the server behaves, a session types the user name, the password and the request, in
      -- this order and none twice, and may stop between them. It types the name only when the wait for
      -- a login prompt has ended on a text that shows one, and the password only when then, from an
      -- empty text on, the wait for a password prompt has ended on a text that shows one.
      pub run_session-IsTyped :
          IsTyped NameAsked PasswordAsked
            (run_session lossy writes username password request markers prompts l reads)
      unfolding run_session
      run_session-IsTyped = login-IsTyped (read_until lossy prompts.login l reads) refl
