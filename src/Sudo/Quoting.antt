-- ===== src/Sudo/Quoting.antt =====
-- src/sudo.rs, `quote`: an argument as one word of the remote shell.
mod Tests
use codex_hosts.Prelude.{
  ℕ, ◌≡◌, refl, sym, ap, ◌∙◌, inl, inr, ◌||◌, Option, none, some, List, [], ◌∷◌, ◌++◌,
  if◌then◌else◌, ◌==◌, Text, codes, arith, Bool-cases, append_assoc, append-nil, map,
}

abbrev pub escaped : Text
escaped = codes "'\"'\"'"

pub quote_body : Text → Text
quote_body [] = []
quote_body (c ∷ value) =
    let rest = quote_body value in if c == b'\'' then escaped ++ rest else c ∷ rest

pub quote : Text → Text
quote value = b'\'' ∷ quote_body value ++ b'\'' ∷ []

-- `join(" ")`
pub join : List Text → Text
join [] = []
join (w ∷ []) = w
join (w ∷ ws) = w ++ b' ' ∷ join ws

-- The specification: how a POSIX shell splits a line into words (2.2 Quoting). Within single quotes
-- all is literal up to the next single quote; within double quotes `$`, the backquote and the
-- backslash are special, and nothing else; a blank outside quotes ends a word. A line with anything else is refused.
pub data Mode : Type 0 where
  bare single double : Mode

data Effect : Type 0 where
  skip new_word refuse : Effect
  push : ℕ → Effect

read : Mode → ℕ → Mode × Effect
read bare c =
    if c == b'\''
    then (single, skip)
    else if c == b'"'
    then (double, skip)
    else if c == b' '
    then (bare, new_word)
    else (bare, refuse)
read single c = if c == b'\'' then (bare, skip) else (single, push c)
read double c =
    if c == b'"'
    then (bare, skip)
    else if c == b'$' || c == b'`' || c == b'\\'
    then (double, refuse)
    else (double, push c)

apply : Effect → Option (List Text) → Option (List Text)
apply skip r = r
apply new_word (some ws) = some ([] ∷ ws)
apply (push c) (some (w ∷ ws)) = some ((c ∷ w) ∷ ws)
apply _ _ = none

lex : Mode → Text → Option (List Text)
lex bare [] = some ([] ∷ [])
lex _ [] = none
lex m (c ∷ line) = let (m', e) = read m c in apply e (lex m' line)

pub shell_words : Text → Option (List Text)
shell_words line = lex bare line

-- the characters of `v` put before the first word
prefixed : Text → Option (List Text) → Option (List Text)
prefixed [] r = r
prefixed (c ∷ v) r = apply (push c) (prefixed v r)

lex-quote_body :
    (v rest : Text) → lex single (quote_body v ++ b'\'' ∷ rest) ≡ prefixed v (lex bare rest)
unfolding lex quote_body read prefixed apply
lex-quote_body [] rest = refl
lex-quote_body (c ∷ v) rest = elim (Bool-cases (c == b'\'')) [
  | inl e ↦
      let same : c ≡ b'\'' = ground arith in
      rw same (ap (λ r. apply (push b'\'') r) (lex-quote_body v rest))
  | inr e ↦ rw e (rw e (ap (λ r. apply (push c) r) (lex-quote_body v rest)))
]

prefixed-some : (v w : Text) (ws : List Text) → prefixed v (some (w ∷ ws)) ≡ some ((v ++ w) ∷ ws)
unfolding prefixed apply
prefixed-some [] w ws = refl
prefixed-some (c ∷ v) w ws = rw (prefixed-some v w ws)

lex-quote : (v rest : Text) → lex bare (quote v ++ rest) ≡ prefixed v (lex bare rest)
unfolding lex quote read apply
lex-quote v rest = rw append_assoc (lex-quote_body v rest)

lex-space :
    (line : Text) {ws : List Text}
    → lex bare line ≡ some ws
    → lex bare (b' ' ∷ line) ≡ some ([] ∷ ws)
unfolding lex read apply
lex-space line e = rw e

-- Quoting any arguments and joining them gives a line that a POSIX shell splits back into exactly
-- these arguments, whatever characters they hold.
pub shell_words-join :
    (v : Text) (vs : List Text) → shell_words (join (map quote (v ∷ vs))) ≡ some (v ∷ vs)
unfolding shell_words join
shell_words-join v [] =
    ap (λ t. lex bare t) (sym (append-nil (quote v)))
    ∙ lex-quote v []
    ∙ unfold lex in prefixed-some v [] [] ∙ ap (λ t. some (t ∷ [])) (append-nil v)
shell_words-join v (w ∷ vs) =
    lex-quote v (b' ' ∷ join (map quote (w ∷ vs)))
    ∙ ap (prefixed v) (lex-space (join (map quote (w ∷ vs))) (shell_words-join w vs))
    ∙ prefixed-some v [] (w ∷ vs)
    ∙ ap (λ t. some (t ∷ w ∷ vs)) (append-nil v)
