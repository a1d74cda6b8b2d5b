-- ===== src/Telnet/Capture/Outcomes.antt =====
use codex_hosts.Prelude.{
  inl, inr, ◌⊎◌, ◌≢◌, ℕ, ◌-◌, ◌≤◌, ◌≡◌, refl, sym, ap, ◌∙◌, Bool, true, false, not, ◌&&◌, Option,
  none, some, List, [], ◌∷◌, ◌++◌, if◌then◌else◌, Bytes, Text, length, take, arith, none_ne_some,
  length-append, length-take,
}
use codex_hosts.Telnet.Capture.{
  find_in, find_bytes, max_capture_bytes, Read, chunk, closed, broken, quiet, Link, Wait, done,
  failed, waiting, absorb, is_full, Markers, Capture, searched, status, rejected, watched,
  read_until_output, unanswered,
}
use codex_hosts.Telnet.Capture.Statuses.{
  HasStatus, HasNoStatus, reported, reported-HasStatus, reported-HasNoStatus,
}
use codex_hosts.Telnet.Parser.{consume}
use codex_hosts.Telnet.Capture.Marker.{find_bytes-resume, find_in-more}

-- What the wait for the end marker ends with, whatever the server sends and however it is cut up.

module _ (lossy : Bytes → Text) (request : Text) (markers : Markers) where
  -- A status is the one that the first end marker of the whole transcript carries, with all its digits:
  -- something follows them, or the last read was the end of the stream. Otherwise none is there yet; and
  -- nothing is kept over the limit.
  abbrev pub Honest : List Read → Wait (Option ℕ) → Type 0
  Honest reads (done code l rest) =
      length l.transcript ≤ max_capture_bytes
      × ((used : List Read) × (last : Read) × (reads ≡ used ++ last ∷ rest)
          × (s : HasStatus markers.end l.transcript code) × ((last ≡ closed) ⊎ (s.tail ≢ [])))
  Honest reads (failed _ l) =
      length l.transcript ≤ max_capture_bytes × HasNoStatus markers.end l.transcript
  Honest reads (waiting l) =
      length l.transcript ≤ max_capture_bytes × HasNoStatus markers.end l.transcript

  -- the locals of the loop
  abbrev pub Searched : Capture lossy → Type 0
  Searched c =
      length c.link.transcript ≤ max_capture_bytes
      × (c.end_at ≡ find_in c.link.transcript markers.end)
      × (c.end_at ≡ none → c.end_search_from ≡ length c.link.transcript - (length markers.end - 1))

  abbrev pub start : Link → Capture lossy
  start l = record {
    link = record l { transcript = [] };
    begin_seen = false;
    end_search_from = 0;
    end_at = none;
  }

  length-absorb :
      (l : Link) (bytes : Bytes)
      → length l.transcript ≤ max_capture_bytes
      → length (absorb l bytes).transcript ≤ max_capture_bytes
  unfolding absorb
  length-absorb l bytes h =
      let d = (consume l.parser bytes).text in
      omega (
        arith,
        length-append l.transcript (take (max_capture_bytes - length l.transcript) d),
        length-take (max_capture_bytes - length l.transcript) d,
      )

  searched-kept :
      (l : Link) (seen : Bool) (k : ℕ) (at : Option ℕ) (bytes : Bytes)
      → Searched (record { link = l; begin_seen = seen; end_search_from = k; end_at = at })
      → Searched (
          searched lossy request markers
            (record { link = l; begin_seen = seen; end_search_from = k; end_at = at })
            (absorb l bytes))
  unfolding searched absorb
  searched-kept l seen k none bytes (bound, e, from) =
      let d = take (max_capture_bytes - length l.transcript) (consume l.parser bytes).text in
      (
        length-absorb l bytes bound,
        ap (find_bytes (l.transcript ++ d) markers.end) (from refl)
            ∙ find_bytes-resume l.transcript d markers.end (sym e),
        λ _. refl,
      )
  searched-kept l seen k (some at) bytes (bound, e, from) =
      let d = take (max_capture_bytes - length l.transcript) (consume l.parser bytes).text in
      (
        length-absorb l bytes bound,
        sym (find_in-more l.transcript d markers.end at (sym e)),
        λ h. elim (none_ne_some (sym h)) [ ],
      )

  searched-Searched :
      (c : Capture lossy) (bytes : Bytes)
      → Searched c
      → Searched (searched lossy request markers c (absorb c.link bytes))
  searched-Searched c bytes = searched-kept c.link c.begin_seen c.end_search_from c.end_at bytes

  watched-Searched : (c : Capture lossy) → Searched c → Searched (watched lossy request markers c)
  unfolding watched
  watched-Searched c h = ground arith

  watched-link : (c : Capture lossy) → (watched lossy request markers c).link ≡ c.link
  unfolding watched
  watched-link c = ground arith

  status-reported :
      (c : Capture lossy) (b : Bool)
      → Searched c
      → status lossy request markers c b ≡ reported markers.end c.link.transcript b
  unfolding status
  status-reported c b (bound, e, from) = rw e

  Honest-if :
      (reads : List Read) (b : Bool) (x y : Wait (Option ℕ))
      → Honest reads x
      → Honest reads y
      → Honest reads (if b then x else y)
  Honest-if reads true x y h k = h
  Honest-if reads false x y h k = k

  Honest-elim :
      (reads : List Read) (o : Option (Option ℕ)) (x : Wait (Option ℕ))
      (y : Option ℕ → Wait (Option ℕ))
      → (o ≡ none → Honest reads x)
      → ((code : Option ℕ) → o ≡ some code → Honest reads (y code))
      → Honest reads (elim o [ none ↦ x | some code ↦ y code ])
  Honest-elim reads none x y h k = h refl
  Honest-elim reads (some code) x y h k = k code refl

  Honest-later :
      (r : Read) (reads : List Read) (w : Wait (Option ℕ)) → Honest reads w → Honest (r ∷ reads) w
  Honest-later r reads (done code l rest) (bound, (used, last, same, s, ended)) =
      (bound, (r ∷ used, last, ap (λ rs. r ∷ rs) same, s, ended))
  Honest-later r reads (failed _ l) h = h
  Honest-later r reads (waiting l) h = h

  -- with nothing more to come, the digits that are there are all
  at_end :
      (reads : List Read) (c : Capture lossy) (code : Option ℕ)
      → Searched c
      → status lossy request markers c true ≡ some code
      → Honest (closed ∷ reads) (done code c.link reads)
  at_end reads c code h f =
      let (s, _) =
        reported-HasStatus markers.end c.link.transcript true code
          (sym (status-reported c true h) ∙ f) in
      (h.0, ([], closed, refl, s, inl refl))

  on_chunk :
      (r : Read) (reads : List Read) (c : Capture lossy) (code : Option ℕ)
      → Searched c
      → status lossy request markers c false ≡ some code
      → Honest (r ∷ reads) (done code c.link reads)
  on_chunk r reads c code h f =
      let (s, ended) =
        reported-HasStatus markers.end c.link.transcript false code
          (sym (status-reported c false h) ∙ f) in
      (h.0, ([], r, refl, s, follows s.tail ended))
    where
      follows : (tail : Bytes) → (false ≡ true) ⊎ (tail ≢ []) → (r ≡ closed) ⊎ (tail ≢ [])
      follows tail (inl e) = cc
      follows tail (inr n) = inr n

  none_yet :
      (c : Capture lossy)
      → reported markers.end c.link.transcript false ≡ none
      → HasNoStatus markers.end c.link.transcript
  none_yet c e = reported-HasNoStatus markers.end c.link.transcript e

  Honest-from :
      (reads : List Read) (c : Capture lossy)
      → Searched c
      → reported markers.end c.link.transcript false ≡ none
      → Honest reads (read_until_output lossy request markers c reads)
  unfolding read_until_output
  Honest-from [] c h e = (h.0, none_yet c e)
  Honest-from (closed ∷ reads) c h e =
      Honest-elim (closed ∷ reads) (status lossy request markers c true) _ _
        (λ _. (h.0, none_yet c e)) (λ code f. at_end reads c code h f)
  Honest-from (broken ∷ reads) c h e = (h.0, none_yet c e)
  Honest-from (quiet ∷ reads) c h e = Honest-later quiet reads _ (Honest-from reads c h e)
  Honest-from (chunk writable bytes ∷ reads) c h e =
      let c' = searched lossy request markers c (absorb c.link bytes) in
      let k = searched-Searched c bytes h in
      let all = chunk writable bytes ∷ reads in
      Honest-if all (unanswered writable c.link bytes) _ _ (h.0, none_yet c e)
        (Honest-elim all (status lossy request markers c' false) _ _
          (λ f.
            let nothing = sym (status-reported c' false k) ∙ f in
            let missing : length c'.link.transcript ≤ max_capture_bytes
                × HasNoStatus markers.end c'.link.transcript =
              (k.0, none_yet c' nothing) in
            Honest-if all (not c'.begin_seen && rejected lossy request markers c') _ _ missing (
              Honest-if all (is_full c'.link) _ _ missing (
                Honest-later (chunk writable bytes) reads _ (
                  Honest-from reads (watched lossy request markers c') (watched-Searched c' k) (
                    ap (λ l. reported markers.end l.transcript false) (watched-link c')
                    ∙ nothing)))))
          (λ code f. on_chunk (chunk writable bytes) reads c' code k f))

  -- The wait for the end marker, begun with nothing kept, whatever the server sends and however the
  -- reads cut it up. If it returns a status, then the transcript has an end marker, and the status is
  -- the number in the digits behind the first one, or none if there are no digits or the number is
  -- too large for 31 bits; and those are all the digits: another byte follows them, or the last read
  -- was the end of the stream. If the reads run out or it fails, there is no end marker, or nothing but
  -- digits behind the first. And the transcript is never longer than the limit.
  pub read_until_output-Honest :
      (reads : List Read) (l : Link)
      → Honest reads (read_until_output lossy request markers (start l) reads)
  unfolding find_in
  read_until_output-Honest reads l =
      Honest-from reads (start l) (omega arith, refl, λ _. omega arith) refl
