-- ===== src/Model/Validation/Rules.antt =====
-- What the advanced settings must satisfy, and that the code tests exactly this.
use codex_hosts.Prelude.{
  Apart, ℕ, ◌≤◌, ◌≡◌, ◌≢◌, refl, ap, ◌∙◌, Bool, true, false, ◌&&◌, Option, none, some, List, [],
  ◌∷◌, leb, Text, arith, none_ne_some, All, text_eq_iff, ◌↔◌,
}
use codex_hosts.Text.{trim}
use codex_hosts.Model.{
  contains_id, Uuid, SudoCredential, SudoSettings, valid_sudo_username, AdvancedSettings,
}
use codex_hosts.Model.Validation.{
  contains_text, bad_credentials, none_or, max_channels_per_host, min_keepalive_seconds,
  max_keepalive_seconds, channels_ok, keepalive_ok, timeouts_ok, sudo_bad, advanced_issue,
}

abbrev pub InRange : ℕ → ℕ → Option ℕ → Type 0
InRange lo hi none = Unit
InRange lo hi (some n) = (lo ≤ n) × (n ≤ hi)

abbrev pub OtherUser : SudoCredential → SudoCredential → Type 0
OtherUser c d = trim c.username ≢ trim d.username

abbrev pub OtherId : SudoCredential → SudoCredential → Type 0
OtherId c d = c.id ≢ d.id

pub record AreValid (cs : List SudoCredential) : Type 0 where
  pub names : All (λ c. valid_sudo_username c.username ≡ true) cs
  pub users : Apart OtherUser cs
  pub ids : Apart OtherId cs

module _ (c : SudoCredential) where
  fresh_users :
      (cs : List SudoCredential) (users : List Text)
      → All (λ d. contains_text (trim c.username ∷ users) (trim d.username) ≡ false) cs
      → All (λ d. contains_text users (trim d.username) ≡ false) cs × All (OtherUser c) cs
  fresh_users [] users h = (tt, tt)
  fresh_users (d ∷ cs) users (h, hs) =
      let (a, b) = fresh_users cs users hs in
      (
        (ground (arith), a),
        ((λ e. ground (arith, text_eq_iff (trim c.username) (trim d.username))), b),
      )

  fresh_ids :
      (cs : List SudoCredential) (ids : List Uuid)
      → All (λ d. contains_id d.id (c.id ∷ ids) ≡ false) cs
      → All (λ d. contains_id d.id ids ≡ false) cs × All (OtherId c) cs
  fresh_ids [] ids h = (tt, tt)
  fresh_ids (d ∷ cs) ids (h, hs) =
      let (a, b) = fresh_ids cs ids hs in ((ground arith, a), ((λ e. ground arith), b))

  add_user :
      (cs : List SudoCredential) (users : List Text)
      → All (λ d. contains_text users (trim d.username) ≡ false) cs
      → All (OtherUser c) cs
      → All (λ d. contains_text (trim c.username ∷ users) (trim d.username) ≡ false) cs
  add_user [] users h k = tt
  add_user (d ∷ cs) users (h, hs) (k, ks) =
      (ground (arith, text_eq_iff (trim c.username) (trim d.username)), add_user cs users hs ks)

  add_id :
      (cs : List SudoCredential) (ids : List Uuid)
      → All (λ d. contains_id d.id ids ≡ false) cs
      → All (OtherId c) cs
      → All (λ d. contains_id d.id (c.id ∷ ids) ≡ false) cs
  add_id [] ids h k = tt
  add_id (d ∷ cs) ids (h, hs) (k, ks) = (ground arith, add_id cs ids hs ks)

module _ (users : List Text) (ids : List Uuid) where
  record AreFresh (cs : List SudoCredential) : Type 0 where
    users_fresh : All (λ d. contains_text users (trim d.username) ≡ false) cs
    ids_fresh : All (λ d. contains_id d.id ids ≡ false) cs
    valid : AreValid cs

good_sound :
    (users : List Text) (ids : List Uuid) (cs : List SudoCredential)
    → bad_credentials users ids cs ≡ false
    → AreFresh users ids cs
unfolding bad_credentials
good_sound users ids [] h = record {
  users_fresh = tt;
  ids_fresh = tt;
  valid = record { names = tt; users = tt; ids = tt };
}
good_sound users ids (c ∷ cs) h =
    let ih = good_sound (trim c.username ∷ users) (c.id ∷ ids) cs (ground arith) in
    let (u, apart_u) = fresh_users c cs users ih.users_fresh in
    let (i, apart_i) = fresh_ids c cs ids ih.ids_fresh in
    record {
      users_fresh = (ground arith, u);
      ids_fresh = (ground arith, i);
      valid = record {
        names = (ground arith, ih.valid.names);
        users = (apart_u, ih.valid.users);
        ids = (apart_i, ih.valid.ids);
      };
    }

good_complete :
    (users : List Text) (ids : List Uuid) (cs : List SudoCredential)
    → AreFresh users ids cs
    → bad_credentials users ids cs ≡ false
unfolding bad_credentials
good_complete users ids [] h = refl
good_complete users ids (c ∷ cs) h =
    let (u, us) = h.users_fresh in
    let (i, is) = h.ids_fresh in
    let (n, ns) = h.valid.names in
    let (ua, uas) = h.valid.users in
    let (ia, ias) = h.valid.ids in
    let ih = good_complete (trim c.username ∷ users) (c.id ∷ ids) cs (record {
      users_fresh = add_user c cs users us ua;
      ids_fresh = add_id c cs ids is ia;
      valid = record { names = ns; users = uas; ids = ias };
    }) in
    ground arith

pub All-fresh :
    (cs : List SudoCredential) → All (λ d. contains_text [] (trim d.username) ≡ false) cs
All-fresh [] = tt
All-fresh (c ∷ cs) = (refl, All-fresh cs)

pub All-new : (cs : List SudoCredential) → All (λ d. contains_id d.id [] ≡ false) cs
All-new [] = tt
All-new (c ∷ cs) = (refl, All-new cs)

abbrev pub HasGoodSudo : Option SudoSettings → Type 0
HasGoodSudo none = Unit
HasGoodSudo (some s) = AreValid s.credentials

pub record IsValidAdvanced (a : AdvancedSettings) : Type 0 where
  pub sudo : HasGoodSudo a.sudo
  pub channels : (n : ℕ) → a.max_channels ≡ some n → (1 ≤ n) × (n ≤ max_channels_per_host)
  pub keepalive :
      (n : ℕ) → a.keepalive_s ≡ some n → (min_keepalive_seconds ≤ n) × (n ≤ max_keepalive_seconds)
  pub connect : (n : ℕ) → a.connect_timeout_s ≡ some n → 1 ≤ n
  pub command : (n : ℕ) → a.command_timeout_s ≡ some n → 1 ≤ n

sudo_bad_iff : (a : AdvancedSettings) → (sudo_bad a ≡ false) ↔ HasGoodSudo a.sudo
unfolding sudo_bad
sudo_bad_iff a = go a.sudo
  where
    go :
        (o : Option SudoSettings)
        → ((elim o [ none ↦ false | some s ↦ bad_credentials [] [] s.credentials ]) ≡ false)
          ↔ HasGoodSudo o
    go none = ((λ h. tt), λ h. refl)
    go (some s) = (
      (λ h. (good_sound [] [] s.credentials h).valid),
      λ v. good_complete [] [] s.credentials (record {
        users_fresh = All-fresh s.credentials;
        ids_fresh = All-new s.credentials;
        valid = v;
      }),
    )

ranges_iff :
    (p : ℕ → Bool) (Q : ℕ → Type 0) (o : Option ℕ)
    → ((n : ℕ) → (p n ≡ true) ↔ Q n)
    → (none_or p o ≡ true) ↔ ((n : ℕ) → o ≡ some n → Q n)
ranges_iff p Q none h = ((λ _ n e. absurd (none_ne_some e)), λ _. refl)
ranges_iff p Q (some m) h =
    ((λ e n same. let eq : n ≡ m = cc in (h n).0 (ap p eq ∙ e)), λ f. (h m).1 (f m refl))

pub advanced_ok : (a : AdvancedSettings) → IsValidAdvanced a → advanced_issue a ≡ none
unfolding advanced_issue channels_ok keepalive_ok timeouts_ok
advanced_ok a v =
    let s = (sudo_bad_iff a).1 v.sudo in
    let c =
      (ranges_iff (λ n. leb 1 n && leb n max_channels_per_host) _ a.max_channels
          (λ n. ground arith)).1
        v.channels in
    let k =
      (ranges_iff (λ n. leb min_keepalive_seconds n && leb n max_keepalive_seconds) _ a.keepalive_s
          (λ n. ground arith)).1
        v.keepalive in
    let t = (ranges_iff (λ n. leb 1 n) _ a.connect_timeout_s (λ n. ground arith)).1 v.connect in
    let u = (ranges_iff (λ n. leb 1 n) _ a.command_timeout_s (λ n. ground arith)).1 v.command in
    rw (s, c, k, t, u)

advanced_tests :
    (a : AdvancedSettings)
    → advanced_issue a ≡ none
    → (sudo_bad a ≡ false)
      × (channels_ok a ≡ true)
      × (keepalive_ok a ≡ true)
      × (none_or (λ v. leb 1 v) a.connect_timeout_s ≡ true)
      × (none_or (λ v. leb 1 v) a.command_timeout_s ≡ true)
unfolding advanced_issue timeouts_ok
advanced_tests a h = ground arith

pub advanced_sound : (a : AdvancedSettings) → advanced_issue a ≡ none → IsValidAdvanced a
unfolding channels_ok keepalive_ok
advanced_sound a h =
    let (s, c, k, t, u) = advanced_tests a h in
    record {
      sudo = (sudo_bad_iff a).0 s;
      channels =
          (ranges_iff (λ n. leb 1 n && leb n max_channels_per_host) _ a.max_channels
              (λ n. ground arith)).0
            c;
      keepalive =
          (ranges_iff (λ n. leb min_keepalive_seconds n && leb n max_keepalive_seconds) _
              a.keepalive_s (λ n. ground arith)).0
            k;
      connect = (ranges_iff (λ n. leb 1 n) _ a.connect_timeout_s (λ n. ground arith)).0 t;
      command = (ranges_iff (λ n. leb 1 n) _ a.command_timeout_s (λ n. ground arith)).0 u;
    }
