-- ===== src/Ssh/Pool/Same.antt =====
-- The operations that only change the entries of the pool.
use codex_hosts.Prelude.{
  suc, ◌≡◌, refl, ◌∙◌, Bool, List, [], ◌∷◌, length, remove_first, update_first, if-case,
}
use codex_hosts.Ssh.Pool.{PooledSession, PoolEntry, PoolState, World, has_key, drain_rounds, drain}
use codex_hosts.Ssh.Pool.Calls.{holds, forget, touch_one, touch, evict}

module _ {ℓ} {A : Type ℓ} (f : PoolState → A)
    (same : (s : PoolState) (es : List PoolEntry) → f (record s { entries = es }) ≡ f s) where
  pub touch-same : (w : World) (xs : List PooledSession) (s : PoolState) → f (touch w xs s) ≡ f s
  unfolding touch
  touch-same w [] s = refl
  touch-same w (x ∷ xs) s =
      let es = update_first (has_key x.key) (touch_one w x) s.entries in
      touch-same w xs (record s { entries = es }) ∙ same s es

  pub forget-same : (x : PooledSession) (s : PoolState) → f (forget x s) ≡ f s
  unfolding forget
  forget-same x s =
      if-case (λ (t : PoolState). f t ≡ f s) (holds s x)
        (λ _. same s (remove_first (has_key x.key) s.entries)) (λ _. refl)

  pub evict-same : (xs : List PooledSession) (s : PoolState) → f (evict xs s).1 ≡ f s
  unfolding evict
  evict-same [] s = refl
  evict-same (x ∷ xs) s = evict-same xs (forget x s) ∙ forget-same x s

  pub drain-same :
      (w : World) (include : PoolEntry → Bool) (s : PoolState) → f (drain w include s).1 ≡ f s
  unfolding drain
  drain-same w include s = same s (drain_rounds (suc (length s.entries)) w include [] s.entries).1
