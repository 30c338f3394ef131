-- ===== src/Auth/Limiter/Retry.antt =====
-- `RetryAfter` against `Allowed`.
use native.Mathlib.Nat.{le_trans}
use uptime_monitor_api.Base.{
  ℕ, ◌+◌, ◌≤◌, ◌<◌, ◌≡◌, ◌↔◌, refl, ap, ◌∙◌, true, false, Bool-cases, inl, inr, List, [], ◌∷◌,
  String, leb, length, arith,
}
use uptime_monitor_api.Auth.Limiter.{
  Limiter, live, live_locked, allowed, retry_after, retry_after_from, attempts_of, wait_for, longer,
}

live-head : (w now : ℕ) (ts : List ℕ) (t : ℕ) (us : List ℕ) → live w now ts ≡ t ∷ us → now < t + w
unfolding live
live-head w now [] t us e = cc
live-head w now (u ∷ ts) t us e = ground (arith, live-head w now ts t us)

wait_for-pos :
    (max w now : ℕ) (ts us : List ℕ)
    → 0 < max
    → live w now ts ≡ us
    → leb max (length us) ≡ true
    → 0 < wait_for max w now us
wait_for-pos max w now ts [] h p e = absurd (ground arith)
wait_for-pos max w now ts (u ∷ us) h p e = ground (arith, live-head w now ts u us p)

wait_for-zero :
    (max w now : ℕ) (ts : List ℕ) → leb max (length ts) ≡ false → wait_for max w now ts ≡ 0
wait_for-zero max w now [] e = refl
wait_for-zero max w now (t ∷ ts) e = ground arith

le-longer : (longest d : ℕ) → (longest ≤ longer longest d) × (d ≤ longer longest d)
le-longer longest d = ground arith

longer_zero : (longest : ℕ) → longer longest 0 ≡ longest
longer_zero longest = ground arith

longest-le :
    (now : ℕ) (keys : List String) (longest : ℕ) (l : Limiter)
    → longest ≤ (retry_after_from longest now keys l).0
unfolding retry_after_from
longest-le now [] longest l = omega arith
longest-le now (k ∷ keys) longest l =
    let d = wait_for l.max_attempts l.window now (live_locked now k l).0 in
    le_trans (le-longer longest d).0
      (longest-le now keys (longer longest d) (live_locked now k l).1)

retry_when_allowed :
    (now : ℕ) (keys : List String) (longest : ℕ) (l : Limiter)
    → (allowed now keys l).0 ≡ true
    → (retry_after_from longest now keys l).0 ≡ longest
unfolding retry_after_from allowed
retry_when_allowed now [] longest l h = refl
retry_when_allowed now (k ∷ keys) longest l h =
    elim (Bool-cases (leb l.max_attempts (length (live_locked now k l).0))) [
      | inl e ↦ absurd (ground arith)
      | inr e ↦
          let no_wait = wait_for-zero l.max_attempts l.window now (live_locked now k l).0 e in
          retry_when_allowed now keys _ (live_locked now k l).1 (ground arith)
          ∙ ap (longer longest) no_wait
          ∙ longer_zero longest
    ]

retry_when_blocked :
    (now : ℕ) (keys : List String) (longest : ℕ) (l : Limiter)
    → 0 < l.max_attempts
    → (allowed now keys l).0 ≡ false
    → 0 < (retry_after_from longest now keys l).0
unfolding retry_after_from allowed live_locked
retry_when_blocked now [] longest l m h = cc
retry_when_blocked now (k ∷ keys) longest l m h =
    elim (Bool-cases (leb l.max_attempts (length (live_locked now k l).0))) [
      | inl e ↦
          let d = wait_for l.max_attempts l.window now (live_locked now k l).0 in
          le_trans (wait_for-pos l.max_attempts l.window now (attempts_of k l.attempts) _ m refl e)
            (le_trans (le-longer longest d).1
              (longest-le now keys (longer longest d) (live_locked now k l).1))
      | inr e ↦ retry_when_blocked now keys _ (live_locked now k l).1 m (ground arith)
    ]

-- `RetryAfter` is positive exactly when `Allowed` refuses, for a limiter with a positive maximum.
pub retry_after-pos_iff :
    (now : ℕ) (keys : List String) (l : Limiter)
    → 0 < l.max_attempts
    → (0 < (retry_after now keys l).0) ↔ ((allowed now keys l).0 ≡ false)
unfolding retry_after
retry_after-pos_iff now keys l m = elim (Bool-cases (allowed now keys l).0) [
  | inl open_ ↦ ground (arith, retry_when_allowed now keys 0 l open_)
  | inr shut ↦ ground (arith, retry_when_blocked now keys 0 l m shut)
]
