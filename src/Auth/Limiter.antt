-- ===== src/Auth/Limiter.antt =====
-- internal/auth/ratelimit.go: the login throttle. Times are nanoseconds on the clock that `now`
-- reads, and every method takes the time that its call of `l.now()` returns. Each method holds the
-- mutex throughout, so methods are atomic steps.
pub mod Window
pub mod History
pub mod Retry
use uptime_monitor_api.Base.{
  ℕ, ◌+◌, ◌-◌, ◌*◌, ◌≤◌, ◌<◌, Bool, true, false, Option, none, some, List, [], ◌∷◌, ◌++◌, String,
  ltb, leb, if◌then◌else◌, length,
}
use uptime_monitor_api.Base.Int.{ℤ, pos, negsuc}
use uptime_monitor_api.Base.Dict.{Dict, get, put, delete}

abbrev pub default_max_attempts : ℕ
default_max_attempts = 5

-- 15 minutes
abbrev pub default_window : ℕ
default_window = 15 * 60 * 1000000000

pub record Limiter : Type 0 where
  pub max_attempts : ℕ
  pub window : ℕ
  pub attempts : Dict (List ℕ)

abbrev positive_or : ℤ → ℕ → ℕ
positive_or (pos n) d = if ltb 0 n then n else d
positive_or (negsuc n) d = d

-- `NewLimiter`
unfoldable pub new_limiter : ℤ → ℤ → Limiter
new_limiter max_attempts window = record {
  max_attempts = positive_or max_attempts default_max_attempts;
  window = positive_or window default_window;
  attempts = [];
}

-- `l.attempts[key]`, nil where the key is missing
unfoldable pub attempts_of : String → Dict (List ℕ) → List ℕ
attempts_of k m = elim (get k m) [ none ↦ [] | some ts ↦ ts ]

-- The loop of `liveLocked`: drop attempts until one is after `now - window`. (The difference may be
-- negative, so the window stands on the other side.)
unfoldable pub live : ℕ → ℕ → List ℕ → List ℕ
live window now [] = []
live window now (t ∷ ts) = if ltb now (t + window) then t ∷ ts else live window now ts

abbrev pub store_live : String → List ℕ → Dict (List ℕ) → Dict (List ℕ)
store_live k [] m = delete k m
store_live k (t ∷ ts) m = put k (t ∷ ts) m

-- `liveLocked`: the attempts still in the window; the map is pruned on the way.
unfoldable pub live_locked : ℕ → String → Limiter → List ℕ × Limiter
unfolding live attempts_of get put delete
live_locked now key l =
    let ts = live l.window now (attempts_of key l.attempts) in
    (ts, record l { attempts = store_live key ts l.attempts })

-- `Allowed`
unfoldable pub allowed : ℕ → List String → Limiter → Bool × Limiter
unfolding live_locked
allowed now [] l = (true, l)
allowed now (k ∷ keys) l =
    let (ts, l') = live_locked now k l in
    let rest = allowed now keys l' in if leb l.max_attempts (length ts) then (false, l') else rest

-- `RecordFailure`
unfoldable pub record_failure : ℕ → List String → Limiter → Limiter
unfolding live_locked
record_failure now [] l = l
record_failure now (k ∷ keys) l =
    let (ts, l') = live_locked now k l in
    record_failure now keys (record l' { attempts = put k (ts ++ now ∷ []) l'.attempts })

-- `Reset`
unfoldable pub reset : List String → Limiter → Limiter
unfolding live_locked
reset [] l = l
reset (k ∷ keys) l = reset keys (record l { attempts = delete k l.attempts })

-- `live[0].Add(l.window).Sub(now)`, where `live` is not too short; a live attempt is after the
-- cutoff, so the difference is positive.
abbrev pub wait_for : ℕ → ℕ → ℕ → List ℕ → ℕ
wait_for max window now [] = 0
wait_for max window now (t ∷ ts) = if ltb (length (t ∷ ts)) max then 0 else t + window - now

abbrev pub longer : ℕ → ℕ → ℕ
longer longest d = if ltb longest d then d else longest

-- `RetryAfter`, with `longest` in an accumulator
unfoldable pub retry_after_from : ℕ → ℕ → List String → Limiter → ℕ × Limiter
unfolding live_locked
retry_after_from longest now [] l = (longest, l)
retry_after_from longest now (k ∷ keys) l =
    let (ts, l') = live_locked now k l in
    retry_after_from (longer longest (wait_for l.max_attempts l.window now ts)) now keys l'

unfoldable pub retry_after : ℕ → List String → Limiter → ℕ × Limiter
unfolding retry_after_from
retry_after now keys l = retry_after_from 0 now keys l
