-- ===== src/Auth/Tests.antt =====
-- The limiter's theorems at a concrete history.
use uptime_monitor_api.Base.{
  ◌≡◌, ◌↔◌, ◌<◌, ℕ, List, [], ◌∷◌, String, true, false, length, All, arith,
}
use uptime_monitor_api.Base.Int.{pos}
use uptime_monitor_api.Auth.Limiter.{Limiter, new_limiter, allowed, retry_after}
use uptime_monitor_api.Auth.Limiter.History.{
  Call, failure, success, perform_all, failures, no_failures, in_window, allowed-iff-in_window,
}
use uptime_monitor_api.Auth.Limiter.Retry.{retry_after-pos_iff}

-- Two failures, a success that forgets them, and one more failure.
abbrev history : List (ℕ × Call)
history =
    (10, failure ("user:a" ∷ "ip:1" ∷ []))
    ∷ (20, failure ("user:a" ∷ "ip:1" ∷ []))
    ∷ (30, success ("user:a" ∷ "ip:1" ∷ []))
    ∷ (40, failure ("user:a" ∷ "ip:2" ∷ []))
    ∷ []

abbrev keys : List String
keys = "user:a" ∷ "ip:1" ∷ []

allowed-iff-in_window_example :
    let l = new_limiter (pos 2) (pos 100) in
    ((allowed 50 keys (perform_all history l)).0 ≡ true)
    ↔ All
        (λ k. length (in_window l.window 50 (failures history no_failures k)) < l.max_attempts)
        keys
allowed-iff-in_window_example =
    allowed-iff-in_window (pos 2) (pos 100) history 50 keys
      (omega arith, (omega arith, (omega arith, (omega arith, omega arith))))

abbrev full : Limiter
full = record { max_attempts = 2; window = 100; attempts = ("user:a", 10 ∷ 20 ∷ []) ∷ [] }

retry_after-pos_iff_example :
    (0 < (retry_after 30 keys full).0) ↔ ((allowed 30 keys full).0 ≡ false)
retry_after-pos_iff_example = retry_after-pos_iff 30 keys full (omega arith)
