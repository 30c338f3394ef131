-- ===== src/Auth/Limiter/History.antt =====
-- The limiter against its history of calls: a key is over the limit exactly when the failures
-- recorded for it since its last reset, in the last window, reach the limit.
use uptime_monitor_api.Base.{
  ℕ, ◌+◌, ◌≤◌, ◌<◌, ◌≡◌, ◌↔◌, refl, true, Bool-cases, inl, inr, List, [], ◌∷◌, ◌++◌, String, ltb,
  leb, length, arith, All, All-append, filter,
}
use uptime_monitor_api.Base.Int.{ℤ}
use uptime_monitor_api.Base.Text.{str_eq}
use uptime_monitor_api.Base.Dict.{get}
use uptime_monitor_api.Auth.Limiter.{
  Limiter, new_limiter, live, live_locked, allowed, record_failure, reset, retry_after,
  retry_after_from, attempts_of,
}
use uptime_monitor_api.Auth.Limiter.Window.{
  Agrees, fail_one, clear_one, Agrees-later, live_locked-live, live_locked-Agrees,
  record_one-Agrees, clear_one-Agrees,
}

abbrev pub Log : Type 0
Log = String → List ℕ

abbrev pub fail_keys : ℕ → List String → Log → Log
fail_keys now [] log = log
fail_keys now (k ∷ keys) log = fail_keys now keys (fail_one k now log)

abbrev pub clear_keys : List String → Log → Log
clear_keys [] log = log
clear_keys (k ∷ keys) log = clear_keys keys (clear_one k log)

-- A call of a method of the limiter, with the time at which it was made.
pub data Call : Type 0 where
  failure : List String → Call
  success : List String → Call
  question : List String → Call
  wait_question : List String → Call

pub perform : ℕ → Call → Limiter → Limiter
perform now (failure keys) l = record_failure now keys l
perform now (success keys) l = reset keys l
perform now (question keys) l = (allowed now keys l).1
perform now (wait_question keys) l = (retry_after now keys l).1

unfoldable pub perform_all : List (ℕ × Call) → Limiter → Limiter
unfolding perform
perform_all [] l = l
perform_all ((t, c) ∷ cs) l = perform_all cs (perform t c l)

-- The failures of each key since its last reset: pruning has no part in it.
abbrev pub note : ℕ → Call → Log → Log
note now (failure keys) log = fail_keys now keys log
note now (success keys) log = clear_keys keys log
note now (question keys) log = log
note now (wait_question keys) log = log

abbrev pub failures : List (ℕ × Call) → Log → Log
failures [] log = log
failures ((t, c) ∷ cs) log = failures cs (note t c log)

-- The clock does not go back: from `now` on, and up to `last`.
abbrev pub InOrder : ℕ → List (ℕ × Call) → ℕ → Type 0
InOrder now [] last = now ≤ last
InOrder now ((t, c) ∷ cs) last = (now ≤ t) × InOrder t cs last

module _ (max w : ℕ) where
  record_failure-Agrees :
      (now : ℕ) (keys : List String) (log : Log) (l : Limiter)
      → Agrees max w now log l
      → Agrees max w now (fail_keys now keys log) (record_failure now keys l)
  unfolding record_failure
  record_failure-Agrees now [] log l a = a
  record_failure-Agrees now (k ∷ keys) log l a =
      record_failure-Agrees now keys _ _ (record_one-Agrees max w now k log l a)

  reset-Agrees :
      (now : ℕ) (keys : List String) (log : Log) (l : Limiter)
      → Agrees max w now log l
      → Agrees max w now (clear_keys keys log) (reset keys l)
  unfolding reset
  reset-Agrees now [] log l a = a
  reset-Agrees now (k ∷ keys) log l a =
      reset-Agrees now keys _ _ (clear_one-Agrees max w now k log l a)

  allowed-Agrees :
      (now : ℕ) (keys : List String) (log : Log) (l : Limiter)
      → Agrees max w now log l
      → Agrees max w now log (allowed now keys l).1
  unfolding allowed
  allowed-Agrees now [] log l a = a
  allowed-Agrees now (k ∷ keys) log l a =
      elim (Bool-cases (leb l.max_attempts (length (live_locked now k l).0))) [
        | inl e ↦ rw e (live_locked-Agrees max w now k log l a)
        | inr e ↦ rw e (allowed-Agrees now keys log _ (live_locked-Agrees max w now k log l a))
      ]

  retry_after-Agrees :
      (now : ℕ) (keys : List String) (longest : ℕ) (log : Log) (l : Limiter)
      → Agrees max w now log l
      → Agrees max w now log (retry_after_from longest now keys l).1
  unfolding retry_after_from
  retry_after-Agrees now [] longest log l a = a
  retry_after-Agrees now (k ∷ keys) longest log l a =
      retry_after-Agrees now keys _ log _ (live_locked-Agrees max w now k log l a)

  perform-Agrees :
      (now : ℕ) (c : Call) (log : Log) (l : Limiter)
      → Agrees max w now log l
      → Agrees max w now (note now c log) (perform now c l)
  unfolding perform retry_after
  perform-Agrees now (failure keys) log l a = record_failure-Agrees now keys log l a
  perform-Agrees now (success keys) log l a = reset-Agrees now keys log l a
  perform-Agrees now (question keys) log l a = allowed-Agrees now keys log l a
  perform-Agrees now (wait_question keys) log l a = retry_after-Agrees now keys 0 log l a

  perform_all-Agrees :
      (now : ℕ) (cs : List (ℕ × Call)) (last : ℕ) (log : Log) (l : Limiter)
      → InOrder now cs last
      → Agrees max w now log l
      → Agrees max w last (failures cs log) (perform_all cs l)
  unfolding perform_all
  perform_all-Agrees now [] last log l h a = Agrees-later max w h a
  perform_all-Agrees now ((t, c) ∷ cs) last log l h a =
      perform_all-Agrees t cs last _ _ h.1 (perform-Agrees t c log l (Agrees-later max w h.0 a))

  -- The answers, by the log.
  allowed_by_log :
      (now : ℕ) (keys : List String) (log : Log) (l : Limiter)
      → Agrees max w now log l
      → ((allowed now keys l).0 ≡ true) ↔ All (λ k. length (live w now (log k)) < max) keys
  unfolding allowed
  allowed_by_log now [] log l a = (λ _. tt, λ _. refl)
  allowed_by_log now (k ∷ keys) log l a = ground (
    arith,
    allowed_by_log now keys log _ (live_locked-Agrees max w now k log l a),
    live_locked-live max w now k log l a,
    a.max_is,
  )

-- The times in a log ascend, and none is after `now`.
abbrev pub Ascends : List ℕ → Type 0
Ascends [] = Unit
Ascends (t ∷ ts) = All (λ u. t ≤ u) ts × Ascends ts

abbrev pub in_window : ℕ → ℕ → List ℕ → List ℕ
in_window w now = filter (λ t. ltb now (t + w))

in_window-All :
    (w now t : ℕ) (ts : List ℕ) → now < t + w → All (λ u. t ≤ u) ts → in_window w now ts ≡ ts
in_window-All w now t [] h a = refl
in_window-All w now t (u ∷ ts) h a = ground (arith, in_window-All w now t ts h a.1)

live-eq-in_window : (w now : ℕ) (ts : List ℕ) → Ascends ts → live w now ts ≡ in_window w now ts
unfolding live
live-eq-in_window w now [] a = refl
live-eq-in_window w now (t ∷ ts) a =
    ground (arith, live-eq-in_window w now ts a.1, in_window-All w now t ts)

abbrev IsTimely : ℕ → Log → Type 0
IsTimely now log = (k : String) → Ascends (log k) × All (λ t. t ≤ now) (log k)

Ascends-snoc :
    (ts : List ℕ) (now : ℕ) → Ascends ts → All (λ t. t ≤ now) ts → Ascends (ts ++ now ∷ [])
Ascends-snoc [] now a b = (tt, tt)
Ascends-snoc (t ∷ ts) now a b = (All-append _ ts _ a.0 (b.0, tt), Ascends-snoc ts now a.1 b.1)

All-le :
    (ts : List ℕ) {now later : ℕ} → now ≤ later → All (λ t. t ≤ now) ts → All (λ t. t ≤ later) ts
All-le [] h b = tt
All-le (t ∷ ts) h b = (omega arith, All-le ts h b.1)

fail_one-IsTimely :
    (k : String) (now : ℕ) (log : Log) → IsTimely now log → IsTimely now (fail_one k now log)
fail_one-IsTimely k now log h j = elim (Bool-cases (str_eq k j)) [
  | inl e ↦
      rw e (Ascends-snoc (log j) now (h j).0 (h j).1, All-append _ (log j) _ (h j).1 (omega arith))
  | inr e ↦ rw e (h j)
]

clear_one-IsTimely :
    (k : String) (now : ℕ) (log : Log) → IsTimely now log → IsTimely now (clear_one k log)
clear_one-IsTimely k now log h j = elim (Bool-cases (str_eq k j)) [
  | inl e ↦ rw e (tt, tt)
  | inr e ↦ rw e (h j)
]

fail_keys-IsTimely :
    (now : ℕ) (keys : List String) (log : Log)
    → IsTimely now log
    → IsTimely now (fail_keys now keys log)
fail_keys-IsTimely now [] log h = h
fail_keys-IsTimely now (k ∷ keys) log h =
    fail_keys-IsTimely now keys _ (fail_one-IsTimely k now log h)

clear_keys-IsTimely :
    (now : ℕ) (keys : List String) (log : Log)
    → IsTimely now log
    → IsTimely now (clear_keys keys log)
clear_keys-IsTimely now [] log h = h
clear_keys-IsTimely now (k ∷ keys) log h =
    clear_keys-IsTimely now keys _ (clear_one-IsTimely k now log h)

note-IsTimely : (now : ℕ) (c : Call) (log : Log) → IsTimely now log → IsTimely now (note now c log)
note-IsTimely now (failure keys) log h = fail_keys-IsTimely now keys log h
note-IsTimely now (success keys) log h = clear_keys-IsTimely now keys log h
note-IsTimely now (question keys) log h = h
note-IsTimely now (wait_question keys) log h = h

failures-IsTimely :
    (now : ℕ) (cs : List (ℕ × Call)) (last : ℕ) (log : Log)
    → InOrder now cs last
    → IsTimely now log
    → IsTimely last (failures cs log)
failures-IsTimely now [] last log o h = λ k. ((h k).0, All-le (log k) o (h k).1)
failures-IsTimely now ((t, c) ∷ cs) last log o h =
    failures-IsTimely t cs last _ o.1
      (note-IsTimely t c log (λ k. ((h k).0, All-le (log k) o.0 (h k).1)))

abbrev pub no_failures : Log
no_failures k = []

new-Agrees :
    (max window : ℤ)
    → let l = new_limiter max window in Agrees l.max_attempts l.window 0 no_failures l
unfolding new_limiter attempts_of get
new-Agrees max window = record { max_is = refl; window_is = refl; view = λ k later h. refl }

All-map :
    (P Q : String → Type 0) (keys : List String)
    → ((k : String) → P k → Q k)
    → All P keys
    → All Q keys
All-map P Q [] f h = tt
All-map P Q (k ∷ keys) f h = (f k h.0, All-map P Q keys f h.1)

-- For a limiter built by `NewLimiter` and used by any calls at times that do not go back: `Allowed`
-- holds exactly when each of the keys has fewer than the maximum of failures, recorded since its
-- last reset, in the window before now.
pub allowed-iff-in_window :
    (max window : ℤ) (cs : List (ℕ × Call)) (now : ℕ) (keys : List String)
    → InOrder 0 cs now
    → let l = new_limiter max window in
      ((allowed now keys (perform_all cs l)).0 ≡ true)
      ↔ All (λ k. length (in_window l.window now (failures cs no_failures k)) < l.max_attempts) keys
allowed-iff-in_window max window cs now keys o =
    let l = new_limiter max window in
    let (to, from) =
      allowed_by_log l.max_attempts l.window now keys (failures cs no_failures) (perform_all cs l) (
        perform_all-Agrees l.max_attempts l.window 0 cs now no_failures l o
          (new-Agrees max window)) in
    let same = λ (k : String).
      live-eq-in_window l.window now (failures cs no_failures k)
        (failures-IsTimely 0 cs now no_failures o (λ _. (tt, tt)) k).0 in
    (
      (λ h. All-map _ _ keys (λ k p. rw (← same k) p) (to h)),
      (λ h. from (All-map _ _ keys (λ k p. rw (same k) p) h)),
    )
