-- ===== src/Scheduler/Drain.antt =====
-- internal/scheduler/scheduler.go: `Shutdown`, and the wait for the loops that it stops.
use uptime_monitor_api.Base.{
  ℕ, ◌≡◌, true, false, some, List, [], ◌∷◌, String, ◌==◌, any, All, arith,
}
use uptime_monitor_api.Base.Dict.{Dict, get}
use uptime_monitor_api.Scheduler.{Goroutine, cancel, cancel_all}

abbrev pub Cancelled : Goroutine → Type 0
Cancelled l = l.cancelled ≡ true

-- A live loop's cancel function is in the map.
abbrev pub Reached : Dict ℕ → Goroutine → Type 0
Reached cs l = l.cancelled ≡ false → any (λ c. c.1 == l.ctx) cs ≡ true

pub get-any : (k : String) (n : ℕ) (cs : Dict ℕ) → get k cs ≡ some n → any (λ c. c.1 == n) cs ≡ true
unfolding get
get-any k n [] e = cc
get-any k n ((j, i) ∷ cs) e = ground (arith, get-any k n cs)

Reached-cancel :
    (k : String) (n : ℕ) (cs : Dict ℕ) (ls : List Goroutine)
    → All (Reached ((k, n) ∷ cs)) ls
    → All (Reached cs) (cancel n ls)
Reached-cancel k n cs [] h = tt
Reached-cancel k n cs (l ∷ ls) h =
    (let r = h.0 in λ e. ground (arith, r, e), Reached-cancel k n cs ls h.1)

Cancelled-none : (ls : List Goroutine) → All (Reached []) ls → All Cancelled ls
Cancelled-none [] h = tt
Cancelled-none (l ∷ ls) h = (let r = h.0 in ground (arith, r), Cancelled-none ls h.1)

pub Cancelled-cancel_all :
    (cs : Dict ℕ) (ls : List Goroutine) → All (Reached cs) ls → All Cancelled (cancel_all cs ls)
Cancelled-cancel_all [] ls h = Cancelled-none ls h
Cancelled-cancel_all ((k, n) ∷ cs) ls h =
    Cancelled-cancel_all cs (cancel n ls) (Reached-cancel k n cs ls h)
