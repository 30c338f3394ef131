-- ===== src/Scheduler/Wait.antt =====
-- internal/scheduler/scheduler.go: the wait of `Shutdown` for the goroutines of the loops.
use uptime_monitor_api.Base.{
  ℕ, ◌≡◌, refl, Bool, true, false, ◌&&◌, List, [], ◌∷◌, ◌==◌, any, All, filter, length, map, arith,
}
use uptime_monitor_api.Scheduler.{
  Goroutine, Manager, Ready, ctx_done, ticker_fires, Phase, at_work, finished, unopened, leave,
  is_at_work, new_manager, select_done, shutdown, Move, selects, move, moves,
}
use uptime_monitor_api.Scheduler.Drain.{Cancelled}
use uptime_monitor_api.Scheduler.Tracking.{ctx-cancel_all}
use uptime_monitor_api.Scheduler.Running.{Follows-new, Follows-Cancelled}

-- The count of the wait group.
abbrev pub outstanding : List Goroutine → ℕ
outstanding ls = length (filter (λ l. is_at_work l.phase) ls)

abbrev pub is_done : Ready → Bool
is_done ctx_done = true
is_done ticker_fires = false

-- A step of the loop with this context, and the case that its `select` takes.
abbrev pub Selection : Type 0
Selection = ℕ × Ready

-- The loop's `select` takes the case of the done context at least once.
abbrev pub Awaited : List Selection → Goroutine → Type 0
Awaited ss l = any (λ s. s.0 == l.ctx && is_done s.1) ss ≡ true

-- A cancelled loop that is still to find its context done.
abbrev Waiting : List Selection → Goroutine → Type 0
Waiting ss l = Cancelled l × (is_at_work l.phase ≡ true → Awaited ss l)

Waiting-none : (ls : List Goroutine) → All (Waiting []) ls → outstanding ls ≡ 0
Waiting-none [] h = refl
Waiting-none (l ∷ ls) h = let w = h.0.1 in ground (arith, w, Waiting-none ls h.1)

leave-away : (q : Phase) → is_at_work (leave finished q) ≡ false
leave-away at_work = refl
leave-away finished = refl
leave-away unopened = refl

Waiting-select_done :
    (n : ℕ) (ss : List Selection) (ls : List Goroutine)
    → All (Waiting ((n, ctx_done) ∷ ss)) ls
    → All (Waiting ss) (select_done n ls)
Waiting-select_done n ss [] h = tt
Waiting-select_done n ss (l ∷ ls) h =
    let c = h.0.0 in
    let w = h.0.1 in
    let away = leave-away l.phase in
    ((ground (arith, c), λ e. ground (arith, c, w, e, away)), Waiting-select_done n ss ls h.1)

Waiting-ticker_fires :
    (n : ℕ) (ss : List Selection) (ls : List Goroutine)
    → All (Waiting ((n, ticker_fires) ∷ ss)) ls
    → All (Waiting ss) ls
Waiting-ticker_fires n ss [] h = tt
Waiting-ticker_fires n ss (l ∷ ls) h =
    let w = h.0.1 in ((h.0.0, λ e. ground (arith, w, e)), Waiting-ticker_fires n ss ls h.1)

abbrev pub steps : List Selection → List Move
steps = map (λ s. selects s.0 s.1)

Waiting-selects :
    (W : Type 0) (ss : List Selection) (m : Manager W)
    → All (Waiting ss) m.loops
    → outstanding (moves (steps ss) m).loops ≡ 0
unfolding move
Waiting-selects W [] m h = Waiting-none m.loops h
Waiting-selects W ((n, ctx_done) ∷ ss) m h =
    Waiting-selects W ss (move (selects n ctx_done) m) (Waiting-select_done n ss m.loops h)
Waiting-selects W ((n, ticker_fires) ∷ ss) m h =
    Waiting-selects W ss (move (selects n ticker_fires) m) (Waiting-ticker_fires n ss m.loops h)

both :
    (ss : List Selection) (ls : List Goroutine)
    → All Cancelled ls
    → All (Awaited ss) ls
    → All (Waiting ss) ls
both ss [] c a = tt
both ss (l ∷ ls) c a = ((c.0, λ _. a.0), both ss ls c.1 a.1)

-- After any sequence of calls, once `Shutdown` is called, the wait ends: whatever cases the `select`s
-- of the loops take, and in whatever order, no goroutine of the manager is left as soon as the `select`
-- of each has taken the case of the done context once, which is ready for all of them from then on.
pub shutdown-drains :
    (W : Type 0) (vs : List Move) (ss : List Selection)
    → All (Awaited ss) (moves {W = W} vs new_manager).loops
    → outstanding (moves (steps ss) (shutdown (moves {W = W} vs new_manager))).loops ≡ 0
unfolding shutdown
shutdown-drains W vs ss h =
    let m = moves {W = W} vs new_manager in
    Waiting-selects W ss (shutdown m) (
      both ss _ (Follows-Cancelled m _ (Follows-new vs))
        (ctx-cancel_all (λ c. any (λ s. s.0 == c && is_done s.1) ss ≡ true) m.cancels m.loops h))
