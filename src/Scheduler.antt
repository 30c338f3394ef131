-- ===== src/Scheduler.antt =====
-- internal/scheduler/scheduler.go: the manager of the check loops. A goroutine is an entry of
-- `loops`; a context is a number, which its cancel function and its loop carry.
pub mod Tracking
pub mod Running
pub mod Wait
pub mod Drain
pub mod Loop
mod Tests
use uptime_monitor_api.Base.{
  ℕ, ◌+◌, Bool, true, false, not, ◌&&◌, Option, none, some, List, [], ◌∷◌, ◌++◌, String, ◌==◌,
  if◌then◌else◌,
}
use uptime_monitor_api.Base.Text.{str_eq}
use uptime_monitor_api.Base.Dict.{Dict, get, put, delete}
use uptime_monitor_api.Config.{SiteConfig}
use uptime_monitor_api.Site.Tick.{Transition}

-- Where a goroutine is: at its ticks, or returned because its context was done or because its store
-- did not open.
pub data Phase : Type 0 where
  at_work finished unopened : Phase

abbrev pub is_at_work : Phase → Bool
is_at_work at_work = true
is_at_work _ = false

abbrev pub leave : Phase → Phase → Phase
leave p at_work = p
leave p q = q

pub record Goroutine : Type 0 where
  pub ctx : ℕ
  pub site : SiteConfig
  pub cancelled : Bool
  pub phase : Phase

-- `W` is what the transition hook acts on. The wait group stands for the loops that have not
-- returned.
pub record Manager (W : Type 0) : Type 0 where
  pub cancels : Dict ℕ
  pub loops : List Goroutine
  pub next : ℕ
  pub on_trans : Option (SiteConfig → Transition → W → W)

abbrev pub cancel : ℕ → List Goroutine → List Goroutine
cancel n [] = []
cancel n (l ∷ ls) = (if l.ctx == n then record l { cancelled = true } else l) ∷ cancel n ls

abbrev pub cancel_all : Dict ℕ → List Goroutine → List Goroutine
cancel_all [] ls = ls
cancel_all ((id, n) ∷ cs) ls = cancel_all cs (cancel n ls)

-- The case that a `select` takes: Go chooses any of those that are ready.
pub data Ready : Type 0 where
  ctx_done ticker_fires : Ready

-- The first case: the loop returns.
abbrev pub select_done : ℕ → List Goroutine → List Goroutine
select_done n [] = []
select_done n (l ∷ ls) =
    (if l.ctx == n && l.cancelled then record l { phase = leave finished l.phase } else l)
    ∷ select_done n ls

abbrev pub return_at : ℕ → List Goroutine → List Goroutine
return_at n [] = []
return_at n (l ∷ ls) =
    (if l.ctx == n then record l { phase = leave unopened l.phase } else l) ∷ return_at n ls

-- The `select` of a loop; a tick does not touch the manager.
abbrev pub select_ready : Ready → ℕ → List Goroutine → List Goroutine
select_ready ctx_done n ls = select_done n ls
select_ready ticker_fires n ls = ls

module _ {W : Type 0} where
  -- `NewManager`
  abbrev pub new_manager : Manager W
  new_manager = record { cancels = []; loops = []; next = 0; on_trans = none }

  -- `OnTransition`
  unfoldable pub on_transition : Option (SiteConfig → Transition → W → W) → Manager W → Manager W
  on_transition f m = record m { on_trans = f }

  -- `stopLocked`
  unfoldable pub stop_locked : String → Manager W → Manager W
  unfolding get delete
  stop_locked id m = elim (get id m.cancels) [
    | none ↦ m
    | some n ↦ record m { cancels = delete id m.cancels; loops = cancel n m.loops }
  ]

  -- What `Start` does after `stopLocked`.
  abbrev pub launch : SiteConfig → Manager W → Manager W
  launch site m = record m {
    cancels = put site.id m.next m.cancels;
    loops =
        m.loops ++ record { ctx = m.next; site = site; cancelled = false; phase = at_work } ∷ [];
    next = m.next + 1;
  }

  -- `Start`
  unfoldable pub start : SiteConfig → Manager W → Manager W
  unfolding stop_locked put
  start site m = launch site (stop_locked site.id m)

  -- `Stop`
  unfoldable pub stop : String → Manager W → Manager W
  unfolding stop_locked
  stop id m = stop_locked id m

  -- `Restart`
  unfoldable pub restart : SiteConfig → Manager W → Manager W
  unfolding start stop
  restart site m = let m' = stop site.id m in if site.enabled then start site m' else m'

  -- `StartAll`
  unfoldable pub start_all : List SiteConfig → Manager W → Manager W
  unfolding start
  start_all [] m = m
  start_all (s ∷ ss) m = let m' = (if s.enabled then start s m else m) in start_all ss m'

  -- `Shutdown`, up to its wait
  unfoldable pub shutdown : Manager W → Manager W
  shutdown m = record m { cancels = []; loops = cancel_all m.cancels m.loops }

  -- `transitionHook`, and the call of the hook unless it is nil
  unfoldable pub notify : Manager W → SiteConfig → Transition → W → W
  notify m site tr w = elim m.on_trans [ none ↦ w | some hook ↦ hook site tr w ]

-- The calls of the manager, and what its goroutines do to it: a loop comes to its `select`, or returns
-- because its store does not open.
pub data Move : Type 0 where
  starts restarts : SiteConfig → Move
  stops : String → Move
  starts_all : List SiteConfig → Move
  shuts_down : Move
  selects : ℕ → Ready → Move
  open_fails : ℕ → Move

module _ {W : Type 0} where
  unfoldable pub move : Move → Manager W → Manager W
  unfolding start restart stop start_all shutdown
  move (starts s) m = start s m
  move (restarts s) m = restart s m
  move (stops id) m = stop id m
  move (starts_all ss) m = start_all ss m
  move shuts_down m = shutdown m
  move (selects n r) m = record m { loops = select_ready r n m.loops }
  move (open_fails n) m = record m { loops = return_at n m.loops }

  abbrev pub moves : List Move → Manager W → Manager W
  moves [] m = m
  moves (v ∷ vs) m = moves vs (move v m)
