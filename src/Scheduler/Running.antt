-- ===== src/Scheduler/Running.antt =====
-- Which check loops run: the manager against the map from a site's id to the configuration that
-- was started last.
use uptime_monitor_api.Base.{
  ℕ, ◌+◌, ◌<◌, ◌≡◌, refl, Bool, true, false, not, ◌||◌, Option, none, some, List, [], ◌∷◌, String,
  if◌then◌else◌, All, All-append, arith, Option-cases, inl, inr, ◌∙◌, ap,
}
use uptime_monitor_api.Base.Text.{str_eq, eq_iff}
use uptime_monitor_api.Base.Dict.{get, put, delete, get-put, get-delete}
use uptime_monitor_api.Config.{SiteConfig}
use uptime_monitor_api.Site.Tick.{Transition}
use uptime_monitor_api.Scheduler.Drain.{Cancelled, Reached, get-any, Cancelled-cancel_all}
use uptime_monitor_api.Scheduler.{
  Manager, new_manager, stop_locked, launch, start, stop, restart, start_all, shutdown, Move,
  starts, restarts, stops, starts_all, shuts_down, selects, at_work, Goroutine, open_fails, move,
  moves, on_transition,
}
use uptime_monitor_api.Scheduler.Tracking.{
  uncancelled, is_finished, Tracked, All-cancel, Tracked-cancel, uncancelled-cancel,
  uncancelled-none, uncancelled-append, All-map, Tracked-put, uncancelled-Cancelled, All-Cancelled,
  ctx-cancel_all, uncancelled-select_ready, uncancelled-return_at, Tracked-select_ready,
  Tracked-return_at,
}

-- The abstract view: what runs for each id.
abbrev pub Plan : Type 0
Plan = String → Option SiteConfig

abbrev pub plan_stop : String → Plan → Plan
plan_stop id f k = if str_eq id k then none else f k

abbrev pub plan_start : SiteConfig → Plan → Plan
plan_start s f k = if str_eq s.id k then some s else f k

abbrev pub plan_start_all : List SiteConfig → Plan → Plan
plan_start_all [] f = f
plan_start_all (s ∷ ss) f = plan_start_all ss (if s.enabled then plan_start s f else f)

unfoldable pub plan : Move → Plan → Plan
plan (starts s) f = plan_start s f
plan (restarts s) f = if s.enabled then plan_start s f else plan_stop s.id f
plan (stops id) f = plan_stop id f
plan (starts_all ss) f = plan_start_all ss f
plan shuts_down f = λ k. none
plan (selects n r) f = f
plan (open_fails n) f = f

abbrev pub plans : List Move → Plan → Plan
plans [] f = f
plans (v ∷ vs) f = plans vs (plan v f)

abbrev pub at_most_one : Option SiteConfig → List SiteConfig
at_most_one none = []
at_most_one (some s) = s ∷ []

-- A loop that is not cancelled has not left through its `select`: it is at work, unless its store did
-- not open.
abbrev pub Loyal : Goroutine → Type 0
Loyal l = (l.cancelled || not (is_finished l.phase)) ≡ true

pub record Follows {W : Type 0} (m : Manager W) (f : Plan) : Type 0 where
  tracked : All (Tracked m.cancels m.next) m.loops
  cancels_below : (k : String) (n : ℕ) → get k m.cancels ≡ some n → n < m.next
  pub agrees : (k : String) → uncancelled k m.loops ≡ at_most_one (f k)

pub Follows-Loyal : {W : Type 0} (m : Manager W) (f : Plan) → Follows m f → All Loyal m.loops
Follows-Loyal m f h = All-map (Tracked m.cancels m.next) Loyal m.loops (λ l t. t.loyal) h.tracked

pub Follows-stop :
    {W : Type 0} (id : String) (m : Manager W) (f : Plan)
    → Follows m f
    → Follows (stop_locked id m) (plan_stop id f)
unfolding stop_locked
Follows-stop id m f h = elim (Option-cases (get id m.cancels)) [
  | inl e ↦
      rw (e, stop_locked)
        (record {
          tracked = h.tracked;
          cancels_below = h.cancels_below;
          agrees = λ k.
              let a = h.agrees k in
              let none_runs = uncancelled-none m.cancels m.next k m.loops in
              let tracked = h.tracked in ground (arith, a, none_runs, e, tracked, eq_iff id k);
        })
  | inr (n, e) ↦
      rw (e, stop_locked)
        (record {
          tracked =
              All-cancel (Tracked m.cancels m.next) (Tracked (delete id m.cancels) m.next) n m.loops
                (Tracked-cancel m.cancels m.next id n e) h.tracked;
          cancels_below = λ k j p.
              let below = h.cancels_below k j in
              ground (arith, below, p, get-delete id k m.cancels);
          agrees = λ k.
              let a = h.agrees k in
              let run = uncancelled-cancel m.cancels m.next id n k m.loops e h.tracked in
              ground (arith, a, run);
        })
]

Follows-launch :
    {W : Type 0} (s : SiteConfig) (m : Manager W) (f : Plan)
    → Follows m f
    → get s.id m.cancels ≡ none
    → f s.id ≡ none
    → Follows (launch s m) (plan_start s f)
Follows-launch s m f h e free = record {
  tracked =
      All-append (Tracked (put s.id m.next m.cancels) (m.next + 1)) m.loops _
        (All-map (Tracked m.cancels m.next) _ m.loops (Tracked-put m.cancels m.next s.id e)
          h.tracked)
        (
          record {
            below = omega arith;
            loyal = refl;
            held = λ _. ground (arith, get-put s.id s.id m.next m.cancels, eq_iff s.id s.id);
            named = λ k p.
                let below = h.cancels_below k m.next in
                ground (arith, p, below, get-put s.id k m.next m.cancels, eq_iff s.id k);
          },
          tt,
        );
  cancels_below = λ k n p.
      let below = h.cancels_below k n in ground (arith, p, below, get-put s.id k m.next m.cancels);
  agrees = λ k.
      let a = h.agrees k in
      ground (
        arith,
        a,
        free,
        eq_iff s.id k,
        uncancelled-append k m.loops
            (record { ctx = m.next; site = s; cancelled = false; phase = at_work } ∷ []),
      );
}

pub Follows-ext :
    {W : Type 0} (m : Manager W) (f g : Plan)
    → ((k : String) → f k ≡ g k)
    → Follows m f
    → Follows m g
Follows-ext m f g e h = record {
  tracked = h.tracked;
  cancels_below = h.cancels_below;
  agrees = λ k. h.agrees k ∙ ap at_most_one (e k);
}

get-stop_locked :
    {W : Type 0} (id : String) (m : Manager W) → get id (stop_locked id m).cancels ≡ none
unfolding stop_locked
get-stop_locked id m = elim (Option-cases (get id m.cancels)) [
  | inl e ↦ rw (e, stop_locked) e
  | inr (n, e) ↦ rw (e, stop_locked) (ground (arith, get-delete id id m.cancels, eq_iff id id))
]

pub Follows-start :
    {W : Type 0} (s : SiteConfig) (m : Manager W) (f : Plan)
    → Follows m f
    → Follows (start s m) (plan_start s f)
unfolding start
Follows-start s m f h =
    Follows-ext _ (plan_start s (plan_stop s.id f)) _ (λ k. ground arith)
      (Follows-launch s (stop_locked s.id m) (plan_stop s.id f) (Follows-stop s.id m f h)
        (get-stop_locked s.id m) (ground (arith, eq_iff s.id s.id)))

Follows-if :
    {W : Type 0} (b : Bool) (m m' : Manager W) (f g : Plan)
    → Follows m f
    → Follows m' g
    → Follows (if b then m else m') (if b then f else g)
Follows-if true m m' f g h k = h
Follows-if false m m' f g h k = k

pub Follows-restart :
    {W : Type 0} (s : SiteConfig) (m : Manager W) (f : Plan)
    → Follows m f
    → Follows (restart s m) (if s.enabled then plan_start s f else plan_stop s.id f)
unfolding restart stop
Follows-restart s m f h =
    Follows-if s.enabled _ _ _ _
      (Follows-ext _ (plan_start s (plan_stop s.id f)) _ (λ k. ground arith)
        (Follows-start s (stop_locked s.id m) (plan_stop s.id f) (Follows-stop s.id m f h)))
      (Follows-stop s.id m f h)

pub Follows-start_all :
    {W : Type 0} (ss : List SiteConfig) (m : Manager W) (f : Plan)
    → Follows m f
    → Follows (start_all ss m) (plan_start_all ss f)
unfolding start_all
Follows-start_all [] m f h = h
Follows-start_all (s ∷ ss) m f h =
    Follows-start_all ss _ _
      (Follows-if s.enabled (start s m) m (plan_start s f) f (Follows-start s m f h) h)

pub Follows-Cancelled :
    {W : Type 0} (m : Manager W) (f : Plan) → Follows m f → All Cancelled (shutdown m).loops
unfolding shutdown
Follows-Cancelled m f h = Cancelled-cancel_all m.cancels m.loops (
    All-map (Tracked m.cancels m.next) (Reached m.cancels) m.loops
      (λ l t p. get-any l.site.id l.ctx m.cancels (t.held p)) h.tracked)

Follows-shutdown :
    {W : Type 0} (m : Manager W) (f : Plan) → Follows m f → Follows (shutdown m) (λ k. none)
unfolding shutdown get
Follows-shutdown m f h =
    let cancelled = Follows-Cancelled m f h in
    record {
      tracked = All-Cancelled m.cancels m.next _ cancelled (
          ctx-cancel_all (λ n. n < m.next) m.cancels m.loops
            (All-map (Tracked m.cancels m.next) _ m.loops (λ l t. t.below) h.tracked));
      cancels_below = λ k n p. cc;
      agrees = λ k. uncancelled-Cancelled k _ cancelled;
    }

pub Follows-move :
    {W : Type 0} (v : Move) (m : Manager W) (f : Plan) → Follows m f → Follows (move v m) (plan v f)
unfolding move plan stop
Follows-move (starts s) m f h = Follows-start s m f h
Follows-move (restarts s) m f h = Follows-restart s m f h
Follows-move (stops id) m f h = Follows-stop id m f h
Follows-move (starts_all ss) m f h = Follows-start_all ss m f h
Follows-move shuts_down m f h = Follows-shutdown m f h
Follows-move (selects n r) m f h = record {
  tracked = Tracked-select_ready m.cancels m.next r n m.loops h.tracked;
  cancels_below = h.cancels_below;
  agrees = λ k. uncancelled-select_ready k r n m.loops ∙ h.agrees k;
}
Follows-move (open_fails n) m f h = record {
  tracked = Tracked-return_at m.cancels m.next n m.loops h.tracked;
  cancels_below = h.cancels_below;
  agrees = λ k. uncancelled-return_at k n m.loops ∙ h.agrees k;
}

pub Follows-on_transition :
    {W : Type 0} (hook : Option (SiteConfig → Transition → W → W)) (m : Manager W) (f : Plan)
    → Follows m f
    → Follows (on_transition hook m) f
unfolding on_transition
Follows-on_transition hook m f h = record {
  tracked = h.tracked;
  cancels_below = h.cancels_below;
  agrees = h.agrees;
}

Follows-moves :
    {W : Type 0} (vs : List Move) (m : Manager W) (f : Plan)
    → Follows m f
    → Follows (moves vs m) (plans vs f)
Follows-moves [] m f h = h
Follows-moves (v ∷ vs) m f h = Follows-moves vs (move v m) (plan v f) (Follows-move v m f h)

pub Follows-new :
    {W : Type 0} (vs : List Move) → Follows {W = W} (moves vs new_manager) (plans vs (λ k. none))
unfolding get
Follows-new vs =
    Follows-moves vs new_manager (λ k. none)
      (record { tracked = tt; cancels_below = λ k n p. cc; agrees = λ k. refl })

-- After any sequence of `Start`, `Stop`, `Restart`, `StartAll` and `Shutdown` calls on a new manager,
-- with any steps of its goroutines in between: the loops of a site that are not cancelled are those of
-- the abstract plan, which is one, with the configuration that was started last, where the last call
-- that concerns the site started it, and none otherwise; and no loop that is not cancelled has returned,
-- unless its store did not open.
pub moves-plans :
    (W : Type 0) (vs : List Move) (k : String)
    → (uncancelled k (moves {W = W} vs new_manager).loops ≡ at_most_one (plans vs (λ _. none) k))
      × All Loyal (moves {W = W} vs new_manager).loops
moves-plans W vs k = ((Follows-new vs).agrees k, Follows-Loyal _ _ (Follows-new vs))
