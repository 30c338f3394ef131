-- ===== src/Scheduler/Tracking.antt =====
-- The contexts of the check loops, their cancel functions, and the loops that are not cancelled.
use uptime_monitor_api.Base.{
  ℕ, ◌+◌, ◌<◌, ◌≡◌, refl, Bool, true, false, not, ◌&&◌, ◌||◌, none, some, List, [], ◌∷◌, ◌++◌,
  String, ◌==◌, if◌then◌else◌, All, arith, Bool-cases, inl, inr,
}
use uptime_monitor_api.Base.Text.{str_eq, eq_iff}
use uptime_monitor_api.Base.Dict.{Dict, get, put, delete, get-put, get-delete}
use uptime_monitor_api.Config.{SiteConfig}
use uptime_monitor_api.Scheduler.Drain.{Cancelled}
use uptime_monitor_api.Scheduler.{
  Goroutine, Phase, at_work, finished, unopened, leave, Ready, ctx_done, ticker_fires, cancel,
  cancel_all, select_done, return_at, select_ready,
}

-- The configurations of the loops of a site that are not cancelled.
abbrev pub uncancelled : String → List Goroutine → List SiteConfig
uncancelled k [] = []
uncancelled k (l ∷ ls) =
    if not l.cancelled && str_eq l.site.id k then l.site ∷ uncancelled k ls else uncancelled k ls

-- Whether a goroutine has returned because its context was done.
abbrev pub is_finished : Phase → Bool
is_finished finished = true
is_finished _ = false

-- A loop's context is its own: a live one is the one that its site's cancel function stops.
pub record Tracked (cancels : Dict ℕ) (next : ℕ) (l : Goroutine) : Type 0 where
  pub below : l.ctx < next
  pub loyal : (l.cancelled || not (is_finished l.phase)) ≡ true
  pub held : l.cancelled ≡ false → get l.site.id cancels ≡ some l.ctx
  pub named : (k : String) → get k cancels ≡ some l.ctx → l.site.id ≡ k

pub All-cancel :
    (P Q : Goroutine → Type 0) (n : ℕ) (ls : List Goroutine)
    → ((l : Goroutine) → P l → Q (if l.ctx == n then record l { cancelled = true } else l))
    → All P ls
    → All Q (cancel n ls)
All-cancel P Q n [] f h = tt
All-cancel P Q n (l ∷ ls) f h = (f l h.0, All-cancel P Q n ls f h.1)

pub Tracked-cancel :
    (cs : Dict ℕ) (next : ℕ) (id : String) (n : ℕ)
    → get id cs ≡ some n
    → (l : Goroutine) → Tracked cs next l
    → Tracked (delete id cs) next (if l.ctx == n then record l { cancelled = true } else l)
Tracked-cancel cs next id n e l t = record {
  below = let b = t.below in ground arith;
  loyal = let y = t.loyal in ground arith;
  held = λ h.
      let held = t.held in
      let named = t.named id in
      ground (arith, h, held, named, e, eq_iff id l.site.id, get-delete id l.site.id cs);
  named =
      λ k h. let named = t.named k in ground (arith, h, named, e, eq_iff id k, get-delete id k cs);
}

pub uncancelled-cancel :
    (cs : Dict ℕ) (next : ℕ) (id : String) (n : ℕ) (k : String) (ls : List Goroutine)
    → get id cs ≡ some n
    → All (Tracked cs next) ls
    → uncancelled k (cancel n ls) ≡ (if str_eq id k then [] else uncancelled k ls)
uncancelled-cancel cs next id n k [] e h = ground arith
uncancelled-cancel cs next id n k (l ∷ ls) e h =
    let held = h.0.held in
    let named = h.0.named id in
    ground (
      arith,
      held,
      named,
      e,
      eq_iff l.site.id k,
      eq_iff id k,
      uncancelled-cancel cs next id n k ls e h.1,
    )

pub uncancelled-none :
    (cs : Dict ℕ) (next : ℕ) (k : String) (ls : List Goroutine)
    → get k cs ≡ none
    → All (Tracked cs next) ls
    → uncancelled k ls ≡ []
uncancelled-none cs next k [] e h = refl
uncancelled-none cs next k (l ∷ ls) e h =
    let held = h.0.held in
    ground (arith, held, e, eq_iff l.site.id k, uncancelled-none cs next k ls e h.1)

pub uncancelled-append :
    (k : String) (xs ys : List Goroutine)
    → uncancelled k (xs ++ ys) ≡ uncancelled k xs ++ uncancelled k ys
uncancelled-append k [] ys = refl
uncancelled-append k (x ∷ xs) ys = ground (arith, uncancelled-append k xs ys)

pub All-map :
    (P Q : Goroutine → Type 0) (ls : List Goroutine)
    → ((l : Goroutine) → P l → Q l)
    → All P ls
    → All Q ls
All-map P Q [] f h = tt
All-map P Q (l ∷ ls) f h = (f l h.0, All-map P Q ls f h.1)

pub Tracked-put :
    (cs : Dict ℕ) (next : ℕ) (id : String)
    → get id cs ≡ none
    → (l : Goroutine) → Tracked cs next l
    → Tracked (put id next cs) (next + 1) l
Tracked-put cs next id e l t = record {
  below = let b = t.below in omega arith;
  loyal = t.loyal;
  held = λ h.
      let held = t.held h in
      ground (arith, held, e, eq_iff id l.site.id, get-put id l.site.id next cs);
  named = λ k h.
      let named = t.named k in
      let below = t.below in ground (arith, h, named, below, e, eq_iff id k, get-put id k next cs);
}

pub uncancelled-Cancelled :
    (k : String) (ls : List Goroutine) → All Cancelled ls → uncancelled k ls ≡ []
uncancelled-Cancelled k [] h = refl
uncancelled-Cancelled k (l ∷ ls) h =
    let c = h.0 in ground (arith, c, uncancelled-Cancelled k ls h.1)

pub All-Cancelled :
    (cs : Dict ℕ) (next : ℕ) (ls : List Goroutine)
    → All Cancelled ls
    → All (λ l. l.ctx < next) ls
    → All (Tracked [] next) ls
unfolding get
All-Cancelled cs next [] h b = tt
All-Cancelled cs next (l ∷ ls) h b = (
  record {
    below = b.0;
    loyal = let c = h.0 in ground (arith, c);
    held = let c = h.0 in λ p. cc;
    named = λ k p. cc;
  },
  All-Cancelled cs next ls h.1 b.1,
)

pub ctx-cancel_all :
    (P : ℕ → Type 0) (cs : Dict ℕ) (ls : List Goroutine)
    → All (λ l. P l.ctx) ls
    → All (λ l. P l.ctx) (cancel_all cs ls)
ctx-cancel_all P [] ls h = h
ctx-cancel_all P ((k, n) ∷ cs) ls h = ctx-cancel_all P cs (cancel n ls) (
    All-cancel (λ l. P l.ctx) _ n ls
      (λ l b. elim (Bool-cases (l.ctx == n)) [ inl e ↦ rw e b | inr e ↦ rw e b ]) h)

pub uncancelled-select_done :
    (k : String) (n : ℕ) (ls : List Goroutine) → uncancelled k (select_done n ls) ≡ uncancelled k ls
uncancelled-select_done k n [] = refl
uncancelled-select_done k n (l ∷ ls) = ground (arith, uncancelled-select_done k n ls)

pub uncancelled-select_ready :
    (k : String) (r : Ready) (n : ℕ) (ls : List Goroutine)
    → uncancelled k (select_ready r n ls) ≡ uncancelled k ls
uncancelled-select_ready k ctx_done n ls = uncancelled-select_done k n ls
uncancelled-select_ready k ticker_fires n ls = refl

pub uncancelled-return_at :
    (k : String) (n : ℕ) (ls : List Goroutine) → uncancelled k (return_at n ls) ≡ uncancelled k ls
uncancelled-return_at k n [] = refl
uncancelled-return_at k n (l ∷ ls) = ground (arith, uncancelled-return_at k n ls)

-- A loop that leaves for a reason `p`: for a done context only where it is cancelled.
Tracked-leave :
    (cs : Dict ℕ) (next : ℕ) (p : Phase) (b : Bool) (l : Goroutine)
    → (b ≡ true → (l.cancelled || not (is_finished p)) ≡ true)
    → Tracked cs next l
    → Tracked cs next (if b then record l { phase = leave p l.phase } else l)
Tracked-leave cs next p true l h t = record {
  below = t.below;
  loyal = left l.phase t.loyal;
  held = t.held;
  named = t.named;
}
  where
    left :
        (q : Phase)
        → (l.cancelled || not (is_finished q)) ≡ true
        → (l.cancelled || not (is_finished (leave p q))) ≡ true
    left at_work k = h refl
    left finished k = k
    left unopened k = k
Tracked-leave cs next p false l h t = t

Tracked-select_done :
    (cs : Dict ℕ) (next n : ℕ) (ls : List Goroutine)
    → All (Tracked cs next) ls
    → All (Tracked cs next) (select_done n ls)
Tracked-select_done cs next n [] h = tt
Tracked-select_done cs next n (l ∷ ls) h = (
  Tracked-leave cs next finished (l.ctx == n && l.cancelled) l (λ e. ground (arith, e)) h.0,
  Tracked-select_done cs next n ls h.1,
)

pub Tracked-select_ready :
    (cs : Dict ℕ) (next : ℕ) (r : Ready) (n : ℕ) (ls : List Goroutine)
    → All (Tracked cs next) ls
    → All (Tracked cs next) (select_ready r n ls)
Tracked-select_ready cs next ctx_done n ls h = Tracked-select_done cs next n ls h
Tracked-select_ready cs next ticker_fires n ls h = h

pub Tracked-return_at :
    (cs : Dict ℕ) (next n : ℕ) (ls : List Goroutine)
    → All (Tracked cs next) ls
    → All (Tracked cs next) (return_at n ls)
Tracked-return_at cs next n [] h = tt
Tracked-return_at cs next n (l ∷ ls) h = (
  Tracked-leave cs next unopened (l.ctx == n) l (λ e. ground arith) h.0,
  Tracked-return_at cs next n ls h.1,
)
