-- ===== src/Db/Errors.antt =====
-- How an action ends whose error is seen otherwise by its caller.
use uptime_monitor_api.Base.{refl}
use uptime_monitor_api.Db.{Exec, Result, ok, err, Error, Faults, map_error}
use uptime_monitor_api.Db.Runs.{Commits, CommitsAt, Refuses, RefusesAt}

module _ {S A : Type 0} where
  pub Commits-map_error :
      (f : Error → Error) {m : Exec S A} {s : S} {a : A} {s' : S}
      → Commits m s a s'
      → Commits (map_error f m) s a s'
  unfolding map_error
  Commits-map_error f {m} {s} {a} {s'} c = record { at = λ fs. go fs (m s fs) (c.at fs) }
    where
      go :
          (fs : Faults) (o : Result A × S × Faults)
          → CommitsAt s a s' fs o
          → CommitsAt s a s' fs
              (let (r, t, gs) = o in elim r [ ok x ↦ (ok x, t, gs) | err e ↦ (err (f e), t, gs) ])
      go fs (ok x, t, gs) h = h
      go fs (err e, t, gs) h = h

  pub Refuses-map_error :
      (f : Error → Error) {m : Exec S A} {s : S} {e : Error}
      → Refuses m s e
      → Refuses (map_error f m) s (f e)
  unfolding map_error
  Refuses-map_error f {m} {s} {e} c = record { at = λ fs. go fs (m s fs) (c.at fs) }
    where
      go :
          (fs : Faults) (o : Result A × S × Faults)
          → RefusesAt {A = A} s e fs o
          → RefusesAt {A = A} s
              (f e)
              fs
              (let (r, t, gs) = o in elim r [ ok x ↦ (ok x, t, gs) | err x ↦ (err (f x), t, gs) ])
      go fs (ok x, t, gs) h = h
      go fs (err x, t, gs) (p, q) = (p, λ z. rw (q z) refl)
