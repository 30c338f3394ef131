-- ===== src/Db/Runs.antt =====
-- How an action ends: the rules by which the storage operations are verified statement by statement.
use uptime_monitor_api.Base.{
  ◌≡◌, refl, ◌≢◌, Option, none, some, [], ◌∷◌, Bool, true, false, if◌then◌else◌,
}
use uptime_monitor_api.Db.{
  Exec, Result, ok, err, Error, Faults, fault, after, pure, raise, ◌>>=◌, query, update,
  transaction, settle,
}

module _ {S A : Type 0} where
  abbrev pub RunsAt : A → S → Faults → Result A × S × Faults → Type 0
  RunsAt a done fs (ok a', s, fs') = (a' ≡ a) × (s ≡ done) × (fs ≡ [] → fs' ≡ [])
  RunsAt a done fs (err e, s, fs') = fs ≢ []

  abbrev pub CommitsAt : S → A → S → Faults → Result A × S × Faults → Type 0
  CommitsAt before a done fs (ok a', s, fs') = (a' ≡ a) × (s ≡ done) × (fs ≡ [] → fs' ≡ [])
  CommitsAt before a done fs (err e, s, fs') = (s ≡ before) × (fs ≢ [])

  abbrev pub RefusesAt : S → Error → Faults → Result A × S × Faults → Type 0
  RefusesAt before e fs (ok a, s, fs') = ⊥
  RefusesAt before e fs (err e', s, fs') = (s ≡ before) × (fs ≡ [] → e' ≡ e)

  -- From `s` the action answers `a` and leaves `done`; it fails only where the script has a fault,
  -- and with no fault in the script none is left in it.
  pub record Runs (m : Exec S A) (s : S) (a : A) (done : S) : Type 0 where
    pub at : (fs : Faults) → RunsAt a done fs (m s fs)

  -- The same of an atomic action: when it fails, the tables are as they were.
  pub record Commits (m : Exec S A) (s : S) (a : A) (done : S) : Type 0 where
    pub at : (fs : Faults) → CommitsAt s a done fs (m s fs)

  -- The action is refused with `e` and changes nothing, unless the engine fails first.
  pub record Refuses (m : Exec S A) (s : S) (e : Error) : Type 0 where
    pub at : (fs : Faults) → RefusesAt s e fs (m s fs)

fault-nonempty : (fs : Faults) {e : Error} → fault fs ≡ some e → fs ≢ []
unfolding fault
fault-nonempty [] h = cc
fault-nonempty (f ∷ fs) h = cc

after-nil : (fs : Faults) → fs ≡ [] → after fs ≡ []
unfolding after
after-nil [] h = refl
after-nil (f ∷ fs) h = cc

module _ {S A : Type 0} where
  pub Runs-pure : (a : A) (s : S) → Runs (pure a) s a s
  unfolding pure
  Runs-pure a s = record { at = λ fs. (refl, refl, λ h. h) }

  pub Refuses-raise : (e : Error) (s : S) → Refuses {A = A} (raise e) s e
  unfolding raise
  Refuses-raise e s = record { at = λ fs. (refl, λ _. refl) }

  CommitsAt-update :
      (f : S → Result A × S) (s : S) (a : A) (s' : S) (fs : Faults) (o : Option Error)
      → f s ≡ (ok a, s')
      → fault fs ≡ o
      → CommitsAt s a s' fs (elim o [
        | none ↦ let (r, s'') = f s in (r, s'', after fs)
        | some e ↦ (err e, s, after fs)
      ])
  CommitsAt-update f s a s' fs none h e = rw h (refl, refl, after-nil fs)
  CommitsAt-update f s a s' fs (some x) h e = (refl, fault-nonempty fs e)

  pub Commits-update :
      (f : S → Result A × S) (s : S) (a : A) (s' : S) → f s ≡ (ok a, s') → Commits (update f) s a s'
  unfolding update
  Commits-update f s a s' h = record { at = λ fs. CommitsAt-update f s a s' fs (fault fs) h refl }

  pub Runs-of-Commits : {m : Exec S A} {s : S} {a : A} {s' : S} → Commits m s a s' → Runs m s a s'
  Runs-of-Commits {m} {s} {a} {s'} c = record { at = λ fs. go fs (m s fs) (c.at fs) }
    where
      go : (fs : Faults) (o : Result A × S × Faults) → CommitsAt s a s' fs o → RunsAt a s' fs o
      go fs (ok a', t, fs') c = c
      go fs (err e, t, fs') c = c.1

  pub Runs-update :
      (f : S → Result A × S) (s : S) (a : A) (s' : S) → f s ≡ (ok a, s') → Runs (update f) s a s'
  Runs-update f s a s' h = Runs-of-Commits (Commits-update f s a s' h)

  RefusesAt-update :
      (f : S → Result A × S) (s : S) (e : Error) (fs : Faults) (o : Option Error)
      → f s ≡ (err e, s)
      → fault fs ≡ o
      → RefusesAt {A = A} s e fs (elim o [
        | none ↦ let (r, s'') = f s in (r, s'', after fs)
        | some e ↦ (err e, s, after fs)
      ])
  RefusesAt-update f s e fs none h p = rw h (refl, λ _. refl)
  RefusesAt-update f s e fs (some x) h p = (refl, λ q. absurd (fault-nonempty fs p q))

  pub Refuses-update :
      (f : S → Result A × S) (s : S) (e : Error) → f s ≡ (err e, s) → Refuses (update f) s e
  unfolding update
  Refuses-update f s e h = record { at = λ fs. RefusesAt-update f s e fs (fault fs) h refl }

  CommitsAt-query :
      (a : A) (s : S) (fs : Faults) (o : Option Error)
      → fault fs ≡ o
      → CommitsAt s a s fs (elim o [ none ↦ (ok a, s, after fs) | some e ↦ (err e, s, after fs) ])
  CommitsAt-query a s fs none e = (refl, refl, after-nil fs)
  CommitsAt-query a s fs (some x) e = (refl, fault-nonempty fs e)

  pub Commits-query : (f : S → A) (s : S) → Commits (query f) s (f s) s
  unfolding query
  Commits-query f s = record { at = λ fs. CommitsAt-query (f s) s fs (fault fs) refl }

  pub Runs-query : (f : S → A) (s : S) → Runs (query f) s (f s) s
  Runs-query f s = Runs-of-Commits (Commits-query f s)

module _ {S B : Type 0} where
  RunsAt-later :
      (b : B) (s : S) (fs fs' : Faults) (o : Result B × S × Faults)
      → (fs ≡ [] → fs' ≡ [])
      → RunsAt b s fs' o
      → RunsAt b s fs o
  RunsAt-later b s fs fs' (ok x, t, gs) k h = (h.0, h.1, λ q. h.2 (k q))
  RunsAt-later b s fs fs' (err e, t, gs) k h = λ q. h (k q)

module _ {S A B : Type 0} where
  pub Runs-bind :
      {m : Exec S A} (f : A → Exec S B) {s : S} {a : A} {s' : S} {b : B} {s'' : S}
      → Runs m s a s'
      → Runs (f a) s' b s''
      → Runs (m >>= f) s b s''
  unfolding ◌>>=◌
  Runs-bind {m} f {s} {a} {s'} {b} {s''} hm hf = record { at = λ fs. go fs (m s fs) (hm.at fs) }
    where
      go :
          (fs : Faults) (o : Result A × S × Faults)
          → RunsAt a s' fs o
          → RunsAt b s'' fs
              (let (r, t, gs) = o in elim r [ ok x ↦ f x t gs | err e ↦ (err e, t, gs) ])
      go fs (ok x, t, gs) (p, q, k) = rw (p, q) (RunsAt-later b s'' fs gs (f a s' gs) k (hf.at gs))
      go fs (err e, t, gs) h = h

module _ {S A : Type 0} where
  CommitsAt-commit :
      (s : S) (a : A) (s' : S) (fs : Faults) (x : A) (t : S) (gs : Faults) (o : Option Error)
      → fault gs ≡ o
      → RunsAt a s' (after fs) (ok x, t, gs)
      → CommitsAt s a s' fs (elim o [ none ↦ (ok x, t, after gs) | some e ↦ (err e, s, after gs) ])
  CommitsAt-commit s a s' fs x t gs none e k = (k.0, k.1, λ q. after-nil gs (k.2 (after-nil fs q)))
  CommitsAt-commit s a s' fs x t gs (some y) e k =
      (refl, λ q. fault-nonempty gs e (k.2 (after-nil fs q)))

  CommitsAt-settle :
      (s : S) (a : A) (s' : S) (fs : Faults) (o : Result A × S × Faults)
      → RunsAt a s' (after fs) o
      → CommitsAt s a s' fs (settle s o)
  CommitsAt-settle s a s' fs (ok x, t, gs) k = CommitsAt-commit s a s' fs x t gs (fault gs) refl k
  CommitsAt-settle s a s' fs (err e, t, gs) k = (refl, λ q. k (after-nil fs q))

  pub Commits-transaction :
      {body : Exec S A} {s : S} {a : A} {s' : S}
      → Runs body s a s'
      → Commits (transaction body) s a s'
  unfolding transaction
  Commits-transaction {body} {s} {a} {s'} h = record { at = λ fs. go fs (fault fs) refl }
    where
      go :
          (fs : Faults) (o : Option Error)
          → fault fs ≡ o
          → CommitsAt s a s' fs
              (elim o [ none ↦ settle s (body s (after fs)) | some e ↦ (err e, s, after fs) ])
      go fs none e = CommitsAt-settle s a s' fs (body s (after fs)) (h.at (after fs))
      go fs (some x) e = (refl, fault-nonempty fs e)

  pub Runs-if :
      (b : Bool) {m n : Exec S A} {s : S} {a a' : A} {t t' : S}
      → Runs m s a t
      → Runs n s a' t'
      → Runs (if b then m else n) s (if b then a else a') (if b then t else t')
  Runs-if true hm hn = hm
  Runs-if false hm hn = hn
