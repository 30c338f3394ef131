-- ===== src/Db/Hoare.antt =====
-- What an action leaves, on success and on failure, from a state with a property: the rules by which
-- a handler is followed statement by statement, whatever the engine does.
use uptime_monitor_api.Base.{◌≡◌, refl, Bool, true, false, if◌then◌else◌, Option, none, some}
use uptime_monitor_api.Db.{
  Exec, Result, ok, err, Error, Faults, fault, after, pure, raise, ◌>>=◌, ◌>>◌, attempt,
  attempt_option, attempt_result, query, update,
}

module _ {S A : Type 0} where
  pub record Hoare (P : S → Type 0) (m : Exec S A) (Q : Result A → S → Type 0) : Type 0 where
    pub at : (s : S) (fs : Faults) → P s → Q (m s fs).0 (m s fs).1

  -- One property after a success, another after a failure.
  abbrev pub Outcome : (A → S → Type 0) → (S → Type 0) → Result A → S → Type 0
  Outcome P E (ok a) s = P a s
  Outcome P E (err e) s = E s

module _ {S A : Type 0} {P : S → Type 0} {Q : Result A → S → Type 0} where
  pub Hoare-pure : (a : A) → ((s : S) → P s → Q (ok a) s) → Hoare P (pure a) Q
  unfolding pure
  Hoare-pure a h = record { at = λ s fs p. h s p }

  pub Hoare-raise : (e : Error) → ((s : S) → P s → Q (err e) s) → Hoare P (raise e) Q
  unfolding raise
  Hoare-raise e h = record { at = λ s fs p. h s p }

  pub Hoare-update :
      (f : S → Result A × S)
      → ((s : S) → P s → Q (f s).0 (f s).1)
      → ((e : Error) (s : S) → P s → Q (err e) s)
      → Hoare P (update f) Q
  unfolding update
  Hoare-update f h k = record { at = λ s fs p. go s fs (fault fs) p }
    where
      go :
          (s : S) (fs : Faults) (o : Option Error)
          → P s
          → (let x = (elim o as (λ _. Result A × S × Faults) [
            | none ↦ let (r, s') = f s in (r, s', after fs)
            | some e ↦ (err e, s, after fs)
          ]) in
              Q x.0 x.1)
      go s fs none p = h s p
      go s fs (some e) p = k e s p

  pub Hoare-query :
      (f : S → A)
      → ((s : S) → P s → Q (ok (f s)) s)
      → ((e : Error) (s : S) → P s → Q (err e) s)
      → Hoare P (query f) Q
  unfolding query
  Hoare-query f h k = record { at = λ s fs p. go s fs (fault fs) p }
    where
      go :
          (s : S) (fs : Faults) (o : Option Error)
          → P s
          → (let x = (elim o as (λ _. Result A × S × Faults) [
            | none ↦ (ok (f s), s, after fs)
            | some e ↦ (err e, s, after fs)
          ]) in
              Q x.0 x.1)
      go s fs none p = h s p
      go s fs (some e) p = k e s p

  pub Hoare-if :
      (b : Bool) {m n : Exec S A}
      → (b ≡ true → Hoare P m Q)
      → (b ≡ false → Hoare P n Q)
      → Hoare P (if b then m else n) Q
  Hoare-if true h k = h refl
  Hoare-if false h k = k refl

  pub Hoare-before :
      {R : S → Type 0} (m : Exec S A) → ((s : S) → P s → R s) → Hoare R m Q → Hoare P m Q
  Hoare-before m k h = record { at = λ s fs p. h.at s fs (k s p) }

  pub Hoare-weaken :
      {R : Result A → S → Type 0} (m : Exec S A)
      → ((r : Result A) (s : S) → R r s → Q r s)
      → Hoare P m R
      → Hoare P m Q
  Hoare-weaken m k h = record { at = λ s fs p. k (m s fs).0 (m s fs).1 (h.at s fs p) }

module _ {S A B : Type 0} {P : S → Type 0} {Q : Result B → S → Type 0} where
  pub Hoare-bind :
      (R : Result A → S → Type 0) (m : Exec S A) (f : A → Exec S B)
      → Hoare P m R
      → ((e : Error) (s : S) → R (err e) s → Q (err e) s)
      → ((a : A) → Hoare (R (ok a)) (f a) Q)
      → Hoare P (m >>= f) Q
  unfolding ◌>>=◌
  Hoare-bind R m f h k g = record { at = λ s fs p. go (m s fs) (h.at s fs p) }
    where
      go :
          (o : Result A × S × Faults)
          → R o.0 o.1
          → (let x =
                (let (r, t, gs) = o in
                  elim r as (λ _. Result B × S × Faults) [
                    | ok a ↦ f a t gs
                    | err e ↦ (err e, t, gs)
                  ]) in
              Q x.0 x.1)
      go (ok a, t, gs) r = (g a).at t gs r
      go (err e, t, gs) r = k e t r

  -- A call whose caller looks at its outcome.
  pub Hoare-result :
      (R : Result A → S → Type 0) (m : Exec S A) (f : Result A → Exec S B)
      → Hoare P m R
      → ((r : Result A) → Hoare (R r) (f r) Q)
      → Hoare P (attempt_result m >>= f) Q
  unfolding ◌>>=◌ attempt_result
  Hoare-result R m f h g = record {
    at = λ s fs p. (g (m s fs).0).at (m s fs).1 (m s fs).2 (h.at s fs p);
  }

  -- A call whose error is dropped.
  pub Hoare-attempt :
      (R : S → Type 0) (m : Exec S A) (k : Exec S B)
      → Hoare P m (λ r s. R s)
      → Hoare R k Q
      → Hoare P (attempt m >> k) Q
  unfolding ◌>>=◌ attempt
  Hoare-attempt R m k h g = record { at = λ s fs p. g.at (m s fs).1 (m s fs).2 (h.at s fs p) }

  pub Hoare-option :
      (R : S → Type 0) (m : Exec S A) (f : Option A → Exec S B)
      → Hoare P m (λ r s. R s)
      → ((o : Option A) → Hoare R (f o) Q)
      → Hoare P (attempt_option m >>= f) Q
  unfolding ◌>>=◌ attempt_option
  Hoare-option R m f h g = record { at = λ s fs p. go (m s fs) (h.at s fs p) }
    where
      go :
          (o : Result A × S × Faults)
          → R o.1
          → (let x =
                (let (r, t, gs) = o in
                  elim (elim r as (λ _. Result (Option A)) [ ok a ↦ ok (some a) | err e ↦ ok none ])
                    as (λ _. Result B × S × Faults) [ ok a ↦ f a t gs | err e ↦ (err e, t, gs) ]) in
              Q x.0 x.1)
      go (ok a, t, gs) r = (g (some a)).at t gs r
      go (err e, t, gs) r = (g none).at t gs r

module _ {S A : Type 0} {P R : S → Type 0} where
  pub Hoare-forget : (m : Exec S A) → Hoare P m (λ r s. R s) → Hoare P (attempt m) (λ r s. R s)
  unfolding attempt
  Hoare-forget m h = record { at = λ s fs p. h.at s fs p }
