-- ===== src/Db/Answers.antt =====
-- Actions that change nothing, whatever the engine does, and what is known of their answers.
use uptime_monitor_api.Base.{◌≡◌, refl, Option, none, some, []}
use uptime_monitor_api.Db.{
  Exec, Result, ok, err, Error, Faults, fault, after, pure, ◌>>=◌, attempt_option, query, update,
}
use uptime_monitor_api.Db.Runs.{Refuses, RefusesAt}

module _ {S A : Type 0} where
  abbrev pub AnswersAt : (A → Type 0) → S → Result A × S × Faults → Type 0
  AnswersAt Q s (ok a, s', fs') = (s' ≡ s) × Q a
  AnswersAt Q s (err e, s', fs') = s' ≡ s

  -- From `s`, the action changes nothing and its answer, if there is one, has the property.
  pub record Answers (m : Exec S A) (s : S) (Q : A → Type 0) : Type 0 where
    pub at : (fs : Faults) → AnswersAt Q s (m s fs)

  pub Answers-pure : (Q : A → Type 0) (a : A) (s : S) → Q a → Answers (pure a) s Q
  unfolding pure
  Answers-pure Q a s q = record { at = λ fs. (refl, q) }

  pub Answers-update :
      (f : S → Result A × S) (s : S) (Q : A → Type 0)
      → AnswersAt Q s ((f s).0, (f s).1, [])
      → Answers (update f) s Q
  unfolding update
  Answers-update f s Q h = record { at = λ fs. go fs (fault fs) (f s) h }
    where
      go :
          (fs : Faults) (o : Option Error) (r : Result A × S)
          → AnswersAt Q s (r.0, r.1, [])
          → AnswersAt Q s (elim o as (λ _. Result A × S × Faults) [
            | none ↦ (r.0, r.1, after fs)
            | some e ↦ (err e, s, after fs)
          ])
      go fs none (ok a, t) k = k
      go fs none (err e, t) k = k
      go fs (some e) r k = refl

module _ {S A : Type 0} where
  pub Answers-query : (f : S → A) (s : S) (Q : A → Type 0) → Q (f s) → Answers (query f) s Q
  unfolding query
  Answers-query f s Q h = record { at = λ fs. go fs (fault fs) }
    where
      go :
          (fs : Faults) (o : Option Error)
          → AnswersAt Q s (elim o as (λ _. Result A × S × Faults) [
            | none ↦ (ok (f s), s, after fs)
            | some e ↦ (err e, s, after fs)
          ])
      go fs none = (refl, h)
      go fs (some e) = refl

module _ {S A B : Type 0} where
  pub Answers-bind :
      {m : Exec S A} (f : A → Exec S B) {s : S} {Q : A → Type 0} {R : B → Type 0}
      → Answers m s Q
      → ((a : A) → Q a → Answers (f a) s R)
      → Answers (m >>= f) s R
  unfolding ◌>>=◌
  Answers-bind {m} f {s} {Q} {R} h k = record { at = λ fs. go (m s fs) (h.at fs) }
    where
      go :
          (o : Result A × S × Faults)
          → AnswersAt Q s o
          → AnswersAt R s (
              let (r, t, gs) = o in
              elim r as (λ _. Result B × S × Faults) [ ok x ↦ f x t gs | err e ↦ (err e, t, gs) ])
      go (ok x, t, gs) (same, q) = rw same ((k x q).at gs)
      go (err e, t, gs) same = same

module _ {A : Type 0} where
  -- `none`, or an answer with the property.
  abbrev pub IfSome : (A → Type 0) → Option A → Type 0
  IfSome Q none = Unit
  IfSome Q (some a) = Q a

  pub Answers-attempt_option :
      {S : Type 0} {m : Exec S A} {s : S} {Q : A → Type 0}
      → Answers m s Q
      → Answers (attempt_option m) s (IfSome Q)
  unfolding attempt_option
  Answers-attempt_option {S} {m} {s} {Q} h = record { at = λ fs. go (m s fs) (h.at fs) }
    where
      go :
          (o : Result A × S × Faults)
          → AnswersAt Q s o
          → AnswersAt (IfSome Q) s (
              let (r, t, gs) = o in
              (elim r as (λ _. Result (Option A)) [ ok a ↦ ok (some a) | err e ↦ ok none ], t, gs))
      go (ok x, t, gs) k = k
      go (err e, t, gs) k = (k, tt)

module _ {S A : Type 0} where
  pub Answers-of-Refuses : {m : Exec S A} {s : S} {e : Error} → Refuses m s e → Answers m s (λ _. ⊥)
  Answers-of-Refuses {m} {s} {e} h = record { at = λ fs. go fs (m s fs) (h.at fs) }
    where
      go : (fs : Faults) (o : Result A × S × Faults) → RefusesAt s e fs o → AnswersAt (λ _. ⊥) s o
      go fs (ok x, t, gs) k = absurd k
      go fs (err y, t, gs) k = k.0
