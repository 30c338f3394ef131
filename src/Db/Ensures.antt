-- ===== src/Db/Ensures.antt =====
-- What holds between the tables before and after an action, whatever the engine does and whether or
-- not the action succeeds.
use uptime_monitor_api.Base.{Option, none, some}
use uptime_monitor_api.Db.{
  Exec, Result, ok, err, Error, Faults, fault, after, pure, ◌>>=◌, attempt, attempt_option,
  map_error, query, update,
}

module _ {S A : Type 0} (P : S → S → Type 0) where
  pub record Ensures (m : Exec S A) : Type 0 where
    pub at : (s : S) (fs : Faults) → P s (m s fs).1

module _ {S A : Type 0} {P : S → S → Type 0} where
  pub Ensures-pure : ((s : S) → P s s) → (a : A) → Ensures P (pure a)
  unfolding pure
  Ensures-pure p_refl a = record { at = λ s fs. p_refl s }

  pub Ensures-query : ((s : S) → P s s) → (f : S → A) → Ensures P (query f)
  unfolding query
  Ensures-query p_refl f = record { at = λ s fs. go s fs (fault fs) }
    where
      go :
          (s : S) (fs : Faults) (o : Option Error)
          → P s
              (elim o as (λ _. Result A × S × Faults) [
                | none ↦ (ok (f s), s, after fs)
                | some e ↦ (err e, s, after fs)
              ]).1
      go s fs none = p_refl s
      go s fs (some e) = p_refl s

  pub Ensures-update :
      ((s : S) → P s s) → (f : S → Result A × S) → ((s : S) → P s (f s).1) → Ensures P (update f)
  unfolding update
  Ensures-update p_refl f h = record { at = λ s fs. go s fs (fault fs) }
    where
      go :
          (s : S) (fs : Faults) (o : Option Error)
          → P s
              (elim o as (λ _. Result A × S × Faults) [
                | none ↦ let (r, s'') = f s in (r, s'', after fs)
                | some e ↦ (err e, s, after fs)
              ]).1
      go s fs none = h s
      go s fs (some e) = p_refl s

  pub Ensures-map_error :
      (g : Error → Error) {m : Exec S A} → Ensures P m → Ensures P (map_error g m)
  unfolding map_error
  Ensures-map_error g {m} h = record { at = λ s fs. go s (m s fs) (h.at s fs) }
    where
      go :
          (s : S) (o : Result A × S × Faults)
          → P s o.1
          → P s
              (let (r, t, gs) = o in
                elim r as (λ _. Result A × S × Faults) [
                  | ok x ↦ (ok x, t, gs)
                  | err e ↦ (err (g e), t, gs)
                ]).1
      go s (ok x, t, gs) k = k
      go s (err e, t, gs) k = k

  pub Ensures-attempt : {m : Exec S A} → Ensures P m → Ensures P (attempt m)
  unfolding attempt
  Ensures-attempt h = record { at = h.at }

  pub Ensures-attempt_option : {m : Exec S A} → Ensures P m → Ensures P (attempt_option m)
  unfolding attempt_option
  Ensures-attempt_option h = record { at = h.at }

module _ {S A B : Type 0} {P : S → S → Type 0} where
  pub Ensures-bind :
      ((s t u : S) → P s t → P t u → P s u)
      → {m : Exec S A} (f : A → Exec S B) → Ensures P m
      → ((a : A) → Ensures P (f a))
      → Ensures P (m >>= f)
  unfolding ◌>>=◌
  Ensures-bind p_trans {m} f hm hf = record { at = λ s fs. go s (m s fs) (hm.at s fs) }
    where
      go :
          (s : S) (o : Result A × S × Faults)
          → P s o.1
          → P s
              (let (r, t, gs) = o in
                elim r as (λ _. Result B × S × Faults) [
                  | ok x ↦ f x t gs
                  | err e ↦ (err e, t, gs)
                ]).1
      go s (ok x, t, gs) k = p_trans s t (f x t gs).1 k ((hf x).at t gs)
      go s (err e, t, gs) k = k
