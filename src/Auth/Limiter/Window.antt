-- ===== src/Auth/Limiter/Window.antt =====
-- Pruning is invisible: what a limiter answers depends on the failures that were recorded, not on
-- when its map was pruned.
use uptime_monitor_api.Base.{
  ℕ, ◌+◌, ◌≤◌, ◌≡◌, refl, sym, ap, ◌∙◌, Bool-cases, inl, inr, List, [], ◌∷◌, ◌++◌, String, ltb,
  if◌then◌else◌, arith, All,
}
use uptime_monitor_api.Base.Text.{str_eq, eq_iff}
use uptime_monitor_api.Base.Dict.{Dict, put, delete, get-put, get-delete}
use uptime_monitor_api.Auth.Limiter.{Limiter, live, live_locked, attempts_of, store_live}

module _ (w : ℕ) where
  live_twice :
      (now later : ℕ) (ts : List ℕ) → now ≤ later → live w later (live w now ts) ≡ live w later ts
  unfolding live
  live_twice now later [] h = refl
  live_twice now later (t ∷ ts) h = ground (arith, live_twice now later ts h)

  live_append :
      (now later : ℕ) (ts us : List ℕ)
      → now ≤ later
      → live w later (live w now ts ++ us) ≡ live w later (ts ++ us)
  unfolding live
  live_append now later [] us h = refl
  live_append now later (t ∷ ts) us h = ground (arith, live_append now later ts us h)

  pub live-All : (P : ℕ → Type 0) (now : ℕ) (ts : List ℕ) → All P ts → All P (live w now ts)
  unfolding live
  live-All P now [] h = tt
  live-All P now (t ∷ ts) h = elim (Bool-cases (ltb now (t + w))) [
    | inl e ↦ rw e h
    | inr e ↦ rw e (live-All P now ts h.1)
  ]

pub attempts_of-put :
    (k j : String) (ts : List ℕ) (m : Dict (List ℕ))
    → attempts_of j (put k ts m) ≡ (if str_eq k j then ts else attempts_of j m)
unfolding attempts_of
attempts_of-put k j ts m = ground (arith, get-put k j ts m)

pub attempts_of-delete :
    (k j : String) (m : Dict (List ℕ))
    → attempts_of j (delete k m) ≡ (if str_eq k j then [] else attempts_of j m)
unfolding attempts_of
attempts_of-delete k j m = ground (arith, get-delete k j m)

pub attempts_of-store_live :
    (k j : String) (ts : List ℕ) (m : Dict (List ℕ))
    → attempts_of j (store_live k ts m) ≡ (if str_eq k j then ts else attempts_of j m)
attempts_of-store_live k j [] m = attempts_of-delete k j m
attempts_of-store_live k j (t ∷ ts) m = attempts_of-put k j (t ∷ ts) m

-- The limiter answers as the log of failures does, at `now` and later.
pub record Agrees (max w now : ℕ) (log : String → List ℕ) (l : Limiter) : Type 0 where
  pub max_is : l.max_attempts ≡ max
  pub window_is : l.window ≡ w
  pub view :
      (k : String) (later : ℕ)
      → now ≤ later
      → live w later (attempts_of k l.attempts) ≡ live w later (log k)

abbrev pub fail_one : String → ℕ → (String → List ℕ) → String → List ℕ
fail_one k now log j = if str_eq k j then log j ++ now ∷ [] else log j

abbrev pub clear_one : String → (String → List ℕ) → String → List ℕ
clear_one k log j = if str_eq k j then [] else log j

module _ (max w : ℕ) where
  pub Agrees-later :
      {now later : ℕ} {log : String → List ℕ} {l : Limiter}
      → now ≤ later
      → Agrees max w now log l
      → Agrees max w later log l
  Agrees-later h a = record {
    max_is = a.max_is;
    window_is = a.window_is;
    view = λ k t p. a.view k t (omega arith);
  }

  pub live_locked-live :
      (now : ℕ) (k : String) (log : String → List ℕ) (l : Limiter)
      → Agrees max w now log l
      → (live_locked now k l).0 ≡ live w now (log k)
  unfolding live_locked
  live_locked-live now k log l a =
      ap (λ v. live v now (attempts_of k l.attempts)) a.window_is ∙ a.view k now (omega arith)

  view_pruned :
      (now : ℕ) (k j : String) (later : ℕ) (l : Limiter)
      → now ≤ later
      → live l.window later
          (attempts_of j (store_live k (live l.window now (attempts_of k l.attempts)) l.attempts))
        ≡ live l.window later (attempts_of j l.attempts)
  view_pruned now k j later l h = elim (Bool-cases (str_eq k j)) [
    | inl e ↦
        rw (attempts_of-store_live, e)
          (live_twice l.window now later _ h
            ∙ ap (λ i. live l.window later (attempts_of i l.attempts)) ((eq_iff k j).0 e))
    | inr e ↦ rw (attempts_of-store_live, e)
  ]

  pub live_locked-Agrees :
      (now : ℕ) (k : String) (log : String → List ℕ) (l : Limiter)
      → Agrees max w now log l
      → Agrees max w now log (live_locked now k l).1
  unfolding live_locked
  live_locked-Agrees now k log l a = record {
    max_is = a.max_is;
    window_is = a.window_is;
    view = λ j later h.
        ap (λ v. live v later (attempts_of j (live_locked now k l).1.attempts)) (sym a.window_is)
        ∙ view_pruned now k j later l h
        ∙ ap (λ v. live v later (attempts_of j l.attempts)) a.window_is
        ∙ a.view j later h;
  }

  pub record_one-Agrees :
      (now : ℕ) (k : String) (log : String → List ℕ) (l : Limiter)
      → Agrees max w now log l
      → let (ts, l') = live_locked now k l in
        Agrees max w now
          (fail_one k now log)
          (record l' { attempts = put k (ts ++ now ∷ []) l'.attempts })
  record_one-Agrees now k log l a = record {
    max_is = (live_locked-Agrees now k log l a).max_is;
    window_is = (live_locked-Agrees now k log l a).window_is;
    view = λ j later h. elim (Bool-cases (str_eq k j)) [
      | inl e ↦
          rw (attempts_of-put, e)
            (ap (λ v. live w later (v ++ now ∷ [])) (live_locked-live now k log l a)
              ∙ live_append w now later (log k) (now ∷ []) h
              ∙ ap (λ i. live w later (log i ++ now ∷ [])) ((eq_iff k j).0 e))
      | inr e ↦ rw (attempts_of-put, e) ((live_locked-Agrees now k log l a).view j later h)
    ];
  }

  pub clear_one-Agrees :
      (now : ℕ) (k : String) (log : String → List ℕ) (l : Limiter)
      → Agrees max w now log l
      → Agrees max w now (clear_one k log) (record l { attempts = delete k l.attempts })
  clear_one-Agrees now k log l a = record {
    max_is = a.max_is;
    window_is = a.window_is;
    view = λ j later h. elim (Bool-cases (str_eq k j)) [
      | inl e ↦ rw (attempts_of-delete, e)
      | inr e ↦ rw (attempts_of-delete, e) (a.view j later h)
    ];
  }
