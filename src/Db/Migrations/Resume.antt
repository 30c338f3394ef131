-- ===== src/Db/Migrations/Resume.antt =====
-- Interrupted runs of `applyMigrations` (internal/storage/migrate.go).
use uptime_monitor_api.Base.{
  arith, subst, ◌≡◌, refl, sym, ap, ◌∙◌, inl, inr, ℕ, ◌<◌, ◌≤◌, List, [], ◌∷◌, Bool, true, false,
  Bool-cases, String, leb, if◌then◌else◌,
}
use uptime_monitor_api.Db.{Result, ok, err, Faults, pure, ◌>>=◌, ◌>>◌, query}
use uptime_monitor_api.Db.Runs.{
  Runs, Runs-bind, Runs-pure, Runs-query, Commits-query, Runs-update, Commits, CommitsAt,
  Commits-transaction, Runs-of-Commits,
}
use uptime_monitor_api.Db.Migrations.{
  Migration, Schema, logged, run_stmts, migrate, apply_from, apply_migrations,
}

abbrev pub ran_all : List String → Schema → Schema
ran_all [] db = db
ran_all (s ∷ ss) db = ran_all ss (logged s db)

abbrev pub migrated : Migration → Schema → Schema
migrated m db = record (ran_all m.stmts db) { user_version = m.version }

-- Each migration above `current`, once, in order.
abbrev pub complete : ℕ → List Migration → Schema → Schema
complete current [] db = db
complete current (m ∷ ms) db = elim (leb m.version current) [
  | true ↦ complete current ms db
  | false ↦ complete current ms (migrated m db)
]

-- The versions rise.
abbrev pub Ascending : ℕ → List Migration → Type 0
Ascending low [] = Unit
Ascending low (m ∷ ms) = (low < m.version) × Ascending m.version ms

run_stmts-Runs : (ss : List String) (db : Schema) → Runs (run_stmts ss) db tt (ran_all ss db)
unfolding run_stmts
run_stmts-Runs [] db = Runs-pure tt db
run_stmts-Runs (s ∷ ss) db =
    Runs-bind _ (Runs-update _ db tt (logged s db) refl) (run_stmts-Runs ss (logged s db))

migrate-Commits : (m : Migration) (db : Schema) → Commits (migrate m) db tt (migrated m db)
unfolding migrate
migrate-Commits m db = Commits-transaction (
    Runs-bind _ (run_stmts-Runs m.stmts db)
      (Runs-update _ (ran_all m.stmts db) tt (migrated m db) refl))

apply_from-Runs :
    (current : ℕ) (ms : List Migration) (db : Schema)
    → Runs (apply_from current ms) db tt (complete current ms db)
unfolding apply_from
apply_from-Runs current [] db = Runs-pure tt db
apply_from-Runs current (m ∷ ms) db =
    go (leb m.version current) (apply_from-Runs current ms db)
      (apply_from-Runs current ms (migrated m db))
  where
    go :
        (b : Bool)
        → Runs (apply_from current ms) db tt (complete current ms db)
        → Runs (apply_from current ms) (migrated m db) tt (complete current ms (migrated m db))
        → Runs
            (if b then apply_from current ms else migrate m >> apply_from current ms)
            db
            tt
            (elim b [ true ↦ complete current ms db | false ↦ complete current ms (migrated m db) ])
    go true h k = h
    go false h k = Runs-bind _ (Runs-of-Commits (migrate-Commits m db)) k

complete-above :
    (c : ℕ) (m : Migration) (ms : List Migration) (db : Schema)
    → leb m.version c ≡ false
    → complete c (m ∷ ms) db ≡ complete c ms (migrated m db)
complete-above c m ms db h =
    ap
      (λ b. elim b as (λ _. Schema) [
        | true ↦ complete c ms db
        | false ↦ complete c ms (migrated m db)
      ])
      h

complete-below :
    (c : ℕ) (m : Migration) (ms : List Migration) (db : Schema)
    → leb m.version c ≡ true
    → complete c (m ∷ ms) db ≡ complete c ms db
complete-below c m ms db h =
    ap
      (λ b. elim b as (λ _. Schema) [
        | true ↦ complete c ms db
        | false ↦ complete c ms (migrated m db)
      ])
      h

-- Above `low`, any cutoff that is at most `low` takes in all.
complete_cutoff :
    (a b low : ℕ) (ms : List Migration) (db : Schema)
    → a ≤ low
    → b ≤ low
    → Ascending low ms
    → complete a ms db ≡ complete b ms db
complete_cutoff a b low [] db p q h = refl
complete_cutoff a b low (m ∷ ms) db p q (h, k) =
    complete-above a m ms db (ground arith)
    ∙ complete_cutoff a b m.version ms (migrated m db) (omega arith) (omega arith) k
    ∙ sym (complete-above b m ms db (ground arith))

apply_from_cutoff :
    (a b low : ℕ) (ms : List Migration)
    → a ≤ low
    → b ≤ low
    → Ascending low ms
    → apply_from a ms ≡ apply_from b ms
unfolding apply_from
apply_from_cutoff a b low [] p q h = refl
apply_from_cutoff a b low (m ∷ ms) p q (h, k) =
    let above_a : leb m.version a ≡ false = ground arith in
    let above_b : leb m.version b ≡ false = ground arith in
    ap (λ t. if t then apply_from a ms else migrate m >> apply_from a ms) above_a
    ∙ ap (λ rest. migrate m >> rest)
        (apply_from_cutoff a b m.version ms (omega arith) (omega arith) k)
    ∙ sym (ap (λ t. if t then apply_from b ms else migrate m >> apply_from b ms) above_b)

-- From `db'` the migrations complete to what they complete to from `db`.
abbrev Resumable : ℕ → List Migration → Schema → Schema → Type 0
Resumable current ms db db' =
    (current ≤ db'.user_version) × (complete db'.user_version ms db' ≡ complete current ms db)

-- The first migration is still to run, or has run.
Resumable-cons :
    (current : ℕ) (m : Migration) (ms : List Migration) (db db' : Schema)
    → current < m.version
    → Ascending m.version ms
    → Resumable m.version ms (migrated m db) db'
    → Resumable current (m ∷ ms) db db'
Resumable-cons current m ms db db' above k (v, e) = (
  omega arith,
  complete-below db'.user_version m ms db' (ground arith)
      ∙ e
      ∙ complete_cutoff m.version current m.version ms (migrated m db) (omega arith) (omega arith) k
      ∙ sym (complete-above current m ms db (ground arith)),
)

-- The first migration fails, or the loop goes on behind it.
Resumable-bind :
    (current : ℕ) (m : Migration) (ms : List Migration) (db : Schema) (fs : Faults)
    → db.user_version ≡ current
    → current < m.version
    → Ascending m.version ms
    → ((gs : Faults)
        → Resumable m.version ms (migrated m db) (apply_from current ms (migrated m db) gs).1)
    → Resumable current (m ∷ ms) db ((migrate m >> apply_from current ms) db fs).1
unfolding ◌>>=◌
Resumable-bind current m ms db fs at_current above k ih =
    go (migrate m db fs) ((migrate-Commits m db).at fs)
  where
    go :
        (o : Result (Unit {0}) × Schema × Faults)
        → CommitsAt db tt (migrated m db) fs o
        → Resumable current
            (m ∷ ms)
            db
            (let (r, t, gs) = o in
              elim r as (λ _. Result (Unit {0}) × Schema × Faults) [
                | ok x ↦ apply_from current ms t gs
                | err e ↦ (err e, t, gs)
              ]).1
    go (ok x, t, gs) (p, q, l) = rw q (
        Resumable-cons current m ms db (apply_from current ms (migrated m db) gs).1 above k (ih gs))
    go (err e, t, gs) (q, l) = rw q (omega arith, rw at_current refl)

Resumable-skip :
    (current : ℕ) (m : Migration) (ms : List Migration) (db db' : Schema)
    → leb m.version current ≡ true
    → Resumable current ms db db'
    → Resumable current (m ∷ ms) db db'
Resumable-skip current m ms db db' old (v, e) = (
  v,
  complete-below db'.user_version m ms db' (ground arith)
      ∙ e
      ∙ sym (complete-below current m ms db old),
)

apply_from-Resumable :
    (current low : ℕ) (ms : List Migration) (db : Schema) (fs : Faults)
    → db.user_version ≡ current
    → Ascending low ms
    → Resumable current ms db (apply_from current ms db fs).1
unfolding apply_from pure
apply_from-Resumable current low [] db fs at_current h = (omega arith, refl)
apply_from-Resumable current low (m ∷ ms) db fs at_current (h, k) =
    elim (Bool-cases (leb m.version current)) [
      | inl old ↦
          subst
            (λ t.
              Resumable current (m ∷ ms) db
                ((if t then apply_from current ms else migrate m >> apply_from current ms) db fs).1)
            (sym old)
            (Resumable-skip current m ms db (apply_from current ms db fs).1 old
              (apply_from-Resumable current m.version ms db fs at_current k))
      | inr new ↦
          let same =
            apply_from_cutoff current m.version m.version ms (ground arith) (omega arith) k in
          subst
            (λ t.
              Resumable current (m ∷ ms) db
                ((if t then apply_from current ms else migrate m >> apply_from current ms) db fs).1)
            (sym new)
            (Resumable-bind current m ms db fs at_current (ground arith) k λ gs.
              subst (λ f. Resumable m.version ms (migrated m db) (f (migrated m db) gs).1)
                (sym same) (apply_from-Resumable m.version m.version ms (migrated m db) gs refl k))
    ]

apply_migrations-Runs :
    (ms : List Migration) (db : Schema)
    → Runs (apply_migrations ms) db tt (complete db.user_version ms db)
unfolding apply_migrations
apply_migrations-Runs ms db = Runs-bind _ (Runs-query _ db) (apply_from-Runs db.user_version ms db)

apply_migrations-Resumable :
    (ms : List Migration) (db : Schema) (fs : Faults)
    → Ascending 0 ms
    → Resumable db.user_version ms db (apply_migrations ms db fs).1
unfolding apply_migrations ◌>>=◌
apply_migrations-Resumable ms db fs h =
    go (query (λ d. d.user_version) db fs) ((Commits-query (λ d. d.user_version) db).at fs)
  where
    go :
        (o : Result ℕ × Schema × Faults)
        → CommitsAt db db.user_version db fs o
        → Resumable db.user_version ms db
            (let (r, t, gs) = o in
              elim r as (λ _. Result (Unit {0}) × Schema × Faults) [
                | ok x ↦ apply_from x ms t gs
                | err e ↦ (err e, t, gs)
              ]).1
    go (ok x, t, gs) (p, q, l) = rw (p, q) (apply_from-Resumable db.user_version 0 ms db gs refl h)
    go (err e, t, gs) (q, l) = rw q (omega arith, refl)

-- For migrations whose versions rise from 1: wherever the engine stops a run of `applyMigrations`,
-- the next run leaves the schema that one undisturbed run from the start would have left, every
-- statement above the version run once and in order, unless the engine fails again.
pub apply_migrations-resumes :
    (ms : List Migration) (db : Schema) (fs : Faults)
    → Ascending 0 ms
    → Runs (apply_migrations ms) (apply_migrations ms db fs).1 tt (complete db.user_version ms db)
apply_migrations-resumes ms db fs h =
    let db' : Schema = (apply_migrations ms db fs).1 in
    subst (λ d. Runs (apply_migrations ms) db' tt d) (apply_migrations-Resumable ms db fs h).1
      (apply_migrations-Runs ms db')
