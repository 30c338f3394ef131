-- ===== src/Db.antt =====
-- The database layer (internal/storage over database/sql). A table is the list of its rows and a
-- statement is a function on the tables. The engine may refuse any statement (disk, lock, driver):
-- a script of faults, one entry for each statement, says when it does.
pub mod Runs
pub mod Rowids
pub mod Errors
pub mod Ensures
pub mod Hoare
pub mod Migrations
mod Tests
pub mod Answers
use uptime_monitor_api.Base.{
  ℕ, ◌<◌, Bool, true, false, ◌||◌, Option, none, some, List, [], ◌∷◌, String, ◌==◌, if◌then◌else◌,
  All,
}
use uptime_monitor_api.Base.Text.{contains}

-- The `error` values that the storage layer returns: its sentinels, and what the driver reports.
pub data Error : Type 0 where
  not_found alert_not_found delivery_claimed session_not_found user_not_found : Error
  no_rows : Error
  sqlite : ℕ → String → Error
  plain : String → Error

-- `Error()`
abbrev pub error_text : Error → String
error_text not_found = "site not found"
error_text alert_not_found = "alert record not found"
error_text delivery_claimed = "alert already claimed"
error_text session_not_found = "session not found"
error_text user_not_found = "admin user not found"
error_text no_rows = "sql: no rows in result set"
error_text (sqlite code message) = message
error_text (plain message) = message

pub data Result (A : Type 0) : Type 0 where
  ok : A → Result A
  err : Error → Result A

-- What becomes of the statements to come: `none` runs, `some e` fails with `e`.
abbrev pub Faults : Type 0
Faults = List (Option Error)

unfoldable pub fault : Faults → Option Error
fault [] = none
fault (f ∷ fs) = f

unfoldable pub after : Faults → Faults
after [] = []
after (f ∷ fs) = fs

-- An action on the tables `S`.
abbrev pub Exec : Type 0 → Type 0 → Type 0
Exec S A = S → Faults → Result A × S × Faults

module _ {S A : Type 0} where
  unfoldable pub pure : A → Exec S A
  pure a s fs = (ok a, s, fs)

  unfoldable pub raise : Error → Exec S A
  raise e s fs = (err e, s, fs)

  -- `errors.Is` and its like: the error of an action, seen otherwise.
  unfoldable pub map_error : (Error → Error) → Exec S A → Exec S A
  map_error f m s fs =
      let (r, s', fs') = m s fs in elim r [ ok a ↦ (ok a, s', fs') | err e ↦ (err (f e), s', fs') ]

  -- A call whose error is dropped or only logged.
  unfoldable pub attempt : Exec S A → Exec S (Unit {0})
  attempt m s fs = let (r, s', fs') = m s fs in (ok tt, s', fs')

  -- A call whose caller goes another way when it fails.
  unfoldable pub attempt_option : Exec S A → Exec S (Option A)
  attempt_option m s fs =
      let (r, s', fs') = m s fs in (elim r [ ok a ↦ ok (some a) | err e ↦ ok none ], s', fs')

  -- A call whose caller looks at the error.
  unfoldable pub attempt_result : Exec S A → Exec S (Result A)
  attempt_result m s fs = let (r, s', fs') = m s fs in (ok r, s', fs')

  -- A SELECT.
  unfoldable pub query : (S → A) → Exec S A
  unfolding fault after
  query f s fs = elim (fault fs) [ none ↦ (ok (f s), s, after fs) | some e ↦ (err e, s, after fs) ]

  -- A statement with its answer; one that the engine refuses changes nothing.
  unfoldable pub update : (S → Result A × S) → Exec S A
  unfolding fault after
  update f s fs = elim (fault fs) [
    | none ↦ let (r, s') = f s in (r, s', after fs)
    | some e ↦ (err e, s, after fs)
  ]

  abbrev pub settle : S → Result A × S × Faults → Result A × S × Faults
  settle before (ok a, s', fs') = elim (fault fs') [
    | none ↦ (ok a, s', after fs')
    | some e ↦ (err e, before, after fs')
  ]
  settle before (err e, s', fs') = (err e, before, fs')

  -- `Begin` … `Commit`, with the deferred `Rollback`: an error on the way, the commit's own too,
  -- brings back the tables as they were.
  unfoldable pub transaction : Exec S A → Exec S A
  unfolding fault after
  transaction body s fs = elim (fault fs) [
    | none ↦ settle s (body s (after fs))
    | some e ↦ (err e, s, after fs)
  ]

module _ {S A B : Type 0} where
  infixl 5 ◌>>=◌ ◌>>◌
  -- opening this opens the other actions too
  unfoldable pub ◌>>=◌ : Exec S A → (A → Exec S B) → Exec S B
  unfolding pure raise map_error attempt attempt_option attempt_result query update transaction
      fault after
  ◌>>=◌ m f s fs =
      let (r, s', fs') = m s fs in elim r [ ok a ↦ f a s' fs' | err e ↦ (err e, s', fs') ]

  abbrev pub ◌>>◌ : Exec S A → Exec S B → Exec S B
  m >> k = m >>= λ _. k

-- What the storage layer relies on in SQLite, which is not part of the repository: the row id that
-- an INSERT gives to an INTEGER PRIMARY KEY is positive and above every id in the table.
pub record Sqlite : Type 0 where
  pub new_rowid : List ℕ → ℕ
  pub new_rowid_pos : (ids : List ℕ) → 0 < new_rowid ids
  pub new_rowid_above : (ids : List ℕ) → All (λ i. i < new_rowid ids) ids

-- SQLite extended result codes (sqlite.go).
abbrev pub sqlite_constraint_primary_key : ℕ
sqlite_constraint_primary_key = 1555

abbrev pub sqlite_constraint_unique : ℕ
sqlite_constraint_unique = 2067

-- `isUniqueViolation`: by the driver's code, else by the message.
unfoldable pub is_unique_violation : Error → Bool
is_unique_violation (sqlite code message) =
    code == sqlite_constraint_unique
    || code == sqlite_constraint_primary_key
    || contains message "UNIQUE constraint failed"
is_unique_violation (plain message) = contains message "UNIQUE constraint failed"
is_unique_violation _ = false
