-- ===== src/Site/Tick/Recorded.antt =====
-- internal/storage/tick.go: what a committed tick leaves, column by column.
use uptime_monitor_api.Base.{
  ℕ, ◌+◌, ◌≡◌, refl, ap, sym, ◌∙◌, Bool, true, false, not, ◌&&◌, Bool-cases, Option-cases, inl, inr,
  Option, none, some, List, [], ◌∷◌, ◌++◌, map, String, ◌==◌, if◌then◌else◌, arith,
}
use mathlib.Core.List.{append-nil, append_assoc, map-append}
use uptime_monitor_api.Base.Int.{pos, ltb_ℤ}
use uptime_monitor_api.Base.Text.{is_empty, join}
use uptime_monitor_api.Db.{Sqlite}
use uptime_monitor_api.Db.Runs.{Commits}
use uptime_monitor_api.Site.Tables.{
  ResultRow, IncidentRow, ErrorRow, SiteState, SiteDb, bool_to_int,
}
use uptime_monitor_api.Site.Tick.{
  CheckError, Tick, Transition, is_up_or_null, is_down, resolve, insert_result, insert_error,
  save_state, transition, record_tick,
}
use uptime_monitor_api.Site.Tick.Step.{edge, reconciled, logged, applied, record_tick-applied}
use uptime_monitor_api.Site.Tick.Invariant.{applied-incidents, applied-site_state}

-- A text column, NULL for the empty text.
abbrev pub column : String → Option String
column s = if is_empty s then none else some s

-- The state before the tick: not known to be down, and known to be down.
abbrev pub was_up : Option ℕ → Bool
was_up none = true
was_up (some n) = n == 1

abbrev pub was_down : Option ℕ → Bool
was_down none = false
was_down (some n) = n == 0

abbrev pub ended_at : ℕ → ℕ → IncidentRow → IncidentRow
ended_at id ts i = if i.id == id then record i { resolved_at = some ts } else i

-- What the tick makes of the incidents `before`, what it tells of that, and the incident that the
-- state row refers to afterwards.
pub data Incidents (sql : Sqlite) (t : Tick) (st : SiteState) (before after : List IncidentRow)
    (tr : Transition) : Option ℕ → Type 0 where
  opens :
      (id : ℕ)
      → t.up ≡ false
      → was_up st.current_up ≡ true
      → id ≡ sql.new_rowid (map (λ i. i.id) before)
      → after
        ≡ before
          ++ record { id = id; started_at = t.ts; resolved_at = none; cause = column t.error } ∷ []
      → (tr.incident_opened ≡ true) × (tr.incident_resolved ≡ false) × (tr.incident_id ≡ id)
      → Incidents sql t st before after tr (some id)
  resolves :
      (id : ℕ)
      → t.up ≡ true
      → was_down st.current_up ≡ true
      → st.current_incident_id ≡ some id
      → after ≡ map (ended_at id t.ts) before
      → (tr.incident_opened ≡ false) × (tr.incident_resolved ≡ true) × (tr.incident_id ≡ id)
      → Incidents sql t st before after tr none
  recovers :
      t.up ≡ true
      → was_down st.current_up ≡ true
      → st.current_incident_id ≡ none
      → after ≡ before
      → (tr.incident_opened ≡ false) × (tr.incident_resolved ≡ false) × (tr.incident_id ≡ 0)
      → Incidents sql t st before after tr none
  stays :
      (if t.up then was_down st.current_up else was_up st.current_up) ≡ false
      → after ≡ before
      → (tr.incident_opened ≡ false) × (tr.incident_resolved ≡ false) × (tr.incident_id ≡ 0)
      → Incidents sql t st before after tr st.current_incident_id

abbrev pub entry : ErrorRow → ℕ × String × String
entry e = (e.ts, e.check_type, e.message)

pub record Recorded (sql : Sqlite) (t : Tick) (st : SiteState) (db : SiteDb) (tr : Transition)
    (db' : SiteDb) : Type 0 where
  pub incident : Option ℕ
  pub incidents : Incidents sql t st db.incidents db'.incidents tr incident
  pub result :
      db'.check_results
      ≡ db.check_results
        ++ record {
          id = sql.new_rowid (map (λ r. r.id) db.check_results);
          ts = t.ts;
          up = if t.up then 1 else 0;
          status_code = t.status_code;
          response_ms = t.response_ms;
          failed_checks = column (join "," t.failed_checks);
          error = column t.error;
        }
          ∷ []
  pub errors :
      map entry db'.errors
      ≡ map entry db.errors ++ map (λ ce. (t.ts, ce.check_type, ce.message)) t.errors
  pub state :
      db'.site_state
      ≡ some (record {
        monitoring_started_at = st.monitoring_started_at;
        last_check_ts = some t.ts;
        current_up = some (if t.up then 1 else 0);
        current_incident_id = incident;
        ssl_expires_at =
            if t.ssl_checked
            then (if ltb_ℤ (pos 0) t.ssl_expires_at then some t.ssl_expires_at else none)
            else st.ssl_expires_at;
        ssl_last_checked = if t.ssl_checked then some t.ts else st.ssl_last_checked;
        consecutive_failures = if t.up then 0 else st.consecutive_failures + 1;
      })
  pub tells :
      (tr.consecutive_failures ≡ (if t.up then 0 else st.consecutive_failures + 1))
      × (tr.up ≡ t.up)
      × (tr.error ≡ t.error)
      × (tr.ssl_expires_at ≡ t.ssl_expires_at)
      × (tr.ssl_checked ≡ t.ssl_checked)

up_column : (b : Bool) → bool_to_int b ≡ (if b then 1 else 0)
up_column true = refl
up_column false = refl

resolve-map : (id ts : ℕ) (is : List IncidentRow) → resolve id ts is ≡ map (ended_at id ts) is
resolve-map id ts [] = refl
resolve-map id ts (i ∷ is) = ap (λ l. ended_at id ts i ∷ l) (resolve-map id ts is)

module _ (sql : Sqlite) where
  logged-check_results :
      (ts : ℕ) (ces : List CheckError) (db : SiteDb)
      → (logged sql ts ces db).check_results ≡ db.check_results
  logged-check_results ts [] db = refl
  logged-check_results ts (ce ∷ ces) db = logged-check_results ts ces (insert_error sql ts ce db)

  logged-errors :
      (ts : ℕ) (ces : List CheckError) (db : SiteDb)
      → map entry (logged sql ts ces db).errors
        ≡ map entry db.errors ++ map (λ ce. (ts, ce.check_type, ce.message)) ces
  logged-errors ts [] db = sym (append-nil (map entry db.errors))
  logged-errors ts (ce ∷ ces) db =
      logged-errors ts ces (insert_error sql ts ce db)
      ∙ ap (λ l. l ++ map (λ e. (ts, e.check_type, e.message)) ces) (map-append entry db.errors _)
      ∙ append_assoc (map entry db.errors) _ _

  module _ (t : Tick) (st : SiteState) (db : SiteDb) (is_state : db.site_state ≡ some st) where
    abbrev moved : SiteDb
    moved = insert_result sql t db

    save_state-check_results :
        (fails : ℕ) (inc : Option ℕ) (d : SiteDb)
        → (save_state t fails inc d).check_results ≡ d.check_results
    unfolding save_state
    save_state-check_results fails inc d = ground arith

    save_state-errors :
        (fails : ℕ) (inc : Option ℕ) (d : SiteDb) → (save_state t fails inc d).errors ≡ d.errors
    unfolding save_state
    save_state-errors fails inc d = ground arith

    reconciled-check_results : (reconciled sql t st moved).check_results ≡ moved.check_results
    reconciled-check_results = ground arith

    reconciled-errors : (reconciled sql t st moved).errors ≡ db.errors
    reconciled-errors = ground arith

    applied-result : (applied sql t st db).check_results ≡ moved.check_results
    unfolding applied
    applied-result =
        save_state-check_results _ _ _
        ∙ logged-check_results t.ts t.errors _
        ∙ reconciled-check_results

    applied-errors :
        map entry (applied sql t st db).errors
        ≡ map entry db.errors ++ map (λ ce. (t.ts, ce.check_type, ce.message)) t.errors
    unfolding applied
    applied-errors =
        ap (map entry) (save_state-errors _ _ _)
        ∙ logged-errors t.ts t.errors _
        ∙ ap (λ es. map entry es ++ map (λ ce. (t.ts, ce.check_type, ce.message)) t.errors)
            reconciled-errors

    reconciled-Incidents :
        Incidents sql t st db.incidents
          (reconciled sql t st moved).incidents
          (transition t st (edge sql t st moved))
          (edge sql t st moved).incident
    unfolding edge
    reconciled-Incidents = elim (Bool-cases (not t.up && is_up_or_null st.current_up)) [
      | inl h ↦ rw h (opens _ (ground arith) (ground arith) refl refl (refl, refl, refl))
      | inr h ↦ elim (Bool-cases (t.up && is_down st.current_up)) [
        | inl k ↦ elim (Option-cases st.current_incident_id) [
          | inl e ↦
              rw (h, k, e) (recovers (ground arith) (ground arith) refl refl (refl, refl, refl))
          | inr (id, e) ↦
              rw (h, k, e)
                (resolves id (ground arith) (ground arith) refl (resolve-map id t.ts db.incidents)
                  (refl, refl, refl))
        ]
        | inr k ↦ rw (h, k) (stays (ground arith) refl (refl, refl, refl))
      ]
    ]

    abbrev row : ℕ → ResultRow
    row u = record {
      id = sql.new_rowid (map (λ r. r.id) db.check_results);
      ts = t.ts;
      up = u;
      status_code = t.status_code;
      response_ms = t.response_ms;
      failed_checks = column (join "," t.failed_checks);
      error = column t.error;
    }

    applied-Recorded :
        Recorded sql t st db (transition t st (edge sql t st moved)) (applied sql t st db)
    applied-Recorded = record {
      incident = (edge sql t st moved).incident;
      incidents = rw (applied-incidents sql t st db is_state) reconciled-Incidents;
      result = applied-result ∙ ap (λ u. db.check_results ++ row u ∷ []) (up_column t.up);
      errors = applied-errors;
      state = applied-site_state sql t st db is_state ∙ ground arith;
      tells = (refl, refl, refl, refl, refl);
    }

  -- Over a site whose state row is `st`, `RecordTick` commits all of a tick or nothing: it leaves one
  -- result row with the tick's columns, an entry for each of its errors in order, a state row with its
  -- time, its state, the count of failures and what it learned of the certificate, and the incidents
  -- with one opened, when the site goes down, or with the current one resolved, when it comes back, and
  -- it tells of what it did; when it fails the tables are as they were, and it fails only if the
  -- engine does.
  pub record_tick-Commits :
      (t : Tick) (st : SiteState) (db : SiteDb)
      → db.site_state ≡ some st
      → (tr : Transition) × (db' : SiteDb) × Commits (record_tick sql t) db tr db'
        × Recorded sql t st db tr db'
  record_tick-Commits t st db h =
      (_, _, record_tick-applied sql t st db h, applied-Recorded t st db h)
