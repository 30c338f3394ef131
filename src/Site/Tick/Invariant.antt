-- ===== src/Site/Tick/Invariant.antt =====
-- The invariant of a site database over its committed history, and that a tick keeps it.
use uptime_monitor_api.Base.{
  ℕ, ◌<◌, ◌≡◌, ◌≢◌, refl, ap, sym, ◌∙◌, true, false, Bool-cases, inl, inr, Option, none, some, List,
  [], ◌∷◌, ◌++◌, map, arith, All, All-append,
}
use uptime_monitor_api.Db.{Sqlite}
use uptime_monitor_api.Site.Tables.{IncidentRow, SiteState, SiteDb, incident_ids}
use uptime_monitor_api.Site.Tick.{
  Tick, CheckError, is_up_or_null, is_down, resolve, insert_result, insert_error, save_state,
  fails_after, next_state, null_string,
}
use uptime_monitor_api.Site.Tick.Step.{edge, reconciled, logged, applied}
use uptime_monitor_api.Site.Tick.Outages.{
  Outage, HasEnded, extend, extend_calm, extend_opened, extend_closed, extend_failing,
}

abbrev pub view : IncidentRow → Outage
view i = record { started = i.started_at; ended = i.resolved_at; cause = i.cause }

abbrev pub IsResolved : IncidentRow → Type 0
IsResolved i = i.resolved_at ≢ none

-- How the state row and the incidents fit together: with the site not down, no incident is open;
-- with the site down, the last incident is open, is the current one, and is the only open one.
pub data Health (st : SiteState) (incidents : List IncidentRow) : Type 0 where
  calm :
      is_up_or_null st.current_up ≡ true
      → is_down st.current_up ≡ false
      → st.current_incident_id ≡ none
      → st.consecutive_failures ≡ 0
      → All IsResolved incidents
      → Health st incidents
  failing :
      (past : List IncidentRow) (i : IncidentRow)
      → st.current_up ≡ some 0
      → st.current_incident_id ≡ some i.id
      → 0 < st.consecutive_failures
      → incidents ≡ past ++ i ∷ []
      → All IsResolved past
      → i.resolved_at ≡ none
      → All (λ j. j.id ≢ i.id) past
      → Health st incidents

logged-incidents :
    (sql : Sqlite) (ts : ℕ) (ces : List CheckError) (db : SiteDb)
    → (logged sql ts ces db).incidents ≡ db.incidents
logged-incidents sql ts [] db = refl
logged-incidents sql ts (ce ∷ ces) db = logged-incidents sql ts ces (insert_error sql ts ce db)

logged-site_state :
    (sql : Sqlite) (ts : ℕ) (ces : List CheckError) (db : SiteDb)
    → (logged sql ts ces db).site_state ≡ db.site_state
logged-site_state sql ts [] db = refl
logged-site_state sql ts (ce ∷ ces) db = logged-site_state sql ts ces (insert_error sql ts ce db)

module _ (sql : Sqlite) (t : Tick) (st : SiteState) (db : SiteDb)
    (is_state : db.site_state ≡ some st) where
  save_state-incidents :
      (fails : ℕ) (inc : Option ℕ) (db : SiteDb)
      → (save_state t fails inc db).incidents ≡ db.incidents
  unfolding save_state
  save_state-incidents fails inc db = ground arith

  save_state-site_state :
      (fails : ℕ) (inc : Option ℕ) (db : SiteDb) (st : SiteState)
      → db.site_state ≡ some st
      → (save_state t fails inc db).site_state ≡ some (next_state t fails inc st)
  unfolding save_state
  save_state-site_state fails inc db st h = ground arith

  reconciled-site_state : (db : SiteDb) → (reconciled sql t st db).site_state ≡ db.site_state
  reconciled-site_state db = ground arith

  pub applied-incidents :
      (applied sql t st db).incidents ≡ (reconciled sql t st (insert_result sql t db)).incidents
  unfolding applied
  applied-incidents = save_state-incidents _ _ _ ∙ logged-incidents sql t.ts t.errors _

  pub applied-site_state :
      (applied sql t st db).site_state
      ≡ some (next_state t (fails_after t st) (edge sql t st (insert_result sql t db)).incident st)
  unfolding applied save_state
  applied-site_state =
      save_state-site_state _ _ _ st
        (logged-site_state sql t.ts t.errors _ ∙ reconciled-site_state _ ∙ is_state)

resolve_absent :
    (id ts : ℕ) (is : List IncidentRow) → All (λ j. j.id ≢ id) is → resolve id ts is ≡ is
resolve_absent id ts [] h = refl
resolve_absent id ts (i ∷ is) h = ground (arith, resolve_absent id ts is h.1)

resolve_last :
    (ts : ℕ) (past : List IncidentRow) (i : IncidentRow)
    → All (λ j. j.id ≢ i.id) past
    → resolve i.id ts (past ++ i ∷ []) ≡ past ++ record i { resolved_at = some ts } ∷ []
resolve_last ts [] i h = ground arith
resolve_last ts (j ∷ past) i h = ground (arith, resolve_last ts past i h.1)

All-map_ids :
    (k : ℕ) (is : List IncidentRow) → All (λ i. i < k) (incident_ids is) → All (λ j. j.id ≢ k) is
All-map_ids k [] h = tt
All-map_ids k (i ∷ is) h = (omega arith, All-map_ids k is h.1)

All-view : (is : List IncidentRow) → All IsResolved is → All HasEnded (map view is)
All-view [] h = tt
All-view (i ∷ is) h = (h.0, All-view is h.1)

map_view_append : (is js : List IncidentRow) → map view (is ++ js) ≡ map view is ++ map view js
map_view_append [] js = refl
map_view_append (i ∷ is) js = ap (λ l. view i ∷ l) (map_view_append is js)

-- What a committed tick keeps: the health of the tables, and the incidents as the outages.
module _ (sql : Sqlite) (t : Tick) (st : SiteState) (db : SiteDb) where
  open sql use {new_rowid, new_rowid_above}

  abbrev pub moved : SiteDb
  moved = insert_result sql t db

  abbrev pub next : SiteState
  next = next_state t (fails_after t st) (edge sql t st moved).incident st

  abbrev opened_row : IncidentRow
  opened_row = record {
    id = new_rowid (incident_ids db.incidents);
    started_at = t.ts;
    resolved_at = none;
    cause = null_string t.error;
  }

  incidents_when_opened :
      t.up ≡ false
      → is_up_or_null st.current_up ≡ true
      → (reconciled sql t st moved).incidents ≡ db.incidents ++ opened_row ∷ []
  incidents_when_opened d a = ground arith

  incidents_when_calm :
      t.up ≡ true
      → is_down st.current_up ≡ false
      → (reconciled sql t st moved).incidents ≡ db.incidents
  incidents_when_calm u a = ground arith

  incidents_when_failing :
      t.up ≡ false → st.current_up ≡ some 0 → (reconciled sql t st moved).incidents ≡ db.incidents
  incidents_when_failing d a = ground arith

  incidents_when_closed :
      (past : List IncidentRow) (i : IncidentRow)
      → t.up ≡ true
      → st.current_up ≡ some 0
      → st.current_incident_id ≡ some i.id
      → db.incidents ≡ past ++ i ∷ []
      → All (λ j. j.id ≢ i.id) past
      → (reconciled sql t st moved).incidents ≡ past ++ record i { resolved_at = some t.ts } ∷ []
  incidents_when_closed past i u a b d h = ground (arith, resolve_last t.ts past i h)

  pub next-Health : Health st db.incidents → Health next (reconciled sql t st moved).incidents
  unfolding edge
  next-Health (calm a b c d e) = elim (Bool-cases t.up) [
    | inl up ↦
        calm (ground arith) (ground arith) (ground arith) (ground arith)
          (rw (incidents_when_calm up b) e)
    | inr down ↦
        failing db.incidents opened_row (ground arith) (ground arith) (ground arith)
          (incidents_when_opened down a) e refl (All-map_ids _ db.incidents (new_rowid_above _))
  ]
  next-Health (failing past i a b c d e f g) = elim (Bool-cases t.up) [
    | inl up ↦ calm (ground arith) (ground arith) (ground arith) (ground arith) (
        rw (incidents_when_closed past i up a b d g) (All-append IsResolved past _ e (λ p. cc, tt)))
    | inr down ↦
        failing past i (ground arith) (ground arith) (ground arith)
          (incidents_when_failing down a ∙ d) e f g
  ]

  -- The incidents stay the outages of the history.
  pub reconciled-extend :
      Health st db.incidents
      → map view (reconciled sql t st moved).incidents ≡ extend (map view db.incidents) t
  reconciled-extend (calm a b c d e) = elim (Bool-cases t.up) [
    | inl up ↦ rw (incidents_when_calm up b) (sym (extend_calm _ t (All-view db.incidents e) up))
    | inr down ↦
        rw (incidents_when_opened down a, map_view_append)
          (sym (extend_opened _ t (All-view db.incidents e) down))
  ]
  reconciled-extend (failing past i a b c d e f g) = elim (Bool-cases t.up) [
    | inl up ↦
        rw (incidents_when_closed past i up a b d g, d, map_view_append, map_view_append)
          (sym (extend_closed _ (view i) t (All-view past e) f up))
    | inr down ↦
        rw (incidents_when_failing down a, d, map_view_append)
          (sym (extend_failing _ (view i) t (All-view past e) f down))
  ]
