-- ===== src/Registry/Deliveries.antt =====
-- internal/storage/alerts.go, deliveries: the send log, which is also the ledger of claimed alerts.
use uptime_monitor_api.Base.{
  ℕ, Bool, ◌&&◌, ◌||◌, Option, none, some, List, [], ◌∷◌, ◌++◌, map, String, ◌==◌, leb, ltb,
  if◌then◌else◌, any, filter, take,
}
use uptime_monitor_api.Base.Int.{ℤ, pos, negsuc}
use uptime_monitor_api.Base.Text.{str_eq, is_empty}
use uptime_monitor_api.Db.{
  Exec, Result, ok, err, Error, delivery_claimed, query, update, Sqlite, is_unique_violation,
  map_error,
}
use uptime_monitor_api.Registry.Tables.{AlertDelivery, RegistryDb, unique_violation}

abbrev pub delivery_pending : String
delivery_pending = "pending"

abbrev pub delivery_sent : String
delivery_sent = "sent"

abbrev pub delivery_failed : String
delivery_failed = "failed"

-- The columns that `ClaimDelivery` is given.
pub record Claim : Type 0 where
  pub dedupe_key : String
  pub site_id : String
  pub kind : String
  pub channel_id : ℕ
  pub incident_id : Option ℕ
  pub subject : String

abbrev pub is_claimed : String → List AlertDelivery → Bool
is_claimed key ds = any (λ d. str_eq d.dedupe_key key) ds

abbrev pub claim_error : Error → Error
claim_error e = if is_unique_violation e then delivery_claimed else e

module _ (sql : Sqlite) where
  open sql use {new_rowid}

  -- `dedupe_key` is UNIQUE.
  abbrev pub insert_delivery : Claim → ℕ → RegistryDb → Result ℕ × RegistryDb
  insert_delivery c now db =
      let id = new_rowid (map (λ d. d.id) db.alert_deliveries) in
      if is_claimed c.dedupe_key db.alert_deliveries then (err unique_violation, db) else (
        ok id,
        record db {
          alert_deliveries =
              db.alert_deliveries
              ++ record {
                id = id;
                dedupe_key = c.dedupe_key;
                site_id = c.site_id;
                kind = c.kind;
                channel_id = c.channel_id;
                incident_id = c.incident_id;
                subject = c.subject;
                status = delivery_pending;
                attempts = 0;
                error = none;
                created_at = now;
                sent_at = none;
              }
                ∷ [];
        },
      )

  -- `ClaimDelivery`
  unfoldable pub claim_delivery : Claim → ℕ → Exec RegistryDb ℕ
  claim_delivery c now = map_error claim_error (update (insert_delivery c now))

abbrev pub mark_row : ℕ → (AlertDelivery → AlertDelivery) → List AlertDelivery → List AlertDelivery
mark_row id f [] = []
mark_row id f (d ∷ ds) = (if d.id == id then f d else d) ∷ mark_row id f ds

abbrev pub sent_row : ℕ → ℕ → AlertDelivery → AlertDelivery
sent_row attempts now d = record d {
  status = delivery_sent;
  attempts = attempts;
  sent_at = some now;
  error = none;
}

abbrev pub failed_row : ℕ → String → AlertDelivery → AlertDelivery
failed_row attempts cause d = record d {
  status = delivery_failed;
  attempts = attempts;
  error = some cause;
}

abbrev pub marked : ℕ → (AlertDelivery → AlertDelivery) → RegistryDb → RegistryDb
marked id f db = record db { alert_deliveries = mark_row id f db.alert_deliveries }

-- `MarkDeliverySent`
unfoldable pub mark_delivery_sent : ℕ → ℕ → ℕ → Exec RegistryDb (Unit {0})
mark_delivery_sent id attempts now = update (λ db. (ok tt, marked id (sent_row attempts now) db))

-- `MarkDeliveryFailed`
unfoldable pub mark_delivery_failed : ℕ → ℕ → String → Exec RegistryDb (Unit {0})
mark_delivery_failed id attempts cause =
    update (λ db. (ok tt, marked id (failed_row attempts cause) db))

-- `DeliveryExists`
unfoldable pub delivery_exists : String → Exec RegistryDb Bool
delivery_exists key = query (λ db. is_claimed key db.alert_deliveries)

-- ORDER BY created_at DESC, id DESC, by insertion.
abbrev later : AlertDelivery → AlertDelivery → Bool
later d e = ltb e.created_at d.created_at || d.created_at == e.created_at && leb e.id d.id

insert_newest : AlertDelivery → List AlertDelivery → List AlertDelivery
insert_newest d [] = d ∷ []
insert_newest d (e ∷ es) =
    let rest = e ∷ insert_newest d es in if later d e then d ∷ e ∷ es else rest

unfoldable pub newest_first : List AlertDelivery → List AlertDelivery
unfolding insert_newest
newest_first [] = []
newest_first (d ∷ ds) = insert_newest d (newest_first ds)

abbrev pub list_limit : ℤ → ℕ
list_limit (pos n) = if ltb 0 n && leb n 1000 then n else 100
list_limit (negsuc n) = 100

-- `ListAlertDeliveries`; an empty `site_id` lists every site's.
unfoldable pub list_alert_deliveries : String → ℤ → Exec RegistryDb (List AlertDelivery)
unfolding newest_first
list_alert_deliveries site_id limit = query λ db. take (list_limit limit) (
    newest_first (
      if is_empty site_id
      then db.alert_deliveries
      else filter (λ d. str_eq d.site_id site_id) db.alert_deliveries))
