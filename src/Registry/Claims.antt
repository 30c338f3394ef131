-- ===== src/Registry/Claims.antt =====
-- The dedupe ledger: what `ClaimDelivery` promises its callers.
use uptime_monitor_api.Base.{◌≡◌, refl, ℕ, true, false, none, [], ◌∷◌, ◌++◌, map}
use uptime_monitor_api.Db.{delivery_claimed, Sqlite, is_unique_violation}
use uptime_monitor_api.Db.Runs.{Commits, Refuses, Commits-update, Refuses-update}
use uptime_monitor_api.Db.Errors.{Commits-map_error, Refuses-map_error}
use uptime_monitor_api.Registry.Tables.{AlertDelivery, RegistryDb, unique_violation}
use uptime_monitor_api.Registry.Deliveries.{
  Claim, is_claimed, insert_delivery, claim_delivery, claim_error, delivery_pending,
}

-- A new key is claimed: the row is on the ledger, pending.
abbrev pub claimed_row : ℕ → Claim → ℕ → AlertDelivery
claimed_row id c now = record {
  id = id;
  dedupe_key = c.dedupe_key;
  site_id = c.site_id;
  kind = c.kind;
  channel_id = c.channel_id;
  incident_id = c.incident_id;
  subject = c.subject;
  status = delivery_pending;
  attempts = 0;
  error = none;
  created_at = now;
  sent_at = none;
}

module _ (sql : Sqlite) where
  open sql use {new_rowid}

  abbrev pub claimed : Claim → ℕ → RegistryDb → RegistryDb
  claimed c now db = record db {
    alert_deliveries =
        db.alert_deliveries
        ++ claimed_row (new_rowid (map (λ d. d.id) db.alert_deliveries)) c now ∷ [];
  }

  -- From a registry in which the key of the claim is free, `ClaimDelivery` puts one pending row with
  -- the claim's columns and a new row id at the end of the ledger and answers that id, or fails with
  -- the tables as they were.
  pub claim_delivery-Commits :
      (c : Claim) (now : ℕ) (db : RegistryDb)
      → is_claimed c.dedupe_key db.alert_deliveries ≡ false
      → Commits
          (claim_delivery sql c now)
          db
          (new_rowid (map (λ d. d.id) db.alert_deliveries))
          (claimed c now db)
  unfolding claim_delivery
  claim_delivery-Commits c now db free =
      Commits-map_error claim_error
        (Commits-update (insert_delivery sql c now) db _ (claimed c now db) (rw free refl))

  -- A key that is on the ledger is refused with ErrDeliveryClaimed, unless the engine fails first, and
  -- the tables stay as they are.
  pub claim_delivery-Refuses :
      (c : Claim) (now : ℕ) (db : RegistryDb)
      → is_claimed c.dedupe_key db.alert_deliveries ≡ true
      → Refuses (claim_delivery sql c now) db delivery_claimed
  unfolding claim_delivery is_unique_violation
  claim_delivery-Refuses c now db taken =
      Refuses-map_error claim_error {e = unique_violation}
        (Refuses-update (insert_delivery sql c now) db unique_violation (rw taken refl))
