-- ===== src/Api/Hoare.antt =====
-- The rules of `Db.Hoare` for the parts of the server.
use uptime_monitor_api.Db.{Exec, Result, ok}
use uptime_monitor_api.Db.Hoare.{Hoare}
use uptime_monitor_api.Registry.Tables.{RegistryDb}
use uptime_monitor_api.Stores.{Stores}
use uptime_monitor_api.Scheduler.{Manager}
use uptime_monitor_api.Alerts.Dispatcher.{Queue}
use uptime_monitor_api.Api.{Server, in_registry, in_stores, in_scheduler}

module _ {A : Type 0} {P : Server → Type 0} {Q : Result A → Server → Type 0} where
  pub Hoare-in_registry :
      (m : Exec RegistryDb A)
      → ((s : Server)
          → Hoare
              (λ db. P (record s { registry = db }))
              m
              (λ r db. Q r (record s { registry = db })))
      → Hoare P (in_registry m) Q
  unfolding in_registry
  Hoare-in_registry m h = record { at = λ s fs p. (h s).at s.registry fs p }

  pub Hoare-in_stores :
      (m : Exec Stores A)
      → ((s : Server) (r : Result A) (st : Stores) → P s → Q r (record s { stores = st }))
      → Hoare P (in_stores m) Q
  unfolding in_stores
  Hoare-in_stores m h = record { at = λ s fs p. h s (m s.stores fs).0 (m s.stores fs).1 p }

module _ {P : Server → Type 0} {Q : Result (Unit {0}) → Server → Type 0} where
  pub Hoare-in_scheduler :
      (f : Manager Queue → Manager Queue)
      → ((s : Server) → P s → Q (ok tt) (record s { scheduler = f s.scheduler }))
      → Hoare P (in_scheduler f) Q
  unfolding in_scheduler
  Hoare-in_scheduler f h = record { at = λ s fs p. h s p }
