-- ===== src/Alerts/Mails.antt =====
-- How often the sender is called over a whole run of the dispatcher.
use uptime_monitor_api.Base.{arith, ◌≡◌, ap, ℕ, suc, ◌*◌, ◌≤◌, List, [], ◌∷◌, length}
use uptime_monitor_api.Db.{Faults, Sqlite}
use uptime_monitor_api.Alerts.Message.{Event, Format}
use uptime_monitor_api.Alerts.Dispatcher.{World, handle}
use uptime_monitor_api.Alerts.Bounds.{ledger_size, Within, Within-trans, handle-Within}

module _ (sql : Sqlite) (format : Format) (retries : ℕ) where
  -- The events that the workers take, one by one, each with its time and the faults that it meets.
  unfoldable pub handle_all : List (Event × ℕ × Faults) → World → World
  unfolding handle
  handle_all [] w = w
  handle_all ((e, clock, fs) ∷ events) w =
      handle_all events (handle sql format retries clock e w fs).1

  handle_all-Within :
      (events : List (Event × ℕ × Faults)) (w : World)
      → Within sql format retries 0 w (handle_all events w)
  unfolding handle_all
  handle_all-Within [] w = omega arith
  handle_all-Within ((e, clock, fs) ∷ events) w =
      let w' = (handle sql format retries clock e w fs).1 in
      Within-trans sql format retries 0 w w' (handle_all events w')
        ((handle-Within sql format retries clock e).at w fs) (handle_all-Within events w')

  -- Whatever events are handled one after the other, from an empty outbox, and whatever the engine
  -- and the sender do: the sender has been called at most `retries + 1` times for each alert on the
  -- ledger.
  pub mails-le-claims :
      (events : List (Event × ℕ × Faults)) (w : World)
      → w.outbox ≡ []
      → let w' = handle_all events w in length w'.outbox ≤ suc retries * ledger_size w'
  mails-le-claims events w empty =
      let bound = handle_all-Within events w in let none_yet = ap length empty in omega arith
