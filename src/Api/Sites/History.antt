-- ===== src/Api/Sites/History.antt =====
-- internal/api/api.go: what any sequence of site requests leaves of the registry and the scheduler.
use uptime_monitor_api.Base.{ℕ, ◌≡◌, false, Bool, Option, List, [], ◌∷◌, String, All}
use uptime_monitor_api.Base.Text.{is_empty}
use uptime_monitor_api.Config.{Library}
use uptime_monitor_api.Db.{Exec, Faults}
use uptime_monitor_api.Registry.Sites.{Codec}
use uptime_monitor_api.Registry.Monitored.{monitored}
use uptime_monitor_api.Scheduler.Tracking.{uncancelled}
use uptime_monitor_api.Scheduler.{Ready, move, selects, open_fails}
use uptime_monitor_api.Scheduler.Running.{at_most_one, Loyal, plan, Follows-move, Follows-Loyal}
use uptime_monitor_api.Api.{Server, Crypto, Reply, Body}
use uptime_monitor_api.Api.Sites.{
  SiteBody, handle_create_site, handle_update_site, handle_delete_site,
}
use uptime_monitor_api.Api.Sites.Synced.{Synced}
use uptime_monitor_api.Api.Sites.Laws.{Readable, create-Synced, update-Synced, delete-Synced}

-- A request with the time of the server and the key that `randomKey` would draw.
pub data SiteRequest : Type 0 where
  creates : ℕ → Option String → Body SiteBody → SiteRequest
  updates : ℕ → Option String → String → Body SiteBody → SiteRequest
  deletes : String → Bool → SiteRequest

-- What happens at a server: a request, with what the engine does to its statements, or a step of the
-- check loop with a context: its `select`, or its return because its store does not open.
pub data SiteEvent : Type 0 where
  requested : SiteRequest → Faults → SiteEvent
  loop_selects : ℕ → Ready → SiteEvent
  store_fails : ℕ → SiteEvent

module _ (lib : Library) (json : Codec) (crypto : Crypto) where
  abbrev pub serve : SiteRequest → Exec Server Reply
  serve (creates now key body) = handle_create_site lib json crypto now key body
  serve (updates now key id body) = handle_update_site lib json crypto now key id body
  serve (deletes id purge) = handle_delete_site id purge

  -- The path of a request has an id, and JSON reads back the checks that it writes.
  abbrev pub IsSound : SiteRequest → Type 0
  IsSound (creates now key body) = Readable lib json crypto now key body
  IsSound (updates now key id body) = (is_empty id ≡ false) × Readable lib json crypto now key body
  IsSound (deletes id purge) = Unit

  serve-Synced :
      (q : SiteRequest) (fs : Faults) (s : Server)
      → IsSound q
      → Synced json s
      → Synced json (serve q s fs).1
  serve-Synced (creates now key body) fs s h p =
      (create-Synced lib json crypto now key body h).at s fs p
  serve-Synced (updates now key id body) fs s h p =
      (update-Synced lib json crypto now key id body h.0 h.1).at s fs p
  serve-Synced (deletes id purge) fs s h p = (delete-Synced json id purge).at s fs p

  abbrev pub IsSoundEvent : SiteEvent → Type 0
  IsSoundEvent (requested q fs) = IsSound q
  IsSoundEvent _ = Unit

  abbrev pub happens : SiteEvent → Server → Server
  happens (requested q fs) s = (serve q s fs).1
  happens (loop_selects n r) s = record s { scheduler = move (selects n r) s.scheduler }
  happens (store_fails n) s = record s { scheduler = move (open_fails n) s.scheduler }

  abbrev pub happen_all : List SiteEvent → Server → Server
  happen_all [] s = s
  happen_all (v ∷ vs) s = happen_all vs (happens v s)

  happens-Synced :
      (v : SiteEvent) (s : Server) → IsSoundEvent v → Synced json s → Synced json (happens v s)
  unfolding plan
  happens-Synced (requested q fs) s h p = serve-Synced q fs s h p
  happens-Synced (loop_selects n r) s h p = Follows-move (selects n r) s.scheduler _ p
  happens-Synced (store_fails n) s h p = Follows-move (open_fails n) s.scheduler _ p

  happen_all-Synced :
      (vs : List SiteEvent) (s : Server)
      → All IsSoundEvent vs
      → Synced json s
      → Synced json (happen_all vs s)
  happen_all-Synced [] s h p = p
  happen_all-Synced (v ∷ vs) s h p =
      happen_all-Synced vs (happens v s) h.1 (happens-Synced v s h.0 p)

  -- Whatever sequence of create, update and delete requests a server answers, whatever statements the
  -- engine refuses on the way, and whatever its check loops do in between: if the loops that are not
  -- cancelled were those of the enabled sites of the registry before, they are so afterwards. For each
  -- id there is one, with the stored configuration, when an enabled site is stored under it, and none
  -- otherwise; and it has not returned, unless its store did not open.
  pub happen_all-runs :
      (vs : List SiteEvent) (s : Server) (k : String)
      → All IsSoundEvent vs
      → Synced json s
      → (uncancelled k (happen_all vs s).scheduler.loops
          ≡ at_most_one (monitored json (happen_all vs s).registry k))
        × All Loyal (happen_all vs s).scheduler.loops
  happen_all-runs vs s k h p =
      let q = happen_all-Synced vs s h p in (q.agrees k, Follows-Loyal _ _ q)
