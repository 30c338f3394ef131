-- ===== src/Stores/Tests.antt =====
-- Runs of the store manager.
use uptime_monitor_api.Base.{◌≡◌, refl, true, false, some, none, [], ◌∷◌}
use uptime_monitor_api.Base.Dict.{get}
use uptime_monitor_api.Config.Slug.{is_slug}
use uptime_monitor_api.Db.{ok, err, plain, ◌>>=◌}
use uptime_monitor_api.Site.Tables.{SiteDb, empty_site}
use uptime_monitor_api.Site.Tick.History.{fresh_site}
use uptime_monitor_api.Stores.{
  Stores, new_stores, path, safe_id, get_store, delete_store, close_stores, file, memory,
}
use uptime_monitor_api.Stores.Safe.{is_slug-safe_id}
use uptime_monitor_api.Stores.Files.{get_store-delete_store}

abbrev old_tables : SiteDb
old_tables = record empty_site {
  errors = record { id = 1; ts = 5; check_type = "http"; message = "old" } ∷ [];
}

abbrev stores : Stores
stores = new_stores "data" (("data/a.db", old_tables) ∷ [])

escapes : safe_id "../registry" ≡ false
unfolding safe_id
escapes = refl

-- The second error of the three removals is dropped.
first_error_kept :
    (delete_store "a" stores (none ∷ some (plain "busy") ∷ some (plain "late") ∷ [])).0
    ≡ err (plain "busy")
unfolding delete_store ◌>>=◌ memory
first_error_kept = refl

closed : (close_stores (record stores { cache = ("a", "data/a.db") ∷ [] })).cache ≡ []
unfolding close_stores
closed = refl

my_site-is_slug : is_slug "my-site" ≡ true
unfolding is_slug
my_site-is_slug = refl

is_slug-safe_id_example : safe_id "my-site" ≡ true
is_slug-safe_id_example = is_slug-safe_id "my-site" my_site-is_slug

a_is_safe : safe_id "a" ≡ true
unfolding safe_id
a_is_safe = refl

get_store-delete_store_example :
    (m' : Stores) × ((delete_store "a" >>= λ _. get_store 9 "a") stores []
      ≡ (ok (path stores "a"), m', []))
    × (file (path stores "a") m' ≡ fresh_site 9)
    × (get "a" m'.cache ≡ some (path stores "a"))
get_store-delete_store_example = get_store-delete_store 9 "a" stores a_is_safe
