-- ===== src/Stores/Files.antt =====
-- internal/storage/manager.go: deleting and opening stores.
use uptime_monitor_api.Base.{
  ℕ, ◌≡◌, refl, ◌∙◌, ap, Bool, true, false, Option, none, some, [], String, if◌then◌else◌,
}
use uptime_monitor_api.Base.Text.{str_eq, eq_refl, ◌⧺◌}
use uptime_monitor_api.Base.Dict.{Dict, get, put, delete, get-put, get-delete}
use uptime_monitor_api.Db.{Exec, Faults, Result, ok, err, ◌>>=◌}
use uptime_monitor_api.Site.Tables.{empty_site, open_site_store, init_state}
use uptime_monitor_api.Site.Tick.History.{fresh_site}
use uptime_monitor_api.Stores.{
  Stores, path, safe_id, content, file, on_store, memory, get_store, delete_store,
}

-- One step after another, where the first succeeds.
bind-steps :
    {S A B : Type 0} (act : Exec S A) (f : A → Exec S B) (s : S) (fs : Faults) (a : A) (s' : S)
    (fs' : Faults) (o : Result B × S × Faults)
    → act s fs ≡ (ok a, s', fs')
    → f a s' fs' ≡ o
    → (act >>= f) s fs ≡ o
unfolding ◌>>=◌
bind-steps {S} {A} {B} act f s fs a s' fs' o h k =
    ap
      (λ x.
        let (r, t, gs) = x in
        elim r as (λ _. Result B × S × Faults) [ ok b ↦ f b t gs | err e ↦ (err e, t, gs) ])
      h
    ∙ k

if_none : {V : Type 0} (b : Bool) (o : Option V) → o ≡ none → (if b then none else o) ≡ none
if_none true o h = refl
if_none false o h = h

get-delete-none :
    {V : Type 0} (k j : String) (m : Dict V) → get j m ≡ none → get j (delete k m) ≡ none
get-delete-none k j m h = get-delete k j m ∙ if_none (str_eq k j) (get j m) h

get-delete_self : {V : Type 0} (k : String) (m : Dict V) → get k (delete k m) ≡ none
get-delete_self k m = get-delete k k m ∙ rw (eq_refl k) refl

get-put_self : {V : Type 0} (k : String) (v : V) (m : Dict V) → get k (put k v m) ≡ some v
get-put_self k v m = get-put k k v m ∙ rw (eq_refl k) refl

abbrev without : String → Stores → Stores
without id m =
    let p = path m id in
    record m {
      cache = delete id m.cache;
      files = delete (p ⧺ "-shm") (delete (p ⧺ "-wal") (delete p m.files));
    }

file-without : (id : String) (m : Stores) → file (path m id) (without id m) ≡ empty_site
file-without id m =
    let p = path m id in
    ap content (
      get-delete-none (p ⧺ "-shm") p _
        (get-delete-none (p ⧺ "-wal") p _ (get-delete_self p m.files)))

abbrev reopened : ℕ → String → Stores → Stores
reopened now id m =
    let p = path m id in
    record m {
      cache = put id p (delete id m.cache);
      files = put p (init_state now (file p (without id m))) (without id m).files;
    }

delete_store-run :
    (id : String) (m : Stores)
    → safe_id id ≡ true
    → delete_store id m [] ≡ (ok tt, without id m, [])
unfolding delete_store ◌>>=◌ memory
delete_store-run id m h = rw h refl

get_store-run :
    (now : ℕ) (id : String) (m : Stores)
    → safe_id id ≡ true
    → get_store now id (without id m) [] ≡ (ok (path m id), reopened now id m, [])
unfolding get_store ◌>>=◌ memory on_store open_site_store path
get_store-run now id m h = rw (h, get-delete_self id m.cache) refl

-- A store that is opened again after `Delete` is a new one: for a safe id and with no statement
-- refused, `Delete` and then `Get` answer the site's path, whose file holds the tables of a first
-- opening, whatever it held before, and the path is in the cache.
pub get_store-delete_store :
    (now : ℕ) (id : String) (m : Stores)
    → safe_id id ≡ true
    → (m' : Stores) × ((delete_store id >>= λ _. get_store now id) m [] ≡ (ok (path m id), m', []))
      × (file (path m id) m' ≡ fresh_site now)
      × (get id m'.cache ≡ some (path m id))
get_store-delete_store now id m h = (
  reopened now id m,
  bind-steps _ _ m [] tt (without id m) [] _ (delete_store-run id m h) (get_store-run now id m h),
  ap content (get-put_self (path m id) _ _) ∙ ap (init_state now) (file-without id m),
  get-put_self id (path m id) _,
)
