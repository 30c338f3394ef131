-- ===== src/Stores.antt =====
-- internal/storage/manager.go: the per-site database files and the cache of the open ones.
pub mod Safe
pub mod Files
mod Tests
use uptime_monitor_api.Base.{
  ℕ, Bool, true, false, not, ◌&&◌, ◌||◌, Option, none, some, List, [], ◌∷◌, String, ◌==◌,
  if◌then◌else◌,
}
use uptime_monitor_api.Base.Text.{Char, code, str_eq, is_empty, trim_right, ◌⧺◌}
use uptime_monitor_api.Base.Dict.{Dict, get, put, delete}
use uptime_monitor_api.Db.{
  Exec, Result, ok, err, Error, plain, pure, raise, ◌>>=◌, ◌>>◌, attempt_result, update,
}
use uptime_monitor_api.Site.Tables.{SiteDb, empty_site, open_site_store}

-- An open store is known by the path of its file. `dir` is the cleaned data directory; `files` holds
-- what the disk has at a path.
pub record Stores : Type 0 where
  pub dir : String
  pub cache : Dict String
  pub files : Dict SiteDb

-- `NewManager`, once the directory is there
abbrev pub new_stores : String → Dict SiteDb → Stores
new_stores dir files = record { dir = dir; cache = []; files = files }

abbrev pub is_slash : Char → Bool
is_slash c = code c == 47

abbrev pub is_separator : Char → Bool
is_separator c = code c == 47 || code c == 92

-- strings.ContainsAny, for the two separators
unfoldable pub has_separator : String → Bool
has_separator String.[] = false
has_separator (String.◌∷◌ c s) = is_separator c || has_separator s

unfoldable pub has_slash : String → Bool
has_slash String.[] = false
has_slash (String.◌∷◌ c s) = is_slash c || has_slash s

-- What stands behind the last slash.
unfoldable pub after_last_slash : String → String
unfolding has_slash
after_last_slash String.[] = String.[]
after_last_slash (String.◌∷◌ c s) =
    let rest = after_last_slash s in
    if has_slash s then rest else if is_slash c then s else String.◌∷◌ c s

-- filepath.Base
unfoldable pub base : String → String
unfolding after_last_slash trim_right
base path =
    if is_empty path
    then "."
    else let name = after_last_slash (trim_right is_slash path) in
      if is_empty name then "/" else name

-- `safeID`
unfoldable pub safe_id : String → Bool
unfolding base has_separator
safe_id id =
    not (is_empty id)
    && not (str_eq id ".")
    && not (str_eq id "..")
    && str_eq id (base id)
    && not (has_separator id)

-- `path`
unfoldable pub path : Stores → String → String
path m id = m.dir ⧺ "/" ⧺ id ⧺ ".db"

abbrev pub content : Option SiteDb → SiteDb
content none = empty_site
content (some db) = db

abbrev pub file : String → Stores → SiteDb
file p m = content (get p m.files)

module _ {A : Type 0} where
  -- A call of an open store.
  unfoldable pub on_store : String → Exec SiteDb A → Exec Stores A
  unfolding get put
  on_store p act m fs =
      let (r, db, fs') = act (file p m) fs in (r, record m { files = put p db m.files }, fs')

-- The `%q` of the message is left out.
abbrev pub invalid_id : Error
invalid_id = plain "invalid site id"

module _ {A : Type 0} where
  -- What only touches the manager's memory: it does not fail.
  unfoldable pub memory : (Stores → A × Stores) → Exec Stores A
  memory f m fs = let (a, m') = f m in (ok a, m', fs)

-- `m.cache[id] = s`
abbrev pub remembered : String → String → Stores → String × Stores
unfolding put
remembered id p m = (p, record m { cache = put id p m.cache })

module _ (now : ℕ) where
  abbrev pub found : String → String × Option String → Exec Stores String
  found id (p, some open_path) = pure open_path
  found id (p, none) = on_store p (open_site_store now) >> memory (remembered id p)

  -- `Get`
  unfoldable pub get_store : String → Exec Stores String
  unfolding safe_id get path
  get_store id =
      if safe_id id
      then memory (λ m. ((path m id, get id m.cache), m)) >>= found id
      else raise invalid_id

-- os.Remove; that there is no such file is no error.
abbrev pub remove_file : String → Exec Stores (Unit {0})
unfolding delete
remove_file p = update (λ m. (ok tt, record m { files = delete p m.files }))

abbrev pub first_error : Option Error → Result (Unit {0}) → Option Error
first_error (some e) r = some e
first_error none (err e) = some e
first_error none (ok _) = none

abbrev pub settled : Option Error → Exec Stores (Unit {0})
settled none = pure tt
settled (some e) = raise e

-- The loop over the file and its two sidecars: the first error is kept, the others are dropped.
abbrev pub remove_files : Option Error → List String → Exec Stores (Unit {0})
remove_files e [] = settled e
remove_files e (p ∷ ps) = attempt_result (remove_file p) >>= λ r. remove_files (first_error e r) ps

abbrev pub sidecars : String → List String
sidecars p = p ∷ (p ⧺ "-wal") ∷ (p ⧺ "-shm") ∷ []

-- `Delete`; closing a store that is open does not fail here.
unfoldable pub delete_store : String → Exec Stores (Unit {0})
unfolding safe_id path delete
delete_store id =
    if safe_id id
    then memory (λ m. (path m id, record m { cache = delete id m.cache }))
      >>= (λ p. remove_files none (sidecars p))
    else raise invalid_id

-- `Close`
unfoldable pub close_stores : Stores → Stores
close_stores m = record m { cache = [] }
