-- ===== src/Registry/Revocation.antt =====
-- How sessions end: expiry, and the change of a password.
use uptime_monitor_api.Base.{
  arith, subst, ◌≡◌, ◌⊎◌, refl, ◌≢◌, ℕ, ◌<◌, Bool, true, false, not, some, List, [], ◌∷◌, ◌==◌, leb,
  any, filter, find, map, ap, if◌then◌else◌, String,
}
use uptime_monitor_api.Base.Text.{str_eq}
use uptime_monitor_api.Db.{Result, ok, err, Faults, ◌>>=◌}
use uptime_monitor_api.Db.Runs.{
  Commits, Runs, Commits-transaction, Runs-update, Runs-bind, Runs-pure,
}
use uptime_monitor_api.Registry.Tables.{Session, AdminUser, RegistryDb}
use uptime_monitor_api.Registry.Sessions.{
  session_with_id, drop_session, lookup_session, delete_session,
}
use uptime_monitor_api.Registry.Users.{set_admin_password, update_hash, set_hash, drop_sessions_of}

abbrev pub rehashed : ℕ → String → ℕ → AdminUser → AdminUser
rehashed id hash now u =
    if u.id == id then record u { password_hash = hash; updated_at = now } else u

-- The registry with the new hash and without the account's sessions.
abbrev pub repassworded : ℕ → String → ℕ → RegistryDb → RegistryDb
repassworded id hash now db = record db {
  admin_users = map (rehashed id hash now) db.admin_users;
  sessions = filter (λ s. not (s.user_id == id)) db.sessions;
}

set_hash-map :
    (id : ℕ) (hash : String) (now : ℕ) (us : List AdminUser)
    → set_hash id hash now us ≡ map (rehashed id hash now) us
set_hash-map id hash now [] = refl
set_hash-map id hash now (u ∷ us) =
    ap (λ l. rehashed id hash now u ∷ l) (set_hash-map id hash now us)

repassworded-eq :
    (id : ℕ) (hash : String) (now : ℕ) (db : RegistryDb)
    → drop_sessions_of id (record db { admin_users = set_hash id hash now db.admin_users })
      ≡ repassworded id hash now db
repassworded-eq id hash now db =
    ap (λ us. drop_sessions_of id (record db { admin_users = us }))
      (set_hash-map id hash now db.admin_users)

-- For an account that exists, `SetAdminPassword` gives it the new hash and the time of the change, leaves
-- every other account as it is, and drops the sessions of the account and no other, in one
-- transaction: when it fails, none of this has happened.
pub set_admin_password-Commits :
    (id : ℕ) (hash : String) (now : ℕ) (db : RegistryDb)
    → any (λ u. u.id == id) db.admin_users ≡ true
    → Commits (set_admin_password id hash now) db tt (repassworded id hash now db)
unfolding set_admin_password
set_admin_password-Commits id hash now db known = Commits-transaction (
    Runs-bind _
      (Runs-update (update_hash id hash now) db tt
        (record db { admin_users = set_hash id hash now db.admin_users }) (rw known refl))
      (Runs-update _ _ tt _ (ap (λ d. (ok tt, d)) (repassworded-eq id hash now db))))

-- What `LookupSession` may answer from the tables `db`.
abbrev pub LookupAt : String → ℕ → RegistryDb → Result Session × RegistryDb × Faults → Type 0
LookupAt id now db (ok s, db', fs') =
    (session_with_id id db ≡ some s) × (now < s.expires_at) × (db' ≡ db)
LookupAt id now db (err e, db', fs') = (db' ≡ db) ⊎ (db' ≡ drop_session id db)

pub lookup_session-LookupAt :
    (id : String) (now : ℕ) (db : RegistryDb) (fs : Faults)
    → LookupAt id now db (lookup_session id now db fs)
unfolding lookup_session ◌>>=◌ delete_session
lookup_session-LookupAt id now db fs = ground arith

-- The lookup of a session that is on record and has not expired answers it and leaves the tables as
-- they are, unless the engine fails.
pub lookup_session-Runs :
    (id : String) (now : ℕ) (db : RegistryDb) (s : Session)
    → session_with_id id db ≡ some s
    → now < s.expires_at
    → Runs (lookup_session id now) db s db
unfolding lookup_session
lookup_session-Runs id now db s found live =
    Runs-bind _ (Runs-update _ db s db (rw found refl)) (rw lemma (Runs-pure s db))
  where
    lemma : leb s.expires_at now ≡ false
    lemma = ground arith

set_admin_password-after :
    (uid : ℕ) (hash : String) (now : ℕ) (db : RegistryDb) (fs : Faults)
    → (db' : RegistryDb) (fs' : Faults) → set_admin_password uid hash now db fs ≡ (ok tt, db', fs')
    → db' ≡ repassworded uid hash now db
unfolding set_admin_password ◌>>=◌
set_admin_password-after uid hash now db fs db' fs' h =
    let same = repassworded-eq uid hash now db in ground (arith, same)

find-filter :
    {A : Type 0} (p q : A → Bool) (xs : List A) (x : A) → find p (filter q xs) ≡ some x → q x ≡ true
find-filter p q [] x h = ground arith
find-filter p q (y ∷ ys) x h = let rest = find-filter p q ys x in ground arith

revoked-found :
    (uid : ℕ) (hash : String) (now : ℕ) (db : RegistryDb) (id : String) (s : Session)
    → session_with_id id (repassworded uid hash now db) ≡ some s
    → s.user_id ≢ uid
revoked-found uid hash now db id s h =
    let kept = find-filter (λ t. str_eq t.id id) (λ t. not (t.user_id == uid)) db.sessions s h in
    ground arith

-- After a password is set, no session of the account opens any more: whatever the engine does, a
-- lookup that answers a session answers one of another account.
pub set_admin_password-revokes :
    (uid : ℕ) (hash : String) (now : ℕ) (db : RegistryDb) (fs : Faults) (db' : RegistryDb)
    (fs' : Faults)
    → set_admin_password uid hash now db fs ≡ (ok tt, db', fs')
    → (id : String) (later : ℕ) (gs : Faults) (s : Session) (db'' : RegistryDb) (gs' : Faults)
    → lookup_session id later db' gs ≡ (ok s, db'', gs')
    → s.user_id ≢ uid
set_admin_password-revokes uid hash now db fs db' fs' set id later gs s db'' gs' looked =
    let found = subst (LookupAt id later db') looked (lookup_session-LookupAt id later db' gs) in
    let done = set_admin_password-after uid hash now db fs db' fs' set in
    revoked-found uid hash now db id s (subst (λ d. session_with_id id d ≡ some s) done found.0)
