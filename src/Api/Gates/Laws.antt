-- ===== src/Api/Gates/Laws.antt =====
-- The gates of internal/api/api.go: the credentials that open them.
use uptime_monitor_api.Base.{
  arith, ◌≡◌, refl, ◌⊎◌, inl, inr, ap, subst, ℕ, ◌<◌, true, false, not, ◌&&◌, Option, none, some,
  String, if◌then◌else◌, Bool-cases,
}
use uptime_monitor_api.Base.Text.{is_empty}
use uptime_monitor_api.Db.{Exec, Result, ok, err, Faults, pure, ◌>>=◌}
use uptime_monitor_api.Registry.Tables.{Session, AdminUser, RegistryDb}
use uptime_monitor_api.Registry.Sessions.{session_with_id, lookup_session}
use uptime_monitor_api.Registry.Revocation.{LookupAt, lookup_session-LookupAt}
use uptime_monitor_api.Api.{Server, Settings, Crypto, Request, Reply, error_reply, in_registry}
use uptime_monitor_api.Api.Gates.{
  unix, key_matches, session_user, session_ok, admin_ok, require_admin, with_cookie,
}

bind-ok :
    {S A B : Type 0} (m : Exec S A) (f : A → Exec S B) (s : S) (fs : Faults) (a : A)
    → (m s fs).0 ≡ ok a
    → (m >>= f) s fs ≡ f a (m s fs).1 (m s fs).2
unfolding ◌>>=◌
bind-ok {S} {A} {B} m f s fs a h =
    ap
      (λ r. elim r as (λ _. Result B × S × Faults) [
        | ok x ↦ f x (m s fs).1 (m s fs).2
        | err e ↦ (err e, (m s fs).1, (m s fs).2)
      ])
      h

module _ (crypto : Crypto) (clock : ℕ) (settings : Settings) where
  -- The credentials of a request: the configured key, or a cookie whose session is live.
  pub data Authorised (r : Request) (db : RegistryDb) : Type 0 where
    by_key :
        is_empty settings.api_key ≡ false
        → key_matches r.presented_key settings.api_key ≡ true
        → Authorised r db
    by_session :
        (value : String) (sess : Session)
        → r.session_cookie ≡ some value
        → session_with_id (crypto.hash_token value) db ≡ some sess
        → unix crypto clock < sess.expires_at
        → Authorised r db

  Live : Option String → RegistryDb → Type 0
  Live o db =
      (value : String) × (sess : Session) × (o ≡ some value)
      × (session_with_id (crypto.hash_token value) db ≡ some sess)
      × (unix crypto clock < sess.expires_at)

  found-Live :
      (value : String) (db : RegistryDb) (fs : Faults) (sess : Session)
      (out : Result Session × RegistryDb × Faults)
      → lookup_session (crypto.hash_token value) (unix crypto clock) db fs ≡ out
      → out.0 ≡ ok sess
      → Live (some value) db
  unfolding Live
  found-Live value db fs sess (ok x, db', fs') e h =
      let at =
        subst (LookupAt (crypto.hash_token value) (unix crypto clock) db) e
          (lookup_session-LookupAt (crypto.hash_token value) (unix crypto clock) db fs) in
      (value, x, refl, at.0, at.1)
  found-Live value db fs sess (err x, db', fs') e h = ground arith

  with_cookie-found :
      (value : String) (s : Server) (fs : Faults)
      → (user : AdminUser) → (with_cookie crypto clock (some value) s fs).0 ≡ ok (some user)
      → (sess : Session) × ((lookup_session
            (crypto.hash_token value)
            (unix crypto clock)
            s.registry
            fs).0
          ≡ ok sess)
  unfolding ◌>>=◌ in_registry
  with_cookie-found value s fs user e = ground arith

  with_cookie-Live :
      (o : Option String) (s : Server) (fs : Faults) (user : AdminUser)
      → (with_cookie crypto clock o s fs).0 ≡ ok (some user)
      → Live o s.registry
  unfolding ◌>>=◌
  with_cookie-Live none s fs user e = ground arith
  with_cookie-Live (some value) s fs user e =
      let (sess, found) = with_cookie-found value s fs user e in
      found-Live value s.registry fs sess _ refl found

  session_ok-Live :
      (r : Request) (s : Server) (fs : Faults)
      → (session_ok crypto clock r s fs).0 ≡ ok true
      → (user : AdminUser) × ((with_cookie crypto clock r.session_cookie s fs).0 ≡ ok (some user))
  unfolding session_ok session_user ◌>>=◌
  session_ok-Live r s fs e = ground arith

  pub admin_ok-Authorised :
      (r : Request) (s : Server) (fs : Faults)
      → (admin_ok crypto clock settings r s fs).0 ≡ ok true
      → Authorised r s.registry
  unfolding admin_ok Live
  admin_ok-Authorised r s fs e =
      elim (Bool-cases
        (not (is_empty settings.api_key) && key_matches r.presented_key settings.api_key)) [
          | inl h ↦ by_key (ground arith) (ground arith)
          | inr h ↦
              let (user, found) = session_ok-Live r s fs (
                subst (λ b. ((if b then pure true else session_ok crypto clock r) s fs).0 ≡ ok true)
                  h e) in
              let (value, sess, p, q, l) = with_cookie-Live r.session_cookie s fs user found in
              by_session value sess p q l
        ]

  pub admin_ok-answers :
      (r : Request) (s : Server) (fs : Faults)
      → ((admin_ok crypto clock settings r s fs).0 ≡ ok true)
        ⊎ ((admin_ok crypto clock settings r s fs).0 ≡ ok false)
  unfolding admin_ok session_ok session_user ◌>>=◌ in_registry
  admin_ok-answers r s fs = ground arith

  -- A request with neither the configured key nor a live session gets a 401, with or without a key
  -- configured, and the handler behind the gate does not run: whatever the handler is and whatever the
  -- engine does, the server and the statements still to come are those that the look at the
  -- credentials leaves.
  pub require_admin-closed :
      (r : Request) (next : Exec Server Reply) (s : Server) (fs : Faults)
      → ¬ Authorised r s.registry
      → (let looked = admin_ok crypto clock settings r s fs in
          require_admin crypto clock settings r next s fs
          ≡ (ok (error_reply 401 "admin credentials required"), looked.1, looked.2))
  unfolding require_admin pure
  require_admin-closed r next s fs closed = elim (admin_ok-answers r s fs) [
    | inl h ↦ absurd (closed (admin_ok-Authorised r s fs h))
    | inr h ↦
        bind-ok (admin_ok crypto clock settings r)
          (λ b. if b then next else pure (error_reply 401 "admin credentials required")) s fs false
          h
  ]
