-- ===== src/Api/Routes/Untouched.antt =====
-- internal/api/auth.go and api.go: what asking for the credentials leaves of the server.
use uptime_monitor_api.Base.{
  ℕ, ◌+◌, leb, ltb, not, ◌&&◌, ◌≡◌, refl, ap, ◌∙◌, Option, none, some, [], String,
}
use uptime_monitor_api.Base.Text.{is_empty}
use uptime_monitor_api.Db.{Exec, Result, update, session_not_found}
use uptime_monitor_api.Db.Hoare.{
  Hoare, Hoare-pure, Hoare-update, Hoare-raise, Hoare-option, Hoare-bind, Hoare-if, Hoare-attempt,
  Hoare-forget,
}
use uptime_monitor_api.Registry.Tables.{Session, AdminUser, RegistryDb}
use uptime_monitor_api.Registry.Sessions.{
  lookup_session, touch_session, delete_session, session_with_id, found_session,
}
use uptime_monitor_api.Registry.Users.{admin_user_by_id, found_user, user_with_id}
use uptime_monitor_api.Registry.Sites.{Codec, get_site}
use uptime_monitor_api.Api.{
  Server, Settings, Crypto, Request, in_registry, seconds, session_renew_after,
}
use uptime_monitor_api.Api.Hoare.{Hoare-in_registry}
use uptime_monitor_api.Api.Gates.{
  key_matches, slide, with_user, with_session, with_cookie, session_user, session_ok, admin_ok,
}

-- The server without the sessions.
abbrev pub mask : Server → Server
mask s = record s { registry = record s.registry { sessions = [] } }

-- The action changes nothing but the sessions.
abbrev pub Leaves : {A : Type 0} → Exec Server A → Type 0
Leaves m = (x : Server) → Hoare (λ s. mask s ≡ x) m (λ r s. mask s ≡ x)

abbrev masked : RegistryDb → RegistryDb
masked db = record db { sessions = [] }

module _ {A : Type 0} where
  Leaves-update :
      (f : RegistryDb → Result A × RegistryDb)
      → ((db : RegistryDb) → masked (f db).1 ≡ masked db)
      → Leaves (in_registry (update f))
  Leaves-update f h x =
      Hoare-in_registry _
        λ s. Hoare-update f (λ db p. ap (λ d. record s { registry = d }) (h db) ∙ p) (λ e db p. p)

found_user-masked :
    (o : Option AdminUser) (db : RegistryDb) → masked (found_user o db).1 ≡ masked db
found_user-masked none db = refl
found_user-masked (some u) db = refl

found_session-masked :
    (o : Option Session) (db : RegistryDb) → masked (found_session o db).1 ≡ masked db
found_session-masked none db = refl
found_session-masked (some u) db = refl

lookup-Leaves : (id : String) (now : ℕ) → Leaves (in_registry (lookup_session id now))
unfolding lookup_session delete_session
lookup-Leaves id now x = Hoare-in_registry _ λ s.
    let P = λ (db : RegistryDb). mask (record s { registry = db }) ≡ x in
    Hoare-bind (λ r. P) _ _
      (Hoare-update _
        (λ db p.
          ap (λ d. record s { registry = d }) (found_session-masked (session_with_id id db) db) ∙ p)
        (λ e db p. p))
      (λ e db p. p)
      (λ sess.
        Hoare-if (leb sess.expires_at now)
          (λ e.
            Hoare-attempt P (delete_session id) _ (Hoare-update _ (λ db p. p) (λ e db p. p))
              (Hoare-raise session_not_found (λ db p. p)))
          (λ e. Hoare-pure sess (λ db p. p)))

module _ (crypto : Crypto) (clock : ℕ) where
  slide-Leaves : (sess : Session) → Leaves (slide crypto clock sess)
  unfolding touch_session
  slide-Leaves sess x =
      Hoare-if (ltb (seconds (sess.last_seen_at + session_renew_after)) clock)
        (λ e. Hoare-forget (in_registry (touch_session _ _ _)) (Leaves-update _ (λ db. refl) x))
        (λ e. Hoare-pure tt (λ s p. p))

  with_user-Leaves :
      (sess : Session) (o : Option AdminUser) → Leaves (with_user crypto clock sess o)
  with_user-Leaves sess none x = Hoare-pure _ (λ s p. p)
  with_user-Leaves sess (some u) x =
      Hoare-bind (λ r s. mask s ≡ x) _ _ (slide-Leaves sess x) (λ e s p. p)
        (λ _. Hoare-pure _ (λ s p. p))

  with_session-Leaves : (o : Option Session) → Leaves (with_session crypto clock o)
  unfolding admin_user_by_id
  with_session-Leaves none x = Hoare-pure _ (λ s p. p)
  with_session-Leaves (some sess) x =
      Hoare-option (λ s. mask s ≡ x) _ _
        (Leaves-update _ (λ db. found_user-masked (user_with_id sess.user_id db) db) x)
        (λ o. with_user-Leaves sess o x)

  with_cookie-Leaves : (o : Option String) → Leaves (with_cookie crypto clock o)
  with_cookie-Leaves none x = Hoare-pure _ (λ s p. p)
  with_cookie-Leaves (some value) x =
      Hoare-if (is_empty value) (λ e. Hoare-pure _ (λ s p. p))
        (λ e.
          Hoare-option (λ s. mask s ≡ x) _ _ (lookup-Leaves _ _ x) (λ o. with_session-Leaves o x))

  pub admin_ok-Leaves :
      (settings : Settings) (r : Request) → Leaves (admin_ok crypto clock settings r)
  unfolding admin_ok session_ok session_user
  admin_ok-Leaves settings r x =
      Hoare-if (not (is_empty settings.api_key) && key_matches r.presented_key settings.api_key)
        (λ e. Hoare-pure _ (λ s p. p))
        (λ e.
          Hoare-bind (λ r s. mask s ≡ x) _ _ (with_cookie-Leaves r.session_cookie x) (λ e s p. p)
            (λ u. Hoare-pure _ (λ s p. p)))

pub get_site-Leaves : (json : Codec) (id : String) → Leaves (in_registry (get_site json id))
unfolding get_site
get_site-Leaves json id x = Leaves-update _ (λ db. refl) x
