-- ===== src/Checker/Expected.antt =====
-- internal/checker/checker.go: which checks a tick has to fail, from the configuration and the answers of
-- the network alone.
use uptime_monitor_api.Base.{
  ◌≡◌, refl, ap, ℕ, ◌*◌, Bool, true, false, not, ◌&&◌, ◌||◌, Option, none, some, List, [], ◌∷◌,
  ◌++◌, String, if◌then◌else◌, any, ltb, arith,
}
use uptime_monitor_api.Base.Text.{is_empty, contains}
use uptime_monitor_api.Base.Int.{ℤ, pos, negsuc, ltb_ℤ, eqb_ℤ}
use uptime_monitor_api.Config.{SiteConfig, ContentCheck, Library, host}
use uptime_monitor_api.Checker.{
  Network, Exchange, Response, bad_request, request_failed, responded, status_acceptable, missing,
  forbidden, eval_content, dns_error, bad_status, too_slow, content_error,
}

abbrev pub flag : Bool → String → List String
flag b check = if b then check ∷ [] else []

abbrev pub is_some : {A : Type 0} → Option A → Bool
is_some none = false
is_some (some a) = true

-- Without a list of statuses, one outside of 200 to 399; with one, a status that is not on it.
abbrev pub unexpected : List ℤ → ℕ → Bool
unexpected [] code = ltb code 200 || ltb 399 code
unexpected (e ∷ es) code = not (any (eqb_ℤ (pos code)) (e ∷ es))

-- More than a positive bound.
abbrev pub exceeds : ℕ → ℤ → Bool
exceeds elapsed (pos max) = ltb 0 max && ltb max elapsed
exceeds elapsed (negsuc n) = false

-- A wanted text is not there, or a forbidden one is; empty texts do not count.
abbrev pub wrong_content : String → ContentCheck → Bool
wrong_content body c =
    any (λ want. not (is_empty want) && not (contains body want)) c.must_contain
    || any (λ bad. not (is_empty bad) && contains body bad) c.must_not_contain

abbrev pub lapsed : ℕ → Option ℕ → Bool
lapsed clock none = false
lapsed clock (some expiry) = ltb (expiry * 1000000000) clock

missing-any :
    (quote : String → String) (body : String) (ws : List String)
    → is_some (missing quote body ws)
      ≡ any (λ want. not (is_empty want) && not (contains body want)) ws
missing-any quote body [] = refl
missing-any quote body (w ∷ ws) = let rest = missing-any quote body ws in ground arith

forbidden-any :
    (quote : String → String) (body : String) (ws : List String)
    → is_some (forbidden quote body ws) ≡ any (λ bad. not (is_empty bad) && contains body bad) ws
forbidden-any quote body [] = refl
forbidden-any quote body (w ∷ ws) = let rest = forbidden-any quote body ws in ground arith

pub eval_content-wrong_content :
    (quote : String → String) (body : String) (c : ContentCheck)
    → is_some (eval_content quote body c) ≡ wrong_content body c
unfolding eval_content
eval_content-wrong_content quote body c =
    let m = missing-any quote body c.must_contain in
    let n = forbidden-any quote body c.must_not_contain in ground arith

acceptable-unexpected :
    (es : List ℤ) (code : ℕ) → not (status_acceptable (pos code) es) ≡ unexpected es code
unfolding status_acceptable
acceptable-unexpected [] code = ground arith
acceptable-unexpected (e ∷ es) code = refl

module _ (lib : Library) (quote : String → String) (clock : ℕ) (site : SiteConfig)
    (slow : Bool) where
  abbrev pub unresolved : Network → Bool
  unresolved net =
      slow
      && site.checks.dns.enabled
      && not (is_empty (host lib site))
      && is_some (net.lookup_error (host lib site))

  -- The checks that an exchange has to fail, in the order in which they run.
  abbrev pub exchange_verdicts : Exchange → List String
  exchange_verdicts (bad_request e) = "http" ∷ []
  exchange_verdicts (request_failed elapsed e) = "http" ∷ []
  exchange_verdicts (responded elapsed r) =
      flag (site.checks.http.enabled && unexpected site.checks.http.expect_status r.status_code)
        "http"
      ++ flag (site.checks.latency.enabled && exceeds elapsed site.checks.latency.max_ms) "latency"
      ++ flag (site.checks.content.enabled && wrong_content r.body site.checks.content) "content"
      ++ flag ((slow && site.checks.ssl.enabled) && lapsed clock r.not_after) "ssl"

  abbrev pub verdicts : Network → List String
  verdicts net = flag (unresolved net) "dns" ++ exchange_verdicts net.exchange

  pub bad_status-unexpected :
      (r : Response)
      → bad_status lib quote site r
        ≡ (site.checks.http.enabled && unexpected site.checks.http.expect_status r.status_code)
  bad_status-unexpected r =
      ap (λ b. site.checks.http.enabled && b)
        (acceptable-unexpected site.checks.http.expect_status r.status_code)

  pub too_slow-exceeds :
      (elapsed : ℕ)
      → too_slow lib quote site elapsed
        ≡ (site.checks.latency.enabled && exceeds elapsed site.checks.latency.max_ms)
  too_slow-exceeds elapsed = go site.checks.latency.max_ms
    where
      go :
          (max : ℤ)
          → (site.checks.latency.enabled && ltb_ℤ (pos 0) max && ltb_ℤ max (pos elapsed))
            ≡ (site.checks.latency.enabled && exceeds elapsed max)
      go (pos max) = ground arith
      go (negsuc n) = ground arith

  pub content_error-wrong_content :
      (r : Response)
      → is_some (content_error lib quote site r)
        ≡ (site.checks.content.enabled && wrong_content r.body site.checks.content)
  content_error-wrong_content r = go site.checks.content.enabled
    where
      go :
          (b : Bool)
          → is_some (if b then eval_content quote r.body site.checks.content else none)
            ≡ (b && wrong_content r.body site.checks.content)
      go true = eval_content-wrong_content quote r.body site.checks.content
      go false = refl

  pub dns_error-unresolved :
      (net : Network) → is_some (dns_error lib quote net site slow) ≡ unresolved net
  dns_error-unresolved net = ground arith
