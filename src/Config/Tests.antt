-- ===== src/Config/Tests.antt =====
-- The configuration's theorems at a concrete site.
use uptime_monitor_api.Base.{◌≡◌, refl, ◌↔◌, ◌⊎◌, none, true, inr, arith}
use uptime_monitor_api.Base.Text.{is_empty, of_code, trim_space}
use uptime_monitor_api.Config.{SiteConfig, validate, apply_defaults}
use uptime_monitor_api.Config.Slug.{slugify, is_slug}
use uptime_monitor_api.Config.Slug.Laws.{slugify-is_slug}
use uptime_monitor_api.Config.Laws.{IsUsable, validate_iff}
use uptime_monitor_api.Config.Defaults.{Fillable, minimal, Filled, apply_defaults-Filled}
use uptime_monitor_api.Base.Int.{pos}
use uptime_monitor_api.Samples.{ascii, one_host, example_site}

example-valid : validate one_host example_site ≡ none
unfolding validate is_slug trim_space
example-valid = refl

validate_iff_example : (validate one_host example_site ≡ none) ↔ IsUsable one_host example_site
validate_iff_example = validate_iff one_host example_site

-- Only a name and an address.
abbrev bare_site : SiteConfig
bare_site = record example_site {
  id = "";
  name = " My  Site! ";
  interval_seconds = pos 0;
  slow_interval_seconds = pos 0;
}

bare_site-Fillable : Fillable one_host bare_site
unfolding trim_space slugify of_code
bare_site-Fillable =
    minimal (record { scheme = "https"; host = "example.com"; hostname = "example.com" }) refl refl
      (inr refl) refl refl refl (omega arith) (omega arith) refl refl

apply_defaults-Filled_example : Filled one_host bare_site (apply_defaults one_host bare_site)
apply_defaults-Filled_example = apply_defaults-Filled one_host bare_site bare_site-Fillable

slugify-is_slug_example :
    (is_empty (slugify ascii " My  Site! ") ≡ true) ⊎ (is_slug (slugify ascii " My  Site! ") ≡ true)
slugify-is_slug_example = slugify-is_slug ascii " My  Site! "
