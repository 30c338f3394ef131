-- ===== src/Checker/Tests.antt =====
-- A tick that fails two checks.
use uptime_monitor_api.Base.{◌≡◌, refl, true, none, some, [], ◌∷◌}
use uptime_monitor_api.Checker.{Network, responded, run_tick}
use uptime_monitor_api.Checker.Expected.{verdicts}
use uptime_monitor_api.Checker.Verdicts.{all_passed, run_tick-verdicts}
use uptime_monitor_api.Samples.{one_host, example_site}

-- A slow answer without the text that is asked for; the certificate is good for years.
abbrev network : Network
network = record {
  lookup_error = λ host. none;
  exchange =
      responded 800 (record { status_code = 200; body = "goodbye"; not_after = some 2000000000 });
}

two_failures :
    (run_tick one_host (λ s. s) 1000000000000 network example_site true).failed_checks
    ≡ "latency" ∷ "content" ∷ []
unfolding run_tick
two_failures = refl

run_tick-verdicts_example :
    let t = run_tick one_host (λ s. s) 1000000000000 network example_site true in
    (t.failed_checks ≡ verdicts one_host (λ s. s) 1000000000000 example_site true network)
    × (t.up ≡ all_passed (verdicts one_host (λ s. s) 1000000000000 example_site true network))
run_tick-verdicts_example =
    run_tick-verdicts one_host (λ s. s) 1000000000000 example_site true network
