-- ===== src/Health/Tests.antt =====
-- The monitor with two servers, one of which is down.
use arc_relay.Prelude.{ℕ, ◌≤◌, ◌≡◌, refl, ◌↔◌, String, List, [], ◌∷◌, true, false, none}
use arc_relay.Health.{
  Server, ServerStatus, running, error, unknown, stdio, answered, failed, Ping, HealthMonitor,
  count_of, new_health_monitor, try_recover, check_listed, finish,
}
use arc_relay.Health.Recovery.{Event, checked, finished, run, jobs_of, run-single, step}
use arc_relay.Health.Budget.{attempts, attempts_limit}

abbrev server : String → ServerStatus → Server
server id status = record {
  id = id;
  server_type = stdio;
  config_url = none;
  status = status;
  error_msg = "";
  health = unknown;
  health_error = "";
}

abbrev monitor : HealthMonitor
monitor = new_health_monitor (server "a" running ∷ server "b" error ∷ [])

abbrev round : ℕ → Event
round now =
    checked (record { backend = true; ping = answered; now = now; retried = false })
      (server "b" error)

-- The second round meets a recovery under way, the fourth the cooldown, and the last the limit.
abbrev events : List Event
events =
    round 1000
    ∷ round 1400
    ∷ finished "b" false
    ∷ round 1500
    ∷ finished "b" false
    ∷ round 1600
    ∷ round 2000
    ∷ finished "b" false
    ∷ round 9000
    ∷ []

run-single_example :
    let m = run events monitor in
    (jobs_of "b" m.jobs ≤ 1)
    × ((m.recovering "b" ≡ true) ↔ (jobs_of "b" m.jobs ≡ 1))
    × (count_of m.recover_attempts "b" ≤ 3)
run-single_example = run-single (server "a" running ∷ server "b" error ∷ []) events "b"

three_attempts : attempts "b" events monitor ≡ 3
unfolding attempts try_recover step check_listed finish
three_attempts = refl

attempts_limit_example : attempts "b" events monitor ≤ 3
attempts_limit_example =
    attempts_limit (server "a" running ∷ server "b" error ∷ []) events "b"
      (refl, (refl, (refl, (refl, (refl, (refl, (refl, (refl, (refl, tt)))))))))

abbrev pings : List Ping
pings = failed "x" ∷ answered ∷ failed "x" ∷ failed "x" ∷ failed "timeout" ∷ answered ∷ []
