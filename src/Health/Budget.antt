-- ===== src/Health/Budget.antt =====
-- How many recovery attempts a server gets.
use arc_relay.Prelude.{
  ℕ, ◌+◌, ◌-◌, ◌≤◌, ◌<◌, ◌≡◌, refl, ◌∙◌, ◌⊎◌, ◌↔◌, inl, inr, String, List, [], ◌∷◌, Bool, true,
  false, ◌&&◌, none, some, arith, if◌then◌else◌, leb, str_eq, eq_iff, Bool-cases, Option-cases, not,
  All,
}
use arc_relay.Prelude.Maps.{update}
use arc_relay.Health.{
  HealthMonitor, Server, ServerStatus, Ping, Probe, count_of, new_health_monitor,
  is_stateless_server, launch, try_recover, finish, reset_recovery_state, check_running,
  check_listed, running, error, stopped, starting, answered, failed, is_unknown,
}
use arc_relay.Health.Recovery.{
  Event, checked, finished, restarted, step, Inv, step-Inv, new_health_monitor-Inv, count_of-delete,
  count_of-update, one_if, runs,
}

-- An attempt is made exactly when no recovery of the server is under way, the last one is five
-- minutes ago or not recorded, and fewer than three are counted.
pub try_recover_iff :
    (now : ℕ) (retried : Bool) (srv : Server) (m : HealthMonitor)
    → ((try_recover now retried srv m).1 ≡ true) ↔ (
        (m.recovering srv.id ≡ false)
        × ((m.last_recover srv.id ≡ none)
            ⊎ ((last : ℕ) × (m.last_recover srv.id ≡ some last) × (300 ≤ now - last)))
        × (count_of m.recover_attempts srv.id < 3))
unfolding try_recover
try_recover_iff now retried srv m = elim (Option-cases (m.last_recover srv.id)) [
  | inl e ↦ ground (arith, e)
  | inr (last, e) ↦ ground (arith, e)
]

-- The event brings no recovery of the server about.
abbrev pub fails : String → Event → Bool
fails id (checked p srv) = not (str_eq srv.id id && p.retried)
fails id (finished j ok) = not (str_eq j id && ok)
fails id (restarted j) = not (str_eq j id)

abbrev pub is_error : ServerStatus → Bool
is_error error = true
is_error _ = false

-- The attempts that an event, and that a list of events, makes to recover the server.
abbrev pub attempted : String → Event → HealthMonitor → ℕ
attempted id (checked p srv) m =
    one_if (is_error srv.status && (str_eq srv.id id && (try_recover p.now p.retried srv m).1))
attempted id _ m = 0

unfoldable pub attempts : String → List Event → HealthMonitor → ℕ
attempts id [] m = 0
attempts id (e ∷ es) m = attempted id e m + attempts id es (step e m)

counted-count :
    (m : HealthMonitor) (srv id : String)
    → count_of (update m.recover_attempts srv (count_of m.recover_attempts srv + 1)) id
      ≡ count_of m.recover_attempts id + one_if (str_eq srv id)
counted-count m srv id =
    rw (count_of-update m.recover_attempts srv (count_of m.recover_attempts srv + 1) id)
      (ground (arith, eq_iff srv id))

reconnected-count :
    (m : HealthMonitor) (retried : Bool) (srv id : String)
    → (str_eq srv id && retried) ≡ false
    → count_of (if retried then reset_recovery_state srv m else m).recover_attempts id
      ≡ count_of m.recover_attempts id
unfolding reset_recovery_state
reconnected-count m true srv id h =
    rw (count_of-delete m.recover_attempts srv id) (ground (arith, h))
reconnected-count m false srv id h = refl

launch-count :
    (now : ℕ) (retried : Bool) (srv : Server) (m : HealthMonitor) (id : String)
    → (str_eq srv.id id && retried) ≡ false
    → count_of (launch now retried srv m).recover_attempts id
      ≡ count_of m.recover_attempts id + one_if (str_eq srv.id id)
launch-count now retried srv m id h = elim (Bool-cases (is_stateless_server srv)) [
  | inl e ↦ rw e (reconnected-count _ retried srv.id id h ∙ counted-count m srv.id id)
  | inr e ↦ rw e (counted-count m srv.id id)
]

try_recover-count :
    (now : ℕ) (retried : Bool) (srv : Server) (m : HealthMonitor) (id : String)
    → (str_eq srv.id id && retried) ≡ false
    → count_of (try_recover now retried srv m).0.recover_attempts id
      ≡ count_of m.recover_attempts id
        + one_if (str_eq srv.id id && (try_recover now retried srv m).1)
unfolding try_recover
try_recover-count now retried srv m id h = ground (arith, launch-count now retried srv m id h)

check_running-count :
    (backend : Bool) (ping : Ping) (srv id : String) (m : HealthMonitor)
    → count_of (check_running backend ping srv m).recover_attempts id
      ≡ count_of m.recover_attempts id
unfolding check_running
check_running-count false ping srv id m = refl
check_running-count true answered srv id m = refl
check_running-count true (failed message) srv id m =
    elim (Bool-cases (leb 3 (count_of m.fail_counts srv + 1))) [ inl e ↦ rw e | inr e ↦ rw e ]

check_listed-count :
    (status : ServerStatus) (p : Probe) (srv : Server) (m : HealthMonitor) (id : String)
    → (str_eq srv.id id && p.retried) ≡ false
    → count_of (check_listed status p srv m).recover_attempts id
      ≡ count_of m.recover_attempts id
        + one_if (is_error status && (str_eq srv.id id && (try_recover p.now p.retried srv m).1))
unfolding check_listed
check_listed-count running p srv m id h =
    omega (arith, check_running-count p.backend p.ping srv.id id m)
check_listed-count error p srv m id h = try_recover-count p.now p.retried srv m id h
check_listed-count stopped p srv m id h = elim (Bool-cases (is_unknown srv.health)) [
  | inl e ↦ rw e (omega arith)
  | inr e ↦ rw e (omega arith)
]
check_listed-count starting p srv m id h = omega arith

finish-count :
    (j : String) (ok : Bool) (m : HealthMonitor) (id : String)
    → (str_eq j id && ok) ≡ false
    → count_of (finish j ok m).recover_attempts id ≡ count_of m.recover_attempts id
unfolding finish
finish-count j ok m id h = reconnected-count m ok j id h

step-count :
    (e : Event) (m : HealthMonitor) (id : String)
    → fails id e ≡ true
    → count_of (step e m).recover_attempts id ≡ count_of m.recover_attempts id + attempted id e m
unfolding step
step-count (checked p srv) m id h = check_listed-count srv.status p srv m id (ground (arith, h))
step-count (finished j ok) m id h = elim (Bool-cases (runs j m.jobs)) [
  | inl r ↦ rw r (omega (arith, finish-count j ok m id (ground (arith, h))))
  | inr r ↦ rw r (omega arith)
]
step-count (restarted j) m id h = omega (arith, reconnected-count m true j id (ground (arith, h)))

attempts-budget :
    (es : List Event) (m : HealthMonitor) (id : String)
    → Inv m
    → All (λ e. fails id e ≡ true) es
    → attempts id es m + count_of m.recover_attempts id ≤ 3
unfolding attempts
attempts-budget [] m id v h = omega (arith, v.bounded id)
attempts-budget (e ∷ es) m id v h =
    omega (arith, attempts-budget es (step e m) id (step-Inv e m v) h.1, step-count e m id h.0)

-- As long as no recovery of a server succeeds and nobody restarts it, the monitor makes at most three
-- attempts to recover it, however many rounds pass.
pub attempts_limit :
    (servers : List Server) (es : List Event) (id : String)
    → All (λ e. fails id e ≡ true) es
    → attempts id es (new_health_monitor servers) ≤ 3
attempts_limit servers es id h =
    omega
      (arith, attempts-budget es (new_health_monitor servers) id (new_health_monitor-Inv servers) h)
