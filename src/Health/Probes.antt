-- ===== src/Health/Probes.antt =====
-- When probes mark a running server as failed.
use arc_relay.Prelude.{
  ℕ, ◌+◌, ◌<◌, ◌≡◌, refl, sym, ◌∙◌, inl, inr, String, List, [], ◌∷◌, map, Bool, true, false, ◌||◌,
  Option, none, some, arith, if◌then◌else◌, leb, str_eq, str_eq_self, Bool-cases,
}
use arc_relay.Health.{
  HealthMonitor, HealthStatus, Server, ServerStatus, running, error, Ping, answered, failed,
  healthy, unhealthy, count_of, check_running,
}
use arc_relay.Health.Recovery.{count_of-delete, count_of-update}

abbrev pub status_of : String → List Server → Option ServerStatus
status_of id [] = none
status_of id (r ∷ rs) = if str_eq r.id id then some r.status else status_of id rs

abbrev pub is_running : Option ServerStatus → Bool
is_running (some running) = true
is_running _ = false

-- The monitor's probes of one server, which end when it is no longer running.
unfoldable pub probes : String → List Ping → HealthMonitor → HealthMonitor
probes id [] m = m
probes id (p ∷ ps) m =
    let m' = check_running true p id m in
    let rest = probes id ps m' in if is_running (status_of id m'.servers) then rest else m'

abbrev pub leading_failures : List Ping → ℕ
leading_failures [] = 0
leading_failures (answered ∷ ps) = 0
leading_failures (failed e ∷ ps) = leading_failures ps + 1

-- Three failures in a row somewhere in the list.
abbrev pub three_in_row : List Ping → Bool
three_in_row [] = false
three_in_row (p ∷ ps) = leb 3 (leading_failures (p ∷ ps)) || three_in_row ps

update_status-status_of :
    (id : String) (s : ServerStatus) (e : String) (rs : List Server) (t : ServerStatus)
    → status_of id rs ≡ some t
    → status_of id
        (map (λ r. if str_eq r.id id then record r { status = s; error_msg = e } else r) rs)
      ≡ some s
update_status-status_of id s e [] t h = cc
update_status-status_of id s e (r ∷ rs) t h = elim (Bool-cases (str_eq r.id id)) [
  | inl same ↦ rw (same, same)
  | inr other ↦ rw (other, other) (update_status-status_of id s e rs t (ground (arith, h, other)))
]

update_health-status_of :
    (id : String) (s : HealthStatus) (e : String) (rs : List Server)
    → status_of id
        (map (λ r. if str_eq r.id id then record r { health = s; health_error = e } else r) rs)
      ≡ status_of id rs
update_health-status_of id s e [] = refl
update_health-status_of id s e (r ∷ rs) = elim (Bool-cases (str_eq r.id id)) [
  | inl same ↦ rw (same, same)
  | inr other ↦ rw (other, other) (update_health-status_of id s e rs)
]

starts_with_three : (ps : List Ping) → leb 3 (leading_failures ps) ≡ true → three_in_row ps ≡ true
starts_with_three [] h = ground arith
starts_with_three (p ∷ ps) h = rw h

abbrev after_ping : Ping → String → HealthMonitor → HealthMonitor
after_ping p id m = check_running true p id m

answered-status :
    (id : String) (m : HealthMonitor)
    → status_of id (after_ping answered id m).servers ≡ status_of id m.servers
unfolding check_running
answered-status id m = update_health-status_of id healthy "" m.servers

answered-count :
    (id : String) (m : HealthMonitor) → count_of (after_ping answered id m).fail_counts id ≡ 0
unfolding check_running
answered-count id m = rw (count_of-delete m.fail_counts id id, str_eq_self id)

failed-status :
    (e id : String) (m : HealthMonitor)
    → status_of id m.servers ≡ some running
    → status_of id (after_ping (failed e) id m).servers
      ≡ some (if leb 3 (count_of m.fail_counts id + 1) then error else running)
unfolding check_running
failed-status e id m up = elim (Bool-cases (leb 3 (count_of m.fail_counts id + 1))) [
  | inl h ↦ rw h (
      update_status-status_of id error e _ running
        (update_health-status_of id unhealthy e m.servers ∙ up))
  | inr h ↦ rw h (update_health-status_of id unhealthy e m.servers ∙ up)
]

failed-count :
    (e id : String) (m : HealthMonitor)
    → count_of (after_ping (failed e) id m).fail_counts id ≡ count_of m.fail_counts id + 1
unfolding check_running
failed-count e id m = elim (Bool-cases (leb 3 (count_of m.fail_counts id + 1))) [
  | inl h ↦
      rw h
        (rw (count_of-update m.fail_counts id (count_of m.fail_counts id + 1) id, str_eq_self id))
  | inr h ↦
      rw h
        (rw (count_of-update m.fail_counts id (count_of m.fail_counts id + 1) id, str_eq_self id))
]

probes-more :
    (p : Ping) (ps : List Ping) (id : String) (m : HealthMonitor)
    → status_of id (after_ping p id m).servers ≡ some running
    → probes id (p ∷ ps) m ≡ probes id ps (after_ping p id m)
unfolding probes
probes-more p ps id m up = rw up

probes-stop :
    (p : Ping) (ps : List Ping) (id : String) (m : HealthMonitor)
    → status_of id (after_ping p id m).servers ≡ some error
    → probes id (p ∷ ps) m ≡ after_ping p id m
unfolding probes
probes-stop p ps id m down = rw down

answered_verdict :
    (n : ℕ) (ps : List Ping)
    → n < 3
    → (leb 3 (n + 0) || three_in_row ps) ≡ (leb 3 (0 + leading_failures ps) || three_in_row ps)
answered_verdict n ps few = elim (Bool-cases (leb 3 (leading_failures ps))) [
  | inl h ↦ ground (arith, h, starts_with_three ps h)
  | inr h ↦ ground (arith, h)
]

-- With `n` failures counted.
probes-counted :
    (ps : List Ping) (id : String) (m : HealthMonitor) (n : ℕ)
    → status_of id m.servers ≡ some running
    → count_of m.fail_counts id ≡ n
    → n < 3
    → status_of id (probes id ps m).servers
      ≡ some (if leb 3 (n + leading_failures ps) || three_in_row ps then error else running)
unfolding probes
probes-counted [] id m n up counted few = up ∙ ground arith
probes-counted (answered ∷ ps) id m n up counted few =
    rw (probes-more answered ps id m (answered-status id m ∙ up), answered_verdict n ps few)
      (probes-counted ps id _ 0 (answered-status id m ∙ up) (answered-count id m) (omega arith))
probes-counted (failed e ∷ ps) id m n up counted few = elim (Bool-cases (leb 3 (n + 1))) [
  | inl h ↦
      let down : status_of id (after_ping (failed e) id m).servers ≡ some error =
        failed-status e id m up ∙ rw (counted, h) in
      rw (probes-stop (failed e) ps id m down) (down ∙ ground (arith, h))
  | inr h ↦
      let still : status_of id (after_ping (failed e) id m).servers ≡ some running =
        failed-status e id m up ∙ rw (counted, h) in
      rw (probes-more (failed e) ps id m still) (
        probes-counted ps id _ (n + 1) still (failed-count e id m ∙ rw counted) (ground (arith, h))
        ∙ ground (arith, h))
]

-- A running server with no failure counted is marked as failed by a sequence of probes exactly if
-- three of them in a row fail; otherwise it stays running.
pub probes-status :
    (ps : List Ping) (id : String) (m : HealthMonitor)
    → status_of id m.servers ≡ some running
    → m.fail_counts id ≡ none
    → status_of id (probes id ps m).servers ≡ some (if three_in_row ps then error else running)
probes-status ps id m up fresh =
    probes-counted ps id m 0 up (rw fresh) (omega arith)
    ∙ rw (sym (answered_verdict 0 ps (omega arith)))
