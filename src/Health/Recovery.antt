-- ===== src/Health/Recovery.antt =====
-- The state of the recoveries of internal/proxy/health.go over any events.
use arc_relay.Prelude.{
  ℕ, suc, ◌+◌, ◌≤◌, ◌≡◌, refl, ◌↔◌, inl, inr, String, List, [], ◌∷◌, Bool, true, false, Option,
  none, some, arith, if◌then◌else◌, leb, str_eq, eq_iff, Bool-cases, if-elim,
}
use arc_relay.Prelude.Maps.{StrMap, update, delete}
use arc_relay.Health.{
  ServerStatus, or_zero, after_failed_ping, update_status, update_health, is_unknown, unknown,
  HealthMonitor, Server, Ping, Probe, count_of, new_health_monitor, is_stateless_server, cooling,
  try_recover, finish, reset_recovery_state, check_running, check_listed, check_server, without,
  running, error, stopped, starting, answered, failed,
}

-- The monitor's rounds, the ends of recoveries and manual restarts, in any order. A goroutine can end
-- only while it runs.
pub data Event : Type 0 where
  checked : Probe → Server → Event
  finished : String → Bool → Event
  restarted : String → Event

abbrev pub runs : String → List String → Bool
runs id [] = false
runs id (x ∷ xs) = if str_eq x id then true else runs id xs

abbrev pub jobs_of : String → List String → ℕ
jobs_of id [] = 0
jobs_of id (x ∷ xs) = if str_eq x id then suc (jobs_of id xs) else jobs_of id xs

unfoldable pub step : Event → HealthMonitor → HealthMonitor
step (checked p srv) m = check_server p srv m
step (finished id ok) m = if runs id m.jobs then finish id ok m else m
step (restarted id) m = reset_recovery_state id m

unfoldable pub run : List Event → HealthMonitor → HealthMonitor
run [] m = m
run (e ∷ es) m = run es (step e m)

abbrev pub one_if : Bool → ℕ
one_if true = 1
one_if false = 0

pub record Inv (m : HealthMonitor) : Type 0 where
  pub single : (id : String) → jobs_of id m.jobs ≡ one_if (m.recovering id)
  pub bounded : (id : String) → count_of m.recover_attempts id ≤ 3

or_zero-if :
    (b : Bool) (o p : Option ℕ)
    → or_zero (if b then o else p) ≡ (if b then or_zero o else or_zero p)
or_zero-if true o p = refl
or_zero-if false o p = refl

pub count_of-delete :
    (m : StrMap ℕ) (k j : String)
    → count_of (delete m k) j ≡ (if str_eq k j then 0 else count_of m j)
count_of-delete m k j = or_zero-if (str_eq k j) none (m j)

pub count_of-update :
    (m : StrMap ℕ) (k : String) (n : ℕ) (j : String)
    → count_of (update m k n) j ≡ (if str_eq k j then n else count_of m j)
count_of-update m k n j = or_zero-if (str_eq k j) (some n) (m j)

reset-Inv : (id : String) (m : HealthMonitor) → Inv m → Inv (reset_recovery_state id m)
unfolding reset_recovery_state
reset-Inv id m v = record {
  single = v.single;
  bounded = λ j. rw (count_of-delete m.recover_attempts id j) (ground (arith, v.bounded j));
}

jobs_of-without :
    (id j : String) (xs : List String)
    → runs id xs ≡ true
    → jobs_of j xs ≡ jobs_of j (without id xs) + one_if (str_eq id j)
jobs_of-without id j [] h = cc
jobs_of-without id j (x ∷ xs) h = ground (
  arith,
  eq_iff x id,
  eq_iff id j,
  eq_iff x j,
  λ (r : runs id xs ≡ true). jobs_of-without id j xs r,
)

-- The end of a goroutine, the recovery state apart.
ended-Inv :
    (id : String) (m : HealthMonitor)
    → runs id m.jobs ≡ true
    → Inv m
    → Inv (record m {
      recovering = λ j. if str_eq id j then false else m.recovering j;
      jobs = without id m.jobs;
    })
ended-Inv id m r v = record {
  single = λ j. ground (arith, v.single j, jobs_of-without id j m.jobs r);
  bounded = v.bounded;
}

finish-Inv :
    (id : String) (ok : Bool) (m : HealthMonitor)
    → runs id m.jobs ≡ true
    → Inv m
    → Inv (finish id ok m)
unfolding finish reset_recovery_state
finish-Inv id true m r v = ended-Inv id (reset_recovery_state id m) r (reset-Inv id m v)
finish-Inv id false m r v = ended-Inv id m r v

counted-Inv :
    (now : ℕ) (id : String) (m : HealthMonitor)
    → leb 3 (count_of m.recover_attempts id) ≡ false
    → Inv m
    → Inv (record m {
      last_recover = update m.last_recover id now;
      recover_attempts = update m.recover_attempts id (count_of m.recover_attempts id + 1);
    })
counted-Inv now id m few v = record {
  single = v.single;
  bounded = λ j.
      rw (count_of-update m.recover_attempts id (count_of m.recover_attempts id + 1) j)
        (ground (arith, v.bounded j, few));
}

started-Inv :
    (id : String) (m : HealthMonitor)
    → m.recovering id ≡ false
    → Inv m
    → Inv (record m {
      recovering = λ j. if str_eq id j then true else m.recovering j;
      jobs = id ∷ m.jobs;
    })
started-Inv id m idle v = record {
  single = λ j. ground (arith, v.single j, eq_iff id j, idle);
  bounded = v.bounded;
}

try_recover-Inv :
    (now : ℕ) (retried : Bool) (srv : Server) (m : HealthMonitor)
    → Inv m
    → Inv (try_recover now retried srv m).0
unfolding try_recover
try_recover-Inv now retried srv m v = elim (Bool-cases (m.recovering srv.id)) [
  | inl e ↦ rw e v
  | inr idle ↦ elim (Bool-cases (cooling m.last_recover srv.id now)) [
    | inl e ↦ rw (idle, e) v
    | inr warm ↦ elim (Bool-cases (leb 3 (count_of m.recover_attempts srv.id))) [
      | inl e ↦ rw (idle, warm, e) v
      | inr few ↦
          let c = counted-Inv now srv.id m few v in
          rw (idle, warm, few)
            (if-elim Inv (is_stateless_server srv) _ _
              (if-elim Inv retried _ _ (reset-Inv srv.id _ c) c) (started-Inv srv.id _ idle c))
    ]
  ]
]

after_failed_ping-Inv :
    (count : ℕ) (id message : String) (m : HealthMonitor)
    → Inv m
    → Inv (after_failed_ping count id message m)
after_failed_ping-Inv count id message m v =
    if-elim Inv (leb 3 count) (update_status id error message m) m
      (record { single = v.single; bounded = v.bounded }) v

check_running-Inv :
    (backend : Bool) (ping : Ping) (id : String) (m : HealthMonitor)
    → Inv m
    → Inv (check_running backend ping id m)
unfolding check_running
check_running-Inv false ping id m v = record { single = v.single; bounded = v.bounded }
check_running-Inv true answered id m v = record { single = v.single; bounded = v.bounded }
check_running-Inv true (failed message) id m v =
    after_failed_ping-Inv (count_of m.fail_counts id + 1) id message _
      (record { single = v.single; bounded = v.bounded })

check_listed-Inv :
    (status : ServerStatus) (p : Probe) (srv : Server) (m : HealthMonitor)
    → Inv m
    → Inv (check_listed status p srv m)
unfolding check_listed
check_listed-Inv running p srv m v = check_running-Inv p.backend p.ping srv.id m v
check_listed-Inv error p srv m v = try_recover-Inv p.now p.retried srv m v
check_listed-Inv stopped p srv m v =
    if-elim Inv (is_unknown srv.health) m (update_health srv.id unknown "" m) v
      (record { single = v.single; bounded = v.bounded })
check_listed-Inv starting p srv m v = v

pub step-Inv : (e : Event) (m : HealthMonitor) → Inv m → Inv (step e m)
unfolding step
step-Inv (checked p srv) m v = check_listed-Inv srv.status p srv m v
step-Inv (finished id ok) m v = elim (Bool-cases (runs id m.jobs)) [
  | inl r ↦ rw r (finish-Inv id ok m r v)
  | inr r ↦ rw r v
]
step-Inv (restarted id) m v = reset-Inv id m v

pub run-Inv : (es : List Event) (m : HealthMonitor) → Inv m → Inv (run es m)
unfolding run
run-Inv [] m v = v
run-Inv (e ∷ es) m v = run-Inv es (step e m) (step-Inv e m v)

pub new_health_monitor-Inv : (servers : List Server) → Inv (new_health_monitor servers)
new_health_monitor-Inv servers = record { single = λ id. refl; bounded = λ id. omega arith }

one_if-le : (b : Bool) → one_if b ≤ 1
one_if-le true = omega arith
one_if-le false = omega arith

-- Whatever the rounds, the recoveries' ends and manual restarts do, in any order, a server never has
-- two recovery goroutines at a time, it is marked as recovering exactly while it has one, and its
-- count of attempts is at most three.
pub run-single :
    (servers : List Server) (es : List Event) (id : String)
    → let m = run es (new_health_monitor servers) in
      (jobs_of id m.jobs ≤ 1)
      × ((m.recovering id ≡ true) ↔ (jobs_of id m.jobs ≡ 1))
      × (count_of m.recover_attempts id ≤ 3)
run-single servers es id =
    let v = run-Inv es (new_health_monitor servers) (new_health_monitor-Inv servers) in
    let m = run es (new_health_monitor servers) in
    (
      omega (arith, v.single id, one_if-le (m.recovering id)),
      ground (arith, v.single id),
      v.bounded id,
    )
