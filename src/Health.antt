-- ===== src/Health.antt =====
-- internal/proxy/health.go: HealthMonitor. Times are seconds. What a ping answers, whether a backend is
-- known and how a reconnection ends are arguments; what the proxy manager writes to a server's row
-- while it reconnects is left out. Each section of the code under the mutex is one step.
pub mod Recovery
pub mod Budget
pub mod Probes
mod Tests
use arc_relay.Prelude.{
  ℕ, suc, ◌+◌, ◌-◌, String, List, [], ◌∷◌, map, Bool, true, false, ◌&&◌, Option, none, some, ltb,
  leb, if◌then◌else◌, not, str_eq,
}
use arc_relay.Prelude.Maps.{StrMap, empty, update, delete}

pub data ServerStatus : Type 0 where
  stopped starting running error : ServerStatus

pub data HealthStatus : Type 0 where
  healthy unhealthy unknown : HealthStatus

pub data ServerType : Type 0 where
  stdio http remote : ServerType

-- A row of the servers table; `config_url` is the URL of an HTTP server's configuration, or `none`
-- where it is not valid JSON.
pub record Server : Type 0 where
  pub id : String
  pub server_type : ServerType
  pub config_url : Option String
  pub status : ServerStatus
  pub error_msg : String
  pub health : HealthStatus
  pub health_error : String

-- `jobs` are the servers of the recovery goroutines that have not ended.
pub record HealthMonitor : Type 0 where
  pub servers : List Server
  pub fail_counts : StrMap ℕ
  pub last_recover : StrMap ℕ
  pub recover_attempts : StrMap ℕ
  pub recovering : String → Bool
  pub jobs : List String

abbrev pub fail_threshold : ℕ
fail_threshold = 3

abbrev pub recovery_cooldown : ℕ
recovery_cooldown = 300

abbrev pub max_recover_attempts : ℕ
max_recover_attempts = 3

-- What a Go map of numbers gives for a missing key is 0.
abbrev pub or_zero : Option ℕ → ℕ
or_zero none = 0
or_zero (some n) = n

abbrev pub count_of : StrMap ℕ → String → ℕ
count_of m id = or_zero (m id)

-- NewHealthMonitor
abbrev pub new_health_monitor : List Server → HealthMonitor
new_health_monitor servers = record {
  servers = servers;
  fail_counts = empty;
  last_recover = empty;
  recover_attempts = empty;
  recovering = λ id. false;
  jobs = [];
}

-- UpdateStatus and UpdateHealth of the server store.
abbrev pub update_status : String → ServerStatus → String → HealthMonitor → HealthMonitor
update_status id status message m = record m {
  servers =
      map (λ r. if str_eq r.id id then record r { status = status; error_msg = message } else r)
        m.servers;
}

abbrev pub update_health : String → HealthStatus → String → HealthMonitor → HealthMonitor
update_health id health message m = record m {
  servers =
      map (λ r. if str_eq r.id id then record r { health = health; health_error = message } else r)
        m.servers;
}

-- resetFailCount and ResetRecoveryState.
abbrev pub reset_fail_count : String → HealthMonitor → HealthMonitor
reset_fail_count id m = record m { fail_counts = delete m.fail_counts id }

unfoldable pub reset_recovery_state : String → HealthMonitor → HealthMonitor
reset_recovery_state id m = record m {
  fail_counts = delete m.fail_counts id;
  recover_attempts = delete m.recover_attempts id;
  last_recover = delete m.last_recover id;
}

pub data Ping : Type 0 where
  answered : Ping
  failed : String → Ping

abbrev pub after_failed_ping : ℕ → String → String → HealthMonitor → HealthMonitor
after_failed_ping count id message m =
    if leb fail_threshold count then update_status id error message m else m

-- checkRunning
unfoldable pub check_running : Bool → Ping → String → HealthMonitor → HealthMonitor
check_running false ping id m =
    reset_fail_count id
      (update_health id unknown "" (update_status id stopped "backend not found" m))
check_running true answered id m = update_health id healthy "" (reset_fail_count id m)
check_running true (failed message) id m =
    after_failed_ping (count_of m.fail_counts id + 1) id message (
      update_health id unhealthy message
        (record m { fail_counts = update m.fail_counts id (count_of m.fail_counts id + 1) }))

-- CheckHealth, on demand.
unfoldable pub check_health :
    Bool → Ping → String → HealthMonitor → HealthMonitor × HealthStatus × String
check_health false ping id m = (m, unknown, "no backend available")
check_health true answered id m = (update_health id healthy "" m, healthy, "")
check_health true (failed message) id m = (update_health id unhealthy message m, unhealthy, message)

-- isStatelessServer
abbrev pub is_stateless_server : Server → Bool
is_stateless_server srv = elim srv.server_type [
  | remote ↦ true
  | http ↦ elim srv.config_url [ none ↦ false | some url ↦ not (str_eq url "") ]
  | stdio ↦ false
]

abbrev pub cooling : StrMap ℕ → String → ℕ → Bool
cooling m id now = elim (m id) [ none ↦ false | some last ↦ ltb (now - last) recovery_cooldown ]

-- The attempt is counted, then a server without state is reconnected at once, which succeeds or not,
-- and for any other a goroutine starts.
abbrev pub launch : ℕ → Bool → Server → HealthMonitor → HealthMonitor
launch now retried srv m =
    let counted : HealthMonitor = record m {
      last_recover = update m.last_recover srv.id now;
      recover_attempts = update m.recover_attempts srv.id (count_of m.recover_attempts srv.id + 1);
    } in
    if is_stateless_server srv
    then if retried then reset_recovery_state srv.id counted else counted
    else record counted {
      recovering = λ id. if str_eq srv.id id then true else counted.recovering id;
      jobs = srv.id ∷ counted.jobs;
    }

-- tryRecover: the monitor after it, and whether an attempt was made.
unfoldable pub try_recover : ℕ → Bool → Server → HealthMonitor → HealthMonitor × Bool
try_recover now retried srv m =
    if m.recovering srv.id
    then (m, false)
    else if cooling m.last_recover srv.id now
    then (m, false)
    else if leb max_recover_attempts (count_of m.recover_attempts srv.id)
    then (m, false)
    else (launch now retried srv m, true)

abbrev pub without : String → List String → List String
without id [] = []
without id (x ∷ xs) = if str_eq x id then xs else x ∷ without id xs

-- The end of a recovery goroutine with the result of RecreateContainer.
unfoldable pub finish : String → Bool → HealthMonitor → HealthMonitor
finish id recreated m =
    let after = if recreated then reset_recovery_state id m else m in
    record after {
      recovering = λ j. if str_eq id j then false else after.recovering j;
      jobs = without id after.jobs;
    }

-- What the surroundings answer about one server during a round.
pub record Probe : Type 0 where
  pub backend : Bool
  pub ping : Ping
  pub now : ℕ
  pub retried : Bool

abbrev pub is_unknown : HealthStatus → Bool
is_unknown unknown = true
is_unknown _ = false

-- The body of the loop of checkAll, on the row that was listed, by its status.
unfoldable pub check_listed : ServerStatus → Probe → Server → HealthMonitor → HealthMonitor
check_listed running p srv m = check_running p.backend p.ping srv.id m
check_listed error p srv m = (try_recover p.now p.retried srv m).0
check_listed stopped p srv m =
    if is_unknown srv.health then m else update_health srv.id unknown "" m
check_listed starting p srv m = m

abbrev pub check_server : Probe → Server → HealthMonitor → HealthMonitor
check_server p srv m = check_listed srv.status p srv m

unfoldable pub check_rows : (ℕ → Probe) → ℕ → List Server → HealthMonitor → HealthMonitor
check_rows env i [] m = m
check_rows env i (srv ∷ rest) m = check_rows env (suc i) rest (check_server (env i) srv m)

-- checkAll
unfoldable pub check_all : (ℕ → Probe) → HealthMonitor → HealthMonitor
unfolding check_rows
check_all env m = check_rows env 0 m.servers m
