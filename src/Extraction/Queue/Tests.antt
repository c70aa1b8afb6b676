-- ===== src/Extraction/Queue/Tests.antt =====
-- The queue and its gate at concrete sessions.
use arc_relay.Prelude.{
  ◌+◌, ◌≤◌, ◌≡◌, refl, ◌↔◌, [], ◌∷◌, true, false, none, some, length, str_eq, if◌then◌else◌,
}
use arc_relay.Extraction.Gate.{
  MemoryDb, ExtractionState, EligibilityConfig, is_eligible_for_auto_extraction,
}
use arc_relay.Extraction.Gate.Laws.{Eligible, is_eligible_for_auto_extraction_iff}
use arc_relay.Extraction.Queue.{
  Queue, QueueConfig, Reach, here, next, request, auto, manual, admissible, enqueue, start_queue,
}
use arc_relay.Extraction.Queue.Laws.{queued, held, Reach-exclusive}

abbrev gate_config : EligibilityConfig
gate_config = record {
  platforms = "claude-code" ∷ [];
  max_age = 2_592_000;
  quiet_period = 60;
  backoff1 = 300;
  backoff2 = 1800;
  backoff3 = 7200;
}

abbrev session : ExtractionState
session = record {
  platform = "claude-code";
  is_subagent = false;
  extracted_through_msg_id = some 4;
  extract_attempts = 1;
  last_extract_attempt_at = some 10_000;
  extract_poisoned_at = none;
  last_activity_at = some 9_000;
  last_ingested_at = some 9_100;
}

abbrev db : MemoryDb
db = record {
  sessions = λ id. if str_eq id "s1" then some session else none;
  has_message_above = λ id n. true;
}

abbrev config : QueueConfig
config = record { workers = 0; capacity = 2; eligibility = gate_config }

-- The backoff after one failure is over 300 seconds later, and not before.
gate_opens : is_eligible_for_auto_extraction db gate_config 10_300 "s1" ≡ true
unfolding is_eligible_for_auto_extraction
gate_opens = refl

gate_shut : is_eligible_for_auto_extraction db gate_config 10_299 "s1" ≡ false
unfolding is_eligible_for_auto_extraction
gate_shut = refl

is_eligible_for_auto_extraction_iff_example :
    (is_eligible_for_auto_extraction db gate_config 10_300 "s1" ≡ true)
    ↔ ((s : ExtractionState) × (db.sessions "s1" ≡ some s) × Eligible db gate_config 10_300 "s1" s)
is_eligible_for_auto_extraction_iff_example =
    is_eligible_for_auto_extraction_iff db gate_config 10_300 "s1"

abbrev queue : Queue
queue = (enqueue db 10_300 (start_queue config) "s1" auto).0

queue_reached : Reach (start_queue config) queue
queue_reached = next here (request db 10_300 "s1" auto refl)

Reach-exclusive_example :
    (queued "s1" queue.ch + held "s1" queue.running ≤ 1)
    × ((queue.pending "s1" ≡ true) ↔ (queued "s1" queue.ch + held "s1" queue.running ≡ 1))
    × (length queue.ch ≤ queue.cfg.capacity)
    × (length queue.running ≤ queue.cfg.workers)
Reach-exclusive_example = Reach-exclusive config queue "s1" queue_reached

second_request_is_refused : (enqueue db 10_300 queue "s1" manual).1 ≡ false
unfolding enqueue admissible start_queue is_eligible_for_auto_extraction
second_request_is_refused = refl
