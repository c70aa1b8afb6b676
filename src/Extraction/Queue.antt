-- ===== src/Extraction/Queue.antt =====
-- internal/memory/extractor/queue.go: the one admission queue for extraction passes. A worker is an
-- entry of `running`; the channel is a list of bounded length, and `pending` is the set under the
-- mutex. What the gate answers may change between any two steps, so each step has its own database.
pub mod Laws
mod Tests
use arc_relay.Prelude.{
  ℕ, suc, ◌<◌, ◌≡◌, String, List, [], ◌∷◌, ◌++◌, Bool, true, false, Option, none, some, ltb,
  if◌then◌else◌, str_eq, length,
}
use arc_relay.Extraction.Gate.{
  MemoryDb, EligibilityConfig, ExtractionState, is_eligible_for_auto_extraction,
}

pub data Mode : Type 0 where
  auto manual : Mode

-- The reasons that `Enqueue` gives.
pub data Reason : Type 0 where
  eligible unknown_session subagent auto_gate duplicate queue_full : Reason

pub record QueueItem : Type 0 where
  pub session_id : String
  pub mode : Mode

pub record QueueConfig : Type 0 where
  pub workers : ℕ
  pub capacity : ℕ
  pub eligibility : EligibilityConfig

-- Where a worker is with its item: before the second check of the gate, or in the pass.
pub data Phase : Type 0 where
  checking extracting : Phase

pub record Job : Type 0 where
  pub item : QueueItem
  pub phase : Phase

pub record Queue : Type 0 where
  pub cfg : QueueConfig
  pub ch : List QueueItem
  pub pending : String → Bool
  pub running : List Job

admissible_manually : Option ExtractionState → Bool × Reason
admissible_manually none = (false, unknown_session)
admissible_manually (some st) = if st.is_subagent then (false, subagent) else (true, eligible)

unfoldable pub admissible : MemoryDb → ℕ → QueueConfig → String → Mode → Bool × Reason
unfolding admissible_manually
admissible db now cfg id manual = admissible_manually (db.sessions id)
admissible db now cfg id auto =
    if is_eligible_for_auto_extraction db cfg.eligibility now id
    then (true, eligible)
    else (false, auto_gate)

-- The part of `Enqueue` that holds the mutex.
admit : Queue → String → Mode → Queue × Bool × Reason
admit q id mode =
    if q.pending id
    then (q, false, duplicate)
    else if ltb (length q.ch) q.cfg.capacity
    then (
      record q {
        ch = q.ch ++ record { session_id = id; mode = mode } ∷ [];
        pending = λ j. if str_eq id j then true else q.pending j;
      },
      true,
      eligible,
    )
    else (q, false, queue_full)

unfoldable pub enqueue : MemoryDb → ℕ → Queue → String → Mode → Queue × Bool × Reason
unfolding admit
enqueue db now q id mode =
    let (ok, reason) = admissible db now q.cfg id mode in
    if ok then admit q id mode else (q, false, reason)

-- The deferred `delete(q.pending, item.sessionID)`, with the worker free again.
unfoldable pub release : Queue → List Job → String → Queue
release q jobs id = record q {
  pending = λ j. if str_eq id j then false else q.pending j;
  running = jobs;
}

-- `StartQueue` fills in the defaults.
unfoldable pub start_queue : QueueConfig → Queue
start_queue cfg = record {
  cfg = record cfg {
    workers = if ltb 0 cfg.workers then cfg.workers else 2;
    capacity = if ltb 0 cfg.capacity then cfg.capacity else 1000;
  };
  ch = [];
  pending = λ _. false;
  running = [];
}

-- One step of a caller or of a worker, in any order. `u` is the queue after it.
pub data Step (q : Queue) (u : Queue) : Type 0 where
  -- A caller's request.
  request :
      (db : MemoryDb) (now : ℕ) (id : String) (mode : Mode)
      → u ≡ (enqueue db now q id mode).0
      → Step q u
  -- A free worker receives from the channel.
  receive :
      (item : QueueItem) (rest : List QueueItem)
      → q.ch ≡ item ∷ rest
      → length q.running < q.cfg.workers
      → u ≡ record q { ch = rest; running = record { item = item; phase = checking } ∷ q.running }
      → Step q u
  -- `run` passes the second check and starts the pass.
  begin_pass :
      (before : List Job) (item : QueueItem) (after : List Job) (db : MemoryDb) (now : ℕ)
      → q.running ≡ before ++ record { item = item; phase = checking } ∷ after
      → (admissible db now q.cfg item.session_id item.mode).0 ≡ true
      → u ≡ record q { running = before ++ record { item = item; phase = extracting } ∷ after }
      → Step q u
  -- `run` finds that the session is no longer admissible, and returns.
  refuse :
      (before : List Job) (item : QueueItem) (after : List Job) (db : MemoryDb) (now : ℕ)
      → q.running ≡ before ++ record { item = item; phase = checking } ∷ after
      → (admissible db now q.cfg item.session_id item.mode).0 ≡ false
      → u ≡ release q (before ++ after) item.session_id
      → Step q u
  -- The pass ends, with or without an error.
  finish :
      (before : List Job) (item : QueueItem) (after : List Job)
      → q.running ≡ before ++ record { item = item; phase = extracting } ∷ after
      → u ≡ release q (before ++ after) item.session_id
      → Step q u

pub data Reach (q : Queue) : Queue → Type 0 where
  here : Reach q q
  next : {t u : Queue} → Reach q t → Step t u → Reach q u
