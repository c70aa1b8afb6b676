-- ===== src/Extraction/Queue/Laws.antt =====
-- The queue of internal/memory/extractor/queue.go in every interleaving, and what it admits.
use arc_relay.Prelude.{
  ℕ, suc, ◌+◌, ◌≤◌, ◌<◌, ◌≡◌, refl, ◌↔◌, String, List, [], ◌∷◌, ◌++◌, Bool, true, false, some,
  arith, ap, if◌then◌else◌, str_eq, eq_iff, length, length-append,
}
use arc_relay.Extraction.Gate.{MemoryDb, ExtractionState}
use arc_relay.Extraction.Gate.Laws.{is_eligible_for_auto_extraction_iff}
use arc_relay.Extraction.Queue.{
  Mode, auto, manual, checking, extracting, QueueItem, QueueConfig, Job, Queue, Step, Reach, here,
  next, request, receive, begin_pass, refuse, finish, admissible, enqueue, release, start_queue,
}

-- How often a session stands in the channel, and how often a worker has it.
abbrev pub queued : String → List QueueItem → ℕ
queued id [] = 0
queued id (x ∷ xs) = if str_eq id x.session_id then suc (queued id xs) else queued id xs

abbrev pub held : String → List Job → ℕ
held id [] = 0
held id (x ∷ xs) = if str_eq id x.item.session_id then suc (held id xs) else held id xs

queued-append :
    (id : String) (xs ys : List QueueItem) → queued id (xs ++ ys) ≡ queued id xs + queued id ys
queued-append id [] ys = omega arith
queued-append id (x ∷ xs) ys = ground (arith, queued-append id xs ys)

held-append : (id : String) (xs ys : List Job) → held id (xs ++ ys) ≡ held id xs + held id ys
held-append id [] ys = omega arith
held-append id (x ∷ xs) ys = ground (arith, held-append id xs ys)

abbrev one_if : Bool → ℕ
one_if true = 1
one_if false = 0

pub record Inv (q : Queue) : Type 0 where
  pub counted : (id : String) → queued id q.ch + held id q.running ≡ one_if (q.pending id)
  pub fits : length q.ch ≤ q.cfg.capacity
  pub staffed : length q.running ≤ q.cfg.workers

start_queue-Inv : (cfg : QueueConfig) → Inv (start_queue cfg)
unfolding start_queue
start_queue-Inv cfg = record {
  counted = λ id. omega arith;
  fits = omega arith;
  staffed = omega arith;
}

enqueue-Inv :
    (db : MemoryDb) (now : ℕ) (q : Queue) (id : String) (mode : Mode)
    → Inv q
    → Inv (enqueue db now q id mode).0
unfolding enqueue
enqueue-Inv db now q id mode v = record {
  counted = λ j. ground (
    arith,
    v.counted j,
    v.counted id,
    eq_iff id j,
    eq_iff j id,
    queued-append j q.ch (record { session_id = id; mode = mode } ∷ []),
  );
  fits = ground (arith, v.fits, length-append q.ch (record { session_id = id; mode = mode } ∷ []));
  staffed = ground (arith, v.staffed);
}

release-Inv :
    (q : Queue) (before : List Job) (job : Job) (after : List Job)
    → q.running ≡ before ++ job ∷ after
    → Inv q
    → Inv (release q (before ++ after) job.item.session_id)
unfolding release
release-Inv q before job after e v = record {
  counted = λ j. ground (
    arith,
    v.counted j,
    ap (held j) e,
    held-append j before (job ∷ after),
    held-append j before after,
    eq_iff job.item.session_id j,
    eq_iff j job.item.session_id,
  );
  fits = v.fits;
  staffed = omega (
    arith,
    v.staffed,
    ap length e,
    length-append before (job ∷ after),
    length-append before after,
  );
}

held-same :
    (id : String) (before after : List Job) (x y : Job)
    → x.item ≡ y.item
    → held id (before ++ x ∷ after) ≡ held id (before ++ y ∷ after)
held-same id before after x y e =
    let same : x.item.session_id ≡ y.item.session_id = ap (λ i. i.session_id) e in
    ground (arith, held-append id before (x ∷ after), held-append id before (y ∷ after), same)

step-Inv : {q u : Queue} → Step q u → Inv q → Inv u
step-Inv {q} (request db now id mode e) v = rw e (enqueue-Inv db now q id mode v)
step-Inv {q} (receive item rest e free after) v = rw after (record {
  counted = λ j. ground (arith, v.counted j, ap (queued j) e);
  fits = omega (arith, v.fits, ap length e);
  staffed = omega arith;
})
step-Inv {q} (begin_pass before item after db now e ok new) v = rw new (record {
  counted = λ j. omega (
    arith,
    v.counted j,
    ap (held j) e,
    held-same j before after (record { item = item; phase = checking })
        (record { item = item; phase = extracting }) refl,
  );
  fits = v.fits;
  staffed = omega (
    arith,
    v.staffed,
    ap length e,
    length-append before (record { item = item; phase = checking } ∷ after),
    length-append before (record { item = item; phase = extracting } ∷ after),
  );
})
step-Inv {q} (refuse before item after db now e no_more new) v =
    rw new (release-Inv q before (record { item = item; phase = checking }) after e v)
step-Inv {q} (finish before item after e new) v =
    rw new (release-Inv q before (record { item = item; phase = extracting }) after e v)

Reach-Inv : {q u : Queue} → Inv q → Reach q u → Inv u
Reach-Inv v here = v
Reach-Inv v (next r s) = step-Inv s (Reach-Inv v r)

one_if-le : (b : Bool) → one_if b ≤ 1
one_if-le true = omega arith
one_if-le false = omega arith

-- In every state that the queue can reach, with any callers, workers and databases in any order, a
-- session is queued or being worked on at most once in all, the pending set holds exactly those
-- sessions, the channel is within its capacity and no more workers are busy than there are.
pub Reach-exclusive :
    (cfg : QueueConfig) (q : Queue) (id : String)
    → Reach (start_queue cfg) q
    → (queued id q.ch + held id q.running ≤ 1)
      × ((q.pending id ≡ true) ↔ (queued id q.ch + held id q.running ≡ 1))
      × (length q.ch ≤ q.cfg.capacity)
      × (length q.running ≤ q.cfg.workers)
Reach-exclusive cfg q id r =
    let v = Reach-Inv (start_queue-Inv cfg) r in
    (
      omega (arith, v.counted id, one_if-le (q.pending id)),
      ground (arith, v.counted id),
      v.fits,
      v.staffed,
    )

-- A request is taken exactly when the gate admits the session, the session is not pending and the
-- channel has room; it then stands at the end of the channel. Otherwise the queue is unchanged.
pub enqueue_iff :
    (db : MemoryDb) (now : ℕ) (q : Queue) (id : String) (mode : Mode)
    → let r = enqueue db now q id mode in
      ((r.1 ≡ true) ↔ (
        ((admissible db now q.cfg id mode).0 ≡ true)
        × (q.pending id ≡ false)
        × (length q.ch < q.cfg.capacity)))
      × (r.1 ≡ true → r.0.ch ≡ q.ch ++ record { session_id = id; mode = mode } ∷ [])
      × (r.1 ≡ false → r.0 ≡ q)
unfolding enqueue
enqueue_iff db now q id mode = ground arith

-- Neither an automatic nor a manual request ever admits a subagent session or an unknown one.
pub admissible-no_subagent :
    (db : MemoryDb) (now : ℕ) (cfg : QueueConfig) (id : String) (mode : Mode)
    → (admissible db now cfg id mode).0 ≡ true
    → (s : ExtractionState) × (db.sessions id ≡ some s) × (s.is_subagent ≡ false)
unfolding admissible
admissible-no_subagent db now cfg id manual h = ground arith
admissible-no_subagent db now cfg id auto h =
    let (s, found, e) =
      (is_eligible_for_auto_extraction_iff db cfg.eligibility now id).0 (ground arith) in
    (s, found, e.no_subagent)
