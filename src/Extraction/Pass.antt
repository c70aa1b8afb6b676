-- ===== src/Extraction/Pass.antt =====
-- internal/memory/extractor/extractor.go, Service.Extract: one pass over the messages of a session
-- above its watermark, with the bookkeeping of internal/store. A pass has the session's lock.
--
-- The messages stand in the order of their row ids. What the surroundings do during the pass is an
-- argument: for each chunk, whether the pass is past its deadline before and after the call, what
-- the call with its retry gives, and whether the provenance row is written.
pub mod Laws
pub mod Advance
mod Tests
use arc_relay.Prelude.{
  ℕ, suc, ◌+◌, ◌-◌, ◌/◌, ◌%◌, String, List, [], ◌∷◌, ◌++◌, Bool, true, false, ◌&&◌, ◌||◌, Option,
  none, some, leb, ltb, ◌==◌, if◌then◌else◌, not, any, keep, take, str_eq,
}
use arc_relay.Prelude.Text.{Text, size, rune_len, decimal}
use arc_relay.Extraction.Message.{Message}
use arc_relay.Extraction.Chunk.{Chunk, chunk_messages}
use arc_relay.Extraction.Filter.{filter}
use arc_relay.Extraction.Gate.{
  ExtractionState, watermark, begin_extract_attempt, complete_extract_pass, fail_extract_pass,
  poison_extract_range,
}

pub record PassConfig : Type 0 where
  pub chunk_target : ℕ
  pub pass_limit : ℕ
  pub poison_after : ℕ
  pub max_message_chars : ℕ

-- `NewService`.
abbrev pub default_config : PassConfig
default_config = record {
  chunk_target = 3000;
  pass_limit = 400;
  poison_after = 4;
  max_message_chars = 12000;
}

-- A row of memory_extractions; `error` is `none` for a success.
pub record ExtractionRow : Type 0 where
  pub extracted_at : ℕ
  pub chunk_index : ℕ
  pub chunk_msg_uuids : List String
  pub chunk_chars : ℕ
  pub memory_ids : List String
  pub error : Option String

pub data CallResult : Type 0 where
  memories : List String → CallResult
  failure : String → CallResult

pub record ChunkEnv : Type 0 where
  pub expired_before : Bool
  pub call : CallResult
  pub expired_after : Bool
  pub inserted : Bool

pub data Outcome : Type 0 where
  nothing_new advanced_no_content complete failed poisoned : Outcome

-- What the pass reads and writes of one session.
pub record Session : Type 0 where
  pub state : ExtractionState
  pub messages : List Message
  pub rows : List ExtractionRow

-- GetSessionRange
unfoldable pub get_session_range : List Message → ℕ → ℕ → List Message
get_session_range msgs after limit =
    take (if leb limit 0 then 400 else limit) (keep (λ m. ltb after m.id) msgs)

-- CoveredUUIDs
abbrev pub is_success : ExtractionRow → Bool
is_success r = elim r.error [ none ↦ true | some _ ↦ false ]

abbrev pub covered : List ExtractionRow → String → Bool
covered rows u = any (λ r. is_success r && any (str_eq u) r.chunk_msg_uuids) rows

abbrev pub is_fresh : List ExtractionRow → Message → Bool
is_fresh rows m = str_eq m.uuid "" || not (covered rows m.uuid)

-- The id of the last message of a window that is not empty.
abbrev pub last_id : Message → List Message → ℕ
last_id m [] = m.id
last_id m (n ∷ ns) = last_id n ns

-- The longest start of a text with at most `max` bytes, which the loop over `cut` finds.
take_bytes : ℕ → Text → Text
take_bytes max [] = []
take_bytes max (c ∷ s) = if leb (rune_len c) max then c ∷ take_bytes (max - rune_len c) s else []

truncated_note : ℕ → Text
truncated_note n =
    10
    ∷ 0x2026
    ∷ (b'[' ∷ b't' ∷ b'r' ∷ b'u' ∷ b'n' ∷ b'c' ∷ b'a' ∷ b't' ∷ b'e' ∷ b'd' ∷ 0x20 ∷ []
        ++ (decimal n ++ 0x20 ∷ b'b' ∷ b'y' ∷ b't' ∷ b'e' ∷ b's' ∷ b']' ∷ []))

-- truncateOversized
unfoldable pub truncate_oversized : ℕ → List Message → List Message
unfolding take_bytes truncated_note
truncate_oversized max [] = []
truncate_oversized max (m ∷ ms) =
    (if leb max 0 || leb (size m.content) max then m else record m {
      content =
          take_bytes max m.content
          ++ truncated_note (size m.content - size (take_bytes max m.content));
    })
    ∷ truncate_oversized max ms

-- The row of one chunk.
abbrev pub extraction_row : ℕ → ℕ → Chunk → CallResult → ExtractionRow
extraction_row now i c (memories ids) = record {
  extracted_at = now;
  chunk_index = i;
  chunk_msg_uuids = c.uuids;
  chunk_chars = c.chars;
  memory_ids = ids;
  error = none;
}
extraction_row now i c (failure e) = record {
  extracted_at = now;
  chunk_index = i;
  chunk_msg_uuids = c.uuids;
  chunk_chars = c.chars;
  memory_ids = [];
  error = some e;
}

abbrev pub is_failure : CallResult → Bool
is_failure (memories ids) = false
is_failure (failure e) = true

-- The loop over the chunks: the rows so far, and whether a chunk failed or the pass was cut off.
pub record Progress : Type 0 where
  pub rows : List ExtractionRow
  pub failed : Bool
  pub aborted : Bool

abbrev pub after_call : ℕ → ℕ → Chunk → ChunkEnv → Progress → Progress
after_call now i c e p = record p {
  rows = if e.inserted then p.rows ++ extraction_row now i c e.call ∷ [] else p.rows;
  failed = p.failed || is_failure e.call || not e.inserted;
}

pub run_chunks : ℕ → (ℕ → ChunkEnv) → ℕ → List Chunk → Progress → Progress
run_chunks now env i [] p = p
run_chunks now env i (c ∷ cs) p =
    let rest = run_chunks now env (suc i) cs (after_call now i c (env i) p) in
    if (env i).expired_before || (env i).expired_after then record p { aborted = true } else rest

-- Step 8: advance, count the attempt, or give up on the range.
unfoldable pub settle : PassConfig → ℕ → ℕ → ExtractionState → Bool → ExtractionState × Outcome
unfolding fail_extract_pass poison_extract_range complete_extract_pass
settle cfg now through_id state false = (complete_extract_pass through_id state, complete)
settle cfg now through_id state true =
    let counted = fail_extract_pass state in
    if leb cfg.poison_after counted.extract_attempts
    then (poison_extract_range through_id now counted, poisoned)
    else (counted, failed)

-- Steps 5 to 8 with the backend at hand.
unfoldable pub send_fresh :
    PassConfig → ℕ → (ℕ → ChunkEnv) → Session → ℕ → List Message → Session × Outcome
send_fresh cfg now env s through_id fresh =
    let chunks = chunk_messages (truncate_oversized cfg.max_message_chars fresh) cfg.chunk_target in
    let p =
      run_chunks now env 0 chunks (record { rows = s.rows; failed = false; aborted = false }) in
    let (state, outcome) =
      settle cfg now through_id (begin_extract_attempt now s.state) (p.failed || p.aborted) in
    (record s { state = state; rows = p.rows }, outcome)

module _ (is_json : Text → Bool) where
  abbrev pub fresh_messages : List ExtractionRow → List Message → List Message
  fresh_messages rows window = keep (is_fresh rows) (filter is_json window).0

  -- `none` is ErrBackendUnavailable.
  unfoldable pub extract_fresh :
      PassConfig
      → ℕ
      → Bool
      → (ℕ → ChunkEnv)
      → Session
      → ℕ
      → List Message
      → Option (Session × Outcome)
  extract_fresh cfg now backend_up env s through_id fresh =
      if backend_up then some (send_fresh cfg now env s through_id fresh) else none

  -- Step 4: what to do with the fresh messages of a window that ends at `through_id`.
  unfoldable pub extract_kept :
      PassConfig
      → ℕ
      → Bool
      → (ℕ → ChunkEnv)
      → Session
      → ℕ
      → List Message
      → Option (Session × Outcome)
  extract_kept cfg now backend_up env s through_id [] =
      some (record s { state = complete_extract_pass through_id s.state }, advanced_no_content)
  extract_kept cfg now backend_up env s through_id (f ∷ fs) =
      extract_fresh cfg now backend_up env s through_id (f ∷ fs)

  unfoldable pub extract_window :
      PassConfig → ℕ → Bool → (ℕ → ChunkEnv) → Session → List Message → Option (Session × Outcome)
  extract_window cfg now backend_up env s [] = some (s, nothing_new)
  extract_window cfg now backend_up env s (m ∷ ms) =
      extract_kept cfg now backend_up env s (last_id m ms) (fresh_messages s.rows (m ∷ ms))

  -- Service.Extract, with the lock held.
  unfoldable pub extract :
      PassConfig → ℕ → Bool → (ℕ → ChunkEnv) → Session → Option (Session × Outcome)
  extract cfg now backend_up env s =
      extract_window cfg now backend_up env s
        (get_session_range s.messages (watermark s.state) cfg.pass_limit)
