-- ===== src/Extraction/Pass/Tests.antt =====
-- Passes over a session of three messages.
use arc_relay.Extraction.Chunk.{render, chunk_messages}
use arc_relay.Extraction.Filter.{filter, is_envelope}
use arc_relay.Prelude.{
  ℕ, ◌<◌, ◌≡◌, refl, inl, String, List, [], ◌∷◌, Bool, true, false, none, some, arith, All,
}
use arc_relay.Prelude.Text.{Text, codes, trim_space}
use arc_relay.Extraction.Message.{Message}
use arc_relay.Extraction.Gate.{ExtractionState, watermark, begin_extract_attempt}
use arc_relay.Extraction.Pass.{
  ChunkEnv, CallResult, memories, failure, Session, complete, default_config, get_session_range,
  extract, send_fresh, truncate_oversized, extract_fresh, settle, extract_window, run_chunks,
  extract_kept,
}
use arc_relay.Extraction.Pass.Laws.{IsSent, extract-IsSent}
use arc_relay.Extraction.Pass.Advance.{run_passes, watermark_rises}

no_json : Text → Bool
no_json s = false

abbrev message : ℕ → String → Text → Message
message id uuid content = record {
  id = id;
  uuid = uuid;
  role = codes "user";
  timestamp = codes "t";
  content = content;
}

abbrev state : ExtractionState
state = record {
  platform = "claude-code";
  is_subagent = false;
  extracted_through_msg_id = some 3;
  extract_attempts = 0;
  last_extract_attempt_at = none;
  extract_poisoned_at = none;
  last_activity_at = none;
  last_ingested_at = none;
}

abbrev session : Session
session = record {
  state = state;
  messages =
      message 3 "a" (codes "an old message that is done")
      ∷ message 5 "b" (codes "please look at the deployment logs")
      ∷ message 8 "c" (codes "yes")
      ∷ [];
  rows = [];
}

abbrev env : CallResult → ℕ → ChunkEnv
env result i = record {
  expired_before = false;
  call = result;
  expired_after = false;
  inserted = true;
}

abbrev passed : Session
passed = record session {
  state = record state { extracted_through_msg_id = some 8; last_extract_attempt_at = some 100 };
  rows =
      record {
        extracted_at = 100;
        chunk_index = 0;
        chunk_msg_uuids = "b" ∷ [];
        chunk_chars = 45;
        memory_ids = "m1" ∷ [];
        error = none;
      }
      ∷ [];
}

passes :
    extract no_json default_config 100 true (env (memories ("m1" ∷ []))) session
    ≡ some (passed, complete)
unfolding extract extract_window get_session_range extract_kept filter trim_space is_envelope
    extract_fresh send_fresh settle run_chunks chunk_messages truncate_oversized render
    begin_extract_attempt
passes = refl

extract-IsSent_example : All (IsSent no_json passed.rows) (get_session_range session.messages 3 400)
extract-IsSent_example =
    extract-IsSent no_json default_config 100 true (env (memories ("m1" ∷ []))) session passed
      complete passes (inl refl)

abbrev failing : List (ℕ × (ℕ → ChunkEnv))
failing =
    (100, env (failure "timeout"))
    ∷ (500, env (failure "timeout"))
    ∷ (3000, env (failure "timeout"))
    ∷ (20_000, env (failure "timeout"))
    ∷ []

watermark_rises_example : 3 < watermark (run_passes no_json default_config session failing).state
watermark_rises_example =
    watermark_rises no_json default_config session failing refl (omega arith) (omega arith)
