-- ===== src/Extraction/Gate.antt =====
-- The extraction bookkeeping of a session and the gate for automatic extraction
-- (internal/store/memory_sessions_extract.go). Times and durations are natural numbers of one unit;
-- the SQL comparisons with `now - d` are written with `d` on the other side.
pub mod Laws
use arc_relay.Prelude.{
  ℕ, suc, ◌+◌, String, List, ◌∷◌, Bool, true, false, ◌&&◌, ◌||◌, Option, none, some, leb, ltb, ◌==◌,
  if◌then◌else◌, not, any, str_eq,
}
use arc_relay.Prelude.Maps.{StrMap, update}

pub record ExtractionState : Type 0 where
  pub platform : String
  pub is_subagent : Bool
  pub extracted_through_msg_id : Option ℕ
  pub extract_attempts : ℕ
  pub last_extract_attempt_at : Option ℕ
  pub extract_poisoned_at : Option ℕ
  pub last_activity_at : Option ℕ
  pub last_ingested_at : Option ℕ

pub record EligibilityConfig : Type 0 where
  pub platforms : List String
  pub max_age : ℕ
  pub quiet_period : ℕ
  pub backoff1 : ℕ
  pub backoff2 : ℕ
  pub backoff3 : ℕ

-- The part of the memory database that the gate reads. `has_message_above id n` says whether
-- session `id` has a message with a row id greater than `n`.
pub record MemoryDb : Type 0 where
  pub sessions : StrMap ExtractionState
  pub has_message_above : String → ℕ → Bool

-- COALESCE(extracted_through_msg_id, 0)
abbrev pub watermark : ExtractionState → ℕ
watermark s = elim s.extracted_through_msg_id [ none ↦ 0 | some n ↦ n ]

abbrev pub backoff : EligibilityConfig → ℕ → ℕ
backoff cfg attempts =
    if attempts == 1 then cfg.backoff1 else if attempts == 2 then cfg.backoff2 else cfg.backoff3

active_since : EligibilityConfig → ℕ → Option ℕ → Bool
active_since cfg now none = false
active_since cfg now (some t) = leb now (t + cfg.max_age)

settled : EligibilityConfig → ℕ → Option ℕ → Bool
settled cfg now none = true
settled cfg now (some t) = ltb (t + cfg.quiet_period) now

backed_off : EligibilityConfig → ℕ → ℕ → Option ℕ → Bool
backed_off cfg now attempts none = true
backed_off cfg now attempts (some t) = attempts == 0 || leb (t + backoff cfg attempts) now

-- EligibilityConfig.where
unfoldable pub is_eligible : MemoryDb → EligibilityConfig → ℕ → String → ExtractionState → Bool
unfolding active_since settled backed_off
is_eligible db cfg now id s =
    not s.is_subagent
    && (any (str_eq s.platform) cfg.platforms
        && (active_since cfg now s.last_activity_at
            && (settled cfg now s.last_ingested_at
                && (db.has_message_above id (watermark s)
                    && backed_off cfg now s.extract_attempts s.last_extract_attempt_at))))

-- IsEligibleForAutoExtraction
unfoldable pub is_eligible_for_auto_extraction : MemoryDb → EligibilityConfig → ℕ → String → Bool
unfolding is_eligible
is_eligible_for_auto_extraction db cfg now id = elim (db.sessions id) [
  | none ↦ false
  | some s ↦ is_eligible db cfg now id s
]

-- BeginExtractAttempt
unfoldable pub begin_extract_attempt : ℕ → ExtractionState → ExtractionState
begin_extract_attempt now s = record s { last_extract_attempt_at = some now }

-- CompleteExtractPass
unfoldable pub complete_extract_pass : ℕ → ExtractionState → ExtractionState
complete_extract_pass through_id s = record s {
  extracted_through_msg_id = some through_id;
  extract_attempts = 0;
}

-- FailExtractPass
unfoldable pub fail_extract_pass : ExtractionState → ExtractionState
fail_extract_pass s = record s { extract_attempts = s.extract_attempts + 1 }

-- PoisonExtractRange
unfoldable pub poison_extract_range : ℕ → ℕ → ExtractionState → ExtractionState
poison_extract_range through_id now s = record s {
  extracted_through_msg_id = some through_id;
  extract_poisoned_at = some now;
  extract_attempts = 0;
}
