-- ===== src/Extraction/Message.antt =====
-- The transcript rows that the extractor reads (internal/store/memory_messages.go, Message).
use arc_relay.Prelude.{ℕ, String}
use arc_relay.Prelude.Text.{Text}

-- The fields that the extractor uses.
pub record Message : Type 0 where
  pub id : ℕ
  pub uuid : String
  pub role : Text
  pub timestamp : Text
  pub content : Text
