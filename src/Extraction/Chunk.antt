-- ===== src/Extraction/Chunk.antt =====
-- internal/memory/extractor/chunk.go: messages rendered and grouped into bounded windows.
-- `target <= 0` is `target ≡ 0`, since the target is a natural number here.
pub mod Laws
mod Tests
use arc_relay.Prelude.{
  ℕ, ◌+◌, String, List, [], ◌∷◌, ◌++◌, Bool, true, false, ◌&&◌, leb, ltb, ◌==◌, if◌then◌else◌,
}
use arc_relay.Prelude.Text.{Text, size, to_upper, trim_space}
use arc_relay.Extraction.Message.{Message}

pub record Chunk : Type 0 where
  pub text : Text
  pub uuids : List String
  pub chars : ℕ

abbrev or_question_mark : Text → Text
or_question_mark [] = b'?' ∷ []
or_question_mark (c ∷ s) = c ∷ s

-- "[ROLE TIMESTAMP] content\n\n"
unfoldable pub render : Message → Text
render m =
    b'['
    ∷ (to_upper (or_question_mark m.role)
        ++ (0x20 ∷ (m.timestamp ++ (b']' ∷ 0x20 ∷ (trim_space m.content ++ 10 ∷ 10 ∷ [])))))

-- The variables of the loop: the chunks closed so far, the open window and its messages.
pub record Window : Type 0 where
  pub out : List Chunk
  pub buf : Text
  pub uuids : List String

pub flush : Window → Window
flush w = if size w.buf == 0 then w else record {
  out = w.out ++ record { text = w.buf; uuids = w.uuids; chars = size w.buf } ∷ [];
  buf = [];
  uuids = [];
}

-- A message of `target` bytes or more is a chunk of its own.
alone : Window → Message → Text → Window
alone w m rendered = record w {
  out = w.out ++ record { text = rendered; uuids = m.uuid ∷ []; chars = size rendered } ∷ [];
}

append : Window → Message → Text → Window
append w m rendered = record w { buf = w.buf ++ rendered; uuids = w.uuids ++ m.uuid ∷ [] }

pub chunk_step : ℕ → Window → Message → Window
unfolding alone append
chunk_step target w m =
    let rendered = render m in
    if leb target (size rendered)
    then alone (flush w) m rendered
    else append
        (if ltb target (size w.buf + size rendered) && ltb 0 (size w.buf) then flush w else w) m
        rendered

pub chunk_loop : ℕ → Window → List Message → Window
chunk_loop target w [] = w
chunk_loop target w (m ∷ ms) = chunk_loop target (chunk_step target w m) ms

abbrev pub no_window : Window
no_window = record { out = []; buf = []; uuids = [] }

abbrev pub target_or_default : ℕ → ℕ
target_or_default target = if leb target 0 then 5000 else target

unfoldable pub chunk_messages : List Message → ℕ → List Chunk
unfolding flush chunk_loop chunk_step
chunk_messages msgs target = (flush (chunk_loop (target_or_default target) no_window msgs)).out
