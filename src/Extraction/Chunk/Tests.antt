-- ===== src/Extraction/Chunk/Tests.antt =====
-- Chunking at a concrete session.
use arc_relay.Prelude.{ℕ, ◌≡◌, refl, [], ◌∷◌, ◌++◌, map, String, length, List}
use arc_relay.Prelude.Text.{Text, codes, trim_space}
use arc_relay.Extraction.Message.{Message}
use arc_relay.Extraction.Chunk.{render, chunk_messages}
use arc_relay.Extraction.Chunk.Laws.{texts, sources, rendered, chunk_messages_complete}

abbrev message : ℕ → String → Text → Message
message id uuid content = record {
  id = id;
  uuid = uuid;
  role = codes "user";
  timestamp = codes "t0";
  content = content;
}

abbrev session : List Message
session =
    message 1 "a" (codes " one ")
    ∷ message 2 "b" (codes "two")
    ∷ message 3 "c" (codes "a message of more than forty bytes in all")
    ∷ message 4 "d" (codes "x")
    ∷ []

render_example : render (message 1 "a" (codes " one ")) ≡ codes "[USER t0] one" ++ 10 ∷ 10 ∷ []
unfolding render trim_space
render_example = refl

chunk_sizes : map (λ c. length c.uuids) (chunk_messages session 40) ≡ 2 ∷ 1 ∷ 1 ∷ []
unfolding chunk_messages render trim_space
chunk_sizes = refl

chunk_messages_complete_example :
    (texts (chunk_messages session 40) ≡ rendered session)
    × (sources (chunk_messages session 40) ≡ "a" ∷ "b" ∷ "c" ∷ "d" ∷ [])
chunk_messages_complete_example = chunk_messages_complete session 40
