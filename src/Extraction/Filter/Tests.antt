-- ===== src/Extraction/Filter/Tests.antt =====
-- The filter at concrete messages.
use arc_relay.Prelude.{ℕ, ◌≡◌, refl, String, List, [], ◌∷◌, map, Bool, true}
use arc_relay.Prelude.Text.{Text, codes, trim_space}
use arc_relay.Extraction.Message.{Message}
use arc_relay.Extraction.Filter.{filter, is_envelope}

abbrev message : ℕ → String → Text → Message
message id role content = record {
  id = id;
  uuid = "u";
  role = codes role;
  timestamp = [];
  content = content;
}

abbrev session : List Message
session =
    message 1 "user" (codes "please look at the deployment logs")
    ∷ message 2 "tool" (codes "a very long output of some tool or other")
    ∷ message 3 "user" (codes "  ok then   ")
    ∷ message 4 "assistant" (codes "```sh\nls -l /var/log/deployment\n```")
    ∷ message 5 "assistant" (codes "{\"status\": \"some long status\"}")
    ∷ []

accepts_all : Text → Bool
accepts_all s = true

kept_ids : map (λ m. m.id) (filter accepts_all session).0 ≡ 1 ∷ []
unfolding accepts_all filter trim_space is_envelope
kept_ids = refl
