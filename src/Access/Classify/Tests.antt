-- ===== src/Access/Classify/Tests.antt =====
-- Classification of concrete endpoints.
use arc_relay.Prelude.{◌≡◌, refl, []}
use arc_relay.Prelude.Text.{codes}
use arc_relay.Access.Classify.{
  read, write, contains_word, contains, classify_endpoint, index, classify_description,
}

reads_issue : classify_endpoint "tool" (codes "Get_issue") [] ≡ read
unfolding classify_endpoint contains_word index
reads_issue = refl

writes_issue : classify_endpoint "tool" (codes "create_issue") (codes "Creates one") ≡ write
unfolding classify_endpoint contains_word contains index classify_description
writes_issue = refl

-- "get" stands in "target" first, and then as a word.
missed_word : classify_endpoint "tool" (codes "target_get") [] ≡ write
unfolding classify_endpoint contains_word contains index classify_description
missed_word = refl
