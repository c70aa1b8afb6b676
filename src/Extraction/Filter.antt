-- ===== src/Extraction/Filter.antt =====
-- internal/memory/extractor/filter.go: which messages are worth an extraction call. `is_json`, an
-- argument, says whether `json.Unmarshal` accepts a text.
pub mod Laws
mod Tests
use arc_relay.Prelude.{
  ℕ, suc, ◌+◌, String, List, [], ◌∷◌, ◌++◌, Bool, true, false, ◌&&◌, ◌||◌, Option, none, some, leb,
  ltb, ◌==◌, if◌then◌else◌, not, length,
}
use mathlib.Core.List.{reverse}
use arc_relay.Prelude.Text.{Text, text_eq, size, trim_space, after_prefix, codes}
use arc_relay.Extraction.Message.{Message}

-- strings.HasPrefix and strings.HasSuffix.
abbrev pub has_prefix : Text → Text → Bool
has_prefix s p = elim (after_prefix p s) [ none ↦ false | some _ ↦ true ]

abbrev pub has_suffix : Text → Text → Bool
has_suffix s p = has_prefix (reverse s) (reverse p)

-- The text before and after the first or the last occurrence of a pattern that is not empty.
unfoldable pub split_first : Text → Text → Option (Text × Text)
split_first p [] = none
split_first p (c ∷ s) = elim (after_prefix p (c ∷ s)) [
  | some rest ↦ some ([], rest)
  | none ↦ elim (split_first p s) [ none ↦ none | some (b, a) ↦ some (c ∷ b, a) ]
]

unfoldable pub split_last : Text → Text → Option (Text × Text)
split_last p [] = none
split_last p (c ∷ s) = elim (split_last p s) [
  | some (b, a) ↦ some (c ∷ b, a)
  | none ↦ elim (after_prefix p (c ∷ s)) [ none ↦ none | some rest ↦ some ([], rest) ]
]

abbrev contains : Text → Text → Bool
contains s p = elim (split_first p s) [ none ↦ false | some _ ↦ true ]

abbrev fence : Text
fence = b'`' ∷ b'`' ∷ b'`' ∷ []

-- What stands outside and inside of a fence that closes with the last "```".
fence_only : Text → Text → Bool
fence_only head after = elim (split_first (10 ∷ []) head) [
  | none ↦ false
  | some (_, body) ↦ text_eq (trim_space after) [] && not (contains body fence)
]

is_fenced : Text → Bool
unfolding fence_only split_first split_last
is_fenced s = has_prefix s fence && elim (split_last fence s) [
  | none ↦ false
  | some (head, after) ↦ ltb 3 (size head) && fence_only head after
]

is_command : Text → Bool
unfolding split_first
is_command s =
    (has_prefix s (b'$' ∷ 0x20 ∷ []) || has_prefix s (b'>' ∷ 0x20 ∷ []))
    && not (contains s (10 ∷ 10 ∷ []))

pub record FilterStats : Type 0 where
  pub total : ℕ
  pub kept_count : ℕ
  pub tool_count : ℕ
  pub short_count : ℕ
  pub envelope_count : ℕ

abbrev pub is_machine_role : Text → Bool
is_machine_role role = text_eq role (codes "tool") || text_eq role (codes "system")

module _ (is_json : Text → Bool) where
  is_json_envelope : Text → Bool
  is_json_envelope s =
      ((has_prefix s (b'{' ∷ []) && has_suffix s (b'}' ∷ []))
        || (has_prefix s (b'[' ∷ []) && has_suffix s (b']' ∷ [])))
      && is_json s

  unfoldable pub is_envelope : Text → Bool
  unfolding is_json_envelope is_fenced is_command
  is_envelope s = if is_json_envelope s then true else if is_fenced s then true else is_command s

  -- KeepMessage
  unfoldable pub keep_message : Message → Bool
  unfolding trim_space
  keep_message m =
      if is_machine_role m.role
      then false
      else if ltb (length (trim_space m.content)) 20
      then false
      else not (is_envelope (trim_space m.content))

  -- The body of the loop of `Filter`.
  filter_step : List Message × FilterStats → Message → List Message × FilterStats
  filter_step (out, stats) m =
      if is_machine_role m.role
      then (out, record stats { tool_count = stats.tool_count + 1 })
      else if ltb (length (trim_space m.content)) 20
      then (out, record stats { short_count = stats.short_count + 1 })
      else if is_envelope (trim_space m.content)
      then (out, record stats { envelope_count = stats.envelope_count + 1 })
      else (out ++ m ∷ [], record stats { kept_count = stats.kept_count + 1 })

  filter_loop : List Message × FilterStats → List Message → List Message × FilterStats
  unfolding filter_step
  filter_loop acc [] = acc
  filter_loop acc (m ∷ ms) = filter_loop (filter_step acc m) ms

  -- Filter
  unfoldable pub filter : List Message → List Message × FilterStats
  unfolding filter_loop
  filter msgs =
      filter_loop
        (
          [],
          record {
            total = length msgs;
            kept_count = 0;
            tool_count = 0;
            short_count = 0;
            envelope_count = 0;
          },
        )
        msgs
