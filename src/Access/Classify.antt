-- ===== src/Access/Classify.antt =====
-- internal/mcp/classify.go. Letter case is that of the ASCII letters.
pub mod Words
pub mod Verdict
mod Tests
use arc_relay.Prelude.{
  ℕ, String, List, [], ◌∷◌, Bool, true, false, ◌&&◌, ◌||◌, Option, none, some, ◌==◌, if◌then◌else◌,
  any, str_eq,
}
use arc_relay.Prelude.Text.{Text, codes, to_lower, after_prefix}

pub data Tier : Type 0 where
  read write admin : Tier

abbrev pub read_keywords : List String
read_keywords =
    "get" ∷ "list" ∷ "search" ∷ "find" ∷ "read" ∷ "fetch" ∷ "query" ∷ "show" ∷ "describe" ∷ "status"
    ∷ "check" ∷ "count" ∷ "view" ∷ "lookup" ∷ []

abbrev pub admin_keywords : List String
admin_keywords =
    "delete" ∷ "remove" ∷ "destroy" ∷ "drop" ∷ "purge" ∷ "reset" ∷ "execute" ∷ "run_command"
    ∷ "deploy" ∷ "install" ∷ "uninstall" ∷ "reboot" ∷ "shutdown" ∷ "restart" ∷ "kill" ∷ []

-- strings.Index with what stands before, last letter first, and after the first occurrence.
unfoldable pub index : Text → Text → Text → Option (Text × Text)
index before kw [] = elim (after_prefix kw []) [ none ↦ none | some rest ↦ some (before, rest) ]
index before kw (c ∷ s) = elim (after_prefix kw (c ∷ s)) [
  | some rest ↦ some (before, rest)
  | none ↦ index (c ∷ before) kw s
]

abbrev pub is_separator : ℕ → Bool
is_separator c = c == b'_' || c == b'-'

-- The code point at an end of the keyword: none, or a separator.
abbrev pub is_boundary : Text → Bool
is_boundary [] = true
is_boundary (c ∷ s) = is_separator c

-- containsWord
unfoldable pub contains_word : Text → Text → Bool
contains_word name keyword = elim (index [] keyword name) [
  | none ↦ false
  | some (before, rest) ↦ is_boundary before && is_boundary rest
]

-- strings.Contains
unfoldable pub contains : Text → Text → Bool
contains s t = elim (index [] t s) [ none ↦ false | some _ ↦ true ]

-- The fallbacks on the description.
unfoldable pub classify_description : Text → Tier
classify_description desc =
    if contains desc (codes "retrieves") || contains desc (codes "returns")
    then read
    else if contains desc (codes "deletes")
        || contains desc (codes "destroys")
        || contains desc (codes "executes")
    then admin
    else write

-- ClassifyEndpoint
unfoldable pub classify_endpoint : String → Text → Text → Tier
classify_endpoint endpoint_type name description =
    if str_eq endpoint_type "resource" || str_eq endpoint_type "prompt"
    then read
    else if any (λ kw. contains_word (to_lower name) (codes kw)) admin_keywords
    then admin
    else if any (λ kw. contains_word (to_lower name) (codes kw)) read_keywords
    then read
    else classify_description (to_lower description)
