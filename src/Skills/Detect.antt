-- ===== src/Skills/Detect.antt =====
-- internal/skills/checker/detect.go: how the upstream of a skill is compared with what was last seen.
-- What git prints is an argument.
use arc_relay.Prelude.{
  ℕ, String, List, [], ◌∷◌, ◌++◌, ◌&&◌, ltb, not, if◌then◌else◌, length, take, str_eq, ◌==◌, Bool,
  false,
}
use arc_relay.Prelude.Text.{Text, codes}

pub data Result (A : Type 0) : Type 0 where
  ok : A → Result A
  failed : String → Result A

abbrev pub bind : {A B : Type 0} → Result A → (A → Result B) → Result B
bind (ok a) next = next a
bind (failed e) next = failed e

-- The git commands on a clone, and the hash of the subtree that is checked out of a commit. A text is
-- its bytes.
pub record Git : Type 0 where
  pub rev_parse : String → Result String
  pub log_path : String → String → String → Result (List String)
  pub hash_at : String → String → Result String
  pub diff_names : String → String → String → Result Text
  pub diff_stat : String → String → String → Result Text

pub record UpstreamRef : Type 0 where
  pub git_subpath : String
  pub git_ref : String

pub data Detection : Type 0 where
  no_movement : String → Detection
  no_path_touch : String → Detection
  reverted_to_same : String → String → Detection
  drift : String → String → ℕ → List Text → Text → Detection

-- ResolveSHA, where an empty ref is HEAD.
abbrev pub or_head : String → String
or_head ref = if str_eq ref "" then "HEAD" else ref

-- strings.TrimRight of line ends, and strings.Split at them.
abbrev pub unless_blank : ℕ → Text → Text
unless_blank c [] = if c == 10 then [] else c ∷ []
unless_blank c (d ∷ t) = c ∷ d ∷ t

abbrev pub trim_newlines : Text → Text
trim_newlines [] = []
trim_newlines (c ∷ t) = unless_blank c (trim_newlines t)

abbrev pub on_line : ℕ → List Text → List Text
on_line c [] = (c ∷ []) ∷ []
on_line c (l ∷ ls) = (c ∷ l) ∷ ls

abbrev pub split_lines : Text → List Text
split_lines [] = [] ∷ []
split_lines (c ∷ t) = let rest = split_lines t in if c == 10 then [] ∷ rest else on_line c rest

abbrev pub lines_of : Text → List Text
lines_of [] = []
lines_of (c ∷ t) = split_lines (c ∷ t)

-- diffRange
abbrev pub from_or_empty_tree : String → String
from_or_empty_tree from =
    if str_eq from "" then "4b825dc642cb6eb9a060e54bf8d69288fbee4904" else from

abbrev pub starts_with_dash : Text → Bool
starts_with_dash [] = false
starts_with_dash (c ∷ t) = c == 45

module _ (git : Git) where
  unfoldable pub resolve_sha : String → Result String
  resolve_sha ref =
      if starts_with_dash (codes (or_head ref))
      then failed "ref must not start with '-'"
      else git.rev_parse (or_head ref)

  unfoldable pub git_diff_names : String → String → String → Result (List Text)
  git_diff_names from to subpath =
      bind (git.diff_names (from_or_empty_tree from) to subpath)
        (λ out. ok (lines_of (trim_newlines out)))

  abbrev pub shortened : ℕ → Text → Text
  shortened max out =
      if ltb 0 max && ltb max (length out) then take max out ++ codes "\n... (truncated)" else out

  unfoldable pub git_diff_summary : String → String → String → ℕ → Result Text
  git_diff_summary from to subpath max =
      bind (git.diff_stat (from_or_empty_tree from) to subpath) (λ out. ok (shortened max out))

  -- The stages of Detect: the difference, the hash, the commits, the head.
  abbrev pub gather : UpstreamRef → String → ℕ → String → List String → String → Result Detection
  gather u last_sha max sha commits hash =
      bind (git_diff_names last_sha sha u.git_subpath) λ changed.
        bind (git_diff_summary last_sha sha u.git_subpath max)
          λ summary. ok (drift sha hash (length commits) changed summary)

  abbrev pub compare_hash :
      UpstreamRef → String → String → ℕ → String → List String → Result Detection
  compare_hash u last_sha last_hash max sha [] = ok (no_path_touch sha)
  compare_hash u last_sha last_hash max sha (c ∷ cs) = bind (git.hash_at sha u.git_subpath) λ hash.
      if not (str_eq last_hash "") && str_eq hash last_hash
      then ok (reverted_to_same sha hash)
      else gather u last_sha max sha (c ∷ cs) hash

  abbrev pub compare_head : UpstreamRef → String → String → ℕ → String → Result Detection
  compare_head u last_sha last_hash max sha =
      if not (str_eq last_sha "") && str_eq sha last_sha
      then ok (no_movement sha)
      else bind (git.log_path last_sha sha u.git_subpath)
          (compare_hash u last_sha last_hash max sha)

  -- Detect
  unfoldable pub detect : UpstreamRef → String → String → ℕ → Result Detection
  detect u last_sha last_hash max =
      bind (resolve_sha u.git_ref) (compare_head u last_sha last_hash max)
