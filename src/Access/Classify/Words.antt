-- ===== src/Access/Classify/Words.antt =====
-- What `containsWord` finds and what it misses.
use mathlib.Core.List.{reverse, append-nil, append_assoc, reverse-cons, reverse-reverse}
use arc_relay.Prelude.{
  ℕ, ◌≡◌, refl, sym, ap, ◌∙◌, [], ◌∷◌, ◌++◌, true, false, some, arith, Option-cases, Bool-cases,
  ◌==◌, inl, inr,
}
use arc_relay.Prelude.Text.{Text, after_prefix}
use arc_relay.Access.Classify.{index, is_boundary, is_separator, contains_word}

after_prefix-append : (p s : Text) → after_prefix p (p ++ s) ≡ some s
after_prefix-append [] s = refl
after_prefix-append (c ∷ p) s = ground (arith, after_prefix-append p s)

after_prefix-eq : (p s : Text) {rest : Text} → after_prefix p s ≡ some rest → s ≡ p ++ rest
after_prefix-eq [] s h = ground arith
after_prefix-eq (c ∷ p) [] h = cc
after_prefix-eq (c ∷ p) (d ∷ s) {rest} h = elim (Bool-cases (c == d)) [
  | inl e ↦
      let tail : s ≡ p ++ rest = after_prefix-eq p s (ground arith) in
      let same : c ≡ d = ground arith in cc
  | inr e ↦ absurd (ground arith)
]

index_sound :
    (before kw s b rest : Text)
    → index before kw s ≡ some (b, rest)
    → reverse before ++ s ≡ reverse b ++ (kw ++ rest)
unfolding index
index_sound before kw [] b rest h = elim (Option-cases (after_prefix kw [])) [
  | inl e ↦ absurd (ground (arith, e))
  | inr (r, e) ↦ ground (arith, e, after_prefix-eq kw [] e)
]
index_sound before kw (c ∷ s) b rest h = elim (Option-cases (after_prefix kw (c ∷ s))) [
  | inl e ↦
      sym (append_assoc (reverse before) (c ∷ []) s)
      ∙ ap (λ t. t ++ s) (sym (reverse-cons c before))
      ∙ index_sound (c ∷ before) kw s b rest (rw (e, index) at h)
  | inr (r, e) ↦ ground (arith, e, after_prefix-eq kw (c ∷ s) e)
]

-- The keyword stands in the name as a word: after the start or a separator, and before the end or
-- one. `b` is what stands before it, last letter first.
abbrev pub HasWord : Text → Text → Type 0
HasWord name keyword =
    (b : Text) × (r : Text) × (name ≡ reverse b ++ (keyword ++ r))
    × (is_boundary b ≡ true)
    × (is_boundary r ≡ true)

-- Where `containsWord` answers yes, the keyword does stand in the name as a word.
pub contains_word-HasWord :
    (name keyword : Text) → contains_word name keyword ≡ true → HasWord name keyword
unfolding contains_word
contains_word-HasWord name keyword h = elim (Option-cases (index [] keyword name)) [
  | inl e ↦ absurd (ground (arith, e))
  | inr ((b, r), e) ↦
      (b, r, index_sound [] keyword name b r e, ground (arith, e), ground (arith, e))
]

pub contains_word-front :
    (keyword r : Text) → is_boundary r ≡ true → contains_word (keyword ++ r) keyword ≡ true
unfolding contains_word index
contains_word-front [] [] h = refl
contains_word-front [] (c ∷ r) h = h
contains_word-front (k ∷ ks) r h = ground (arith, after_prefix-append ks r)

word_twice : (w : Text) (c : ℕ) → w ++ c ∷ b'_' ∷ w ≡ reverse (b'_' ∷ c ∷ reverse w) ++ (w ++ [])
word_twice w c = simp (reverse-cons, reverse-reverse, append_assoc, append-nil)

-- The converse fails: of several occurrences only the first is looked at. Where a keyword is followed
-- at once by a letter that is no separator and later stands as a word, `containsWord` answers no.
pub contains_word-misses :
    (k : ℕ) (ks : Text) (c : ℕ)
    → is_separator c ≡ false
    → let name = (k ∷ ks) ++ c ∷ b'_' ∷ (k ∷ ks) in
      HasWord name (k ∷ ks) × (contains_word name (k ∷ ks) ≡ false)
unfolding contains_word index
contains_word-misses k ks c h = (
  (b'_' ∷ c ∷ reverse (k ∷ ks), [], word_twice (k ∷ ks) c, refl, refl),
  ground (arith, h, after_prefix-append ks (c ∷ b'_' ∷ k ∷ ks)),
)
