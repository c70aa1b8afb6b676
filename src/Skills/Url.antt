-- ===== src/Skills/Url.antt =====
-- internal/store/skills.go: which upstream URLs are handed to git. Letter case is that of the ASCII
-- letters.
use arc_relay.Prelude.{
  ℕ, ◌≡◌, refl, sym, subst, if-elim, ap, ◌∙◌, inl, inr, List, [], ◌∷◌, ◌++◌, Bool, true, false,
  Option, none, some, if◌then◌else◌, ◌==◌, any, Bool-cases, arith,
}
use arc_relay.Prelude.Text.{Text, codes, text_eq, lower, to_lower, trim_space, after_prefix}

-- ErrUnsupportedGitURL with its reason.
pub data UrlFault : Type 0 where
  empty : UrlFault
  leading_dash : UrlFault
  transport : Text → UrlFault
  helper : UrlFault

-- AllowedGitProtocols
abbrev pub allowed_git_protocols : List Text
allowed_git_protocols = codes "http" ∷ codes "https" ∷ codes "ssh" ∷ codes "git" ∷ codes "file" ∷ []

-- strings.Index: what stands before the first occurrence.
abbrev pub prepend : ℕ → Option Text → Option Text
prepend c none = none
prepend c (some s) = some (c ∷ s)

abbrev pub here_or : Option Text → Option Text → Option Text
here_or none later = later
here_or (some rest) later = some []

abbrev pub before : Text → Text → Option Text
before p [] = none
before p (c ∷ s) = here_or (after_prefix p (c ∷ s)) (prepend c (before p s))

abbrev pub is_allowed : Text → Bool
is_allowed scheme = any (text_eq scheme) allowed_git_protocols

abbrev pub check_path : Option Text → Option UrlFault
check_path none = none
check_path (some s) = some helper

abbrev pub check_scheme : Text → Option Text → Option UrlFault
check_scheme s none = check_path (before (codes "::") s)
check_scheme s (some scheme) =
    if is_allowed (to_lower scheme) then none else some (transport (to_lower scheme))

abbrev pub check_trimmed : Text → Option UrlFault
check_trimmed [] = some empty
check_trimmed (c ∷ s) =
    if c == 45 then some leading_dash else check_scheme (c ∷ s) (before (codes "://") (c ∷ s))

-- ValidateGitURL
unfoldable pub validate_git_url : Text → Option UrlFault
validate_git_url raw = check_trimmed (trim_space raw)

abbrev pub has_colon : Text → Bool
has_colon = any (λ c. c == 58)

or_true : (a b : Bool) → b ≡ true → (if a then true else b) ≡ true
or_true false b h = h
or_true true b h = refl

or_false : (a b : Bool) → (if a then true else b) ≡ false → b ≡ false
or_false false b h = h
or_false true b h = cc

text_eq-has_colon : (s t : Text) → text_eq s t ≡ true → has_colon s ≡ has_colon t
text_eq-has_colon [] [] h = refl
text_eq-has_colon [] (d ∷ t) h = cc
text_eq-has_colon (c ∷ s) [] h = cc
text_eq-has_colon (c ∷ s) (d ∷ t) h =
    let tail : text_eq s t ≡ true = ground arith in
    let same : c ≡ d = ground arith in
    ap (λ b. if c == 58 then true else b) (text_eq-has_colon s t tail)
    ∙ ap (λ x. if x == 58 then true else has_colon t) same

lower_colon : (c : ℕ) → (c == 58) ≡ true → (lower c == 58) ≡ true
lower_colon c h = ground arith

lower-has_colon : (s : Text) → has_colon s ≡ true → has_colon (to_lower s) ≡ true
lower-has_colon [] h = h
lower-has_colon (c ∷ s) h = elim (Bool-cases (c == 58)) [
  | inl e ↦ rw (lower_colon c e) refl
  | inr e ↦
      or_true (lower c == 58) (has_colon (to_lower s))
        (lower-has_colon s (ap (λ b. if b then true else has_colon s) (sym e) ∙ h))
]

-- A scheme with a colon in it is none of those allowed.
any-has_colon :
    (s : Text) (ts : List Text)
    → any has_colon ts ≡ false
    → has_colon s ≡ true
    → any (text_eq s) ts ≡ false
any-has_colon s [] free has = refl
any-has_colon s (t ∷ ts) free has = elim (Bool-cases (text_eq s t)) [
  | inl e ↦
      let yes : has_colon t ≡ true = sym (text_eq-has_colon s t e) ∙ has in
      let clash : true ≡ false = ap (λ b. if b then true else any has_colon ts) (sym yes) ∙ free in
      cc
  | inr e ↦ rw e (any-has_colon s ts (or_false (has_colon t) (any has_colon ts) free) has)
]

-- What stands before a "://" behind "name::" has a colon in it.
abbrev HasColon : Option Text → Type 0
HasColon none = Unit
HasColon (some s) = has_colon s ≡ true

prepend-HasColon : (c : ℕ) (o : Option Text) → HasColon o → HasColon (prepend c o)
prepend-HasColon c none h = tt
prepend-HasColon c (some s) h = or_true (c == 58) (has_colon s) h

prepend_colon : (o : Option Text) → HasColon (prepend 58 o)
prepend_colon none = tt
prepend_colon (some s) = refl

colon_apart : (c : ℕ) (b : Bool) → (if c == 58 then true else b) ≡ false → (58 == c) ≡ false
colon_apart c b h = ground arith

before-HasColon :
    (name rest : Text)
    → has_colon name ≡ false
    → HasColon (before (codes "://") (name ++ codes "::" ++ rest))
before-HasColon [] rest h = prepend_colon (before (codes "://") (58 ∷ rest))
before-HasColon (c ∷ name) rest h =
    subst
      (λ b. HasColon (
        here_or (if b then after_prefix (codes "//") (name ++ codes "::" ++ rest) else none)
          (prepend c (before (codes "://") (name ++ codes "::" ++ rest)))))
      (sym (colon_apart c (has_colon name) h))
      (prepend-HasColon c (before (codes "://") (name ++ codes "::" ++ rest))
        (before-HasColon name rest (or_false (c == 58) (has_colon name) h)))

abbrev Found : Option Text → Type 0
Found none = ⊥
Found (some s) = Unit

here_or-Found : (c : ℕ) (o later : Option Text) → Found later → Found (here_or o (prepend c later))
here_or-Found c (some rest) later h = tt
here_or-Found c none (some s) h = tt
here_or-Found c none none h = h

before-Found : (name rest : Text) → Found (before (codes "::") (name ++ codes "::" ++ rest))
before-Found [] rest = tt
before-Found (c ∷ name) rest =
    here_or-Found c (after_prefix (codes "::") (c ∷ name ++ codes "::" ++ rest))
      (before (codes "::") (name ++ codes "::" ++ rest)) (before-Found name rest)

abbrev Rejected : Option UrlFault → Type 0
Rejected none = ⊥
Rejected (some fault) = Unit

check_path-Rejected : (o : Option Text) → Found o → Rejected (check_path o)
check_path-Rejected none h = h
check_path-Rejected (some s) h = tt

check_scheme-Rejected :
    (s : Text) (o : Option Text)
    → HasColon o
    → Found (before (codes "::") s)
    → Rejected (check_scheme s o)
check_scheme-Rejected s none h found = check_path-Rejected (before (codes "::") s) found
check_scheme-Rejected s (some scheme) h found =
    subst (λ b. Rejected (if b then none else some (transport (to_lower scheme))))
      (sym (any-has_colon (to_lower scheme) allowed_git_protocols refl (lower-has_colon scheme h)))
      tt

check_trimmed-Rejected :
    (s : Text)
    → HasColon (before (codes "://") s)
    → Found (before (codes "::") s)
    → Rejected (check_trimmed s)
check_trimmed-Rejected [] h found = tt
check_trimmed-Rejected (c ∷ s) h found =
    if-elim Rejected (c == 45) (some leading_dash)
      (check_scheme (c ∷ s) (before (codes "://") (c ∷ s))) tt
      (check_scheme-Rejected (c ∷ s) (before (codes "://") (c ∷ s)) h found)

-- A URL that names a transport helper is never accepted: whatever has, once trimmed, a double colon
-- behind a name without colons is refused, also where a scheme that is allowed follows.
pub validate_git_url_helper :
    (raw name rest : Text)
    → trim_space raw ≡ name ++ codes "::" ++ rest
    → has_colon name ≡ false
    → ¬ (validate_git_url raw ≡ none)
unfolding validate_git_url
validate_git_url_helper raw name rest shape free accepted = subst Rejected accepted (
    subst (λ s. Rejected (check_trimmed s)) (sym shape)
      (check_trimmed-Rejected (name ++ codes "::" ++ rest) (before-HasColon name rest free)
        (before-Found name rest)))
