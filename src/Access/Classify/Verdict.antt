-- ===== src/Access/Classify/Verdict.antt =====
-- When an endpoint is classed as read-only, and what is always classed as admin.
use arc_relay.Prelude.{
  ◌≡◌, ◌⊎◌, inl, inr, String, List, [], ◌∷◌, ◌++◌, Bool, true, false, ◌||◌, arith, any, Some,
  str_eq, eq_iff, Bool-cases, if◌then◌else◌,
}
use arc_relay.Prelude.Text.{Text, codes, to_lower}
use arc_relay.Access.Classify.{
  Tier, read, admin, read_keywords, admin_keywords, is_boundary, contains_word, contains,
  classify_description, classify_endpoint,
}
use arc_relay.Access.Classify.Words.{HasWord, contains_word-HasWord, contains_word-front}

abbrev pub found_in : Text → String → Bool
found_in name kw = contains_word name (codes kw)

any-Some :
    (name : Text) (kws : List String)
    → any (found_in name) kws ≡ true
    → Some (λ kw. HasWord name (codes kw)) kws
any-Some name [] h = cc
any-Some name (k ∷ kws) h = elim (Bool-cases (found_in name k)) [
  | inl e ↦ inl (contains_word-HasWord name (codes k) e)
  | inr e ↦ inr (any-Some name kws (ground (arith, e)))
]

ladder :
    (resource prompt a r : Bool) (d : Tier)
    → (if resource || prompt then read else if a then admin else if r then read else d) ≡ read
    → ((resource ≡ true) ⊎ (prompt ≡ true)) ⊎ ((a ≡ false) × ((r ≡ true) ⊎ (d ≡ read)))
ladder resource prompt a r d h = ground arith

described :
    (desc : Text)
    → classify_description desc ≡ read
    → (contains desc (codes "retrieves") ≡ true) ⊎ (contains desc (codes "returns") ≡ true)
unfolding classify_description
described desc h = ground arith

-- An endpoint is classed as read-only only if it is a resource or a prompt, or no admin keyword was
-- found in its name and a read keyword stands there as a word or its description says that it
-- retrieves or returns something.
pub read-justified :
    (endpoint_type : String) (name description : Text)
    → classify_endpoint endpoint_type name description ≡ read
    → ((endpoint_type ≡ "resource") ⊎ (endpoint_type ≡ "prompt"))
      ⊎ ((any (found_in (to_lower name)) admin_keywords ≡ false)
          × (Some (λ kw. HasWord (to_lower name) (codes kw)) read_keywords
              ⊎ ((contains (to_lower description) (codes "retrieves") ≡ true)
                  ⊎ (contains (to_lower description) (codes "returns") ≡ true))))
unfolding classify_endpoint
read-justified endpoint_type name description h =
    elim (ladder (str_eq endpoint_type "resource") (str_eq endpoint_type "prompt")
      (any (found_in (to_lower name)) admin_keywords) (any (found_in (to_lower name)) read_keywords)
      _ h) [
        | inl (inl e) ↦ inl (inl ((eq_iff endpoint_type "resource").0 e))
        | inl (inr e) ↦ inl (inr ((eq_iff endpoint_type "prompt").0 e))
        | inr (a, inl r) ↦ inr (a, inl (any-Some (to_lower name) read_keywords r))
        | inr (a, inr d) ↦ inr (a, inr (described (to_lower description) d))
      ]

abbrev pub IsIn : String → List String → Type 0
IsIn k = Some (λ x. x ≡ k)

any-IsIn :
    (name : Text) (kws : List String) (k : String)
    → IsIn k kws
    → found_in name k ≡ true
    → any (found_in name) kws ≡ true
any-IsIn name [] k i h = absurd i
any-IsIn name (x ∷ kws) k (inl e) h = rw (e, h)
any-IsIn name (x ∷ kws) k (inr i) h = ground (arith, any-IsIn name kws k i h)

-- A tool whose name begins with an admin keyword as a word is classed as admin, whatever follows
-- and whatever its description says.
pub admin_word_first :
    (kw : String) (name rest description : Text)
    → IsIn kw admin_keywords
    → to_lower name ≡ codes kw ++ rest
    → is_boundary rest ≡ true
    → classify_endpoint "tool" name description ≡ admin
unfolding classify_endpoint
admin_word_first kw name rest description i e b =
    rw (any-IsIn (to_lower name) admin_keywords kw i (rw e (contains_word-front (codes kw) rest b)))
