-- ===== src/Middleware/Sizer/Limits.antt =====
-- How long a response is behind the sizer.
use arc_relay.Prelude.{
  ℕ, suc, ◌+◌, ◌-◌, ◌≤◌, ◌<◌, ◌≡◌, refl, sym, ap, subst, [], ◌∷◌, ◌++◌, false, Option, none, some,
  leb, eq_iff, length, length-append, take, arith, Bool-cases, inl, inr, zero, ◌∙◌,
}
use arc_relay.Prelude.Text.{Text, codes}
use arc_relay.Middleware.{Response, RequestMeta, Checked, pass, failed}
use arc_relay.Middleware.Sizer.{
  Sizer, json_escape, drop_last, truncated, truncation_note, size_response, sized, unless_error,
}

-- A result of at most so many bytes, or none.
abbrev pub IsWithin : ℕ → Option Text → Type 0
IsWithin max none = Unit
IsWithin max (some r) = length r ≤ max

abbrev pub ResultIsWithin : ℕ → Checked Response → Type 0
ResultIsWithin max (failed e) = ⊥
ResultIsWithin max (pass r) = IsWithin max r.result

abbrev pub ResultIsLonger : ℕ → Checked Response → Type 0
ResultIsLonger max (failed e) = ⊥
ResultIsLonger max (pass r) = (t : Text) × (r.result ≡ some t) × (max < length t)

length-take : (n : ℕ) (t : Text) → n ≤ length t → length (take n t) ≡ n
length-take zero t h = refl
length-take (suc n) [] h = absurd (omega arith)
length-take (suc n) (x ∷ t) h = omega (arith, length-take n t (omega arith))

length-drop_last : (t : Text) → length (drop_last t) ≡ length t - 2
length-drop_last [] = refl
length-drop_last (x ∷ t) = length-take (length (x ∷ t) - 2) t (omega arith)

length-around :
    (n : ℕ) (before middle : Text) (c : ℕ) (after : Text)
    → n ≤ length middle
    → n < length (before ++ middle ++ c ∷ after)
length-around n before middle c after h =
    omega (arith, h, length-append (before ++ middle) (c ∷ after), length-append before middle)

module _ (marshal : Text → Text) (grows : (t : Text) → length t + 2 ≤ length (marshal t)) where
  length-escape : (t : Text) → length t ≤ length (json_escape marshal t)
  unfolding json_escape
  length-escape t = ground (arith, grows t, length-drop_last (marshal t))

  length-truncated :
      (max : ℕ) (result : Text) → max < length result → max < length (truncated marshal max result)
  unfolding truncated
  length-truncated max result big =
      length-around max (truncation_note (length result) max)
        (json_escape marshal (take max result)) 34 (codes "}]}")
        (ground (arith, length-escape (take max result), length-take max result))

module _ {W : Type 0} (marshal : Text → Text) where
  sized-ResultIsWithin :
      (s : Sizer W) (meta : RequestMeta) (resp : Response) (result : Option Text) (w : W)
      → resp.result ≡ result
      → s.action ≡ "block"
      → ResultIsWithin s.max_bytes (sized marshal s meta resp result w).1
  sized-ResultIsWithin s meta resp none w e h = subst (IsWithin s.max_bytes) (sym e) tt
  sized-ResultIsWithin s meta resp (some r) w e h = elim (Bool-cases (leb (length r) s.max_bytes)) [
    | inl fits ↦ rw fits (subst (IsWithin s.max_bytes) (sym e) (ground (arith, fits)))
    | inr big ↦ rw (big, (eq_iff s.action "block").1 h) tt
  ]

  size_response_of :
      (s : Sizer W) (meta : RequestMeta) (resp : Response) (w : W) {result : Option Text}
      → resp.error ≡ none
      → resp.result ≡ result
      → size_response marshal s meta resp w ≡ sized marshal s meta resp result w
  unfolding size_response
  size_response_of s meta resp w {result = result} e e' =
      ap (λ o. unless_error o (w, pass resp) (sized marshal s meta resp resp.result w)) e
      ∙ ap (λ r. sized marshal s meta resp r w) e'

  -- A sizer that blocks lets no result through that is longer than its limit; only a response that
  -- carries an error already passes as it is.
  pub size_response-ResultIsWithin :
      (s : Sizer W) (meta : RequestMeta) (resp : Response) (w : W)
      → resp.error ≡ none
      → s.action ≡ "block"
      → ResultIsWithin s.max_bytes (size_response marshal s meta resp w).1
  size_response-ResultIsWithin s meta resp w e h =
      subst (λ x. ResultIsWithin s.max_bytes x.1) (sym (size_response_of s meta resp w e refl))
        (sized-ResultIsWithin s meta resp resp.result w refl h)

  sized-ResultIsLonger :
      (s : Sizer W) (meta : RequestMeta) (resp : Response) (result : Text) (w : W)
      → ((t : Text) → length t + 2 ≤ length (marshal t))
      → s.action ≡ "truncate"
      → s.max_bytes < length result
      → ResultIsLonger s.max_bytes (sized marshal s meta resp (some result) w).1
  sized-ResultIsLonger s meta resp result w grows h big =
      let over : leb (length result) s.max_bytes ≡ false = ground arith in
      rw (over, h)
        (
          truncated marshal s.max_bytes result,
          refl,
          length-truncated marshal grows s.max_bytes result big,
        )

  -- A sizer that truncates a result that is longer than its limit answers with a result that is longer
  -- than the limit again, if an encoded text is at least its two quotes longer than the text.
  pub size_response-ResultIsLonger :
      (s : Sizer W) (meta : RequestMeta) (resp : Response) (result : Text) (w : W)
      → ((t : Text) → length t + 2 ≤ length (marshal t))
      → s.action ≡ "truncate"
      → resp.error ≡ none
      → resp.result ≡ some result
      → s.max_bytes < length result
      → ResultIsLonger s.max_bytes (size_response marshal s meta resp w).1
  size_response-ResultIsLonger s meta resp result w grows h e e' big =
      subst (λ x. ResultIsLonger s.max_bytes x.1) (sym (size_response_of s meta resp w e e'))
        (sized-ResultIsLonger s meta resp result w grows h big)
