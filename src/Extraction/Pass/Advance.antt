-- ===== src/Extraction/Pass/Advance.antt =====
-- The watermark of a session over several passes.
use arc_relay.Prelude.{
  ℕ, suc, ◌+◌, ◌≤◌, ◌<◌, ◌≡◌, refl, sym, ap, subst, ◌⊎◌, ◌≢◌, inl, inr, List, [], ◌∷◌, Bool, true,
  false, Option, none, some, arith, any, All, keep, take, length, leb, ltb, if◌then◌else◌,
}
use arc_relay.Prelude.Text.{Text}
use arc_relay.Extraction.Message.{Message}
use arc_relay.Extraction.Gate.{
  ExtractionState, watermark, begin_extract_attempt, complete_extract_pass, fail_extract_pass,
  poison_extract_range,
}
use arc_relay.Extraction.Pass.{
  PassConfig, ChunkEnv, Session, Outcome, last_id, get_session_range, settle, send_fresh,
  fresh_messages, extract_fresh, extract_kept, extract_window, extract,
}

abbrev IsAbove : ℕ → Message → Type 0
IsAbove after m = after < m.id

keep-IsAbove : (after : ℕ) (ms : List Message) → All (IsAbove after) (keep (λ m. ltb after m.id) ms)
keep-IsAbove after [] = tt
keep-IsAbove after (m ∷ ms) = ground (arith, keep-IsAbove after ms)

take-IsAbove :
    (after n : ℕ) (ms : List Message) → All (IsAbove after) ms → All (IsAbove after) (take n ms)
take-IsAbove after ℕ.zero ms h = tt
take-IsAbove after (suc n) [] h = tt
take-IsAbove after (suc n) (m ∷ ms) h = (h.0, take-IsAbove after n ms h.1)

window-IsAbove :
    (msgs : List Message) (after limit : ℕ)
    → All (IsAbove after) (get_session_range msgs after limit)
unfolding get_session_range
window-IsAbove msgs after limit = take-IsAbove after _ _ (keep-IsAbove after msgs)

last_id-IsAbove :
    (after : ℕ) (m : Message) (ms : List Message)
    → All (IsAbove after) (m ∷ ms)
    → after < last_id m ms
last_id-IsAbove after m [] h = h.0
last_id-IsAbove after m (n ∷ ns) h = last_id-IsAbove after n ns h.1

keep-ne-nil :
    (after : ℕ) (ms : List Message)
    → any (λ m. ltb after m.id) ms ≡ true
    → keep (λ m. ltb after m.id) ms ≢ []
keep-ne-nil after [] h = λ e. cc
keep-ne-nil after (m ∷ ms) h = ground (arith, keep-ne-nil after ms)

take-ne-nil : (n : ℕ) (ms : List Message) → 0 < n → ms ≢ [] → take n ms ≢ []
take-ne-nil ℕ.zero ms p h = absurd (omega arith)
take-ne-nil (suc n) [] p h = h
take-ne-nil (suc n) (m ∷ ms) p h = λ e. cc

window-ne-nil :
    (msgs : List Message) (after limit : ℕ)
    → any (λ m. ltb after m.id) msgs ≡ true
    → get_session_range msgs after limit ≢ []
unfolding get_session_range
window-ne-nil msgs after limit h =
    take-ne-nil (if leb limit 0 then 400 else limit) _ (ground arith) (keep-ne-nil after msgs h)

-- What step 8 does with a range that ends at `through`.
record Settled (cfg : PassConfig) (through : ℕ) (s t : ExtractionState) : Type 0 where
  moved :
      (watermark t ≡ through)
      ⊎ ((watermark t ≡ watermark s)
          × (t.extract_attempts ≡ s.extract_attempts + 1)
          × (t.extract_attempts < cfg.poison_after))

settle-Settled :
    (cfg : PassConfig) (now through : ℕ) (s : ExtractionState) (bad : Bool)
    → Settled cfg through s (settle cfg now through (begin_extract_attempt now s) bad).0
unfolding settle begin_extract_attempt complete_extract_pass fail_extract_pass poison_extract_range
settle-Settled cfg now through s false = record { moved = inl refl }
settle-Settled cfg now through s true = record { moved = ground arith }

-- The state after a pass with the backend at hand.
abbrev pub after_pass : Session → Option (Session × Outcome) → Session
after_pass s none = s
after_pass s (some (t, o)) = t

module _ (is_json : Text → Bool) (cfg : PassConfig) where
  unfoldable pub pass : Session → ℕ × (ℕ → ChunkEnv) → Session
  pass s (now, env) = after_pass s (extract is_json cfg now true env s)

  -- Passes one after another.
  unfoldable pub run_passes : Session → List (ℕ × (ℕ → ChunkEnv)) → Session
  run_passes s [] = s
  run_passes s (e ∷ es) = run_passes (pass s e) es

  record Window (s t : Session) (window : List Message) : Type 0 where
    same_messages : t.messages ≡ s.messages
    settled :
        ((window ≡ []) × (t.state ≡ s.state))
        ⊎ ((m : Message) × (ms : List Message) × (window ≡ m ∷ ms)
            × Settled cfg (last_id m ms) s.state t.state)

  kept-Settled :
      (now : ℕ) (env : ℕ → ChunkEnv) (s : Session) (through : ℕ) (fresh : List Message)
      → let t = after_pass s (extract_kept is_json cfg now true env s through fresh) in
        (t.messages ≡ s.messages) × Settled cfg through s.state t.state
  unfolding extract_kept extract_fresh send_fresh complete_extract_pass
  kept-Settled now env s through [] = (refl, record { moved = inl refl })
  kept-Settled now env s through (f ∷ fs) = (refl, settle-Settled cfg now through s.state _)

  window-Window :
      (now : ℕ) (env : ℕ → ChunkEnv) (s : Session) (window : List Message)
      → Window s (after_pass s (extract_window is_json cfg now true env s window)) window
  unfolding extract_window
  window-Window now env s [] = record { same_messages = refl; settled = inl (refl, refl) }
  window-Window now env s (m ∷ ms) =
      let k = kept-Settled now env s (last_id m ms) (fresh_messages is_json s.rows (m ∷ ms)) in
      record { same_messages = k.0; settled = inr (m, ms, refl, k.1) }

  -- What one pass does: nothing if no message is above the watermark; otherwise the watermark rises,
  -- or the attempt is counted and stays below the limit.
  record Passed (s t : Session) : Type 0 where
    same_messages : t.messages ≡ s.messages
    monotone : watermark s.state ≤ watermark t.state
    counts :
        any (λ m. ltb (watermark s.state) m.id) s.messages ≡ true
        → (watermark s.state < watermark t.state)
          ⊎ ((watermark t.state ≡ watermark s.state)
              × (t.state.extract_attempts ≡ s.state.extract_attempts + 1)
              × (t.state.extract_attempts < cfg.poison_after))

  moved-Passed :
      (s t : Session) (m : Message) (ms : List Message)
      → t.messages ≡ s.messages
      → watermark s.state < last_id m ms
      → Settled cfg (last_id m ms) s.state t.state
      → Passed s t
  moved-Passed s t m ms same above settled = record {
    same_messages = same;
    monotone = ground (arith, settled.moved);
    counts = λ some_above. ground (arith, settled.moved);
  }

  pass-Passed : (s : Session) (e : ℕ × (ℕ → ChunkEnv)) → Passed s (pass s e)
  unfolding pass extract
  pass-Passed s (now, env) =
      let w =
        window-Window now env s (get_session_range s.messages (watermark s.state) cfg.pass_limit) in
      elim w.settled [
        | inl (empty, same) ↦ record {
          same_messages = w.same_messages;
          monotone = ground (arith, ap watermark same);
          counts =
              λ some_above. absurd (window-ne-nil s.messages _ cfg.pass_limit some_above empty);
        }
        | inr (m, ms, e, settled) ↦
            moved-Passed s _ m ms w.same_messages
              (last_id-IsAbove (watermark s.state) m ms (
                subst (All (IsAbove (watermark s.state))) e
                  (window-IsAbove s.messages (watermark s.state) cfg.pass_limit)))
              settled
      ]

  -- However the calls of the passes go, the watermark never moves back.
  pub run_passes-monotone :
      (s : Session) (es : List (ℕ × (ℕ → ChunkEnv)))
      → watermark s.state ≤ watermark (run_passes s es).state
  unfolding run_passes
  run_passes-monotone s [] = omega arith
  run_passes-monotone s (e ∷ es) =
      omega (arith, (pass-Passed s e).monotone, run_passes-monotone (pass s e) es)

  run_passes-rises :
      (s : Session) (es : List (ℕ × (ℕ → ChunkEnv)))
      → any (λ m. ltb (watermark s.state) m.id) s.messages ≡ true
      → s.state.extract_attempts < cfg.poison_after
      → cfg.poison_after ≤ s.state.extract_attempts + length es
      → watermark s.state < watermark (run_passes s es).state
  unfolding run_passes
  run_passes-rises s [] above below enough = absurd (omega arith)
  run_passes-rises s (e ∷ es) above below enough =
      let p = pass-Passed s e in
      elim (p.counts above) [
        | inl rises ↦ omega (arith, run_passes-monotone (pass s e) es)
        | inr (same, counted, still) ↦ omega (
          arith,
          run_passes-rises (pass s e) es
              (subst (λ ms. any (λ m. ltb (watermark (pass s e).state) m.id) ms ≡ true)
                (sym p.same_messages)
                (subst (λ n. any (λ m. ltb n m.id) s.messages ≡ true) (sym same) above))
              still (omega arith),
        )
      ]

  -- Where a session has a message above its watermark and fewer failed attempts counted than
  -- `poison_after`, the watermark is higher after `poison_after` passes or more with the backend at
  -- hand, whatever goes wrong in each.
  pub watermark_rises :
      (s : Session) (es : List (ℕ × (ℕ → ChunkEnv)))
      → any (λ m. ltb (watermark s.state) m.id) s.messages ≡ true
      → s.state.extract_attempts < cfg.poison_after
      → cfg.poison_after ≤ length es
      → watermark s.state < watermark (run_passes s es).state
  watermark_rises s es above below enough = run_passes-rises s es above below (omega arith)
