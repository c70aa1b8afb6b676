-- ===== src/Extraction/Pass/Laws.antt =====
-- What a pass has sent when it moves the watermark.
use arc_relay.Prelude.{
  ℕ, suc, ◌≡◌, refl, sym, ap, ◌∙◌, ◌⊎◌, ◌≢◌, inl, inr, subst, String, List, [], ◌∷◌, ◌++◌, map,
  Bool, true, false, ◌||◌, ◌&&◌, some, arith, any, All, keep, str_eq, eq_iff, Bool-cases,
}
use arc_relay.Prelude.Text.{Text}
use arc_relay.Extraction.Message.{Message}
use arc_relay.Extraction.Chunk.{Chunk, chunk_messages}
use arc_relay.Extraction.Chunk.Laws.{sources, chunk_messages_complete}
use arc_relay.Extraction.Filter.{keep_message}
use arc_relay.Extraction.Filter.Laws.{filter-keep_message}
use arc_relay.Extraction.Pass.{
  PassConfig, ChunkEnv, ExtractionRow, Session, Outcome, complete, advanced_no_content, Progress,
  last_id, is_success, covered, is_fresh, fresh_messages, after_call, extraction_row, run_chunks,
  settle, truncate_oversized, get_session_range, send_fresh, extract_fresh, extract_kept,
  extract_window, extract,
}
use arc_relay.Extraction.Gate.{watermark}

any-append :
    (u : String) (xs ys : List String)
    → any (str_eq u) (xs ++ ys) ≡ (any (str_eq u) xs || any (str_eq u) ys)
any-append u [] ys = refl
any-append u (x ∷ xs) ys = ground (arith, any-append u xs ys)

covered-append :
    (u : String) (rows : List ExtractionRow) (r : ExtractionRow)
    → covered (rows ++ r ∷ []) u
      ≡ (covered rows u || (is_success r && any (str_eq u) r.chunk_msg_uuids))
covered-append u [] r = ground arith
covered-append u (x ∷ rows) r = ground (arith, covered-append u rows r)

run_chunks-failed :
    (now : ℕ) (env : ℕ → ChunkEnv) (i : ℕ) (cs : List Chunk) (p : Progress)
    → p.failed ≡ true
    → (run_chunks now env i cs p).failed ≡ true
unfolding run_chunks
run_chunks-failed now env i [] p h = h
run_chunks-failed now env i (c ∷ cs) p h =
    ground (arith, run_chunks-failed now env (suc i) cs (after_call now i c (env i) p))

after_call-covered :
    (now i : ℕ) (c : Chunk) (e : ChunkEnv) (p : Progress) (u : String)
    → (after_call now i c e p).failed ≡ false
    → covered (after_call now i c e p).rows u ≡ (covered p.rows u || any (str_eq u) c.uuids)
after_call-covered now i c e p u h =
    ground (arith, covered-append u p.rows (extraction_row now i c e.call))

-- A loop that neither failed nor was cut off has recorded a success for every chunk.
run_chunks-covered :
    (now : ℕ) (env : ℕ → ChunkEnv) (i : ℕ) (cs : List Chunk) (p : Progress) (u : String)
    → ((run_chunks now env i cs p).failed || (run_chunks now env i cs p).aborted) ≡ false
    → covered (run_chunks now env i cs p).rows u ≡ (covered p.rows u || any (str_eq u) (sources cs))
unfolding run_chunks
run_chunks-covered now env i [] p u h = ground arith
run_chunks-covered now env i (c ∷ cs) p u h =
    elim (Bool-cases (after_call now i c (env i) p).failed) [
      | inl bad ↦
          ground (arith, run_chunks-failed now env (suc i) cs (after_call now i c (env i) p))
      | inr good ↦ ground (
        arith,
        run_chunks-covered now env (suc i) cs (after_call now i c (env i) p) u,
        after_call-covered now i c (env i) p u,
        any-append u c.uuids (sources cs),
      )
    ]

-- Rows are only added.
run_chunks-keeps :
    (now : ℕ) (env : ℕ → ChunkEnv) (i : ℕ) (cs : List Chunk) (p : Progress) (u : String)
    → covered p.rows u ≡ true
    → covered (run_chunks now env i cs p).rows u ≡ true
unfolding run_chunks
run_chunks-keeps now env i [] p u h = h
run_chunks-keeps now env i (c ∷ cs) p u h = ground (
  arith,
  run_chunks-keeps now env (suc i) cs (after_call now i c (env i) p) u,
  covered-append u p.rows (extraction_row now i c (env i).call),
)

truncate_oversized-uuids :
    (max : ℕ) (ms : List Message)
    → map (λ m. m.uuid) (truncate_oversized max ms) ≡ map (λ m. m.uuid) ms
unfolding truncate_oversized
truncate_oversized-uuids max [] = refl
truncate_oversized-uuids max (m ∷ ms) = ground (arith, truncate_oversized-uuids max ms)

sources-chunks :
    (cfg : PassConfig) (fresh : List Message)
    → sources (chunk_messages (truncate_oversized cfg.max_message_chars fresh) cfg.chunk_target)
      ≡ map (λ m. m.uuid) fresh
sources-chunks cfg fresh =
    (chunk_messages_complete (truncate_oversized cfg.max_message_chars fresh) cfg.chunk_target).1
    ∙ truncate_oversized-uuids cfg.max_message_chars fresh

List-cases {ℓ} : {A : Type ℓ} (xs : List A) → (xs ≡ []) ⊎ ((x : A) × (r : List A) × (xs ≡ x ∷ r))
List-cases [] = inl refl
List-cases (x ∷ r) = inr (x, r, refl)

-- A message that the filter keeps and that has a UUID is covered by a recorded success.
abbrev pub IsSent : (Text → Bool) → List ExtractionRow → Message → Type 0
IsSent is_json rows m =
    keep_message is_json m ≡ true → str_eq m.uuid "" ≡ false → covered rows m.uuid ≡ true

module _ (is_json : Text → Bool) where
  -- Of a window, each message is covered already, dropped by the filter, or among the fresh ones.
  fresh-IsSent :
      (rows after : List ExtractionRow) (window : List Message)
      → ((u : String) → covered rows u ≡ true → covered after u ≡ true)
      → ((u : String)
          → any
              (str_eq u)
              (map (λ m. m.uuid) (keep (is_fresh rows) (keep (keep_message is_json) window)))
            ≡ true
          → covered after u ≡ true)
      → All (IsSent is_json after) window
  fresh-IsSent rows after [] old new = tt
  fresh-IsSent rows after (m ∷ ms) old new = (
    λ kept named. ground (arith, old m.uuid, new m.uuid, eq_iff m.uuid m.uuid),
    fresh-IsSent rows after ms old (λ u h. new u (ground arith)),
  )

  complete-IsSent :
      (cfg : PassConfig) (now : ℕ) (env : ℕ → ChunkEnv) (s : Session) (through_id : ℕ)
      (window fresh : List Message)
      → fresh ≡ fresh_messages is_json s.rows window
      → (send_fresh cfg now env s through_id fresh).1 ≡ complete
      → All (IsSent is_json (send_fresh cfg now env s through_id fresh).0.rows) window
  unfolding send_fresh settle
  complete-IsSent cfg now env s through_id window fresh e h =
      fresh-IsSent s.rows (run_chunks now env 0 chunks start).rows window
        (λ u. run_chunks-keeps now env 0 chunks start u)
        (λ u new.
          run_chunks-covered now env 0 chunks start u ok
          ∙ ground (
            arith,
            sources-chunks cfg fresh,
            ap (λ f. any (str_eq u) (map (λ m. m.uuid) f)) (e ∙ kept),
          ))
    where
      chunks : List Chunk
      chunks = chunk_messages (truncate_oversized cfg.max_message_chars fresh) cfg.chunk_target

      start : Progress
      start = record { rows = s.rows; failed = false; aborted = false }

      ok :
          ((run_chunks now env 0 chunks start).failed
            || (run_chunks now env 0 chunks start).aborted)
          ≡ false
      ok = ground arith

      kept :
          fresh_messages is_json s.rows window
          ≡ keep (is_fresh s.rows) (keep (keep_message is_json) window)
      kept = ap (keep (is_fresh s.rows)) (filter-keep_message is_json window).0

  send_fresh-outcome :
      (cfg : PassConfig) (now : ℕ) (env : ℕ → ChunkEnv) (s : Session) (through_id : ℕ)
      (fresh : List Message)
      → (send_fresh cfg now env s through_id fresh).1 ≢ advanced_no_content
  unfolding send_fresh settle
  send_fresh-outcome cfg now env s through_id fresh = ground arith

  extract_fresh-IsSent :
      (cfg : PassConfig) (now : ℕ) (backend_up : Bool) (env : ℕ → ChunkEnv) (s t : Session)
      (o : Outcome) (through_id : ℕ) (window fresh : List Message)
      → fresh ≡ fresh_messages is_json s.rows window
      → extract_fresh is_json cfg now backend_up env s through_id fresh ≡ some (t, o)
      → (o ≡ complete) ⊎ (o ≡ advanced_no_content)
      → All (IsSent is_json t.rows) window
  unfolding extract_fresh
  extract_fresh-IsSent cfg now false env s t o through_id window fresh e h done = cc
  extract_fresh-IsSent cfg now true env s t o through_id window fresh e h done =
      subst (λ (r : Session × Outcome). All (IsSent is_json r.0.rows) window) same
        (complete-IsSent cfg now env s through_id window fresh e (
          ground (
            arith,
            send_fresh-outcome cfg now env s through_id fresh,
            ap (λ (r : Session × Outcome). r.1) same,
          )))
    where
      same : send_fresh cfg now env s through_id fresh ≡ (t, o)
      same = cc h

  window-IsSent :
      (cfg : PassConfig) (now : ℕ) (backend_up : Bool) (env : ℕ → ChunkEnv) (s t : Session)
      (o : Outcome) (window : List Message)
      → extract_window is_json cfg now backend_up env s window ≡ some (t, o)
      → (o ≡ complete) ⊎ (o ≡ advanced_no_content)
      → All (IsSent is_json t.rows) window
  unfolding extract_window extract_kept extract_fresh
  window-IsSent cfg now backend_up env s t o [] h done = tt
  window-IsSent cfg now backend_up env s t o (m ∷ ms) h done =
      elim (List-cases (fresh_messages is_json s.rows (m ∷ ms))) [
        | inl nothing ↦
            let same : t.rows ≡ s.rows = ground arith in
            fresh-IsSent s.rows t.rows (m ∷ ms) (λ u old. ground (arith, same))
              (λ u new. ground (
                arith,
                nothing,
                ap (λ f. any (str_eq u) (map (λ m. m.uuid) (keep (is_fresh s.rows) f)))
                    (filter-keep_message is_json (m ∷ ms)).0,
              ))
        | inr (f, fs, some_fresh) ↦
            extract_fresh-IsSent cfg now backend_up env s t o (last_id m ms) (m ∷ ms) (f ∷ fs)
              (sym some_fresh) (rw some_fresh at h) done
      ]

  -- After a pass that reports that it is complete, or that there was nothing to send, every message of
  -- its window that the filter keeps and that has a UUID is recorded as sent with success.
  pub extract-IsSent :
      (cfg : PassConfig) (now : ℕ) (backend_up : Bool) (env : ℕ → ChunkEnv) (s t : Session)
      (o : Outcome)
      → extract is_json cfg now backend_up env s ≡ some (t, o)
      → (o ≡ complete) ⊎ (o ≡ advanced_no_content)
      → All
          (IsSent is_json t.rows)
          (get_session_range s.messages (watermark s.state) cfg.pass_limit)
  unfolding extract
  extract-IsSent cfg now backend_up env s t o h done =
      window-IsSent cfg now backend_up env s t o _ h done
