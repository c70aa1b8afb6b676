-- ===== src/Extraction/Gate/Laws.antt =====
-- What the gate for automatic extraction lets through.
use arc_relay.Prelude.{
  ℕ, ◌+◌, ◌≤◌, ◌<◌, ◌≡◌, String, true, false, some, arith, any, str_eq, Option-cases, ◌↔◌, inl, inr,
  sym, subst, ◌∙◌,
}
use arc_relay.Extraction.Gate.{
  MemoryDb, ExtractionState, EligibilityConfig, watermark, backoff, is_eligible,
  is_eligible_for_auto_extraction, begin_extract_attempt, fail_extract_pass,
}

-- What the specification of `eligible_auto` asks of a session.
pub record Eligible (db : MemoryDb) (cfg : EligibilityConfig) (now : ℕ) (id : String)
    (s : ExtractionState) : Type 0 where
  pub no_subagent : s.is_subagent ≡ false
  pub on_platform : any (str_eq s.platform) cfg.platforms ≡ true
  pub recent : (t : ℕ) × (s.last_activity_at ≡ some t) × (now ≤ t + cfg.max_age)
  pub quiet : (t : ℕ) → s.last_ingested_at ≡ some t → t + cfg.quiet_period < now
  pub behind : db.has_message_above id (watermark s) ≡ true
  pub rested :
      (t : ℕ)
      → s.last_extract_attempt_at ≡ some t
      → 0 < s.extract_attempts
      → t + backoff cfg s.extract_attempts ≤ now

is_eligible-Eligible :
    (db : MemoryDb) (cfg : EligibilityConfig) (now : ℕ) (id : String) (s : ExtractionState)
    → is_eligible db cfg now id s ≡ true
    → Eligible db cfg now id s
unfolding is_eligible
is_eligible-Eligible db cfg now id s h = record {
  no_subagent = ground arith;
  on_platform = ground arith;
  recent = ground arith;
  quiet = λ t e. ground arith;
  behind = ground arith;
  rested = λ t e p. ground arith;
}

Eligible-is_eligible :
    (db : MemoryDb) (cfg : EligibilityConfig) (now : ℕ) (id : String) (s : ExtractionState)
    → Eligible db cfg now id s
    → is_eligible db cfg now id s ≡ true
unfolding is_eligible
Eligible-is_eligible db cfg now id s e =
    let (t, at, fresh) = e.recent in
    elim (Option-cases s.last_ingested_at) [
      | inl never ↦ elim (Option-cases s.last_extract_attempt_at) [
        | inl first ↦ ground arith
        | inr (a, tried) ↦ ground (arith, e.rested a tried)
      ]
      | inr (i, ingested) ↦ elim (Option-cases s.last_extract_attempt_at) [
        | inl first ↦ ground (arith, e.quiet i ingested)
        | inr (a, tried) ↦ ground (arith, e.quiet i ingested, e.rested a tried)
      ]
    ]

-- A session passes the gate for automatic extraction exactly when it is in the database, is no
-- subagent session, is on a listed platform, had activity within the maximal age, was not ingested
-- within the quiet period, has a message above the watermark, and, if passes have failed, the
-- backoff for that many failures is over.
pub is_eligible_for_auto_extraction_iff :
    (db : MemoryDb) (cfg : EligibilityConfig) (now : ℕ) (id : String)
    → (is_eligible_for_auto_extraction db cfg now id ≡ true)
      ↔ ((s : ExtractionState) × (db.sessions id ≡ some s) × Eligible db cfg now id s)
unfolding is_eligible_for_auto_extraction
is_eligible_for_auto_extraction_iff db cfg now id = elim (Option-cases (db.sessions id)) [
  | inl missing ↦ (λ h. cc, λ (s, e, _). cc)
  | inr (s, found) ↦ (
    λ h. (
      s,
      found,
      is_eligible-Eligible db cfg now id s (rw (found, is_eligible_for_auto_extraction) at h),
    ),
    λ (s', e, ok).
        let same : s' ≡ s = cc (sym e ∙ found) in
        rw (found, is_eligible_for_auto_extraction)
          (subst (λ x. is_eligible db cfg now id x ≡ true) same
            (Eligible-is_eligible db cfg now id s' ok)),
  )
]

-- From the start of a pass that fails until the backoff for the new count of failures is over,
-- the session does not pass the gate, whatever else the database holds.
pub failed_pass_backs_off :
    (db : MemoryDb) (cfg : EligibilityConfig) (start now : ℕ) (id : String) (s : ExtractionState)
    → now < start + backoff cfg (s.extract_attempts + 1)
    → is_eligible db cfg now id (fail_extract_pass (begin_extract_attempt start s)) ≡ false
unfolding is_eligible fail_extract_pass begin_extract_attempt
failed_pass_backs_off db cfg start now id s h = ground arith
