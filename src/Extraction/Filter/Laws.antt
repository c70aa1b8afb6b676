-- ===== src/Extraction/Filter/Laws.antt =====
-- `Filter` against `KeepMessage`, and the counts of `Filter`.
use mathlib.Core.List.{append-nil, append_assoc}
use arc_relay.Prelude.{
  ℕ, ◌+◌, ◌≡◌, refl, sym, ap, ◌∙◌, Bool, List, [], ◌∷◌, ◌++◌, arith, length, keep, length-append,
}
use arc_relay.Prelude.Text.{Text}
use arc_relay.Extraction.Message.{Message}
use arc_relay.Extraction.Filter.{FilterStats, keep_message, filter_step, filter_loop, filter}

module _ (is_json : Text → Bool) where
  filter_step-keep :
      (out : List Message) (stats : FilterStats) (m : Message)
      → (filter_step is_json (out, stats) m).0 ≡ out ++ keep (keep_message is_json) (m ∷ [])
  unfolding filter_step keep_message
  filter_step-keep out stats m = ground (arith, append-nil out)

  keep-cons :
      (m : Message) (ms : List Message)
      → keep (keep_message is_json) (m ∷ ms)
        ≡ keep (keep_message is_json) (m ∷ []) ++ keep (keep_message is_json) ms
  keep-cons m ms = ground arith

  filter_loop-keep :
      (acc : List Message × FilterStats) (ms : List Message)
      → (filter_loop is_json acc ms).0 ≡ acc.0 ++ keep (keep_message is_json) ms
  unfolding filter_loop
  filter_loop-keep acc [] = sym (append-nil _)
  filter_loop-keep (out, stats) (m ∷ ms) =
      filter_loop-keep (filter_step is_json (out, stats) m) ms
      ∙ ap (λ o. o ++ keep (keep_message is_json) ms) (filter_step-keep out stats m)
      ∙ append_assoc out _ _
      ∙ ap (λ t. out ++ t) (sym (keep-cons m ms))

  abbrev counted : FilterStats → ℕ
  counted s = s.kept_count + s.tool_count + s.short_count + s.envelope_count

  filter_loop-counted :
      (acc : List Message × FilterStats) (ms : List Message)
      → counted (filter_loop is_json acc ms).1 ≡ counted acc.1 + length ms
  unfolding filter_loop filter_step
  filter_loop-counted acc [] = omega arith
  filter_loop-counted (out, stats) (m ∷ ms) =
      ground (arith, filter_loop-counted (filter_step is_json (out, stats) m) ms)

  filter_loop-total :
      (acc : List Message × FilterStats) (ms : List Message)
      → (filter_loop is_json acc ms).1.total ≡ acc.1.total
  unfolding filter_loop filter_step
  filter_loop-total acc [] = refl
  filter_loop-total (out, stats) (m ∷ ms) =
      ground (arith, filter_loop-total (filter_step is_json (out, stats) m) ms)

  filter_loop-kept :
      (acc : List Message × FilterStats) (ms : List Message)
      → (filter_loop is_json acc ms).1.kept_count + length acc.0
        ≡ length (filter_loop is_json acc ms).0 + acc.1.kept_count
  unfolding filter_loop filter_step
  filter_loop-kept acc [] = omega arith
  filter_loop-kept (out, stats) (m ∷ ms) =
      ground (
        arith,
        filter_loop-kept (filter_step is_json (out, stats) m) ms,
        length-append out (m ∷ []),
      )

  -- `Filter` keeps exactly the messages that `KeepMessage` keeps, in their order; it counts as kept as
  -- many as it returns, and each message under exactly one of its four counts.
  pub filter-keep_message :
      (msgs : List Message)
      → let (out, stats) = filter is_json msgs in
        (out ≡ keep (keep_message is_json) msgs)
        × (stats.kept_count ≡ length out)
        × (stats.total ≡ length msgs)
        × (stats.kept_count + stats.tool_count + stats.short_count + stats.envelope_count
            ≡ stats.total)
  unfolding filter
  filter-keep_message msgs = (
    filter_loop-keep ([], start) msgs,
    omega (arith, filter_loop-kept ([], start) msgs),
    filter_loop-total ([], start) msgs,
    omega (arith, filter_loop-total ([], start) msgs, filter_loop-counted ([], start) msgs),
  )
    where
      start : FilterStats
      start = record {
        total = length msgs;
        kept_count = 0;
        tool_count = 0;
        short_count = 0;
        envelope_count = 0;
      }
