-- ===== src/Extraction/Chunk/Laws.antt =====
-- What the chunks of internal/memory/extractor/chunk.go hold.
use mathlib.Core.List.{append-nil, append_assoc}
use arc_relay.Prelude.{
  ℕ, ◌+◌, ◌≤◌, ◌≡◌, refl, sym, ap, ◌∙◌, ◌⊎◌, inl, inr, String, List, [], ◌∷◌, ◌++◌, map, arith,
  Bool-cases, ltb, leb, ◌==◌, ◌&&◌, All, All-append, length,
}
use arc_relay.Prelude.Text.{Text, size, size-append, rune_len_pos}
use arc_relay.Extraction.Message.{Message}
use arc_relay.Extraction.Chunk.{
  Chunk, Window, render, flush, alone, append, chunk_step, chunk_loop, chunk_messages, no_window,
  target_or_default,
}

abbrev pub texts : List Chunk → Text
texts [] = []
texts (c ∷ cs) = c.text ++ texts cs

abbrev pub sources : List Chunk → List String
sources [] = []
sources (c ∷ cs) = c.uuids ++ sources cs

abbrev pub rendered : List Message → Text
rendered [] = []
rendered (m ∷ ms) = render m ++ rendered ms

texts-append : (cs ds : List Chunk) → texts (cs ++ ds) ≡ texts cs ++ texts ds
texts-append [] ds = refl
texts-append (c ∷ cs) ds = simp (texts-append cs ds, append_assoc)

sources-append : (cs ds : List Chunk) → sources (cs ++ ds) ≡ sources cs ++ sources ds
sources-append [] ds = refl
sources-append (c ∷ cs) ds = simp (sources-append cs ds, append_assoc)

size_zero : (s : Text) → size s ≡ 0 → s ≡ []
size_zero [] h = refl
size_zero (c ∷ s) h = absurd (omega (arith, rune_len_pos c))

-- All that the loop has taken in: what is closed, then what is open.
abbrev taken : Window → Text
taken w = texts w.out ++ w.buf

abbrev taken_from : Window → List String
taken_from w = sources w.out ++ w.uuids

-- A chunk is within the target, or is one message.
abbrev pub IsBounded : ℕ → Chunk → Type 0
IsBounded target c = (c.chars ≡ size c.text) × ((c.chars ≤ target) ⊎ (length c.uuids ≡ 1))

record Good (target : ℕ) (w : Window) : Type 0 where
  paired : w.buf ≡ [] → w.uuids ≡ []
  open_bound : size w.buf ≤ target
  closed : All (IsBounded target) w.out

record Flushed (target : ℕ) (w v : Window) : Type 0 where
  texts_kept : taken v ≡ taken w
  sources_kept : taken_from v ≡ taken_from w
  nothing_open : v.buf ≡ []
  no_source : v.uuids ≡ []
  closed : All (IsBounded target) v.out

flush-Flushed : (target : ℕ) (w : Window) → Good target w → Flushed target w (flush w)
unfolding flush
flush-Flushed target w g = elim (Bool-cases (size w.buf == 0)) [
  | inl e ↦
      let empty : w.buf ≡ [] = size_zero w.buf (ground arith) in
      rw (e, flush)
        (record {
          texts_kept = refl;
          sources_kept = refl;
          nothing_open = empty;
          no_source = g.paired empty;
          closed = g.closed;
        })
  | inr e ↦
      rw (e, flush)
        (record {
          texts_kept = simp (texts-append, append-nil);
          sources_kept = simp (sources-append, append-nil);
          nothing_open = refl;
          no_source = refl;
          closed = All-append _ w.out _ g.closed ((refl, inl g.open_bound), tt);
        })
]

render_cons : (m : Message) → (s : Text) × (render m ≡ b'[' ∷ s)
unfolding render
render_cons m = (_, refl)

-- What one message does to the loop's variables.
record Takes (target : ℕ) (w : Window) (m : Message) (v : Window) : Type 0 where
  texts_grow : taken v ≡ taken w ++ render m
  sources_grow : taken_from v ≡ taken_from w ++ m.uuid ∷ []
  good : Good target v

taken-alone :
    (w : Window) (m : Message) → w.buf ≡ [] → taken (alone w m (render m)) ≡ taken w ++ render m
unfolding alone
taken-alone w m e = simp (e, texts-append, append-nil)

taken_from-alone :
    (w : Window) (m : Message)
    → w.uuids ≡ []
    → taken_from (alone w m (render m)) ≡ taken_from w ++ m.uuid ∷ []
unfolding alone
taken_from-alone w m e = simp (e, sources-append, append-nil)

alone-Takes :
    (target : ℕ) (w v : Window) (m : Message)
    → Flushed target w v
    → Takes target w m (alone v m (render m))
unfolding alone
alone-Takes target w v m f = record {
  texts_grow = taken-alone v m f.nothing_open ∙ ap (λ t. t ++ render m) f.texts_kept;
  sources_grow = taken_from-alone v m f.no_source ∙ ap (λ t. t ++ m.uuid ∷ []) f.sources_kept;
  good = record {
    paired = λ _. f.no_source;
    open_bound = rw f.nothing_open (omega arith);
    closed = All-append _ v.out _ f.closed ((refl, inr refl), tt);
  };
}

append-Takes :
    (target : ℕ) (w v : Window) (m : Message)
    → taken v ≡ taken w
    → taken_from v ≡ taken_from w
    → All (IsBounded target) v.out
    → size v.buf + size (render m) ≤ target
    → Takes target w m (append v m (render m))
unfolding append
append-Takes target w v m texts_kept sources_kept closed fits = record {
  texts_grow = simp (← append_assoc, texts_kept);
  sources_grow = simp (← append_assoc, sources_kept);
  good = record {
    paired = λ e. absurd (render_in_buf e);
    open_bound = rw (size-append v.buf (render m)) fits;
    closed = closed;
  };
}
  where
    render_in_buf : ¬ (v.buf ++ render m ≡ [])
    render_in_buf e =
        let (s, r) = render_cons m in
        omega (arith, ap size e, size-append v.buf (render m), ap size r, rune_len_pos b'[')

chunk_step-Takes :
    (target : ℕ) (w : Window) (m : Message)
    → Good target w
    → Takes target w m (chunk_step target w m)
unfolding chunk_step
chunk_step-Takes target w m g = elim (Bool-cases (leb target (size (render m)))) [
  | inl large ↦ rw (large, chunk_step) (alone-Takes target w (flush w) m f)
  | inr small ↦
      elim (Bool-cases (ltb target (size w.buf + size (render m)) && ltb 0 (size w.buf))) [
        | inl full ↦
            rw (small, chunk_step)
              (rw full (
                append-Takes target w (flush w) m f.texts_kept f.sources_kept f.closed
                  (rw f.nothing_open (ground arith))))
        | inr fits ↦
            rw (small, chunk_step)
              (rw fits (append-Takes target w w m refl refl g.closed (ground arith)))
      ]
]
  where
    f : Flushed target w (flush w)
    f = flush-Flushed target w g

record Loops (target : ℕ) (w : Window) (ms : List Message) (v : Window) : Type 0 where
  texts_all : taken v ≡ taken w ++ rendered ms
  sources_all : taken_from v ≡ taken_from w ++ map (λ m. m.uuid) ms
  good : Good target v

chunk_loop-Loops :
    (target : ℕ) (w : Window) (ms : List Message)
    → Good target w
    → Loops target w ms (chunk_loop target w ms)
unfolding chunk_loop
chunk_loop-Loops target w [] g = record {
  texts_all = sym (append-nil _);
  sources_all = sym (append-nil _);
  good = g;
}
chunk_loop-Loops target w (m ∷ ms) g =
    let step = chunk_step-Takes target w m g in
    let rest = chunk_loop-Loops target (chunk_step target w m) ms step.good in
    record {
      texts_all = rest.texts_all ∙ simp (step.texts_grow, append_assoc);
      sources_all = rest.sources_all ∙ simp (step.sources_grow, append_assoc);
      good = rest.good;
    }

start : (target : ℕ) → Good (target_or_default target) no_window
start target = record { paired = λ _. refl; open_bound = omega arith; closed = tt }

chunk_messages-Flushed :
    (msgs : List Message) (target : ℕ)
    → Flushed
        (target_or_default target)
        (chunk_loop (target_or_default target) no_window msgs)
        (flush (chunk_loop (target_or_default target) no_window msgs))
chunk_messages-Flushed msgs target =
    flush-Flushed _ _
      (chunk_loop-Loops (target_or_default target) no_window msgs (start target)).good

-- Laid end to end, the chunks are the renderings of all the messages in their order, and the chunks'
-- UUID lists are the messages' UUIDs in their order: no message is dropped, doubled or moved.
pub chunk_messages_complete :
    (msgs : List Message) (target : ℕ)
    → (texts (chunk_messages msgs target) ≡ rendered msgs)
      × (sources (chunk_messages msgs target) ≡ map (λ m. m.uuid) msgs)
unfolding chunk_messages
chunk_messages_complete msgs target =
    let f = chunk_messages-Flushed msgs target in
    let l = chunk_loop-Loops (target_or_default target) no_window msgs (start target) in
    (
      sym (append-nil _)
          ∙ sym (ap (λ t. texts (flush w).out ++ t) f.nothing_open)
          ∙ f.texts_kept
          ∙ l.texts_all,
      sym (append-nil _)
          ∙ sym (ap (λ t. sources (flush w).out ++ t) f.no_source)
          ∙ f.sources_kept
          ∙ l.sources_all,
    )
  where
    w : Window
    w = chunk_loop (target_or_default target) no_window msgs

-- Each chunk records the length of its own text, and is either no longer than the target (5000 where
-- the target given is 0) or made of a single message.
pub chunk_messages-IsBounded :
    (msgs : List Message) (target : ℕ)
    → All (IsBounded (target_or_default target)) (chunk_messages msgs target)
unfolding chunk_messages
chunk_messages-IsBounded msgs target = (chunk_messages-Flushed msgs target).closed
