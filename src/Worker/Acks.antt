-- ===== src/Worker/Acks.antt =====
-- cmd/detector: the acknowledgements, the detectors' ticks and the alerts of a run.
use crypto_divergence_engine.Prelude.{
  ◌≡◌, refl, ap, ap₂, ◌∙◌, sym, Option, none, some, List, [], ◌∷◌, ◌++◌, map, append_assoc,
  append-nil, arith, Option-cases, inl, inr,
}
use crypto_divergence_engine.Go.Text.{Str}
use crypto_divergence_engine.Tick.{Tick}
use crypto_divergence_engine.Alert.{Alert}
use crypto_divergence_engine.Detectors.Registry.{Registry, on_tick}
use crypto_divergence_engine.Detectors.Registry.Run.{run, run-append}
use crypto_divergence_engine.Worker.{
  Message, Reply, cancelled, timeout, failed, streams, Effect, publish, ack, published, process,
  process_all, process_streams, main_loop,
}

module _ {F : Type 0} where
  -- the acknowledgements and the alerts among the effects
  abbrev pub acks : List (Effect F) → List Str
  acks [] = []
  acks (publish a ∷ es) = acks es
  acks (ack i ∷ es) = i ∷ acks es

  abbrev pub alerts : List (Effect F) → List (Alert F)
  alerts [] = []
  alerts (publish a ∷ es) = a ∷ alerts es
  alerts (ack i ∷ es) = alerts es

  acks-append : (xs ys : List (Effect F)) → acks (xs ++ ys) ≡ acks xs ++ acks ys
  acks-append [] ys = refl
  acks-append (publish a ∷ xs) ys = acks-append xs ys
  acks-append (ack i ∷ xs) ys = ap (λ l. i ∷ l) (acks-append xs ys)

  alerts-append : (xs ys : List (Effect F)) → alerts (xs ++ ys) ≡ alerts xs ++ alerts ys
  alerts-append [] ys = refl
  alerts-append (publish a ∷ xs) ys = ap (λ l. a ∷ l) (alerts-append xs ys)
  alerts-append (ack i ∷ xs) ys = alerts-append xs ys

  published_lem :
      (as' : List (Alert F)) (i : Str)
      → (acks (published as' ++ ack i ∷ []) ≡ i ∷ []) × (alerts (published as' ++ ack i ∷ []) ≡ as')
  published_lem [] i = (refl, refl)
  published_lem (a ∷ rest) i = let (h, k) = published_lem rest i in (h, ap (λ l. a ∷ l) k)

abbrev pub flat : List (List Message) → List Message
flat [] = []
flat (msgs ∷ rest) = msgs ++ flat rest

-- the messages that the loop receives before the context is done
abbrev pub received : List Reply → List Message
received [] = []
received (cancelled ∷ replies) = []
received (timeout ∷ replies) = received replies
received (failed ∷ replies) = received replies
received (streams batch ∷ replies) = flat batch ++ received replies

abbrev pub ids : List Message → List Str
ids = map (λ m. m.id)

module _ {F : Type 0} (parse : Str → Option (Tick F)) where
  -- the tick of a message, if it can be read
  abbrev pub tick_of : Message → List (Tick F)
  tick_of m = elim m.payload [
    | none ↦ []
    | some text ↦ elim (parse text) [ none ↦ [] | some t ↦ t ∷ [] ]
  ]

  abbrev pub ticks_in : List Message → List (Tick F)
  ticks_in [] = []
  ticks_in (m ∷ msgs) = tick_of m ++ ticks_in msgs

  ticks_in-append : (xs ys : List Message) → ticks_in (xs ++ ys) ≡ ticks_in xs ++ ticks_in ys
  ticks_in-append [] ys = refl
  ticks_in-append (m ∷ xs) ys =
      ap (λ l. tick_of m ++ l) (ticks_in-append xs ys)
      ∙ sym (append_assoc (tick_of m) (ticks_in xs) (ticks_in ys))

  ids-append : (xs ys : List Message) → ids (xs ++ ys) ≡ ids xs ++ ids ys
  ids-append [] ys = refl
  ids-append (m ∷ xs) ys = ap (λ l. m.id ∷ l) (ids-append xs ys)

  -- What handling the messages does: the registry runs on their ticks, the alerts of that run are
  -- published in order, and the messages are acknowledged, each once and in order.
  pub record Handles (msgs : List Message) (reg : Registry F) (r : Registry F × List (Effect F))
      : Type 1 where
    pub state : r.0 ≡ (run (ticks_in msgs) reg).0
    pub raised : alerts r.1 ≡ (run (ticks_in msgs) reg).1
    pub acked : acks r.1 ≡ ids msgs

  Handles-nothing : (reg : Registry F) → Handles [] reg (reg, [])
  Handles-nothing reg = unfold run in record { state = refl; raised = refl; acked = refl }

  Handles-append :
      (xs ys : List Message) (reg : Registry F) (r q : Registry F × List (Effect F))
      → Handles xs reg r
      → Handles ys r.0 q
      → Handles (xs ++ ys) reg (q.0, r.1 ++ q.1)
  Handles-append xs ys reg r q h k =
      let (states, raised) = run-append (ticks_in xs) (ticks_in ys) reg in
      let e = ticks_in-append xs ys in
      record {
        state =
            k.state
            ∙ ap (λ s. (run (ticks_in ys) s).0) h.state
            ∙ sym states
            ∙ ap (λ ts. (run ts reg).0) (sym e);
        raised =
            alerts-append r.1 q.1
            ∙ ap₂ ◌++◌ h.raised (k.raised ∙ ap (λ s. (run (ticks_in ys) s).1) h.state)
            ∙ sym raised
            ∙ ap (λ ts. (run ts reg).1) (sym e);
        acked = acks-append r.1 q.1 ∙ ap₂ ◌++◌ h.acked k.acked ∙ sym (ids-append xs ys);
      }

  process-Handles : (m : Message) (reg : Registry F) → Handles (m ∷ []) reg (process parse m reg)
  unfolding process run
  process-Handles m reg = elim (Option-cases m.payload) [
    | inl e ↦ record { state = ground arith; raised = ground arith; acked = ground arith }
    | inr (text, e) ↦ elim (Option-cases (parse text)) [
      | inl f ↦ record { state = ground arith; raised = ground arith; acked = ground arith }
      | inr (t, f) ↦
          let next = on_tick t reg in
          let (acked, raised) = published_lem next.1 m.id in
          record {
            state = ground (arith);
            raised = ground (arith, raised, append-nil next.1);
            acked = ground (arith, acked);
          }
    ]
  ]

  process_all-Handles :
      (msgs : List Message) (reg : Registry F) → Handles msgs reg (process_all parse msgs reg)
  unfolding process_all
  process_all-Handles [] reg = Handles-nothing reg
  process_all-Handles (m ∷ msgs) reg =
      Handles-append (m ∷ []) msgs reg (process parse m reg)
        (process_all parse msgs (process parse m reg).0) (process-Handles m reg)
        (process_all-Handles msgs (process parse m reg).0)

  process_streams-Handles :
      (batch : List (List Message)) (reg : Registry F)
      → Handles (flat batch) reg (process_streams parse batch reg)
  unfolding process_streams
  process_streams-Handles [] reg = Handles-nothing reg
  process_streams-Handles (msgs ∷ rest) reg =
      Handles-append msgs (flat rest) reg (process_all parse msgs reg)
        (process_streams parse rest (process_all parse msgs reg).0) (process_all-Handles msgs reg)
        (process_streams-Handles rest (process_all parse msgs reg).0)

  -- Whatever the worker's reads return, every message received before the context is done is
  -- acknowledged once and in order, readable or not; the registry runs on just the readable
  -- ticks, in order; and just the alerts of that run are published.
  pub main_loop-Handles :
      (replies : List Reply) (reg : Registry F)
      → Handles (received replies) reg (main_loop parse replies reg)
  unfolding main_loop
  main_loop-Handles [] reg = Handles-nothing reg
  main_loop-Handles (cancelled ∷ replies) reg = Handles-nothing reg
  main_loop-Handles (timeout ∷ replies) reg = main_loop-Handles replies reg
  main_loop-Handles (failed ∷ replies) reg = main_loop-Handles replies reg
  main_loop-Handles (streams batch ∷ replies) reg =
      Handles-append (flat batch) (received replies) reg (process_streams parse batch reg)
        (main_loop parse replies (process_streams parse batch reg).0)
        (process_streams-Handles batch reg)
        (main_loop-Handles replies (process_streams parse batch reg).0)
