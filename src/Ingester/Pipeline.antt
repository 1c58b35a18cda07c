-- ===== src/Ingester/Pipeline.antt =====
-- internal/ingester and cmd/ingester-binance: the reader and the publisher on the two ends of the
-- channel, in any interleaving.
use crypto_divergence_engine.Prelude.{
  ◌≤◌, ◌≡◌, refl, sym, ap, ◌∙◌, Bool, true, false, List, [], ◌∷◌, ◌++◌, arith, length,
  if◌then◌else◌, append_assoc, append-nil,
}
use mathlib.Core.Path.{subst}
use crypto_divergence_engine.Go.Text.{Str, Unicode}
use crypto_divergence_engine.Go.Time.{Time}
use crypto_divergence_engine.Go.Channel.{Thins, done, offer, length-offer, Thins-offer}
use crypto_divergence_engine.Tick.{Tick}
use crypto_divergence_engine.Ingester.{
  BinanceTrade, Reader, receive, normalize_binance_trade, channel_size,
}

-- A message arrives at the clock's time, or the publisher takes a tick.
pub data Event : Type 0 where
  arrives : Str → Time → Event
  publishes : Event

module _ {F : Type 0} ⦃uni : Unicode⦄ (parse_float : Str → F)
    (unmarshal : Str → BinanceTrade → BinanceTrade × Bool) where
  -- for t := range ch: an empty channel makes the publisher wait
  unfoldable pub take_tick : Reader F → Reader F × List (Tick F)
  take_tick r = elim r.channel [ [] ↦ (r, []) | t ∷ rest ↦ (record r { channel = rest }, t ∷ []) ]

  -- The reader's state after the events, and what was published.
  unfoldable pub run : List Event → Reader F → Reader F × List (Tick F)
  run [] r = (r, [])
  run (arrives msg now ∷ es) r = run es (receive parse_float unmarshal msg now r)
  run (publishes ∷ es) r =
      let (r', out) = take_tick r in let (r'', later) = run es r' in (r'', out ++ later)

  -- The ticks of the well-formed messages, in order.
  abbrev pub normalized : BinanceTrade → List Event → List (Tick F)
  normalized env [] = []
  normalized env (publishes ∷ es) = normalized env es
  normalized env (arrives msg now ∷ es) =
      let (env', ok) = unmarshal msg env in
      let rest = normalized env' es in
      if ok then normalize_binance_trade parse_float env' now ∷ rest else rest

  abbrev sent_by : Bool → Tick F → List (Tick F)
  sent_by ok t = if ok then t ∷ [] else []

  sent_by-append :
      (ok : Bool) (t : Tick F) (l : List (Tick F)) → sent_by ok t ++ l ≡ (if ok then t ∷ l else l)
  sent_by-append true t l = refl
  sent_by-append false t l = refl

  offered-Thins :
      (ok : Bool) (t : Tick F) (taken channel sent : List (Tick F))
      → Thins (taken ++ channel) sent
      → length channel ≤ channel_size
      → let channel' = if ok then offer channel_size t channel else channel in
        Thins (taken ++ channel') (sent ++ sent_by ok t) × (length channel' ≤ channel_size)
  offered-Thins true t taken channel sent h le =
      (Thins-offer channel_size t taken channel sent h, length-offer channel_size t channel le)
  offered-Thins false t taken channel sent h le =
      (subst (Thins (taken ++ channel)) (sym (append-nil sent)) h, le)

  take_tick_lem :
      (r : Reader F)
      → ((take_tick r).1 ++ (take_tick r).0.channel ≡ r.channel)
        × ((take_tick r).0.envelope ≡ r.envelope)
        × (length (take_tick r).0.channel ≤ length r.channel)
  unfolding take_tick
  take_tick_lem r = ground arith

  -- What was published and what the channel holds, against what was sent to it before and by the
  -- events; and the channel's bound.
  run-Thins :
      (es : List Event) (r : Reader F) (taken sent : List (Tick F))
      → Thins (taken ++ r.channel) sent
      → length r.channel ≤ channel_size
      → let (r', out) = run es r in
        Thins (taken ++ (out ++ r'.channel)) (sent ++ normalized r.envelope es)
        × (length r'.channel ≤ channel_size)
  unfolding run receive
  run-Thins [] r taken sent h le =
      (subst (λ l. Thins (taken ++ r.channel) l) (sym (append-nil sent)) h, le)
  run-Thins (publishes ∷ es) r taken sent h le =
      let (r', out) = take_tick r in
      let (whole, env, shorter) = take_tick_lem r in
      let (ih, bound) =
        run-Thins es r' (taken ++ out) sent
          (subst (λ l. Thins l sent)
            (sym (append_assoc taken out r'.channel ∙ ap (λ l. taken ++ l) whole)) h)
          (omega (arith, shorter)) in
      let later = run es r' in
      (
        subst (λ l. Thins l (sent ++ normalized r.envelope es))
            (append_assoc taken out (later.1 ++ later.0.channel)
              ∙ ap (λ l. taken ++ l) (sym (append_assoc out later.1 later.0.channel)))
            (subst
              (λ e.
                Thins ((taken ++ out) ++ (later.1 ++ later.0.channel)) (sent ++ normalized e es))
              env ih),
        bound,
      )
  run-Thins (arrives msg now ∷ es) r taken sent h le =
      let env = (unmarshal msg r.envelope).0 in
      let ok = (unmarshal msg r.envelope).1 in
      let t = normalize_binance_trade parse_float env now in
      let (next, fits) = offered-Thins ok t taken r.channel sent h le in
      let (ih, bound) =
        run-Thins es (receive parse_float unmarshal msg now r) taken (sent ++ sent_by ok t) next
          fits in
      (
        subst (Thins _)
            (append_assoc sent (sent_by ok t) (normalized env es)
              ∙ ap (λ l. sent ++ l) (sent_by-append ok t (normalized env es)))
            ih,
        bound,
      )

  -- From an empty channel, in whatever order messages arrive and the publisher takes ticks, what
  -- has been published, followed by what still waits, is the ticks of the well-formed messages in
  -- order, with some left out; at most 1000 wait.
  pub run-keeps_order :
      (es : List Event) (env : BinanceTrade)
      → let (r, out) = run es (record { envelope = env; channel = [] }) in
        Thins (out ++ r.channel) (normalized env es) × (length r.channel ≤ channel_size)
  run-keeps_order es env =
      run-Thins es (record { envelope = env; channel = [] }) [] [] done (omega arith)
