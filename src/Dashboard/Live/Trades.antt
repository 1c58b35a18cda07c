-- ===== src/Dashboard/Live/Trades.antt =====
-- cmd/dashboard/livestrategy.go: a session's position and its trades over a run of signals.
use crypto_divergence_engine.Prelude.{
  ℕ, suc, ◌≡◌, refl, sym, ap, ◌∙◌, Bool, true, false, List, [], ◌∷◌, ◌++◌, map, append_assoc,
  append-nil, if◌then◌else◌, length, length-append, arith, Bool-cases, inl, inr,
}
use mathlib.Core.Path.{subst}
use crypto_divergence_engine.Go.Text.{Str, bytes, str_eq}
use crypto_divergence_engine.Go.Time.{Time}
use crypto_divergence_engine.Go.Float.{Float}
use crypto_divergence_engine.Dashboard.Live.{
  LiveSession, TradeRecord, apply_signal, record_point, trade, buy, sell, new_session,
}

-- A call of apply_signal, with the two readings of the clock.
pub record Signal (F : Type 0) : Type 0 where
  pub signal : Str
  pub price : F
  pub now : Time
  pub entered : Time

-- The trades that signals call for, from the position long or flat: each signal that turns the
-- position.
abbrev pub turns : Bool → List Str → List Str
turns long [] = []
turns true (x ∷ xs) =
    let sold = turns false xs in
    let kept = turns true xs in if str_eq x (bytes "sell") then bytes "sell" ∷ sold else kept
turns false (x ∷ xs) =
    let bought = turns true xs in
    let kept = turns false xs in if str_eq x (bytes "buy") then bytes "buy" ∷ bought else kept

module _ {F : Type 0} ⦃fl : Float F⦄ where
  unfoldable pub run : List (Signal F) → LiveSession F → LiveSession F
  run [] s = s
  run (e ∷ es) s = run es (apply_signal e.signal e.price e.now e.entered s)

  abbrev pub kinds : LiveSession F → List Str
  kinds s = map (λ r. r.kind) s.trade_history

  -- Long with no cash, or flat with no shares; the counter counts the trades.
  abbrev pub IsValid : Bool → LiveSession F → Type 0
  IsValid true s =
      (s.position ≡ bytes "long") × (s.cash ≡ fl.of_nat 0) × (s.trades ≡ length s.trade_history)
  IsValid false s =
      (s.position ≡ bytes "flat") × (s.shares ≡ fl.of_nat 0) × (s.trades ≡ length s.trade_history)

  kinds-snoc :
      (l : List (TradeRecord F)) (r : TradeRecord F)
      → map (λ q. q.kind) (l ++ r ∷ []) ≡ map (λ q. q.kind) l ++ r.kind ∷ []
  kinds-snoc [] r = refl
  kinds-snoc (q ∷ l) r = ap (λ m. q.kind ∷ m) (kinds-snoc l r)

  kinds-traded :
      (l : List (TradeRecord F)) (r : TradeRecord F) (ks : List Str)
      → map (λ q. q.kind) (l ++ r ∷ []) ++ ks ≡ map (λ q. q.kind) l ++ r.kind ∷ ks
  kinds-traded l r ks =
      ap (λ m. m ++ ks) (kinds-snoc l r) ∙ append_assoc (map (λ q. q.kind) l) (r.kind ∷ []) ks

  trade-long :
      (signal : Str) (price : F) (now entered : Time) (s : LiveSession F)
      → s.position ≡ bytes "long"
      → trade signal price now entered s
        ≡ (if str_eq signal (bytes "sell") then sell price now s else s)
  unfolding trade str_eq
  trade-long signal price now entered s pos =
      let long : str_eq s.position (bytes "long") ≡ true = rw pos refl in
      let flat : str_eq s.position (bytes "flat") ≡ false = rw pos refl in
      rw (long, flat) (ground arith)

  trade-flat :
      (signal : Str) (price : F) (now entered : Time) (s : LiveSession F)
      → s.position ≡ bytes "flat"
      → trade signal price now entered s
        ≡ (if str_eq signal (bytes "buy") then buy price now entered s else s)
  unfolding trade str_eq
  trade-flat signal price now entered s pos =
      let long : str_eq s.position (bytes "long") ≡ false = rw pos refl in
      let flat : str_eq s.position (bytes "flat") ≡ true = rw pos refl in
      rw (long, flat) (ground arith)

  -- What the signal does to a session: the position and the trades afterwards.
  abbrev pub Turned : Bool → Str → LiveSession F → LiveSession F → Type 0
  Turned long x s s' =
      (long' : Bool) × IsValid long' s'
      × ((xs : List Str) → kinds s' ++ turns long' xs ≡ kinds s ++ turns long (x ∷ xs))

  one_more :
      (l : List (TradeRecord F)) (r : TradeRecord F) (n : ℕ)
      → n ≡ length l
      → suc n ≡ length (l ++ r ∷ [])
  one_more l r n h = omega (arith, length-append l (r ∷ []), h)

  sell-Turned :
      (x : Str) (price : F) (now : Time) (s : LiveSession F)
      → IsValid true s
      → str_eq x (bytes "sell") ≡ true
      → Turned true x s (record_point now (sell price now s))
  unfolding record_point sell
  sell-Turned x price now s (pos, money, count) sells = (
    false,
    (refl, refl, one_more s.trade_history _ s.trades count),
    λ xs. rw sells (kinds-traded s.trade_history _ (turns false xs)),
  )

  buy-Turned :
      (x : Str) (price : F) (now entered : Time) (s : LiveSession F)
      → IsValid false s
      → str_eq x (bytes "buy") ≡ true
      → Turned false x s (record_point now (buy price now entered s))
  unfolding record_point buy
  buy-Turned x price now entered s (pos, money, count) buys = (
    true,
    (refl, refl, one_more s.trade_history _ s.trades count),
    λ xs. rw buys (kinds-traded s.trade_history _ (turns true xs)),
  )

  pub step_lem :
      (long : Bool) (e : Signal F) (s : LiveSession F)
      → IsValid long s
      → Turned long e.signal s (apply_signal e.signal e.price e.now e.entered s)
  unfolding apply_signal record_point
  step_lem true e s (pos, money, count) =
      let s0 : LiveSession F = record s { current_price = e.price; signal = e.signal } in
      let t = trade-long e.signal e.price e.now e.entered s0 pos in
      elim (Bool-cases (str_eq e.signal (bytes "sell"))) [
        | inl sells ↦
            subst (λ u. Turned true e.signal s (record_point e.now u))
              (sym (t ∙ ap (λ b. if b then sell e.price e.now s0 else s0) sells))
              (sell-Turned e.signal e.price e.now s0 (pos, money, count) sells)
        | inr keeps ↦
            subst (λ u. Turned true e.signal s (record_point e.now u))
              (sym (t ∙ ap (λ b. if b then sell e.price e.now s0 else s0) keeps))
              (true, (pos, money, count), λ xs. rw keeps)
      ]
  step_lem false e s (pos, money, count) =
      let s0 : LiveSession F = record s { current_price = e.price; signal = e.signal } in
      let t = trade-flat e.signal e.price e.now e.entered s0 pos in
      elim (Bool-cases (str_eq e.signal (bytes "buy"))) [
        | inl buys ↦
            subst (λ u. Turned false e.signal s (record_point e.now u))
              (sym (t ∙ ap (λ b. if b then buy e.price e.now e.entered s0 else s0) buys))
              (buy-Turned e.signal e.price e.now e.entered s0 (pos, money, count) buys)
        | inr keeps ↦
            subst (λ u. Turned false e.signal s (record_point e.now u))
              (sym (t ∙ ap (λ b. if b then buy e.price e.now e.entered s0 else s0) keeps))
              (false, (pos, money, count), λ xs. rw keeps)
      ]

  run-Turned :
      (es : List (Signal F)) (long : Bool) (s : LiveSession F)
      → IsValid long s
      → (long' : Bool) × IsValid long' (run es s)
        × (kinds (run es s) ≡ kinds s ++ turns long (map (λ e. e.signal) es))
  unfolding run
  run-Turned [] long s h = (long, h, sym (append-nil (kinds s)))
  run-Turned (e ∷ es) long s h =
      let (long1, h1, turned) = step_lem long e s h in
      let (long', h', whole) =
        run-Turned es long1 (apply_signal e.signal e.price e.now e.entered s) h1 in
      (long', h', whole ∙ turned (map (λ q. q.signal) es))

  -- A session that has just started, after any signals at any prices and times, has traded a buy
  -- for the first buy signal, a sell for the first sell signal after it, and so on, and nothing
  -- else; it is flat without shares or long without cash, and its counter counts the trades.
  pub trades_alternate :
      (id symbol strategy interval code : Str) (start : Time) (es : List (Signal F))
      → let s = run es (new_session id symbol strategy interval code start) in
        (kinds s ≡ turns false (map (λ e. e.signal) es)) × ((long : Bool) × IsValid long s)
  unfolding new_session
  trades_alternate id symbol strategy interval code start es =
      let (long, h, whole) =
        run-Turned es false (new_session id symbol strategy interval code start)
          (refl, refl, refl) in
      (whole, (long, h))
