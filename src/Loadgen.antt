-- ===== src/Loadgen.antt =====
-- bench/loadgen/main.go: the loop of main and the lines that it prints. What a select takes is an event:
-- a tick of the ticker has the random choices and the outcome of Publish, a report has what XInfoGroups
-- returns and the clock. A printed line is its values: its layout is fmt's.
pub mod Totals
use crypto_divergence_engine.Prelude.{
  ℕ, zero, suc, ◌+◌, Bool, true, false, not, ◌||◌, Option, none, some, List, [], ◌∷◌, ◌++◌,
  if◌then◌else◌, ltb,
}
use crypto_divergence_engine.Prelude.Int.{ℤ, pos, ◌-ℤ◌, ltb_ℤ}
use crypto_divergence_engine.Go.Text.{Str, bytes, str_eq, format_int}
use crypto_divergence_engine.Go.Time.{Time, unix_milli}
use crypto_divergence_engine.Go.Float.{Float}
use crypto_divergence_engine.Go.Map.{Map, lookup, insert}
use crypto_divergence_engine.Tick.{Tick}

-- a consumer group, as XInfoGroups gives it
pub record Group : Type 0 where
  pub name : Str
  pub entries_read : ℤ
  pub pending : ℤ
  pub last_delivered_id : Str

-- What Publish returns: no error, an error after the context is done, or another error.
pub data Published : Type 0 where
  sent cancelled failed : Published

-- the random choices of a tick, and the two readings of the clock
pub record Choice (F : Type 0) : Type 0 where
  pub symbol : Str
  pub walk : F
  pub volume : F
  pub side : Str
  pub timestamp : Time
  pub received_at : Time

pub data Event (F : Type 0) : Type 0 where
  stop : Event F
  deadline report : Option (List Group) → Time → Event F
  fire : Choice F → Published → Event F

pub data Line (F : Type 0) : Type 0 where
  report_line : (sec pub_s : ℕ) → (consumed_s pending : ℤ) → (lag_ms : F) → Line F
  total_line : (pub_total : ℕ) → (consumed : ℤ) → (secs : ℕ) → Line F
  average_line : (pub_s consumed_s : F) → Line F

pub record Loadgen (F : Type 0) : Type 0 where
  pub total_pub : ℕ
  pub total_consumed : ℤ
  pub last_consumed : ℤ
  pub pub_this_sec : ℕ
  pub sec : ℕ
  pub prices : Map F
  -- what has been printed and published
  pub lines : List (Line F)
  pub ticks : List (Tick F)

-- the delivered and pending messages, and the lag
pub record GroupInfo (F : Type 0) : Type 0 where
  pub delivered : ℤ
  pub waiting : ℤ
  pub lag_ms : F

-- the variables of main before its loop
unfoldable pub new_loadgen : {F : Type 0} → ⦃fl : Float F⦄ → Loadgen F
new_loadgen ⦃fl⦄ = record {
  total_pub = 0;
  total_consumed = pos 0;
  last_consumed = pos 0;
  pub_this_sec = 0;
  sec = 0;
  prices =
      (bytes "BTC-USDT", fl.of_nat 65_000)
      ∷ (bytes "ETH-USDT", fl.of_nat 3_200)
      ∷ (bytes "SOL-USDT", fl.of_nat 170)
      ∷ [];
  lines = [];
  ticks = [];
}

module _ {F : Type 0} ⦃fl : Float F⦄ (of_int : ℤ → F) (scan_millis : Str → ℤ) where
  -- the lag of a last-delivered id; `scan_millis` is Sscanf with "%d-", 0 where it reads nothing
  unfoldable pub lag_of : Str → Time → F
  lag_of id now =
      let ms = scan_millis id in
      if str_eq id [] || str_eq id (bytes "0-0")
      then fl.of_nat 0
      else if ltb_ℤ (pos 0) ms
      then of_int (unix_milli now -ℤ ms)
      else fl.of_nat 0

  unfoldable pub find_group : List Group → Str → Time → GroupInfo F
  find_group [] group now = record { delivered = pos 0; waiting = pos 0; lag_ms = fl.of_nat 0 }
  find_group (g ∷ gs) group now =
      let rest = find_group gs group now in
      if str_eq g.name group
      then record {
        delivered = g.entries_read;
        waiting = g.pending;
        lag_ms = lag_of g.last_delivered_id now;
      }
      else rest

  unfoldable pub query_group : Option (List Group) → Str → Time → GroupInfo F
  query_group none group now = record { delivered = pos 0; waiting = pos 0; lag_ms = fl.of_nat 0 }
  query_group (some gs) group now = find_group gs group now

  unfoldable pub summary : Loadgen F → List (Line F)
  summary s =
      let total : Line F = total_line s.total_pub s.total_consumed s.sec in
      if ltb 0 s.sec
      then total
        ∷ average_line (fl.div (fl.of_nat s.total_pub) (fl.of_nat s.sec))
            (fl.div (of_int s.total_consumed) (fl.of_nat s.sec))
        ∷ []
      else total ∷ []

  unfoldable pub print_summary : Loadgen F → Loadgen F
  print_summary s = record s { lines = s.lines ++ summary s }

  module _ (group : Str) where
    -- what the cases of the deadline and of a report share
    unfoldable pub print_report : Option (List Group) → Time → Loadgen F → Loadgen F
    print_report groups now s =
        let info = query_group groups group now in
        record s {
          sec = s.sec + 1;
          last_consumed = info.delivered;
          total_consumed = info.delivered;
          lines =
              s.lines
              ++ report_line (s.sec + 1) s.pub_this_sec (info.delivered -ℤ s.last_consumed)
                  info.waiting info.lag_ms
                ∷ [];
        }

    unfoldable pub next_price : Choice F → Loadgen F → F
    next_price c s = elim (lookup c.symbol s.prices) [
      | none ↦ fl.mul (fl.of_nat 0) (walk_factor c.walk)
      | some p ↦ fl.mul p (walk_factor c.walk)
    ]
      where
        -- 1 + (rand.Float64()-0.5)*0.0002
        walk_factor : F → F
        walk_factor x = fl.add (fl.of_nat 1) (fl.mul (fl.sub x (fl.decimal 5 1)) (fl.decimal 2 4))

    -- the tick is built and published, with the price stored first
    unfoldable pub publish_tick : Choice F → Published → Loadgen F → Loadgen F
    publish_tick c outcome s =
        let price = next_price c s in
        let s' : Loadgen F = record s { prices = insert c.symbol price s.prices } in
        let t : Tick F = record {
          symbol = c.symbol;
          exchange = bytes "binance";
          price = price;
          volume = fl.mul c.volume (fl.of_nat 2);
          side = c.side;
          trade_id = bytes "bench-" ++ format_int (pos s.total_pub);
          timestamp = c.timestamp;
          received_at = c.received_at;
        } in
        elim outcome [
          | sent ↦ record s' {
            total_pub = s.total_pub + 1;
            pub_this_sec = s.pub_this_sec + 1;
            ticks = s.ticks ++ t ∷ [];
          }
          | cancelled ↦ s'
          | failed ↦ s'
        ]

    -- the loop over the events, until a case returns
    unfoldable pub run : List (Event F) → Loadgen F → Loadgen F
    run [] s = s
    run (stop ∷ es) s = print_summary s
    run (deadline groups now ∷ es) s = print_summary (print_report groups now s)
    run (report groups now ∷ es) s =
        run es (record (print_report groups now s) { pub_this_sec = 0 })
    run (fire c sent ∷ es) s = run es (publish_tick c sent s)
    run (fire c cancelled ∷ es) s = publish_tick c cancelled s
    run (fire c failed ∷ es) s = run es (publish_tick c failed s)
