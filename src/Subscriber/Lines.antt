-- ===== src/Subscriber/Lines.antt =====
-- cmd/subscriber-dev/main.go: the ids and the lines after some reads.
use crypto_divergence_engine.Prelude.{
  ◌≡◌, refl, sym, ap, ◌∙◌, true, false, Option, List, [], ◌∷◌, ◌++◌, append_assoc, append-nil,
  if◌then◌else◌, Bool-cases, inl, inr,
}
use crypto_divergence_engine.Go.Text.{Str, str_eq, str_eq_iff}
use crypto_divergence_engine.Tick.{Tick}
use crypto_divergence_engine.Alert.{Alert}
use crypto_divergence_engine.Worker.{Message}
use crypto_divergence_engine.Dashboard.Reader.{Stream, Reply, cancelled, timeout, failed, streams}
use crypto_divergence_engine.Bus.{stream_ticks, stream_alerts_clean}
use crypto_divergence_engine.Subscriber.{
  Line, Terminal, print_tick, print_alert, take_message, take_messages, take_batch, listen,
}

-- the messages that are read before the context is done, each with its stream
abbrev pub labelled : Str → List Message → List (Str × Message)
labelled stream [] = []
labelled stream (msg ∷ msgs) = (stream, msg) ∷ labelled stream msgs

abbrev pub of_batch : List Stream → List (Str × Message)
of_batch [] = []
of_batch (s ∷ rest) = labelled s.stream s.messages ++ of_batch rest

abbrev pub read_before_end : List Reply → List (Str × Message)
read_before_end [] = []
read_before_end (cancelled ∷ replies) = []
read_before_end (timeout ∷ replies) = read_before_end replies
read_before_end (failed ∷ replies) = read_before_end replies
read_before_end (streams batch ∷ replies) = of_batch batch ++ read_before_end replies

-- the id of the last message of a stream, or the id before
abbrev pub last_id : Str → Str → List (Str × Message) → Str
last_id name id [] = id
last_id name id ((stream, msg) ∷ msgs) =
    last_id name (if str_eq stream name then msg.id else id) msgs

last_id-append :
    (name id : Str) (ms ns : List (Str × Message))
    → last_id name id (ms ++ ns) ≡ last_id name (last_id name id ms) ns
last_id-append name id [] ns = refl
last_id-append name id ((stream, msg) ∷ ms) ns =
    last_id-append name (if str_eq stream name then msg.id else id) ms ns

not_alerts :
    (stream : Str) → str_eq stream stream_ticks ≡ true → str_eq stream stream_alerts_clean ≡ false
unfolding str_eq
not_alerts stream h = ap (λ s. str_eq s stream_alerts_clean) ((str_eq_iff stream stream_ticks).0 h)

module _ {F : Type 0} (parse_tick : Str → Option (Tick F))
    (parse_alert : Str → Option (Alert F)) where
  abbrev pub line_of : Str × Message → List (Line F)
  line_of (stream, msg) =
      if str_eq stream stream_ticks
      then print_tick parse_tick parse_alert msg
      else if str_eq stream stream_alerts_clean
      then print_alert parse_tick parse_alert msg
      else []

  abbrev pub lines_of : List (Str × Message) → List (Line F)
  lines_of [] = []
  lines_of (m ∷ msgs) = line_of m ++ lines_of msgs

  -- r' is r after the messages.
  abbrev pub HasRead : Terminal F → List (Str × Message) → Terminal F → Type 0
  HasRead r msgs r' =
      (r'.ticks_id ≡ last_id stream_ticks r.ticks_id msgs)
      × (r'.alerts_id ≡ last_id stream_alerts_clean r.alerts_id msgs)
      × (r'.lines ≡ r.lines ++ lines_of msgs)

  take_message-HasRead :
      (stream : Str) (msg : Message) (r : Terminal F)
      → HasRead r ((stream, msg) ∷ []) (take_message parse_tick parse_alert stream msg r)
  unfolding take_message
  take_message-HasRead stream msg r = elim (Bool-cases (str_eq stream stream_ticks)) [
    | inl t ↦
        rw (t, not_alerts stream t)
          (
            refl,
            refl,
            ap (λ l. r.lines ++ l) (sym (append-nil (print_tick parse_tick parse_alert msg))),
          )
    | inr other ↦ elim (Bool-cases (str_eq stream stream_alerts_clean)) [
      | inl a ↦
          rw (other, a)
            (
              refl,
              refl,
              ap (λ l. r.lines ++ l) (sym (append-nil (print_alert parse_tick parse_alert msg))),
            )
      | inr neither ↦ rw (other, neither) (refl, refl, sym (append-nil r.lines))
    ]
  ]

  lines_of-append :
      (ms ns : List (Str × Message)) → lines_of (ms ++ ns) ≡ lines_of ms ++ lines_of ns
  lines_of-append [] ns = refl
  lines_of-append (m ∷ ms) ns =
      ap (λ l. line_of m ++ l) (lines_of-append ms ns)
      ∙ sym (append_assoc (line_of m) (lines_of ms) (lines_of ns))

  HasRead-append :
      (r r' r'' : Terminal F) (ms ns : List (Str × Message))
      → HasRead r ms r'
      → HasRead r' ns r''
      → HasRead r (ms ++ ns) r''
  HasRead-append r r' r'' ms ns (t, a, l) (t', a', l') = (
    t'
        ∙ ap (λ id. last_id stream_ticks id ns) t
        ∙ sym (last_id-append stream_ticks r.ticks_id ms ns),
    a'
        ∙ ap (λ id. last_id stream_alerts_clean id ns) a
        ∙ sym (last_id-append stream_alerts_clean r.alerts_id ms ns),
    l'
        ∙ ap (λ ls. ls ++ lines_of ns) l
        ∙ append_assoc r.lines (lines_of ms) (lines_of ns)
        ∙ ap (λ ls. r.lines ++ ls) (sym (lines_of-append ms ns)),
  )

  take_messages-HasRead :
      (stream : Str) (msgs : List Message) (r : Terminal F)
      → HasRead r (labelled stream msgs) (take_messages parse_tick parse_alert stream msgs r)
  unfolding take_messages
  take_messages-HasRead stream [] r = (refl, refl, sym (append-nil r.lines))
  take_messages-HasRead stream (msg ∷ msgs) r =
      HasRead-append r (take_message parse_tick parse_alert stream msg r) _ ((stream, msg) ∷ [])
        (labelled stream msgs) (take_message-HasRead stream msg r)
        (take_messages-HasRead stream msgs (take_message parse_tick parse_alert stream msg r))

  take_batch-HasRead :
      (batch : List Stream) (r : Terminal F)
      → HasRead r (of_batch batch) (take_batch parse_tick parse_alert batch r)
  unfolding take_batch
  take_batch-HasRead [] r = (refl, refl, sym (append-nil r.lines))
  take_batch-HasRead (s ∷ rest) r =
      let next = take_messages parse_tick parse_alert s.stream s.messages r in
      HasRead-append r next _ (labelled s.stream s.messages) (of_batch rest)
        (take_messages-HasRead s.stream s.messages r) (take_batch-HasRead rest next)

  -- After any reads the ids are those of the last messages of the two streams, readable or not, and a line
  -- has been printed for each message that can be read, in order.
  listen-HasRead :
      (replies : List Reply) (r : Terminal F)
      → HasRead r (read_before_end replies) (listen parse_tick parse_alert replies r)
  unfolding listen
  listen-HasRead [] r = (refl, refl, sym (append-nil r.lines))
  listen-HasRead (cancelled ∷ replies) r = (refl, refl, sym (append-nil r.lines))
  listen-HasRead (timeout ∷ replies) r = listen-HasRead replies r
  listen-HasRead (failed ∷ replies) r = listen-HasRead replies r
  listen-HasRead (streams batch ∷ replies) r =
      let next = take_batch parse_tick parse_alert batch r in
      HasRead-append r next _ (of_batch batch) (read_before_end replies)
        (take_batch-HasRead batch r) (listen-HasRead replies next)
