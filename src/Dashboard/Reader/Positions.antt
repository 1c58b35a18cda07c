-- ===== src/Dashboard/Reader/Positions.antt =====
-- cmd/dashboard/main.go: what readStreams broadcasts, and where its reads go on.
use crypto_divergence_engine.Prelude.{
  ◌≡◌, refl, sym, ap, ◌∙◌, none, some, List, [], ◌∷◌, ◌++◌, if◌then◌else◌, arith, true, false,
}
use crypto_divergence_engine.Go.Text.{Str, bytes, str_eq, str_eq_iff}
use crypto_divergence_engine.Worker.{Message}
use crypto_divergence_engine.Dashboard.Hub.{Hub, broadcast}
use crypto_divergence_engine.Bus.{stream_ticks, stream_alerts_clean}
use crypto_divergence_engine.Dashboard.Reader.{
  Stream, Reply, cancelled, timeout, failed, streams, Reader, read_message, read_messages,
  read_batch, read_streams,
}

-- the messages that are read, each with the name of its stream
abbrev tagged : Str → List Message → List (Str × Message)
tagged stream [] = []
tagged stream (m ∷ msgs) = (stream, m) ∷ tagged stream msgs

abbrev in_batch : List Stream → List (Str × Message)
in_batch [] = []
in_batch (s ∷ rest) = tagged s.stream s.messages ++ in_batch rest

abbrev pub received : List Reply → List (Str × Message)
received [] = []
received (cancelled ∷ replies) = []
received (timeout ∷ replies) = received replies
received (failed ∷ replies) = received replies
received (streams batch ∷ replies) = in_batch batch ++ received replies

-- The event and the data that a message gives rise to.
abbrev pub announced : List (Str × Message) → List (Str × Str)
announced [] = []
announced ((stream, m) ∷ rest) =
    let later = announced rest in
    elim m.payload [
      | none ↦ later
      | some data_ ↦
          if str_eq stream stream_ticks
          then (bytes "tick", data_) ∷ later
          else if str_eq stream stream_alerts_clean
          then (bytes "alert", data_) ∷ later
          else later
    ]

-- The id of the stream's last message with data, or the one before.
abbrev pub last_readable : Str → List (Str × Message) → Str → Str
last_readable name [] id = id
last_readable name ((stream, m) ∷ rest) id =
    let skipped = last_readable name rest id in
    let moved = last_readable name rest m.id in
    elim m.payload [ none ↦ skipped | some data_ ↦ if str_eq stream name then moved else skipped ]

abbrev pub broadcast_all : List (Str × Str) → Hub → Hub
broadcast_all [] h = h
broadcast_all ((event, data_) ∷ rest) h = broadcast_all rest (broadcast event data_ h)

-- all messages one after another
abbrev read_all : List (Str × Message) → Reader → Reader
read_all [] r = r
read_all ((stream, m) ∷ rest) r = read_all rest (read_message stream m r)

read_all-append :
    (xs ys : List (Str × Message)) (r : Reader)
    → read_all (xs ++ ys) r ≡ read_all ys (read_all xs r)
read_all-append [] ys r = refl
read_all-append ((stream, m) ∷ xs) ys r = read_all-append xs ys (read_message stream m r)

read_messages-eq :
    (stream : Str) (msgs : List Message) (r : Reader)
    → read_messages stream msgs r ≡ read_all (tagged stream msgs) r
unfolding read_messages
read_messages-eq stream [] r = refl
read_messages-eq stream (m ∷ msgs) r = read_messages-eq stream msgs (read_message stream m r)

read_batch-eq :
    (batch : List Stream) (r : Reader) → read_batch batch r ≡ read_all (in_batch batch) r
unfolding read_batch
read_batch-eq [] r = refl
read_batch-eq (s ∷ rest) r =
    read_batch-eq rest (read_messages s.stream s.messages r)
    ∙ ap (read_all (in_batch rest)) (read_messages-eq s.stream s.messages r)
    ∙ sym (read_all-append (tagged s.stream s.messages) (in_batch rest) r)

read_streams-eq :
    (replies : List Reply) (r : Reader) → read_streams replies r ≡ read_all (received replies) r
unfolding read_streams
read_streams-eq [] r = refl
read_streams-eq (cancelled ∷ replies) r = refl
read_streams-eq (timeout ∷ replies) r = read_streams-eq replies r
read_streams-eq (failed ∷ replies) r = read_streams-eq replies r
read_streams-eq (streams batch ∷ replies) r =
    read_streams-eq replies (read_batch batch r)
    ∙ ap (read_all (received replies)) (read_batch-eq batch r)
    ∙ sym (read_all-append (in_batch batch) (received replies) r)

ticks_not_alerts :
    (stream : Str) → str_eq stream stream_ticks ≡ true → str_eq stream stream_alerts_clean ≡ false
ticks_not_alerts stream e = rw ((str_eq_iff stream stream_ticks).0 e) (unfold str_eq in refl)

read_all_lem :
    (msgs : List (Str × Message)) (r : Reader)
    → let r' = read_all msgs r in
      (r'.hub ≡ broadcast_all (announced msgs) r.hub)
      × (r'.ticks_id ≡ last_readable stream_ticks msgs r.ticks_id)
      × (r'.alerts_id ≡ last_readable stream_alerts_clean msgs r.alerts_id)
unfolding read_message
read_all_lem [] r = (refl, refl, refl)
read_all_lem ((stream, m) ∷ rest) r =
    let ih = read_all_lem rest (read_message stream m r) in
    ground (arith, ih, ticks_not_alerts stream)

-- Whatever the dashboard's reads return, the hub broadcasts the messages with data of the two
-- streams, in order, and each stream's next read goes on after its last message with data; a
-- message without data after it is read again.
pub read_streams-positions :
    (replies : List Reply) (r : Reader)
    → let r' = read_streams replies r in
      let msgs = received replies in
      (r'.hub ≡ broadcast_all (announced msgs) r.hub)
      × (r'.ticks_id ≡ last_readable stream_ticks msgs r.ticks_id)
      × (r'.alerts_id ≡ last_readable stream_alerts_clean msgs r.alerts_id)
read_streams-positions replies r =
    rw (read_streams-eq replies r) (read_all_lem (received replies) r)
