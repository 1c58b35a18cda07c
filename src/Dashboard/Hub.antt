-- ===== src/Dashboard/Hub.antt =====
-- cmd/dashboard/main.go: the hub, which sends each event to every connected browser client. A client's
-- channel is named by a number, and the hub's map is the list of the channels that are in it, each with
-- what waits in it; make's fresh channel is the next number.
pub mod Clients
pub mod Order
use crypto_divergence_engine.Prelude.{
  ℕ, suc, ◌+◌, ◌≤◌, ◌<◌, ◌≡◌, refl, Bool, true, false, Option, none, some, List, [], ◌∷◌, ◌++◌,
  ◌==◌, if◌then◌else◌, length, arith, All, map, sym, ap, ◌∙◌, append-nil, append_assoc, ◌≢◌,
}
use mathlib.Core.Path.{subst}
use crypto_divergence_engine.Go.Text.{Str, bytes}
use crypto_divergence_engine.Go.Channel.{Thins, done, offer, length-offer, Thins-offer}

-- a client: the name of its channel, and the messages in it
pub record Client : Type 0 where
  pub channel : ℕ
  pub queue : List Str

pub record Hub : Type 0 where
  pub clients : List Client
  pub next_channel : ℕ

abbrev pub client_capacity : ℕ
client_capacity = 64

unfoldable pub new_hub : Hub
new_hub = record { clients = []; next_channel = 0 }

-- the hub, and the channel that subscribe returns
unfoldable pub subscribe : Hub → Hub × ℕ
subscribe h =
    let ch = h.next_channel in
    (
      record { clients = record { channel = ch; queue = [] } ∷ h.clients; next_channel = suc ch },
      ch,
    )

-- delete(h.clients, ch)
unfoldable pub without : ℕ → List Client → List Client
without ch [] = []
without ch (c ∷ cs) = let rest = without ch cs in if c.channel == ch then rest else c ∷ rest

unfoldable pub unsubscribe : ℕ → Hub → Hub
unsubscribe ch h = record h { clients = without ch h.clients }

unfoldable pub sse_message : Str → Str → Str
sse_message event data_ =
    bytes "event: " ++ (event ++ (bytes "\ndata: " ++ (data_ ++ bytes "\n\n")))

-- the select of broadcast on one client
unfoldable pub send_to : Str → Client → Client
send_to msg c = record c { queue = offer client_capacity msg c.queue }

unfoldable pub broadcast : Str → Str → Hub → Hub
broadcast event data_ h = record h { clients = map (send_to (sse_message event data_)) h.clients }

-- the head of the channel's queue, and the queue without it
unfoldable pub pop : ℕ → List Client → List Client × Option Str
pop ch [] = ([], none)
pop ch (c ∷ cs) =
    let (rest, later) = pop ch cs in
    if c.channel == ch
    then elim c.queue [ [] ↦ (c ∷ cs, none) | m ∷ q ↦ (record c { queue = q } ∷ cs, some m) ]
    else (c ∷ rest, later)

-- serveSSE takes a message off its channel, if one waits, and writes it to its browser
unfoldable pub serve : ℕ → Hub → Hub × Option Str
serve ch h = let (cs, msg) = pop ch h.clients in (record h { clients = cs }, msg)
