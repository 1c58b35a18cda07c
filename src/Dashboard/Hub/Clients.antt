-- ===== src/Dashboard/Hub/Clients.antt =====
-- cmd/dashboard/main.go: what one client of the hub sees of a run.
use crypto_divergence_engine.Prelude.{
  ℕ, ◌<◌, ◌≡◌, refl, Bool, true, false, Option, none, some, List, [], ◌∷◌, ◌++◌, ◌==◌,
  if◌then◌else◌, drop, take, ap₂, arith, map, sym, ap, ◌∙◌, ◌≢◌,
}
use native.Mathlib.Decide.{ℕ_discrete}
use crypto_divergence_engine.Go.Text.{Str}
use crypto_divergence_engine.Go.Channel.{offer, nothing}
use crypto_divergence_engine.Dashboard.Hub.{
  Client, Hub, client_capacity, subscribe, without, unsubscribe, sse_message, send_to, broadcast,
  pop, serve,
}

-- A browser connects; the client of a channel goes; an event is broadcast; the client of a channel
-- looks for a message.
pub data Event : Type 0 where
  joins : Event
  leaves : ℕ → Event
  sends : Str → Str → Event
  serves : ℕ → Event

abbrev pub written : ℕ → ℕ → Option Str → List Str
written ch own none = []
written ch own (some m) = if ch == own then m ∷ [] else []

-- The hub after the events, and what the client of a channel wrote to its browser.
unfoldable pub run : ℕ → List Event → Hub → Hub × List Str
run own [] h = (h, [])
run own (joins ∷ es) h = run own es (subscribe h).0
run own (leaves ch ∷ es) h = run own es (unsubscribe ch h)
run own (sends event data_ ∷ es) h = run own es (broadcast event data_ h)
run own (serves ch ∷ es) h =
    let (h', msg) = serve ch h in
    let (h'', later) = run own es h' in (h'', written ch own msg ++ later)

-- What waits for the client of a channel.
abbrev pub queue_of : ℕ → List Client → Option (List Str)
queue_of ch [] = none
queue_of ch (c ∷ cs) = let later = queue_of ch cs in if c.channel == ch then some c.queue else later

-- One client alone: its queue, and what it writes.
abbrev pub alone : ℕ → List Event → List Str → Option (List Str) × List Str
alone own [] q = (some q, [])
alone own (joins ∷ es) q = alone own es q
alone own (leaves ch ∷ es) q = let stays = alone own es q in if ch == own then (none, []) else stays
alone own (sends event data_ ∷ es) q =
    alone own es (offer client_capacity (sse_message event data_) q)
alone own (serves ch ∷ es) q =
    let others = alone own es q in
    let (q', later) = alone own es (drop 1 q) in
    if ch == own then (q', take 1 q ++ later) else others

abbrev head_of : List Str → Option Str
head_of [] = none
head_of (m ∷ q) = some m

queue_of-map :
    (ch : ℕ) (msg : Str) (cs : List Client) (q : List Str)
    → queue_of ch cs ≡ some q
    → queue_of ch (map (send_to msg) cs) ≡ some (offer client_capacity msg q)
unfolding send_to
queue_of-map ch msg [] q e = ground arith
queue_of-map ch msg (c ∷ cs) q e = ground (arith, queue_of-map ch msg cs q)

queue_of-map-none :
    (ch : ℕ) (msg : Str) (cs : List Client)
    → queue_of ch cs ≡ none
    → queue_of ch (map (send_to msg) cs) ≡ none
unfolding send_to
queue_of-map-none ch msg [] e = refl
queue_of-map-none ch msg (c ∷ cs) e = ground (arith, queue_of-map-none ch msg cs)

queue_of-without :
    (ch own : ℕ) (cs : List Client)
    → queue_of own (without ch cs) ≡ (if ch == own then none else queue_of own cs)
unfolding without
queue_of-without ch own [] = ground arith
queue_of-without ch own (c ∷ cs) = ground (arith, queue_of-without ch own cs)

pop_self :
    (own : ℕ) (cs : List Client) (q : List Str)
    → queue_of own cs ≡ some q
    → (queue_of own (pop own cs).0 ≡ some (drop 1 q)) × ((pop own cs).1 ≡ head_of q)
unfolding pop
pop_self own [] q e = ground arith
pop_self own (c ∷ cs) q e = ground (arith, pop_self own cs q)

pop-none :
    (own : ℕ) (cs : List Client)
    → queue_of own cs ≡ none
    → (queue_of own (pop own cs).0 ≡ none) × ((pop own cs).1 ≡ none)
unfolding pop
pop-none own [] e = (refl, refl)
pop-none own (c ∷ cs) e = ground (arith, pop-none own cs)

pop_ne : (ch own : ℕ) (cs : List Client) → ch ≢ own → queue_of own (pop ch cs).0 ≡ queue_of own cs
unfolding pop
pop_ne ch own [] ne = refl
pop_ne ch own (c ∷ cs) ne = ground (arith, pop_ne ch own cs ne)

written_ne : (ch own : ℕ) (msg : Option Str) → ch ≢ own → written ch own msg ≡ []
written_ne ch own none ne = refl
written_ne ch own (some m) ne = ground (arith, ne)

served-none :
    (ch own : ℕ) (cs : List Client)
    → queue_of own cs ≡ none
    → (queue_of own (pop ch cs).0 ≡ none) × (written ch own (pop ch cs).1 ≡ [])
served-none ch own cs e = elim (ℕ_discrete ch own) [
  | yes same ↦
      let (gone, nothing) = pop-none own cs e in rw same (gone, ap (written own own) nothing)
  | no other ↦ (pop_ne ch own cs other ∙ e, written_ne ch own (pop ch cs).1 other)
]

written_self : (own : ℕ) (q : List Str) → written own own (head_of q) ≡ take 1 q
written_self own [] = refl
written_self own (m ∷ q) = ground arith

served_self :
    (ch own : ℕ) (cs : List Client) (q : List Str)
    → ch ≡ own
    → queue_of own cs ≡ some q
    → (queue_of own (pop ch cs).0 ≡ some (drop 1 q)) × (written ch own (pop ch cs).1 ≡ take 1 q)
served_self ch own cs q same e =
    let (queue, msg) = pop_self own cs q e in
    rw same (queue, ap (written own own) msg ∙ written_self own q)

eq→== : (m n : ℕ) → m ≡ n → (m == n) ≡ true
eq→== m n e = ground arith

ne→== : (m n : ℕ) → m ≢ n → (m == n) ≡ false
ne→== m n e = ground arith

-- A client that has left sees no more.
run_gone :
    (own : ℕ) (es : List Event) (h : Hub)
    → own < h.next_channel
    → queue_of own h.clients ≡ none
    → (queue_of own (run own es h).0.clients ≡ none) × ((run own es h).1 ≡ [])
unfolding run subscribe unsubscribe broadcast serve
run_gone own [] h lt e = (e, refl)
run_gone own (joins ∷ es) h lt e = run_gone own es (subscribe h).0 (omega arith) (ground arith)
run_gone own (leaves ch ∷ es) h lt e =
    run_gone own es (unsubscribe ch h) lt (ground (arith, queue_of-without ch own h.clients))
run_gone own (sends event data_ ∷ es) h lt e =
    run_gone own es (broadcast event data_ h) lt
      (queue_of-map-none own (sse_message event data_) h.clients e)
run_gone own (serves ch ∷ es) h lt e =
    let (gone, nothing) = served-none ch own h.clients e in
    let (still, no_more) = run_gone own es (serve ch h).0 lt gone in
    (still, ap₂ (λ a b. a ++ b) nothing no_more)

choose :
    {A : Type 0} → {b c : Bool} → (x y : A) → b ≡ c → (if b then x else y) ≡ (if c then x else y)
choose x y e = ap (λ b. if b then x else y) e

-- Whatever the other clients of the hub do, the queue of a client whose channel's number has been
-- given out and that is connected, and what it writes to its browser, are those of the client
-- alone, which hears the broadcasts, takes its own messages and leaves when it does.
pub run-eq-alone :
    (own : ℕ) (es : List Event) (h : Hub) (q : List Str)
    → own < h.next_channel
    → queue_of own h.clients ≡ some q
    → (queue_of own (run own es h).0.clients, (run own es h).1) ≡ alone own es q
unfolding run subscribe unsubscribe broadcast serve
run-eq-alone own [] h q lt e = rw e
run-eq-alone own (joins ∷ es) h q lt e =
    run-eq-alone own es (subscribe h).0 q (omega arith) (ground arith)
run-eq-alone own (leaves ch ∷ es) h q lt e = elim (ℕ_discrete ch own) [
  | yes same ↦
      let (gone, nothing) =
        run_gone own es (unsubscribe ch h) lt (ground (arith, queue_of-without ch own h.clients)) in
      ap₂ (λ a b. (a, b)) gone nothing
      ∙ choose (none, []) (alone own es q) (sym (eq→== ch own same))
  | no other ↦
      run-eq-alone own es (unsubscribe ch h) q lt
        (ground (arith, queue_of-without ch own h.clients))
      ∙ choose (none, []) (alone own es q) (sym (ne→== ch own other))
]
run-eq-alone own (sends event data_ ∷ es) h q lt e =
    run-eq-alone own es (broadcast event data_ h)
      (offer client_capacity (sse_message event data_) q) lt
      (queue_of-map own (sse_message event data_) h.clients q e)
run-eq-alone own (serves ch ∷ es) h q lt e = elim (ℕ_discrete ch own) [
  | yes same ↦
      let (queue, msg) = served_self ch own h.clients q same e in
      let ih = run-eq-alone own es (serve ch h).0 (drop 1 q) lt queue in
      let later = (run own es (serve ch h).0).1 in
      ap (λ w. (queue_of own (run own es (serve ch h).0).0.clients, w ++ later)) msg
      ∙ ap (λ p. (p.0, take 1 q ++ p.1)) ih
      ∙ choose _ _ (sym (eq→== ch own same))
  | no other ↦
      let ih = run-eq-alone own es (serve ch h).0 q lt (pop_ne ch own h.clients other ∙ e) in
      let later = (run own es (serve ch h).0).1 in
      ap (λ w. (queue_of own (run own es (serve ch h).0).0.clients, w ++ later))
        (written_ne ch own (pop ch h.clients).1 other)
      ∙ ih
      ∙ choose _ _ (sym (ne→== ch own other))
]
