-- ===== src/Dashboard/Hub/Order.antt =====
-- cmd/dashboard/main.go: the order and the bound of what a client of the hub gets.
use crypto_divergence_engine.Prelude.{
  ℕ, ◌≤◌, Bool, true, false, Option, none, some, List, [], ◌∷◌, ◌++◌, ◌==◌, if◌then◌else◌, length,
  drop, take, take-append-drop, length-drop, arith, sym, ap, ◌∙◌, append-nil, append_assoc,
}
use mathlib.Core.Path.{subst}
use crypto_divergence_engine.Go.Text.{Str}
use crypto_divergence_engine.Go.Channel.{
  Thins, done, offer, length-offer, Thins-offer, Thins-append, Thins-prefix, nothing,
}
use crypto_divergence_engine.Dashboard.Hub.{Hub, client_capacity, subscribe, sse_message}
use crypto_divergence_engine.Dashboard.Hub.Clients.{
  Event, joins, leaves, sends, serves, run, queue_of, alone, run-eq-alone,
}

-- The messages of the broadcasts among the events.
abbrev pub broadcasts : List Event → List Str
broadcasts [] = []
broadcasts (sends event data_ ∷ es) = sse_message event data_ ∷ broadcasts es
broadcasts (joins ∷ es) = broadcasts es
broadcasts (leaves ch ∷ es) = broadcasts es
broadcasts (serves ch ∷ es) = broadcasts es

abbrev pub waiting : Option (List Str) → List Str
waiting none = []
waiting (some q) = q

-- What was written and what waits, against what was broadcast; and the bound of the queue.
abbrev pub Sound : List Str → List Str → Option (List Str) × List Str → Type 0
Sound taken sent (q, out) =
    Thins (taken ++ (out ++ waiting q)) sent × (length (waiting q) ≤ client_capacity)

either : {A : Type 0} → (P : A → Type 0) (b : Bool) {x y : A} → P x → P y → P (if b then x else y)
either P true p q = p
either P false p q = q

alone-Thins :
    (own : ℕ) (es : List Event) (taken q sent : List Str)
    → Thins (taken ++ q) sent
    → length q ≤ client_capacity
    → Sound taken (sent ++ broadcasts es) (alone own es q)
alone-Thins own [] taken q sent h le = (subst (Thins (taken ++ q)) (sym (append-nil sent)) h, le)
alone-Thins own (joins ∷ es) taken q sent h le = alone-Thins own es taken q sent h le
alone-Thins own (leaves ch ∷ es) taken q sent h le =
    either (Sound taken (sent ++ broadcasts es)) (ch == own)
      (Thins-append (Thins-prefix taken q h) (nothing (broadcasts es)), omega arith)
      (alone-Thins own es taken q sent h le)
alone-Thins own (sends event data_ ∷ es) taken q sent h le =
    let msg = sse_message event data_ in
    let (ih, bound) =
      alone-Thins own es taken (offer client_capacity msg q) (sent ++ msg ∷ [])
        (Thins-offer client_capacity msg taken q sent h) (length-offer client_capacity msg q le) in
    (subst (Thins _) (append_assoc sent (msg ∷ []) (broadcasts es)) ih, bound)
alone-Thins own (serves ch ∷ es) taken q sent h le =
    let (q', out) = alone own es (drop 1 q) in
    let (ih, bound) =
      alone-Thins own es (taken ++ take 1 q) (drop 1 q) sent
        (subst (λ l. Thins l sent)
          (sym (
            append_assoc taken (take 1 q) (drop 1 q) ∙ ap (λ l. taken ++ l) (take-append-drop 1 q)))
          h)
        (omega (arith, length-drop 1 q)) in
    either (Sound taken (sent ++ broadcasts es)) (ch == own)
      (
        subst (λ l. Thins l (sent ++ broadcasts es))
            (append_assoc taken (take 1 q) (out ++ waiting q')
              ∙ ap (λ l. taken ++ l) (sym (append_assoc (take 1 q) out (waiting q'))))
            ih,
        bound,
      )
      (alone-Thins own es taken q sent h le)

-- For a browser that connects, in whatever interleaving with the others and with the broadcasts,
-- what is written to it, followed by what still waits, is the messages that were broadcast since,
-- in order and each at most once, with some left out; at most 64 wait.
pub client_in_order :
    (h : Hub) (es : List Event)
    → let (h', own) = subscribe h in
      let (end, out) = run own es h' in Sound [] (broadcasts es) (queue_of own end.clients, out)
unfolding subscribe
client_in_order h es =
    let own = h.next_channel in
    subst (Sound [] (broadcasts es))
      (sym (run-eq-alone own es (subscribe h).0 [] (omega arith) (ground arith)))
      (alone-Thins own es [] [] [] done (omega arith))
