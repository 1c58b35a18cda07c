-- ===== src/Dashboard/Sessions.antt =====
-- cmd/dashboard/livestrategy.go: the manager of the sessions and the request handlers. The map holds a
-- session for as long as it is listed; `clock` gives the time at which the n-th session starts, and
-- encoding/json is a parameter: `decoded` is what it makes of a request's body, `marshal_id` the data of
-- an event.
pub mod Ids
pub mod Requests
use crypto_divergence_engine.Prelude.{
  ℕ, ◌+◌, Bool, true, false, not, ◌||◌, Option, none, some, List, [], ◌∷◌, ◌++◌, map, if◌then◌else◌,
  length, ◌==◌,
}
use crypto_divergence_engine.Prelude.Int.{pos}
use crypto_divergence_engine.Go.Text.{Str, bytes, str_eq, format_int}
use crypto_divergence_engine.Go.Map.{Map, lookup, insert, delete}
use crypto_divergence_engine.Go.Time.{Time}
use crypto_divergence_engine.Go.Float.{Float}
use crypto_divergence_engine.Dashboard.Hub.{Hub, new_hub, broadcast}
use crypto_divergence_engine.Dashboard.Live.{LiveSession, LiveSnapshot, new_session, snapshot}

-- the manager, with the counter of newSessionID
pub record SessionManager (F : Type 0) : Type 0 where
  pub sessions : Map (LiveSession F)
  pub hub : Hub
  pub session_id_counter : ℕ

pub record StartRequest : Type 0 where
  pub symbols : List Str
  pub strategy : Str
  pub interval : Str
  pub code : Str

-- What a handler answers.
pub data Response : Type 0 where
  method_not_allowed bad_request : Response
  ok : List Str → Response

-- fmt.Sprintf("s%d", n)
unfoldable pub session_id : ℕ → Str
session_id n = bytes "s" ++ format_int (pos n)

module _ {F : Type 0} ⦃fl : Float F⦄ where
  unfoldable pub new_session_manager : Hub → SessionManager F
  new_session_manager h = record { sessions = []; hub = h; session_id_counter = 0 }

  unfoldable pub list_snapshots : SessionManager F → List (LiveSnapshot F)
  list_snapshots m = map (λ e. snapshot e.1) m.sessions

  module _ (clock : ℕ → Time) where
    unfoldable pub start : Str → Str → Str → Str → SessionManager F → SessionManager F × Str
    start symbol strategy interval code m =
        let n = m.session_id_counter + 1 in
        let id = session_id n in
        let s = new_session id symbol strategy interval code (clock n) in
        (record m { sessions = insert id s m.sessions; session_id_counter = n }, id)

    -- the loop of handleStart over the symbols, with the ids that it collects
    unfoldable pub start_all :
        List Str → Str → Str → Str → SessionManager F → SessionManager F × List Str
    start_all [] strategy interval code m = (m, [])
    start_all (symbol ∷ symbols) strategy interval code m =
        let (m', id) = start symbol strategy interval code m in
        let (m'', ids) = start_all symbols strategy interval code m' in (m'', id ∷ ids)

    unfoldable pub handle_start :
        Str → Option StartRequest → SessionManager F → SessionManager F × Response
    handle_start method decoded m =
        if not (str_eq method (bytes "POST")) then (m, method_not_allowed) else elim decoded [
          | none ↦ (m, bad_request)
          | some req ↦
              let interval' = if str_eq req.interval [] then bytes "1m" else req.interval in
              let (m', ids) = start_all req.symbols req.strategy interval' req.code m in
              if length req.symbols == 0 then (m, bad_request) else (m', ok ids)
        ]

  module _ (marshal_id : Str → Str) where
    unfoldable pub stop : Str → SessionManager F → SessionManager F
    stop id m = elim (lookup id m.sessions) [
      | none ↦ m
      | some s ↦ record m {
        sessions = delete id m.sessions;
        hub = broadcast (bytes "strategy_remove") (marshal_id id) m.hub;
      }
    ]

    unfoldable pub handle_stop : Str → Option Str → SessionManager F → SessionManager F × Response
    handle_stop method decoded m =
        if not (str_eq method (bytes "POST"))
        then (m, method_not_allowed)
        else elim decoded [ none ↦ (m, bad_request) | some id ↦ (stop id m, ok []) ]
