-- ===== src/Dashboard/Sessions/Ids.antt =====
-- cmd/dashboard/livestrategy.go: the ids of sessions over a run of events.
use crypto_divergence_engine.Prelude.{
  ℕ, ◌+◌, ◌<◌, ◌≡◌, refl, ap, false, none, some, List, [], ◌∷◌, arith, if◌then◌else◌, Option-cases,
  Bool-cases, inl, inr, drop,
}
use crypto_divergence_engine.Prelude.Int.{pos, pos_part}
use crypto_divergence_engine.Go.Text.{Str, str_eq, str_eq_iff}
use crypto_divergence_engine.Go.Text.Digits.{format_int_injective}
use crypto_divergence_engine.Go.Map.{Map, lookup, insert, lookup-insert, lookup-delete}
use crypto_divergence_engine.Go.Time.{Time}
use crypto_divergence_engine.Go.Float.{Float}
use crypto_divergence_engine.Dashboard.Hub.{Hub}
use crypto_divergence_engine.Dashboard.Live.{LiveSession, new_session, apply_signal}
use crypto_divergence_engine.Dashboard.Live.Trades.{Signal}
use crypto_divergence_engine.Dashboard.Sessions.{
  SessionManager, session_id, new_session_manager, start, stop,
}

-- A session starts; one is stopped; one follows a signal.
pub data Event (F : Type 0) : Type 0 where
  starts : (symbol strategy interval code : Str) → Event F
  stops : Str → Event F
  follows : Str → Signal F → Event F

pos_injective : (m n : ℕ) → pos m ≡ pos n → m ≡ n
pos_injective m n e = ap pos_part e

session_id_injective : (m n : ℕ) → session_id m ≡ session_id n → m ≡ n
unfolding session_id
session_id_injective m n e =
    pos_injective m n (format_int_injective (pos m) (pos n) (ap (drop 1) e))

session_id_ne : (m n : ℕ) → m < n → str_eq (session_id m) (session_id n) ≡ false
session_id_ne m n lt = elim (Bool-cases (str_eq (session_id m) (session_id n))) [
  | inl e ↦
      let same = session_id_injective m n ((str_eq_iff (session_id m) (session_id n)).0 e) in
      absurd (omega arith)
  | inr e ↦ e
]

module _ {F : Type 0} ⦃fl : Float F⦄ where
  -- a signal to the session under the id, if there is one
  unfoldable pub follow : Str → Signal F → SessionManager F → SessionManager F
  follow id e m = elim (lookup id m.sessions) [
    | none ↦ m
    | some s ↦ record m {
      sessions = insert id (apply_signal e.signal e.price e.now e.entered s) m.sessions;
    }
  ]

  -- Sessions stand only under the ids given out so far.
  abbrev pub IsValid : SessionManager F → Type 0
  IsValid m = (n : ℕ) → m.session_id_counter < n → lookup (session_id n) m.sessions ≡ none

  -- A free id stays free when something is written under an id that is not free.
  free_after_insert :
      (id k : Str) (s s' : LiveSession F) (m : Map (LiveSession F))
      → lookup id m ≡ some s
      → lookup k m ≡ none
      → lookup k (insert id s' m) ≡ none
  free_after_insert id k s s' m taken free =
      ground (arith, lookup-insert id k s' m, str_eq_iff id k)

  follow_lem :
      (id k : Str) (e : Signal F) (m : SessionManager F)
      → lookup k m.sessions ≡ none
      → (lookup k (follow id e m).sessions ≡ none)
        × ((follow id e m).session_id_counter ≡ m.session_id_counter)
  unfolding follow
  follow_lem id k e m free = elim (Option-cases (lookup id m.sessions)) [
    | inl none_there ↦ rw (none_there, follow) (free, refl)
    | inr (s, there) ↦
        rw (there, follow)
          (
            free_after_insert id k s (apply_signal e.signal e.price e.now e.entered s) m.sessions
                there free,
            refl,
          )
  ]

  follow-counter :
      (id : Str) (e : Signal F) (m : SessionManager F)
      → (follow id e m).session_id_counter ≡ m.session_id_counter
  unfolding follow
  follow-counter id e m = ground arith

  stop_lem :
      (marshal_id : Str → Str) (id k : Str) (m : SessionManager F)
      → (lookup k (stop marshal_id id m).sessions
          ≡ (if str_eq id k then none else lookup k m.sessions))
        × ((stop marshal_id id m).session_id_counter ≡ m.session_id_counter)
  unfolding stop
  stop_lem marshal_id id k m = elim (Option-cases (lookup id m.sessions)) [
    | inl e ↦ rw (e, stop) (ground (arith, str_eq_iff id k), refl)
    | inr (s, e) ↦ rw (e, stop) (lookup-delete id k m.sessions, refl)
  ]

  start_free :
      (clock : ℕ → Time) (symbol strategy interval code : Str) (m : SessionManager F)
      → IsValid m
      → IsValid (start clock symbol strategy interval code m).0
  unfolding start
  start_free clock symbol strategy interval code m h n lt =
      rw
        (
          lookup-insert (session_id (m.session_id_counter + 1)) (session_id n) _ m.sessions,
          session_id_ne (m.session_id_counter + 1) n lt,
        )
        (h n (omega arith))

module _ {F : Type 0} ⦃fl : Float F⦄ (clock : ℕ → Time) (marshal_id : Str → Str) where
  unfoldable pub apply : Event F → SessionManager F → SessionManager F
  apply (starts symbol strategy interval code) m = (start clock symbol strategy interval code m).0
  apply (stops id) m = stop marshal_id id m
  apply (follows id e) m = follow id e m

  unfoldable pub run : List (Event F) → SessionManager F → SessionManager F
  run [] m = m
  run (e ∷ es) m = run es (apply e m)

  apply-IsValid : (e : Event F) (m : SessionManager F) → IsValid m → IsValid (apply e m)
  unfolding apply
  apply-IsValid (starts symbol strategy interval code) m h n lt =
      start_free clock symbol strategy interval code m h n lt
  apply-IsValid (stops id) m h n lt =
      let (sessions, same) = stop_lem marshal_id id (session_id n) m in
      let free = h n (omega (arith, same)) in rw (sessions, free) (ground arith)
  apply-IsValid (follows id e) m h n lt =
      let below : m.session_id_counter < n = omega (arith, lt, follow-counter id e m) in
      (follow_lem id (session_id n) e m (h n below)).0

  run-IsValid : (es : List (Event F)) (m : SessionManager F) → IsValid m → IsValid (run es m)
  unfolding run
  run-IsValid [] m h = h
  run-IsValid (e ∷ es) m h = run-IsValid es (apply e m) (apply-IsValid e m h)

  -- Whatever sessions have started, stopped and traded since the manager was made, a session that
  -- starts gets an id under which none stands; it then stands there as it was created, and every
  -- other session is as it was.
  pub start_is_fresh :
      (h : Hub) (es : List (Event F)) (symbol strategy interval code k : Str)
      → let m = run es (new_session_manager h) in
        let (m', id) = start clock symbol strategy interval code m in
        let s =
          new_session {F = F} id symbol strategy interval code (clock m'.session_id_counter) in
        (lookup id m.sessions ≡ none)
        × (lookup k m'.sessions ≡ (if str_eq id k then some s else lookup k m.sessions))
  unfolding start lookup
  start_is_fresh h es symbol strategy interval code k =
      let m : SessionManager F = run es (new_session_manager h) in
      let valid =
        run-IsValid es (new_session_manager h) (λ n lt. unfold new_session_manager in refl) in
      (
        valid (m.session_id_counter + 1) (omega arith),
        lookup-insert (session_id (m.session_id_counter + 1)) k
            (new_session _ symbol strategy interval code _) m.sessions,
      )
