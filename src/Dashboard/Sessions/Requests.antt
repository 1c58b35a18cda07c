-- ===== src/Dashboard/Sessions/Requests.antt =====
-- cmd/dashboard/livestrategy.go: what a request to start sessions is answered.
use crypto_divergence_engine.Prelude.{
  ℕ, suc, ◌+◌, ◌<◌, ◌≡◌, Option, none, some, List, [], ◌∷◌, length,
}
use crypto_divergence_engine.Go.Text.{Str}
use crypto_divergence_engine.Go.Time.{Time}
use crypto_divergence_engine.Go.Float.{Float}
use crypto_divergence_engine.Dashboard.Sessions.{
  SessionManager, StartRequest, Response, method_not_allowed, bad_request, ok, session_id,
}

-- The ids are s<n>, s<n+1> and so on.
abbrev pub NumberedFrom : ℕ → List Str → Type 0
NumberedFrom n [] = Unit
NumberedFrom n (id ∷ ids) = (id ≡ session_id n) × NumberedFrom (suc n) ids

-- how many sessions a request asks for
abbrev pub asked : Option StartRequest → ℕ
asked none = 0
asked (some req) = length req.symbols

module _ {F : Type 0} where
  -- Either refused, with nothing changed, or as many ids as were asked for.
  abbrev pub Answers : Option StartRequest → SessionManager F → SessionManager F → Response → Type 0
  Answers decoded m m' method_not_allowed = m' ≡ m
  Answers decoded m m' bad_request = m' ≡ m
  Answers decoded m m' (ok ids) =
      NumberedFrom (suc m.session_id_counter) ids
      × (length ids ≡ asked decoded)
      × (0 < length ids)
      × (m'.session_id_counter ≡ m.session_id_counter + length ids)
