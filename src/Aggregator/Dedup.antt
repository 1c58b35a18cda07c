-- ===== src/Aggregator/Dedup.antt =====
-- cmd/aggregator: the deduper over any sequence of alerts and cleanups.
use crypto_divergence_engine.Prelude.{
  ℕ, ◌+◌, ◌*◌, ◌≤◌, ◌≡◌, inl, inr, refl, sym, ap, ◌∙◌, Bool, true, false, not, ◌||◌, none, some,
  List, [], ◌∷◌, ◌++◌, append_assoc, arith, select, if◌then◌else◌, Option-cases, Bool-cases, All,
}
use mathlib.Core.Path.{subst}
use crypto_divergence_engine.Go.Text.{Str, str_eq, str_eq_iff}
use crypto_divergence_engine.Go.Map.{Map, lookup, lookup-insert, lookup-insert_self}
use crypto_divergence_engine.Go.Time.{Time, before_cutoff}
use crypto_divergence_engine.Alert.{Alert}
use crypto_divergence_engine.Aggregator.{Deduper, new_deduper, dedup_key, is_dup, cleanup}

-- What the deduper is asked for, each with the clock's time.
pub data Event (F : Type 0) : Type 0 where
  alert : Alert F → Time → Event F
  clean : Time → Event F

module _ {F : Type 0} where
  abbrev pub time_of : Event F → Time
  time_of (alert a now) = now
  time_of (clean now) = now

  -- The deduper after the events, and the alerts that were passed on.
  unfoldable pub run : List (Event F) → Deduper → Deduper × List (Alert F)
  run [] d = (d, [])
  run (alert a now ∷ es) d =
      let (d', dup) = is_dup a now d in
      let (d'', later) = run es d' in (d'', (if dup then [] else a ∷ []) ++ later)
  run (clean now ∷ es) d = run es (cleanup now d)

-- A key is remembered since a time: the cache holds it with that time.
abbrev pub Remembers : Str → Time → Deduper → Type 0
Remembers key since d = lookup key d.cache ≡ some since

lookup-select :
    (key : Str) (since now limit : ℕ) (m : Map Time)
    → lookup key m ≡ some since
    → now ≤ since + limit
    → lookup key (select (λ e. not (before_cutoff e.1 now limit)) m) ≡ some since
unfolding lookup
lookup-select key since now limit [] h le = h
lookup-select key since now limit ((k, t) ∷ m) h le =
    ground (arith, lookup-select key since now limit m)

lookup-select-none :
    (key : Str) (p : Str × Time → Bool) (m : Map Time)
    → lookup key m ≡ none
    → lookup key (select p m) ≡ none
unfolding lookup
lookup-select-none key p [] h = h
lookup-select-none key p ((k, t) ∷ m) h = ground (arith, lookup-select-none key p m)

module _ {F : Type 0} where
  -- An alert is passed on exactly if its key is not in the cache, and is then in it.
  pub is_dup-false :
      (a : Alert F) (now : Time) (d : Deduper)
      → (is_dup a now d).1 ≡ false
      → Remembers (dedup_key d.window a) now (is_dup a now d).0
  unfolding is_dup
  is_dup-false a now d h = elim (Option-cases (lookup (dedup_key d.window a) d.cache)) [
    | inl e ↦ rw (e, is_dup) (lookup-insert_self (dedup_key d.window a) now d.cache)
    | inr (t, e) ↦ absurd (ground arith)
  ]

  is_dup-Remembers :
      (key : Str) (since : Time) (a : Alert F) (now : Time) (d : Deduper)
      → Remembers key since d
      → Remembers key since (is_dup a now d).0
  unfolding is_dup
  is_dup-Remembers key since a now d h = ground (
    arith,
    lookup-insert (dedup_key d.window a) key now d.cache,
    str_eq_iff (dedup_key d.window a) key,
  )

  window-is_dup : (a : Alert F) (now : Time) (d : Deduper) → (is_dup a now d).0.window ≡ d.window
  unfolding is_dup
  window-is_dup a now d = ground arith

  pub window-run : (es : List (Event F)) (d : Deduper) → (run es d).0.window ≡ d.window
  unfolding run
  window-run [] d = refl
  window-run (alert a now ∷ es) d = window-run es (is_dup a now d).0 ∙ window-is_dup a now d
  window-run (clean now ∷ es) d = window-run es (cleanup now d) ∙ unfold cleanup in refl

  -- A key stays in the cache as long as no clock reading is more than two windows after its time.
  pub run-Remembers :
      (key : Str) (since : Time) (es : List (Event F)) (d : Deduper)
      → Remembers key since d
      → All (λ e. time_of e ≤ since + 2 * d.window) es
      → Remembers key since (run es d).0
  unfolding run
  run-Remembers key since [] d h le = h
  run-Remembers key since (alert a now ∷ es) d h le =
      run-Remembers key since es (is_dup a now d).0 (is_dup-Remembers key since a now d h)
        (subst (λ w. All (λ e. time_of e ≤ since + 2 * w) es) (sym (window-is_dup a now d)) le.1)
  run-Remembers key since (clean now ∷ es) d h le =
      run-Remembers key since es (cleanup now d)
        (unfold cleanup in lookup-select key since now (2 * d.window) d.cache h le.0)
        (unfold cleanup in le.1)

  -- Once an alert has been passed on, any alert with the same key is a duplicate, whatever alerts
  -- and cleanups come between, as long as no clock reading is more than two windows later.
  pub no_repeat :
      (a b : Alert F) (since now : Time) (es : List (Event F)) (d : Deduper)
      → (is_dup a since d).1 ≡ false
      → All (λ e. time_of e ≤ since + 2 * d.window) es
      → dedup_key d.window b ≡ dedup_key d.window a
      → (is_dup b now (run es (is_dup a since d).0).0).1 ≡ true
  no_repeat a b since now es d passed le same =
      let d' = (is_dup a since d).0 in
      let held =
        run-Remembers (dedup_key d.window a) since es d' (is_dup-false a since d passed) (
          subst (λ w. All (λ e. time_of e ≤ since + 2 * w) es) (sym (window-is_dup a since d))
            le) in
      remembered_dup b now (run es d').0 since
        (ap (λ w. dedup_key w b) (window-run es d' ∙ window-is_dup a since d) ∙ same) held
    where
      remembered_dup :
          (b : Alert F) (now : Time) (d'' : Deduper) (t : Time)
          → dedup_key d''.window b ≡ dedup_key d.window a
          → Remembers (dedup_key d.window a) t d''
          → (is_dup b now d'').1 ≡ true
      remembered_dup b now d'' t e h = unfold is_dup in rw (e, h, is_dup)

  -- some alert of the list has the key
  abbrev pub has_key : ℕ → Str → List (Alert F) → Bool
  has_key w key [] = false
  has_key w key (a ∷ rest) = str_eq (dedup_key w a) key || has_key w key rest

  -- the alerts of the events
  abbrev pub offered : List (Event F) → List (Alert F)
  offered [] = []
  offered (alert a now ∷ es) = a ∷ offered es
  offered (clean now ∷ es) = offered es

  is_dup-none :
      (a : Alert F) (now : Time) (d : Deduper)
      → lookup (dedup_key d.window a) d.cache ≡ none
      → (is_dup a now d).1 ≡ false
  unfolding is_dup
  is_dup-none a now d h = rw (h, is_dup)

  pub is_dup_other :
      (key : Str) (a : Alert F) (now : Time) (d : Deduper)
      → str_eq (dedup_key d.window a) key ≡ false
      → lookup key (is_dup a now d).0.cache ≡ lookup key d.cache
  unfolding is_dup
  is_dup_other key a now d h = ground (arith, lookup-insert (dedup_key d.window a) key now d.cache)

  -- A key that is not in the cache is passed on if it is offered.
  passes :
      (key : Str) (es : List (Event F)) (d : Deduper)
      → lookup key d.cache ≡ none
      → has_key d.window key (offered es) ≡ true
      → has_key d.window key (run es d).1 ≡ true
  unfolding run cleanup
  passes key [] d h k = k
  passes key (clean now ∷ es) d h k =
      passes key es (cleanup now d) (lookup-select-none key _ d.cache h) k
  passes key (alert a now ∷ es) d h k =
      let d' = (is_dup a now d).0 in
      elim (Bool-cases (str_eq (dedup_key d.window a) key)) [
        | inl e ↦
            let same = (str_eq_iff (dedup_key d.window a) key).0 e in
            let fresh = is_dup-none a now d (ap (λ j. lookup j d.cache) same ∙ h) in
            rw (fresh, e) refl
        | inr e ↦
            let later =
              passes key es d' (is_dup_other key a now d e ∙ h)
                (rw (window-is_dup a now d) (rw e at k)) in
            ground (arith, later, window-is_dup a now d)
      ]

  -- Whatever the events, every key that is offered to a new deduper is passed on.
  pub run-passes :
      (window : ℕ) (key : Str) (es : List (Event F))
      → has_key window key (offered es) ≡ true
      → has_key window key (run es (new_deduper window)).1 ≡ true
  unfolding new_deduper lookup
  run-passes window key es h = passes key es (new_deduper window) refl h

  pub run-append :
      (xs ys : List (Event F)) (d : Deduper)
      → run (xs ++ ys) d ≡ ((run ys (run xs d).0).0, (run xs d).1 ++ (run ys (run xs d).0).1)
  unfolding run
  run-append [] ys d = refl
  run-append (alert a now ∷ xs) ys d =
      let first = if (is_dup a now d).1 then [] else a ∷ [] in
      let d' = (is_dup a now d).0 in
      ap (λ r. (r.0, first ++ r.1)) (run-append xs ys d')
      ∙ ap (λ l. ((run ys (run xs d').0).0, l))
          (sym (append_assoc first (run xs d').1 (run ys (run xs d').0).1))
  run-append (clean now ∷ xs) ys d = run-append xs ys (cleanup now d)
