-- ===== src/Loadgen/Totals.antt =====
-- bench/loadgen/main.go: the counters of main and the lines of its reports.
use crypto_divergence_engine.Prelude.{
  ℕ, ◌+◌, ◌≡◌, refl, ◌⊎◌, inl, inr, Option, List, [], ◌∷◌, ◌++◌, arith, length, length-append, ltb,
  Bool-cases,
}
use crypto_divergence_engine.Prelude.Int.{ℤ}
use crypto_divergence_engine.Go.Text.{Str}
use crypto_divergence_engine.Go.Time.{Time}
use crypto_divergence_engine.Go.Float.{Float}
use crypto_divergence_engine.Loadgen.{
  Group, Published, sent, cancelled, failed, Choice, Event, stop, deadline, report, fire, Line,
  report_line, total_line, average_line, Loadgen, summary, print_summary, print_report,
  publish_tick, run,
}

module _ {F : Type 0} where
  -- the publications that the report lines show
  abbrev pub shown : List (Line F) → ℕ
  shown [] = 0
  shown (report_line sec pub_s consumed_s pending lag_ms ∷ ls) = pub_s + shown ls
  shown (total_line pub_total consumed secs ∷ ls) = shown ls
  shown (average_line pub_s consumed_s ∷ ls) = shown ls

  shown-append : (ls ms : List (Line F)) → shown (ls ++ ms) ≡ shown ls + shown ms
  shown-append [] ms = omega arith
  shown-append (report_line sec pub_s consumed_s pending lag_ms ∷ ls) ms =
      omega (arith, shown-append ls ms)
  shown-append (total_line pub_total consumed secs ∷ ls) ms = shown-append ls ms
  shown-append (average_line pub_s consumed_s ∷ ls) ms = shown-append ls ms

  -- The lines show all publications, but for some that are left.
  abbrev pub Shows : ℕ → Loadgen F → Type 0
  Shows left s = (length s.ticks ≡ s.total_pub) × (shown s.lines + left ≡ s.total_pub)

  abbrev pub ShowsNow : Loadgen F → Type 0
  ShowsNow s = Shows s.pub_this_sec s

module _ {F : Type 0} ⦃fl : Float F⦄ (of_int : ℤ → F) (scan_millis : Str → ℤ) where
  summary-shown : (s : Loadgen F) → shown (summary of_int scan_millis s) ≡ 0
  unfolding summary
  summary-shown s = elim (Bool-cases (ltb 0 s.sec)) [ inl e ↦ rw e refl | inr e ↦ rw e refl ]

  print_summary-Shows :
      (left : ℕ) (s : Loadgen F) → Shows left s → Shows left (print_summary of_int scan_millis s)
  unfolding print_summary
  print_summary-Shows left s (count, all) = (
    count,
    omega (arith, all, summary-shown s, shown-append s.lines (summary of_int scan_millis s)),
  )

  module _ (group : Str) where
    print_report-Shows :
        (groups : Option (List Group)) (now : Time) (s : Loadgen F)
        → Shows s.pub_this_sec s
        → Shows 0 (print_report of_int scan_millis group groups now s)
    unfolding print_report
    print_report-Shows groups now s (count, all) =
        (count, omega (arith, all, shown-append s.lines (report_line _ s.pub_this_sec _ _ _ ∷ [])))

    publish_tick-ShowsNow :
        (c : Choice F) (outcome : Published) (s : Loadgen F)
        → ShowsNow s
        → ShowsNow (publish_tick of_int scan_millis group c outcome s)
    unfolding publish_tick
    publish_tick-ShowsNow c sent s (count, all) =
        (omega (arith, count, length-append s.ticks (_ ∷ [])), omega (arith, all))
    publish_tick-ShowsNow c cancelled s h = h
    publish_tick-ShowsNow c failed s h = h

    -- From counters and lines that agree on, after any events, as many ticks have been published as total_pub says, and
    -- the report lines show all of them, or all but those of the second that has not been reported.
    run-Shows :
        (es : List (Event F)) (s : Loadgen F)
        → ShowsNow s
        → ShowsNow (run of_int scan_millis group es s) ⊎ Shows 0 (run of_int scan_millis group es s)
    unfolding run print_summary
    run-Shows [] s h = inl h
    run-Shows (stop ∷ es) s h = inl (print_summary-Shows s.pub_this_sec s h)
    run-Shows (deadline groups now ∷ es) s h = inr (
        print_summary-Shows 0 (print_report of_int scan_millis group groups now s)
          (print_report-Shows groups now s h))
    run-Shows (report groups now ∷ es) s h = run-Shows es _ (print_report-Shows groups now s h)
    run-Shows (fire c sent ∷ es) s h = run-Shows es _ (publish_tick-ShowsNow c sent s h)
    run-Shows (fire c cancelled ∷ es) s h = inl (publish_tick-ShowsNow c cancelled s h)
    run-Shows (fire c failed ∷ es) s h = run-Shows es _ (publish_tick-ShowsNow c failed s h)
