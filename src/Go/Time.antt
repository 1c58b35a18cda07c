-- ===== src/Go/Time.antt =====
-- time.Time and time.Duration. An instant is the number of nanoseconds since the zero Time
-- (January 1 of year 1, UTC), so instants before that year are not represented. A duration is a
-- signed number of nanoseconds; `sub` saturates at the ends of int64, as Time.Sub does.
use crypto_divergence_engine.Prelude.{
  ℕ, ◌+◌, ◌-◌, ◌*◌, ◌/◌, ◌%◌, ◌^◌, ◌≤◌, min, ◌≡◌, Bool, arith, ltb, leb, ◌==◌, if◌then◌else◌,
}
use crypto_divergence_engine.Prelude.Int.{ℤ, pos, negsuc, sub_ℕ, ltb_ℤ, pos_part, ◌+ℤ◌}

abbrev pub Time : Type 0
Time = ℕ

abbrev pub Duration : Type 0
Duration = ℤ

abbrev pub second : ℕ
second = 1_000_000_000

abbrev pub minute : ℕ
minute = 60 * second

abbrev pub hour : ℕ
hour = 60 * minute

abbrev pub max_duration : ℕ
max_duration = 2 ^ 63 - 1

-- t.IsZero()
abbrev pub is_zero : Time → Bool
is_zero t = t == 0

-- t.Sub(u)
unfoldable pub sub : Time → Time → Duration
sub t u = if leb u t then pos (min (t - u) max_duration) else negsuc (min (u - t - 1) max_duration)

-- d < m for a duration constant m
abbrev pub lt_duration : Duration → ℕ → Bool
lt_duration d m = ltb_ℤ d (pos m)

-- at.After(now.Add(-window)): the comparison is made without leaving the natural numbers.
abbrev pub after_cutoff : Time → Time → ℕ → Bool
after_cutoff at now window = ltb now (at + window)

-- seen.Before(now.Add(-window))
abbrev pub before_cutoff : Time → Time → ℕ → Bool
before_cutoff seen now window = ltb (seen + window) now

-- t.Truncate(d), for a positive d
unfoldable pub truncate : Time → ℕ → Time
truncate t d = t - t % d

-- t.Unix(): whole seconds since January 1 of 1970
unfoldable pub unix : Time → ℤ
unix t = sub_ℕ (t / second) 62_135_596_800

-- t.UnixMilli()
unfoldable pub unix_milli : Time → ℤ
unix_milli t = sub_ℕ (t / 1_000_000) 62_135_596_800_000

-- time.UnixMilli(ms), for an instant that is not before the year 1970
unfoldable pub of_unix_milli : ℕ → Time
of_unix_milli ms = (62_135_596_800_000 + ms) * 1_000_000

-- time.UnixMilli(ms); the instants before year 1 are taken to be the zero Time
unfoldable pub of_milli : ℤ → Time
of_milli ms = pos_part (ms +ℤ pos 62_135_596_800_000) * 1_000_000

-- Below the saturation bound a test on `sub` is a test on the instants.
pub lt_duration-sub : (t u m : ℕ) → m ≤ max_duration → lt_duration (sub t u) m ≡ ltb t (u + m)
unfolding sub
lt_duration-sub t u m h = ground arith
