-- ===== src/Conversion/Timers.antt =====
-- internal/conversion/frr_conversion.go, parseTimers: BGP timers from durations in nanoseconds.
use pierre.Base.{
  ℕ, zero, suc, ◌-◌, ◌/◌, ◌^◌, ◌≤◌, ◌<◌, ℤ, pos, negsuc, ◌≡◌, refl, ◌⊎◌, Bool, not, ◌&&◌, Option,
  none, some, Result, ok, err, errorf, eq_int, if◌then◌else◌, arith, ◌↔◌,
}
use pierre.Base.Int.{ltb_ℤ}

abbrev pub second : ℕ
second = 1000000000

-- The quotient of two ints, which Go rounds towards zero.
abbrev pub negated : ℕ → ℤ
negated zero = pos 0
negated (suc n) = negsuc n

unfoldable pub whole_seconds : ℤ → ℤ
whole_seconds (pos n) = pos (n / second)
whole_seconds (negsuc n) = negated (suc n / second)

-- The conversion uint64(x), which wraps around.
unfoldable pub to_uint64 : ℤ → ℕ
to_uint64 (pos n) = n
to_uint64 (negsuc n) = 2 ^ 64 - suc n

-- `rounded != 0 && rounded < 3*time.Second`. `rounded` goes through a float64; below three seconds
-- this is exact, and from there on it stays at three seconds or more.
invalid_hold_time : ℤ → Bool
unfolding whole_seconds
invalid_hold_time ht = let s = whole_seconds ht in not (eq_int s (pos 0)) && ltb_ℤ s (pos 3)

both : ℤ → ℤ → Result (Option ℕ × Option ℕ)
unfolding invalid_hold_time to_uint64
both ht ka =
    if invalid_hold_time ht
    then err (errorf "invalid hold time: must be 0 or >=3s")
    else if ltb_ℤ ht ka
    then err (errorf "invalid keepaliveTime, must be lower than holdTime")
    else ok (some (to_uint64 (whole_seconds ht)), some (to_uint64 (whole_seconds ka)))

unfoldable pub parse_timers : Option ℤ → Option ℤ → Result (Option ℕ × Option ℕ)
unfolding both
parse_timers none none = ok (none, none)
parse_timers (some ht) (some ka) = both ht ka
parse_timers _ _ = err (errorf "one of KeepaliveTime/HoldTime specified, both must be set or none")

-- For durations that are not negative: accepted are the pairs in which the keepalive time is at
-- most the hold time and the hold time, in whole seconds, is 0 or at least 3. The timers are the
-- whole seconds of the durations, so the keepalive timer is at most the hold timer.
pub parse_timers_iff :
    (ht ka h k : ℕ)
    → (parse_timers (some (pos ht)) (some (pos ka)) ≡ ok (some h, some k))
      ↔ ((ka ≤ ht) × ((h ≡ 0) ⊎ (3 ≤ h)) × (h ≡ ht / second) × (k ≡ ka / second))
unfolding parse_timers
parse_timers_iff ht ka h k = (λ e. ground arith, λ p. ground arith)

to_uint64-negated : (m : ℕ) → 0 < m → to_uint64 (negated m) ≡ 2 ^ 64 - m
unfolding to_uint64
to_uint64-negated zero h = absurd (omega arith)
to_uint64-negated (suc m) h = refl

-- A keepalive time below minus one second is not refused: beside a hold time of 0 it becomes
-- a timer of at least 2^63 seconds.
pub parse_timers_negative :
    (n : ℕ)
    → second ≤ n
    → n < 2 ^ 63
    → (k : ℕ) × (parse_timers (some (pos 0)) (some (negsuc n)) ≡ ok (some 0, some k)) × (2 ^ 63 ≤ k)
unfolding parse_timers
parse_timers_negative n p q =
    (2 ^ 64 - (suc n / second), ground (arith, to_uint64-negated (suc n / second)), omega arith)
