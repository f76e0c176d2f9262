-- ===== src/Timer/Clock.antt =====
-- src/timer.c: getnsec_ex where the system is Darwin, nanotime_lua, and the clock's failures.
use lua_testcase.Common.{
  ℕ, ◌-◌, ◌*◌, ◌/◌, ◌%◌, ◌<◌, ◌≡◌, ap, true, false, List, [], ◌∷◌, arith, if◌then◌else◌,
}
use native.Mathlib.Nat.{div-le_self}
use lua_testcase.Common.Int.{pos, minus_one, eqb_ℤ, u64_mod}
use lua_testcase.Lua.{Value, nil, boolean, strerror, sum_quotient}
use lua_testcase.Lua.Run.{Action, Kernel, Trace, returned, pure, call, ◌>>=◌}
use lua_testcase.Timer.{
  Call, clock_gettime, Reply, Timer, at, nsec_in_sec, reading_of, elapsed, elapsed_sec, stop, start,
}

-- mach_timebase_info_data_t
pub record Timebase : Type 0 where
  pub numer : ℕ
  pub denom : ℕ

-- The nanoseconds of a count of ticks: the product wraps, then the division truncates. (The system
-- gives a denominator that is not 0.)
abbrev pub mach_time : Timebase → ℕ → ℕ
mach_time b ticks = (ticks * b.numer % u64_mod) / b.denom

-- getnsec_ex on Darwin, which cannot fail.
unfoldable pub mach_getnsec_ex : Timebase → ℕ → Reply
mach_getnsec_ex b ticks =
    let ns = mach_time b ticks in
    let sec = ns / nsec_in_sec in
    record { ret = pos 0; errno = 0; sec = sec; nsec = ns - sec * nsec_in_sec }

unfoldable pub nanotime : Action Call Reply (Unit {0}) (List Value)
nanotime = do
  r ← call clock_gettime
  pure (
      if eqb_ℤ r.ret minus_one
      then nil ∷ strerror r.errno ∷ []
      else sum_quotient r.sec r.nsec nsec_in_sec ∷ [])

-- On Darwin the time is split into seconds and nanoseconds below a second, and getnsec puts the
-- two together to the time that the ticks stand for.
pub mach_getnsec_ex-reading_of :
    (b : Timebase) (ticks : ℕ)
    → ((mach_getnsec_ex b ticks).nsec < nsec_in_sec)
      × (reading_of (mach_getnsec_ex b ticks) ≡ at (mach_time b ticks))
unfolding mach_getnsec_ex reading_of
mach_getnsec_ex-reading_of b ticks =
    let fits : mach_time b ticks < u64_mod =
      omega (arith, div-le_self (ticks * b.numer % u64_mod) b.denom) in
    (omega arith, ap at (omega arith))

-- Where the clock fails, start gives false, stop, elapsed and elapsed_sec give nil, each with the
-- message for errno, after one call; and the timer is as it was.
pub clock_failure :
    (k : Kernel Call Reply) (s : Timer) (t : Trace Call Reply)
    → eqb_ℤ (k t clock_gettime).ret minus_one ≡ true
    → let r = k t clock_gettime in
      let after = (clock_gettime, r) ∷ t in
      (start k s t ≡ (returned (boolean false ∷ strerror r.errno ∷ []), s, after))
      × (stop k s t ≡ (returned (nil ∷ strerror r.errno ∷ []), s, after))
      × (elapsed k s t ≡ (returned (nil ∷ strerror r.errno ∷ []), s, after))
      × (elapsed_sec k s t ≡ (returned (nil ∷ strerror r.errno ∷ []), s, after))
unfolding start stop elapsed elapsed_sec reading_of
clock_failure k s t h = ground arith
