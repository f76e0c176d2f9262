-- ===== src/Timer/Tests.antt =====
-- Runs of the timer of src/timer.c, and its theorems at concrete inputs.
use lua_testcase.Timer.Sleep.{
  SleepCall, Floats, sleep_lua, timespec, shifted, nanosleep, seconds, nanoseconds, one_unit,
  sleep_lua_asks,
}
use lua_testcase.Common.{
  ◌+◌, ◌/◌, ◌%◌, ◌≤◌, ◌<◌, ◌≡◌, refl, List, [], ◌∷◌, arith, ltb, if◌then◌else◌, ℕ, some, ◌^◌, ◌*◌,
}
use lua_testcase.Common.Int.{pos, minus_one, u64_mod}
use lua_testcase.Lua.{quotient}
use lua_testcase.Lua.Run.{Kernel, returned}
use lua_testcase.Timer.{
  Call, Reply, nsec_in_sec, reading_of, nsec2utime, elapsed, stop, start, total, new,
}
use lua_testcase.Timer.Refinement.{
  Method, session, starts, stops, elapses, totals, watch, sum_spans, AreOrdered, last_time,
  IsMonotonic, session-watch,
}

-- A clock that moves on by one second and five nanoseconds at each call, until it would not fit.
abbrev ticking : Kernel Call Reply
ticking t c =
    let now = last_time t + 1_000_000_005 in
    record {
      ret = if ltb now u64_mod then pos 0 else minus_one;
      errno = 22;
      sec = now / nsec_in_sec;
      nsec = now % nsec_in_sec;
    }

ticking-IsMonotonic : IsMonotonic ticking
ticking-IsMonotonic t = ground arith

-- A clock that always fails.
abbrev broken : Kernel Call Reply
broken t c = record { ret = minus_one; errno = 22; sec = 0; nsec = 0 }

abbrev methods : List Method
methods = starts ∷ stops ∷ elapses ∷ stops ∷ starts ∷ totals ∷ stops ∷ []

-- Three spans: 1 to 2, 2 to 4 and 5 to 6 ticks.
methods_run :
    (session ticking methods new []).0 ≡ record { total = 4_000_000_020; start = 6_000_000_030 }
unfolding session start stop elapsed total new reading_of nsec2utime
methods_run = refl

session-watch_example :
    let (s, t) = session ticking methods new [] in
    let (w, t') = watch ticking methods (record { spans = []; mark = 0 }) [] in
    (t' ≡ t)
    × (s.total ≡ sum_spans w.spans)
    × AreOrdered (last_time t) w.spans
    × (s.total ≤ last_time t)
session-watch_example = session-watch ticking methods ticking-IsMonotonic

-- Every argument is one and a half, and products are exact.
abbrev exact : Floats
exact = record { to_number = λ a. some (pos (shifted 3 1073)); round = λ v. v }

abbrev always : Kernel SleepCall (Unit {0})
always t c = tt

half_more :
    sleep_lua exact (quotient 3 2 ∷ []) always tt []
    ≡ (returned [], tt, (nanosleep (pos 1) (pos 500_000_000), tt) ∷ [])
unfolding sleep_lua timespec seconds nanoseconds
half_more = refl

sleep_lua_asks_example :
    (s : ℕ) × (n : ℕ) × (sleep_lua exact (quotient 3 2 ∷ []) always tt []
      ≡ (returned [], tt, (nanosleep (pos s) (pos n), tt) ∷ []))
    × (s < 2 ^ 63)
    × (n < nsec_in_sec)
    × ((s * nsec_in_sec + n) * one_unit ≤ shifted 3 1073 * nsec_in_sec + 2 ^ 1051)
    × (shifted 3 1073 * nsec_in_sec < (s * nsec_in_sec + n + 1) * one_unit + 2 ^ 1051)
sleep_lua_asks_example =
    sleep_lua_asks exact (λ v c e h. omega arith) 3 1073 (omega arith) always (quotient 3 2 ∷ [])
      refl (omega arith)
