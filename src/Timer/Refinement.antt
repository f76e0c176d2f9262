-- ===== src/Timer/Refinement.antt =====
-- A timer of src/timer.c against a stopwatch that keeps the spans it has measured.
use lua_testcase.Common.{
  ℕ, ◌+◌, ◌-◌, ◌*◌, ◌%◌, ◌≤◌, ◌<◌, ◌≡◌, refl, false, List, [], ◌∷◌, arith, if◌then◌else◌,
}
use lua_testcase.Common.Int.{minus_one, eqb_ℤ, u64_mod}
use lua_testcase.Lua.Run.{Action, Kernel, Trace, pure, get, put, ◌>>=◌, ◌>>◌}
use lua_testcase.Timer.{
  Call, clock_gettime, usleep, Reply, Timer, Reading, failed, at, nsec_in_sec, reading_of, getnsec,
  Handler, elapsed, elapsed_sec, stop, start, total, reset, new,
}

-- The methods of a timer.
pub data Method : Type 0 where
  starts stops elapses elapses_sec totals resets : Method

abbrev pub method : Method → Handler
method starts = start
method stops = stop
method elapses = elapsed
method elapses_sec = elapsed_sec
method totals = total
method resets = reset

-- The content of a timer, and the trace, after calls of its methods.
unfoldable pub session :
    Kernel Call Reply → List Method → Timer → Trace Call Reply → Timer × Trace Call Reply
session k [] s t = (s, t)
session k (m ∷ ms) s t = let (_, s', t') = method m k s t in session k ms s' t'

-- The stopwatch: the spans measured since the last reset, the last one first, each with its ends,
-- and the instant from which the next is measured. Its numbers are unbounded.
pub record Watch : Type 0 where
  pub spans : List (ℕ × ℕ)
  pub mark : ℕ

abbrev pub sum_spans : List (ℕ × ℕ) → ℕ
sum_spans [] = 0
sum_spans ((from, to) ∷ l) = (to - from) + sum_spans l

-- Each span ends no sooner than it begins, the last one no later than `now`, and each begins no
-- sooner than the one before it ends.
abbrev pub AreOrdered : ℕ → List (ℕ × ℕ) → Type 0
AreOrdered now [] = Unit
AreOrdered now ((from, to) ∷ l) = (from ≤ to) × (to ≤ now) × AreOrdered from l

abbrev marked : Watch → Reading → Watch
marked w (failed e) = w
marked w (at ns) = record w { mark = ns }

abbrev measured : Watch → Reading → Watch
measured w (failed e) = w
measured w (at ns) = record { spans = (w.mark, ns) ∷ w.spans; mark = ns }

abbrev watch_method : Method → Action Call Reply Watch (Unit {0})
watch_method starts = do r ← getnsec; put (marked (← get) r)
watch_method stops = do r ← getnsec; put (measured (← get) r)
watch_method elapses = do getnsec; pure tt
watch_method elapses_sec = do getnsec; pure tt
watch_method totals = pure tt
watch_method resets = put (record { spans = []; mark = 0 })

unfoldable pub watch :
    Kernel Call Reply → List Method → Watch → Trace Call Reply → Watch × Trace Call Reply
watch k [] w t = (w, t)
watch k (m ∷ ms) w t = let (_, w', t') = watch_method m k w t in watch k ms w' t'

abbrev pub time_of : Reply → ℕ
time_of r = r.sec * nsec_in_sec + r.nsec

-- The last instant that the clock has given.
abbrev pub last_time : Trace Call Reply → ℕ
last_time [] = 0
last_time ((clock_gettime, r) ∷ t) = if eqb_ℤ r.ret minus_one then last_time t else time_of r
last_time ((usleep n, r) ∷ t) = last_time t

-- CLOCK_MONOTONIC does not go back, and its nanoseconds fit in 64 bits (which they do for 584 years).
abbrev pub IsMonotonic : Kernel Call Reply → Type 0
IsMonotonic k =
    (t : Trace Call Reply)
    → eqb_ℤ (k t clock_gettime).ret minus_one ≡ false
    → (last_time t ≤ time_of (k t clock_gettime)) × (time_of (k t clock_gettime) < u64_mod)

-- What a timer and the stopwatch have to do with one another.
record Agree (s : Timer) (w : Watch) (t : Trace Call Reply) : Type 0 where
  total_sum : s.total ≡ sum_spans w.spans
  start_mark : s.start ≡ w.mark
  ordered : AreOrdered w.mark w.spans
  past : w.mark ≤ last_time t
  sum_le : sum_spans w.spans ≤ w.mark
  fits : w.mark < u64_mod

AreOrdered-le : (a b : ℕ) (l : List (ℕ × ℕ)) → a ≤ b → AreOrdered a l → AreOrdered b l
AreOrdered-le a b [] le h = tt
AreOrdered-le a b (x ∷ l) le h = (h.0, omega arith, h.2)

method-Agree :
    (k : Kernel Call Reply) (m : Method) (s : Timer) (w : Watch) (t : Trace Call Reply)
    → IsMonotonic k
    → Agree s w t
    → let (_, s', t') = method m k s t in
      let (_, w', t'') = watch_method m k w t in (t'' ≡ t') × Agree s' w' t'
unfolding start stop elapsed elapsed_sec total reset reading_of
method-Agree k starts s w t mono h =
    ground (arith, mono t, AreOrdered-le w.mark (time_of (k t clock_gettime) % u64_mod) w.spans)
method-Agree k stops s w t mono h = ground (arith, mono t)
method-Agree k elapses s w t mono h = ground (arith, mono t)
method-Agree k elapses_sec s w t mono h = ground (arith, mono t)
method-Agree k totals s w t mono h = (refl, h)
method-Agree k resets s w t mono h = ground arith

session-Agree :
    (k : Kernel Call Reply) (ms : List Method) (s : Timer) (w : Watch) (t : Trace Call Reply)
    → IsMonotonic k
    → Agree s w t
    → let (s', t') = session k ms s t in
      let (w', t'') = watch k ms w t in (t'' ≡ t') × Agree s' w' t'
unfolding session watch
session-Agree k [] s w t mono h = (refl, h)
session-Agree k (m ∷ ms) s w t mono h =
    let (same, next) = method-Agree k m s w t mono h in
    rw (same, watch)
      (session-Agree k ms (method m k s t).1 (watch_method m k w t).1 (method m k s t).2 mono next)

-- Whatever methods of a new timer are called, in whatever order and also after failures of the
-- clock, as long as the clock does not go back: it makes the clock calls that the stopwatch makes,
-- and the total that it keeps modulo 2 ^ 64 is the unbounded sum of the spans that the stopwatch
-- measured since the last reset, which do not overlap and end no later than the clock's last time.
-- A stop measures a span from the last start or stop at which the clock did not fail, and from 0 where
-- there has been none since the timer was new or reset; README.md says that it is from the last start.
pub session-watch :
    (k : Kernel Call Reply) (ms : List Method)
    → IsMonotonic k
    → let (s, t) = session k ms new [] in
      let (w, t') = watch k ms (record { spans = []; mark = 0 }) [] in
      (t' ≡ t)
      × (s.total ≡ sum_spans w.spans)
      × AreOrdered (last_time t) w.spans
      × (s.total ≤ last_time t)
unfolding new
session-watch k ms mono =
    let start : Watch = record { spans = []; mark = 0 } in
    let (same, agree) = session-Agree k ms new start [] mono (ground arith) in
    let w = (watch k ms start []).0 in
    let t = (session k ms new []).1 in
    (
      same,
      agree.total_sum,
      AreOrdered-le w.mark (last_time t) w.spans agree.past agree.ordered,
      omega (arith, agree.total_sum, agree.sum_le, agree.past),
    )
