-- ===== src/Timer.antt =====
-- src/timer.c: the stopwatch userdatum and the clock. The state of a run is the userdatum's content,
-- two uint64_t; `clock_gettime` and `usleep` are calls of the system. A lua_Number that the code
-- computes by a division stays the pair of the operands; the comparisons of nsec2utime with its
-- long double constants are exact on the numbers below 2 ^ 53, where each constant lies, and keep
-- the side on the numbers above, so they are comparisons of numbers here.
pub mod Units
pub mod Refinement
pub mod Clock
pub mod Sleep
mod Tests
use lua_testcase.Common.{
  ℕ, ◌+◌, ◌-◌, ◌*◌, ◌/◌, ◌%◌, ◌^◌, Bool, true, false, List, [], ◌∷◌, leb, if◌then◌else◌,
}
use lua_testcase.Common.Int.{ℤ, minus_one, eqb_ℤ, to_u32, u64_mod}
use lua_testcase.Lua.Format.{pointer_text}
use lua_testcase.Lua.{Value, nil, boolean, quotient, string, strerror, Conversions}
use lua_testcase.Lua.Run.{Action, pure, call, get, put, ◌>>=◌, ◌>>◌}
use lua_testcase.Lua.Args.{check_integer}

abbrev pub nsec_in_sec : ℕ
nsec_in_sec = 1_000_000_000

pub data Call : Type 0 where
  clock_gettime : Call
  usleep : ℕ → Call

-- The return value, errno, and the timespec that clock_gettime fills in.
pub record Reply : Type 0 where
  pub ret : ℤ
  pub errno : ℕ
  pub sec : ℕ
  pub nsec : ℕ

-- testcase_timer_t
pub record Timer : Type 0 where
  pub total : ℕ
  pub start : ℕ

-- What getnsec gives: -1 with errno, or the time.
pub data Reading : Type 0 where
  failed : ℕ → Reading
  at : ℕ → Reading

-- a - b and a + b on uint64_t
abbrev pub sub_u64 : ℕ → ℕ → ℕ
sub_u64 a b = (a + u64_mod - b) % u64_mod

abbrev pub add_u64 : ℕ → ℕ → ℕ
add_u64 a b = (a + b) % u64_mod

unfoldable pub reading_of : Reply → Reading
reading_of r =
    if eqb_ℤ r.ret minus_one then failed r.errno else at ((r.sec * nsec_in_sec + r.nsec) % u64_mod)

abbrev pub getnsec : {S : Type 0} → Action Call Reply S Reading
getnsec = do r ← call clock_gettime; pure (reading_of r)

unfoldable pub nsec2utime : ℕ → List Value
nsec2utime ns =
    if leb 60_000_000_000 ns
    then quotient ns 60_000_000_000 ∷ string "%.3f m" ∷ string "m" ∷ []
    else if leb 1_000_000_000 ns
    then quotient ns 1_000_000_000 ∷ string "%.3f s" ∷ string "s" ∷ []
    else if leb 1_000_000 ns
    then quotient ns 1_000_000 ∷ string "%.3f ms" ∷ string "ms" ∷ []
    else if leb 1_000 ns
    then quotient ns 1_000 ∷ string "%.3f us" ∷ string "us" ∷ []
    else quotient ns 1 ∷ string "%d ns" ∷ string "ns" ∷ []

abbrev pub Handler : Type 0
Handler = Action Call Reply Timer (List Value)

elapsed_at : Bool → Timer → Reading → List Value
elapsed_at in_sec t (failed e) = nil ∷ strerror e ∷ []
elapsed_at true t (at ns) = quotient (sub_u64 ns t.start) nsec_in_sec ∷ []
elapsed_at false t (at ns) = nsec2utime (sub_u64 ns t.start)

get_elapsed : Bool → Handler
unfolding elapsed_at
get_elapsed in_sec = do t ← get; r ← getnsec; pure (elapsed_at in_sec t r)

unfoldable pub elapsed : Handler
unfolding get_elapsed
elapsed = get_elapsed false

unfoldable pub elapsed_sec : Handler
unfolding get_elapsed
elapsed_sec = get_elapsed true

stop_at : Timer → Reading → Handler
stop_at t (failed e) = pure (nil ∷ strerror e ∷ [])
stop_at t (at ns) =
    let span = sub_u64 ns t.start in
    put (record { total = add_u64 t.total span; start = ns }) >> pure (nsec2utime span)

unfoldable pub stop : Handler
unfolding stop_at
stop = do t ← get; r ← getnsec; stop_at t r

start_at : Timer → Reading → Handler
start_at t (failed e) = pure (boolean false ∷ strerror e ∷ [])
start_at t (at ns) = put (record t { start = ns }) >> pure (boolean true ∷ [])

unfoldable pub start : Handler
unfolding start_at
start = do t ← get; r ← getnsec; start_at t r

unfoldable pub total : Handler
total = do t ← get; pure (nsec2utime t.total)

unfoldable pub reset : Handler
reset = do put (record { total = 0; start = 0 }); pure []

-- The content of the userdatum that new_lua makes.
unfoldable pub new : Timer
new = record { total = 0; start = 0 }

-- usleep(usec), where useconds_t has 32 bits
unfoldable pub usleep_lua : Conversions → List Value → Action Call Reply (Unit {0}) (List Value)
usleep_lua c args = do usec ← check_integer c args 1; call (usleep (to_u32 usec)); pure []

-- What the system prints of the userdatum's address is an argument.
pub tostring_lua : List ℕ → Handler
tostring_lua pointer = pure (pointer_text "testcase.timer" pointer ∷ [])
