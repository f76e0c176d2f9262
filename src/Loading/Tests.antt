-- ===== src/Loading/Tests.antt =====
-- The luaopen_* functions on an empty machine, and their theorems at concrete inputs.
use lua_testcase.Lua.Plain.{plain}
use lua_testcase.Loading.Calls.{Runs, open_all-Runs}
use lua_testcase.Common.Int.{pos}
use lua_testcase.Loading.Userdata.Dispatch.{timer, socketpair, fork}
use lua_testcase.Loading.Userdata.{luaopen_timer, luaopen_fork, set_methods, timer_module}
use lua_testcase.Loading.Userdata.Methods.{open_all}
use lua_testcase.Loading.Loops.{fill_do, fill}
use lua_testcase.Common.{[], Option, ◌≡◌, some, ◌∷◌, none, false, true, All, List, refl}
use lua_testcase.Socketpair
use lua_testcase.Fork
use lua_testcase.Loading.{Machine, table, cfunction, Item}

abbrev empty : Machine
empty = record { heap = λ a. []; next = 0; registry = []; stack = [] }

-- The machine where timer and fork have been opened.
abbrev two_open : Option ((Unit {0}) × Machine)
two_open = open_all true (timer ∷ fork ∷ []) empty

abbrev stack_of : Option ((Unit {0}) × Machine) → List Item
stack_of none = []
stack_of (some (u, s)) = s.stack

the_stack : stack_of two_open ≡ cfunction "fork_lua" ∷ table 2 ∷ []
unfolding open_all luaopen_timer luaopen_fork set_methods fill fill_do timer_module
the_stack = refl

abbrev platform : Socketpair.Platform
platform = record { o_nonblock = 2048; eagain = 11; ewouldblock = 11 }

abbrev macros : Fork.Macros
macros = record {
  is_exited = λ w. true;
  exit_status = λ w. pos 0;
  is_signaled = λ w. false;
  term_sig = λ w. pos 0;
  has_core_dump = λ w. false;
  is_stopped = λ w. false;
  stop_sig = λ w. pos 0;
  is_continued = λ w. false;
}

abbrev errno : Fork.Errno
errno = record { echild = 10; eagain = 11 }

open_all-Runs_example :
    (s' : Machine) × (open_all false (socketpair ∷ timer ∷ fork ∷ []) empty ≡ some (tt, s'))
    × All (Runs platform plain macros errno s') (socketpair ∷ timer ∷ fork ∷ [])
open_all-Runs_example =
    open_all-Runs platform plain macros errno false (socketpair ∷ timer ∷ fork ∷ []) empty
      ((refl, (refl, tt)), ((refl, tt), (tt, tt))) (refl, (refl, (refl, tt)))
