-- ===== src/Runner/Tests.antt =====
-- lib/runner.lua on a file in a directory below the initial one, and its theorems there.
use lua_testcase.Lua.{string, nil}
use lua_testcase.Common.Int.{pos}
use lua_testcase.Lua.Run.{Kernel}
use lua_testcase.Common.{
  none, ◌∷◌, String, [], some, refl, if◌then◌else◌, str_eq, not, false, arith, ◌==◌, eq_iff, true,
}
use lua_testcase.Lua.Plain.{plain}
use lua_testcase.Runner.{Call, Reply, Source, xpcall, getpid, getcwd}
use lua_testcase.Runner.Functions.{IsCalm}
use lua_testcase.Lua.Ends.{Ends}
use lua_testcase.Runner.Run.{run, run_lem, Returned}
use lua_testcase.Runner.Directory.{directory, AreCalledIn, IsTracking}
use lua_testcase.Runner.Directory.Files.{Belongs, run-AreCalledIn}

abbrev file : Source
file = record {
  name = "lib/b_test.lua";
  dirname = "lib";
  before_all = none;
  after_all = some 5;
  before_each = some 6;
  after_each = none;
  tests = record { name = "add"; func = 7 } ∷ record { name = "sub"; func = 8 } ∷ [];
}

-- Paths that begin with a slash are absolute.
abbrev resolve : String → String → String
resolve d p = if str_eq p "lib" then "/work/lib" else p

-- Every function leaves the process in /tmp.
abbrev world : Kernel Call Reply
world t (xpcall f) = record {
  ret = pos 0;
  errno = 0;
  cwd = some "/tmp";
  ok = not (f == 7);
  err = string "failed";
}
world t getpid = record { ret = pos 42; errno = 0; cwd = none; ok = true; err = nil }
world t getcwd = record {
  ret = pos 0;
  errno = 0;
  cwd = some (directory resolve "/work" t);
  ok = true;
  err = nil;
}
world t c = record { ret = pos 0; errno = 0; cwd = none; ok = true; err = nil }

world-IsTracking : IsTracking resolve (pos 42) "/work" world
world-IsTracking = record { moves = λ p t. refl; knows = λ t. refl; stays = λ t. refl }

world-IsCalm : IsCalm (pos 42) world
world-IsCalm = record {
  moves = λ p t. refl;
  knows = λ t. (directory resolve "/work" t, refl);
  stays = λ t. refl;
}

run-AreCalledIn_example :
    Ends
      (λ r s t. AreCalledIn resolve (Belongs resolve "/work" (file ∷ [])) "/work" t)
      (run plain (pos 42) "/work" (file ∷ []) [] world false [])
run-AreCalledIn_example =
    run-AreCalledIn resolve plain (pos 42) "/work" "/work" world world-IsTracking (λ x. refl)
      (λ x p. ground (arith, eq_iff p "lib")) (file ∷ []) []

run_lem_example :
    Ends
      (Returned (file ∷ []) ("sub" ∷ []) [])
      (run plain (pos 42) "/work" (file ∷ []) ("sub" ∷ []) world false [])
run_lem_example = run_lem plain (pos 42) "/work" world world-IsCalm (file ∷ []) ("sub" ∷ []) []
