-- ===== src/Command/Tests.antt =====
-- The end of bin/testcase.lua on two test files, and its theorem there.
use lua_testcase.Registry.Added.{first}
use lua_testcase.Lua.{string, nil, Value}
use lua_testcase.Lua.Run.{Kernel, returned, exited}
use lua_testcase.Common.Int.{pos}
use lua_testcase.Common.{
  ℕ, none, ◌∷◌, some, List, String, [], refl, true, not, ◌≡◌, ◌==◌, IsOneOf, false,
}
use lua_testcase.Lua.Plain.{plain}
use lua_testcase.Command.Registered.{outcome, trace_of, main_runs_tests}
use lua_testcase.Registry.{
  sources_of, getlist, added, is_part, visit, lookup, assign, enter, add, add_checked,
}
use lua_testcase.Registry.Tests.{
  additions, pairs, sort, shorter, pairs_law, sort_law, shorter-IsOrder,
}
use lua_testcase.Command.{main, main_status, Verdict}
use lua_testcase.Runner.Run.{run, run_list}
use lua_testcase.Runner.Selection.{
  count_of, set_count, start_targets, pick, select_sources, select_testcases,
}
use lua_testcase.Runner.{
  run_files, must_change_dir, run_file, run_part, run_setup_teardown, call_function, run_file_tests,
  run_tests, test_round, run_test, Call, Reply, Source, Test, xpcall, getpid,
}
use lua_testcase.Runner.Functions.{IsCalm, fails, ran}

abbrev test : String → ℕ → Test
test name func = record { name = name; func = func }

abbrev first_file : Source
first_file = record {
  name = "a_test.lua";
  dirname = ".";
  before_all = some 1;
  after_all = none;
  before_each = some 2;
  after_each = none;
  tests = test "add" 3 ∷ test "sub" 4 ∷ [];
}

abbrev second_file : Source
second_file = record {
  name = "lib/b_test.lua";
  dirname = "lib";
  before_all = none;
  after_all = some 5;
  before_each = none;
  after_each = some 6;
  tests = test "add" 7 ∷ [];
}

abbrev both : List Source
both = first_file ∷ second_file ∷ []

-- A system on which the function of a number fails.
abbrev failing : ℕ → Kernel Call Reply
failing n t (xpcall f) = record {
  ret = pos 0;
  errno = 0;
  cwd = none;
  ok = not (f == n);
  err = string "assertion failed!";
}
failing n t getpid = record { ret = pos 42; errno = 0; cwd = none; ok = true; err = nil }
failing n t c = record { ret = pos 0; errno = 0; cwd = some "/work"; ok = true; err = nil }

failing-IsCalm : (n : ℕ) → IsCalm (pos 42) (failing n)
failing-IsCalm n = record { moves = λ p t. refl; knows = λ t. ("/work", refl); stays = λ t. refl }

main_status_example :
    Verdict [] both
      ("add" ∷ [])
      (main plain (pos 42) "/work" [] both ("add" ∷ []) (failing 4) true [])
main_status_example =
    main_status plain (pos 42) "/work" (failing 4) [] both ("add" ∷ []) (failing-IsCalm 4)

command : Unit {0}
unfolding main run run_list run_files must_change_dir run_file run_part run_setup_teardown
    call_function run_file_tests run_tests test_round run_test count_of set_count start_targets pick
    select_sources select_testcases
command = tt

-- The test that fails is not asked for.
add_passes :
    outcome (main plain (pos 42) "/work" [] both ("add" ∷ []) (failing 4) true []) ≡ returned tt
unfolding command
add_passes = refl

all_fail : outcome (main plain (pos 42) "/work" [] both [] (failing 4) true []) ≡ exited 255
unfolding command
all_fail = refl

registry : Unit {0}
unfolding getlist visit lookup assign enter add add_checked is_part
registry = tt

-- The functions of the registry's example, of which none fails.
abbrev registered : List Source
registered = sources_of (getlist pairs sort shorter (added additions [])).0

registered_passes :
    outcome (main plain (pos 42) "/work" [] registered [] (failing 99) true []) ≡ returned tt
unfolding command registry
registered_passes = refl

registered_add :
    first "a_test.lua" "add" additions ≡ some (record { name = "add"; func = 1; lineno = 10 })
unfolding registry
registered_add = refl

add_is_test : is_part "add" ≡ false
unfolding registry
add_is_test = refl

main_runs_tests_example :
    (◌≡◌ {A = List (String × Value)} [] [])
    × (fails (trace_of (main plain (pos 42) "/work" [] registered [] (failing 99) true [])) ≡ 0)
    × IsOneOf 1 (ran (trace_of (main plain (pos 42) "/work" [] registered [] (failing 99) true [])))
main_runs_tests_example =
    main_runs_tests pairs sort shorter plain (pos 42) "/work" (failing 99) [] additions "a_test.lua"
      "add" (record { name = "add"; func = 1; lineno = 10 }) pairs_law sort_law shorter-IsOrder
      (failing-IsCalm 99) registered_add add_is_test registered_passes
