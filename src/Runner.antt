-- ===== src/Runner.antt =====
-- lib/runner.lua: the test functions of the registered files and their setup and teardown functions,
-- run in order. The world answers each call: what it prints, the times of its timer and the collector's
-- run are left out. A function is known by a number, and runs under xpcall with traceback, which answers
-- whether it returned, and its error. The state of a run is DO_NOT_RUN.
pub mod Functions
pub mod Counts
pub mod Files
pub mod Selection
pub mod Totals
pub mod Run
pub mod Directory
mod Tests
use lua_testcase.Common.{
  ℕ, ◌+◌, Bool, true, false, not, String, List, [], ◌∷◌, ◌++◌, Option, none, some, if◌then◌else◌,
  length, suc,
}
use lua_testcase.Common.Int.{ℤ, eqb_ℤ}
use lua_testcase.Lua.{Value, nil, boolean, integer, string, Conversions, Raise}
use lua_testcase.Lua.Run.{Action, ◌>>=◌, ◌>>◌, pure, call, raise, exit, when}
use lua_testcase.Process.{chdir_lua, getpid_lua}

-- getcwd of lib/getcwd.lua, chdir(2), getpid(2), hook and unhook of iohook, start and stop of the
-- timer, and xpcall on a function.
pub data Call : Type 0 where
  getcwd getpid hook unhook start stop : Call
  chdir : String → Call
  xpcall : ℕ → Call

-- The return value and errno of a system call; the directory that getcwd names; and how a function
-- ended, with its error.
pub record Reply : Type 0 where
  pub ret : ℤ
  pub errno : ℕ
  pub cwd : Option String
  pub ok : Bool
  pub err : Value

-- An item of the registry's list.
pub record Test : Type 0 where
  pub name : String
  pub func : ℕ

pub record Source : Type 0 where
  pub name : String
  pub dirname : String
  pub before_all : Option ℕ
  pub after_all : Option ℕ
  pub before_each : Option ℕ
  pub after_each : Option ℕ
  pub tests : List Test

-- An entry of a list of errors.
pub record Failure : Type 0 where
  pub name : String
  pub error : Value

abbrev pub Routine : Type 0 → Type 0
Routine A = Action Call Reply Bool A

abbrev pub truthy : Value → Bool
truthy nil = false
truthy (boolean b) = b
truthy _ = true

-- The first and the second value of a list of results.
abbrev pub result₁ : List Value → Value
result₁ [] = nil
result₁ (v ∷ l) = v

abbrev pub result₂ : List Value → Value
result₂ [] = nil
result₂ (v ∷ l) = result₁ l

abbrev pub is_number : ℤ → Value → Bool
is_number n (integer v) = eqb_ℤ v n
is_number n _ = false

-- assert
abbrev pub asserted : {A : Type 0} → Option A → Routine A
asserted (some a) = pure a
asserted none = raise (Raise.error "assertion failed!")

abbrev pub system_chdir : String → Routine (ℤ × ℕ)
system_chdir path = do r ← call (chdir path); pure (r.ret, r.errno)

abbrev pub system_getpid : Routine ℤ
system_getpid = do r ← call getpid; pure r.ret

-- What run_test and run_setup_teadown make of the result of call.
abbrev pub test_result : Bool × Value → Bool × Value
test_result (ok, err) = if ok then (true, nil) else (false, err)

abbrev pub part_result : Bool × Value → Bool × Value
part_result (ok, err) = if (if not ok then truthy err else false) then (false, err) else (ok, nil)

-- What the result of a test adds to the successes, and that of any function to the errors.
abbrev pub add_success : Bool × Value → ℕ → ℕ
add_success (ok, err) n = if ok then suc n else n

abbrev pub add_failure : String → Bool × Value → List Failure → List Failure
add_failure name (ok, err) errs =
    if ok then errs else errs ++ record { name = name; error = err } ∷ []

-- What run has counted: the successes, the tests, the errors by file, and how many they are.
pub record Report : Type 0 where
  pub nsuccess : ℕ
  pub ntest : ℕ
  pub errors : List (String × List Failure)
  pub count : ℕ

-- What a file adds to the report.
abbrev pub add_file : Source → ℕ × List Failure → Report → Report
add_file src (n, []) r = record r { nsuccess = r.nsuccess + n; ntest = r.ntest + length src.tests }
add_file src (n, e ∷ errs) r = record {
  nsuccess = r.nsuccess + n;
  ntest = r.ntest + length src.tests;
  errors = r.errors ++ (src.name, e ∷ errs) ∷ [];
  count = r.count + length (e ∷ errs);
}

-- The constants PID of this module and CWD of lib/filesystem.lua are parameters.
module _ (c : Conversions) (pid : ℤ) (home : String) where
  -- chdir of lib/filesystem.lua: nil, or the error.
  unfoldable pub change_dir : Option String → Routine Value
  unfolding chdir_lua
  change_dir pathname = do
    l ← chdir_lua system_chdir c (string (elim pathname [ none ↦ home | some p ↦ p ]) ∷ [])
    pure (if truthy (result₁ l) then nil else result₂ l)

  -- err = chdir(pathname); assert(not err, err)
  unfoldable pub must_change_dir : Option String → Routine (Unit {0})
  unfolding change_dir
  must_change_dir pathname = do
    err ← change_dir pathname
    asserted (if truthy err then none else some tt)

  unfoldable pub call_function : ℕ → Routine (Bool × Value)
  unfolding must_change_dir getpid_lua
  call_function func = do
    here ← call getcwd
    cwd ← asserted here.cwd
    call hook
    call start
    r ← call (xpcall func)
    call stop
    call unhook
    l ← getpid_lua system_getpid
    when (not (is_number pid (result₁ l))) (exit 0)
    must_change_dir (some cwd)
    pure (r.ok, r.err)

  unfoldable pub run_test : Test → Routine (Bool × Value)
  run_test test = do r ← call_function test.func; pure (if r.0 then (true, nil) else (false, r.1))

  unfoldable pub run_setup_teardown : ℕ → Routine (Bool × Value)
  run_setup_teardown func = do r ← call_function func; pure (part_result r)

  -- The function that a file may have; true where it has none.
  unfoldable pub run_part : Option ℕ → Routine (Bool × Value)
  run_part none = pure (true, nil)
  run_part (some func) = run_setup_teardown func

  -- The rest of a round of the loop over the tests, after before_each; next is the next round.
  unfoldable pub test_round :
      Source
      → Test
      → (ℕ → List Failure → Routine (ℕ × List Failure))
      → ℕ
      → List Failure
      → Routine (ℕ × List Failure)
  test_round src test next nsuccess errs = do
    r ← run_test test
    a ← run_part src.after_each
    (if a.0
        then next (add_success r nsuccess) (add_failure test.name r errs)
        else pure
            (add_success r nsuccess, add_failure "after_each" a (add_failure test.name r errs)))

  -- The loop over the tests of a file.
  unfoldable pub run_tests : Source → List Test → ℕ → List Failure → Routine (ℕ × List Failure)
  run_tests src [] nsuccess errs = pure (nsuccess, errs)
  run_tests src (test ∷ tests) nsuccess errs = do
    b ← run_part src.before_each
    (if b.0
        then test_round src test (run_tests src tests) nsuccess errs
        else pure (nsuccess, add_failure "before_each" b errs))

  -- The rest of run_file, after before_all.
  unfoldable pub run_file_tests : Source → Routine (ℕ × List Failure)
  run_file_tests src = do
    r ← run_tests src src.tests 0 []
    a ← run_part src.after_all
    pure (r.0, add_failure "after_all" a r.1)

  unfoldable pub run_file : Source → Routine (ℕ × List Failure)
  run_file src = do
    b ← run_part src.before_all
    (if b.0 then run_file_tests src else pure (0, add_failure "before_all" b []))

  unfoldable pub run_files : List Source → Report → Routine Report
  run_files [] r = pure r
  run_files (src ∷ list) r = do
    must_change_dir none
    must_change_dir (some src.dirname)
    f ← run_file src
    run_files list (add_file src f r)
