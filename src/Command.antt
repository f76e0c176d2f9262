-- ===== src/Command.antt =====
-- The end of bin/testcase.lua: from the test files that have been loaded, and those that could not be,
-- to the status of the process. What it prints is left out.
pub mod Registered
pub mod Selected
mod Tests
use lua_testcase.Lua.Ends.{Ends}
use lua_testcase.Lua.Run.{Kernel, exit, Outcome, ◌>>◌, Trace, when, returned, ◌>>=◌, exited, raised}
use lua_testcase.Common.Int.{ℤ}
use lua_testcase.Lua.{Conversions, Value}
use lua_testcase.Common.{
  List, ℕ, String, Bool, true, if◌then◌else◌, ◌∷◌, [], ltb, false, ◌≡◌, ◌-◌, ◌==◌, Bool-cases, not,
  inl, inr, arith,
}
use lua_testcase.Runner.{Source, Report, Routine, Call, Reply}
use lua_testcase.Runner.Totals.{FilesDone, declared_in}
use lua_testcase.Runner.Functions.{ran, fails, IsCalm}
use lua_testcase.Runner.Run.{
  Ran, refused, finished, run, unblock, selected, has_unknown, run_lem, Returned, start_report,
}

abbrev pub is_empty : {A : Type 0} → List A → Bool
is_empty [] = true
is_empty (x ∷ l) = false

-- exit(-1)
abbrev pub failure_status : ℕ
failure_status = 255

-- nfailure > 0 or errors.count > 0 or #errfiles > 0
abbrev pub has_failed : Report → List (String × Value) → Bool
has_failed r errfiles =
    if ltb 0 (r.ntest - r.nsuccess)
    then true
    else if ltb 0 r.count
    then true
    else not (is_empty errfiles)

module _ (c : Conversions) (pid : ℤ) (home : String) where
  abbrev conclude : List (String × Value) → Ran → Routine (Unit {0})
  conclude errfiles (refused err) = exit failure_status
  conclude errfiles (finished r) = when (has_failed r errfiles) (exit failure_status)

  -- What follows loadfiles, with what getlist gives; runner.block has been called before.
  unfoldable pub main : List (String × Value) → List Source → List String → Routine (Unit {0})
  unfolding unblock
  main errfiles list testcases = do
    when (if is_empty errfiles then false else is_empty list) (exit failure_status)
    unblock
    r ← run c pid home list testcases
    conclude errfiles r

-- The process succeeds: every file has been loaded, every name asked for is that of a test, and no function
-- has failed.
abbrev pub all_good : List (String × Value) → List Source → List String → Trace Call Reply → Bool
all_good errfiles list names t =
    if is_empty errfiles then (if has_unknown names list then false else fails t == 0) else false

abbrev pub Verdict :
    List (String × Value)
    → List Source
    → List String
    → Outcome (Unit {0}) × Bool × Trace Call Reply
    → Type 0
Verdict errfiles list names (o, s, t) =
    (o ≡ (if all_good errfiles list names t then returned tt else exited failure_status))
    × (all_good errfiles list names t ≡ true → ran t ≡ declared_in (selected list names))

-- What has failed is counted.
has_failed_lem :
    (errfiles : List (String × Value)) (list : List Source) (names : List String) (r : Report)
    (s : Bool) (t : Trace Call Reply)
    → has_unknown names list ≡ false
    → FilesDone (selected list names) start_report [] r s t
    → all_good errfiles list names t ≡ not (has_failed r errfiles)
has_failed_lem errfiles list names r s t good d = elim (Bool-cases (fails t == 0)) [
  | inl none_failed ↦ let (a, b) = d.all (ground arith) in ground (arith, d.counted, d.ntest)
  | inr some_failed ↦ ground (arith, d.counted)
]

conclude_lem :
    (c : Conversions) (pid : ℤ) (home : String) (k : Kernel Call Reply)
    (errfiles : List (String × Value)) (list : List Source) (names : List String) (r : Ran)
    (s : Bool) (t : Trace Call Reply)
    → Returned list names [] r s t
    → Verdict errfiles list names (conclude c pid home errfiles r k s t)
conclude_lem c pid home k errfiles list names (refused e) s t h =
    elim (Bool-cases (has_unknown names list)) [
      | inl bad ↦ (ground arith, λ g. ground arith)
      | inr good ↦ absurd (rw good at h)
    ]
conclude_lem c pid home k errfiles list names (finished r) s t h =
    elim (Bool-cases (has_unknown names list)) [
      | inl bad ↦
          let h' : (finished r ≡ refused "specified testcases not found") × (t ≡ []) =
            (rw bad at h) in
          absurd (cc h'.0)
      | inr good ↦
          let d : FilesDone (selected list names) start_report [] r s t = (rw good at h) in
          let e = has_failed_lem errfiles list names r s t good d in
          elim (Bool-cases (has_failed r errfiles)) [
            | inl bad ↦ rw bad (ground arith, λ g. ground arith)
            | inr fine ↦ rw fine (ground arith, λ g. (d.all (ground arith)).1)
          ]
    ]

after_run :
    (c : Conversions) (pid : ℤ) (home : String) (k : Kernel Call Reply)
    (errfiles : List (String × Value)) (list : List Source) (names : List String) (o : Outcome Ran)
    (s : Bool) (t : Trace Call Reply)
    → Ends (Returned list names []) (o, s, t)
    → Verdict errfiles list names
        (◌>>=◌ (λ _ _ _. (o, s, t)) (conclude c pid home errfiles) k false [])
after_run c pid home k errfiles list names (returned r) s t h =
    conclude_lem c pid home k errfiles list names r s t h
after_run c pid home k errfiles list names (raised e) s t h = absurd h
after_run c pid home k errfiles list names (exited n) s t h = absurd h

-- Where chdir and getcwd do not fail and no function goes on in a child that it forks: the command
-- succeeds if every file has been loaded, every name asked for is that of a test, and none of the
-- functions called has failed, and else it fails. If it succeeds it has called all functions of the
-- selected tests, and of the setups and teardowns of their files, in their order.
pub main_status :
    (c : Conversions) (pid : ℤ) (home : String) (k : Kernel Call Reply)
    (errfiles : List (String × Value)) (list : List Source) (names : List String)
    → IsCalm pid k
    → Verdict errfiles list names (main c pid home errfiles list names k true [])
unfolding main
main_status c pid home k errfiles list names calm =
    elim (Bool-cases (if is_empty errfiles then false else is_empty list)) [
      | inl nothing ↦ rw nothing (ground arith, λ g. ground arith)
      | inr more ↦
          let (o, s, t) = run c pid home list names k false [] in
          rw more (
            after_run c pid home k errfiles list names o s t
              (run_lem c pid home k calm list names []))
    ]
