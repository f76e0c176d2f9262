-- ===== src/Runner/Functions.antt =====
-- The functions that the runner has called, and how they ended, by the trace of lib/runner.lua.
use lua_testcase.Common.{
  List, ℕ, String, ◌≡◌, Bool, ◌∷◌, ◌++◌, if◌then◌else◌, suc, [], some, arith, Option, none, refl,
}
use lua_testcase.Common.Int.{ℤ, pos, eqb_ℤ_refl}
use lua_testcase.Lua.{Conversions, Value}
use lua_testcase.Lua.Run.{Trace, Kernel, returned, pure}
use mathlib.Core.List.{append-nil}
use lua_testcase.Runner.{
  Call, Reply, getcwd, getpid, hook, unhook, start, stop, chdir, xpcall, call_function, run_part,
  run_test, run_setup_teardown, Test, part_result, test_result, Source,
}
use lua_testcase.Lua.Ends.{Ends, Ends-bind}

-- The functions that have been called, in their order.
abbrev pub ran : Trace Call Reply → List ℕ
ran [] = []
ran ((xpcall f, r) ∷ t) = ran t ++ f ∷ []
ran ((getcwd, r) ∷ t) = ran t
ran ((getpid, r) ∷ t) = ran t
ran ((hook, r) ∷ t) = ran t
ran ((unhook, r) ∷ t) = ran t
ran ((start, r) ∷ t) = ran t
ran ((stop, r) ∷ t) = ran t
ran ((chdir p, r) ∷ t) = ran t

-- How many of them have failed.
abbrev pub fails : Trace Call Reply → ℕ
fails [] = 0
fails ((xpcall f, r) ∷ t) = if r.ok then fails t else suc (fails t)
fails ((getcwd, r) ∷ t) = fails t
fails ((getpid, r) ∷ t) = fails t
fails ((hook, r) ∷ t) = fails t
fails ((unhook, r) ∷ t) = fails t
fails ((start, r) ∷ t) = fails t
fails ((stop, r) ∷ t) = fails t
fails ((chdir p, r) ∷ t) = fails t

-- The function that a file may have.
abbrev pub part : Option ℕ → List ℕ
part none = []
part (some f) = f ∷ []

-- The functions of a file, as often and in the order that they run if none fails.
abbrev pub declared_tests : Source → List Test → List ℕ
declared_tests src [] = []
declared_tests src (test ∷ tests) =
    part src.before_each ++ (test.func ∷ (part src.after_each ++ declared_tests src tests))

abbrev pub declared : Source → List ℕ
declared src = part src.before_all ++ (declared_tests src src.tests ++ part src.after_all)

-- A system whose chdir and getcwd do not fail, in a process that is not forked by what it runs.
pub record IsCalm (pid : ℤ) (k : Kernel Call Reply) : Type 0 where
  pub moves : (p : String) (t : Trace Call Reply) → (k t (chdir p)).ret ≡ pos 0
  pub knows : (t : Trace Call Reply) → (d : String) × ((k t getcwd).cwd ≡ some d)
  pub stays : (t : Trace Call Reply) → (k t getpid).ret ≡ pid

-- One function has been called, with this result.
abbrev pub Called : ℕ → Trace Call Reply → Bool × Value → Bool → Trace Call Reply → Type 0
Called f t r s t' =
    (ran t' ≡ ran t ++ f ∷ []) × (fails t' ≡ (if r.0 then fails t else suc (fails t)))

-- A function that a file may have has been called, if it has it.
abbrev pub PartDone : Option ℕ → Trace Call Reply → Bool × Value → Bool → Trace Call Reply → Type 0
PartDone o t r s t' =
    (ran t' ≡ ran t ++ part o) × (fails t' ≡ (if r.0 then fails t else suc (fails t)))

module _ (c : Conversions) (pid : ℤ) (home : String) (k : Kernel Call Reply)
    (calm : IsCalm pid k) where
  call_function_lem :
      (f : ℕ) (s : Bool) (t : Trace Call Reply)
      → Ends (Called f t) (call_function c pid home f k s t)
  unfolding call_function
  call_function_lem f s t =
      let (d, e) = calm.knows t in
      let t₁ : Trace Call Reply = (getcwd, k t getcwd) ∷ t in
      let t₂ : Trace Call Reply = (hook, k t₁ hook) ∷ t₁ in
      let t₃ : Trace Call Reply = (start, k t₂ start) ∷ t₂ in
      let t₄ : Trace Call Reply = (xpcall f, k t₃ (xpcall f)) ∷ t₃ in
      let t₅ : Trace Call Reply = (stop, k t₄ stop) ∷ t₄ in
      let t₆ : Trace Call Reply = (unhook, k t₅ unhook) ∷ t₅ in
      let t₇ : Trace Call Reply = (getpid, k t₆ getpid) ∷ t₆ in
      let there = calm.stays t₆ in
      let back = calm.moves d t₇ in
      let r = k t₃ (xpcall f) in
      let run : call_function c pid home f k s t
          ≡ (returned (r.ok, r.err), s, (chdir d, k t₇ (chdir d)) ∷ t₇) =
        ground (arith, eqb_ℤ_refl pid) in
      rw run (ground arith)

  run_setup_teardown_lem :
      (f : ℕ) (s : Bool) (t : Trace Call Reply)
      → Ends (PartDone (some f) t) (run_setup_teardown c pid home f k s t)
  unfolding run_setup_teardown
  run_setup_teardown_lem f s t =
      Ends-bind (Called f t) (PartDone (some f) t) (call_function c pid home f)
        (λ r. pure (part_result r)) k s t (call_function_lem f s t) (λ r s' t' h. ground arith)

  pub run_part_lem :
      (o : Option ℕ) (s : Bool) (t : Trace Call Reply)
      → Ends (PartDone o t) (run_part c pid home o k s t)
  unfolding run_part
  run_part_lem none s t = (rw append-nil refl, refl)
  run_part_lem (some f) s t = run_setup_teardown_lem f s t

  pub run_test_lem :
      (test : Test) (s : Bool) (t : Trace Call Reply)
      → Ends (Called test.func t) (run_test c pid home test k s t)
  unfolding run_test
  run_test_lem test s t =
      Ends-bind (Called test.func t) (Called test.func t) (call_function c pid home test.func)
        (λ r. pure (test_result r)) k s t (call_function_lem test.func s t)
        (λ r s' t' h. ground arith)
