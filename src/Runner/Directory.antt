-- ===== src/Runner/Directory.antt =====
-- The working directory in which lib/runner.lua calls each function. A function may leave the process
-- in any directory.
pub mod Files
use lua_testcase.Common.Int.{ℤ, eqb_ℤ, pos, eqb_ℤ_refl}
use lua_testcase.Lua.{Conversions, Value}
use lua_testcase.Lua.Run.{Trace, Kernel, returned, pure, ◌>>=◌}
use lua_testcase.Common.{
  String, Option, ℕ, some, ◌∷◌, Bool, if◌then◌else◌, ◌≡◌, none, [], ◌∙◌, ap, arith, All, true, List,
  false, sym, ◌++◌,
}
use mathlib.Core.Path.{subst}
use lua_testcase.Lua.Ends.{Ends, Ends-bind}
use lua_testcase.Runner.{
  Call, Reply, Routine, Source, Test, Failure, getcwd, getpid, hook, unhook, start, stop, chdir,
  xpcall, call_function, run_test, run_setup_teardown, run_part, run_tests, test_round,
  run_file_tests, run_file, add_success, add_failure, test_result, part_result,
}
use lua_testcase.Runner.Functions.{part, declared_tests, declared}

-- Where a path leads from a directory, by their names.
module _ (resolve : String → String → String) where
  abbrev moved : Option String → String → String
  moved none d = d
  moved (some d') d = d'

  -- The working directory after the calls of a trace.
  abbrev pub directory : String → Trace Call Reply → String
  directory first [] = first
  directory first ((chdir p, r) ∷ t) =
      if eqb_ℤ r.ret (pos 0) then resolve (directory first t) p else directory first t
  directory first ((xpcall f, r) ∷ t) = moved r.cwd (directory first t)
  directory first ((getcwd, r) ∷ t) = directory first t
  directory first ((getpid, r) ∷ t) = directory first t
  directory first ((hook, r) ∷ t) = directory first t
  directory first ((unhook, r) ∷ t) = directory first t
  directory first ((start, r) ∷ t) = directory first t
  directory first ((stop, r) ∷ t) = directory first t

  -- Each function has been called in a directory that is allowed for it.
  abbrev pub AreCalledIn : (ℕ → String → Type 0) → String → Trace Call Reply → Type 0
  AreCalledIn P first [] = Unit
  AreCalledIn P first ((xpcall f, r) ∷ t) = P f (directory first t) × AreCalledIn P first t
  AreCalledIn P first ((chdir p, r) ∷ t) = AreCalledIn P first t
  AreCalledIn P first ((getcwd, r) ∷ t) = AreCalledIn P first t
  AreCalledIn P first ((getpid, r) ∷ t) = AreCalledIn P first t
  AreCalledIn P first ((hook, r) ∷ t) = AreCalledIn P first t
  AreCalledIn P first ((unhook, r) ∷ t) = AreCalledIn P first t
  AreCalledIn P first ((start, r) ∷ t) = AreCalledIn P first t
  AreCalledIn P first ((stop, r) ∷ t) = AreCalledIn P first t

  -- A system whose chdir does not fail and whose getcwd names the working directory, in a process that is
  -- not forked by what it runs.
  pub record IsTracking (pid : ℤ) (first : String) (k : Kernel Call Reply) : Type 0 where
    pub moves : (p : String) (t : Trace Call Reply) → (k t (chdir p)).ret ≡ pos 0
    pub knows : (t : Trace Call Reply) → (k t getcwd).cwd ≡ some (directory first t)
    pub stays : (t : Trace Call Reply) → (k t getpid).ret ≡ pid

  module _ (c : Conversions) (pid : ℤ) (home : String) (first : String) (k : Kernel Call Reply)
      (law : IsTracking pid first k) (P : ℕ → String → Type 0) where
    -- The process is in the directory, and the calls until now were allowed.
    abbrev Inv : String → {A : Type 0} → A → Bool → Trace Call Reply → Type 0
    Inv d a s t = (directory first t ≡ d) × AreCalledIn P first t

    module _ (d : String) (absolute : (x : String) → resolve x d ≡ d) where
      call_function-Inv :
          (f : ℕ) (s : Bool) (t : Trace Call Reply)
          → P f d
          → Inv d tt s t
          → Ends (Inv d) (call_function c pid home f k s t)
      unfolding call_function
      call_function-Inv f s t allowed (here, called) =
          let t₁ : Trace Call Reply = (getcwd, k t getcwd) ∷ t in
          let t₂ : Trace Call Reply = (hook, k t₁ hook) ∷ t₁ in
          let t₃ : Trace Call Reply = (start, k t₂ start) ∷ t₂ in
          let t₄ : Trace Call Reply = (xpcall f, k t₃ (xpcall f)) ∷ t₃ in
          let t₅ : Trace Call Reply = (stop, k t₄ stop) ∷ t₄ in
          let t₆ : Trace Call Reply = (unhook, k t₅ unhook) ∷ t₅ in
          let t₇ : Trace Call Reply = (getpid, k t₆ getpid) ∷ t₆ in
          let where_it_is : (k t getcwd).cwd ≡ some d = law.knows t ∙ ap some here in
          let there = law.stays t₆ in
          let back = law.moves d t₇ in
          let r = k t₃ (xpcall f) in
          let run : call_function c pid home f k s t
              ≡ (returned (r.ok, r.err), s, (chdir d, k t₇ (chdir d)) ∷ t₇) =
            ground (arith, eqb_ℤ_refl pid) in
          rw run (rw back (absolute (directory first t₇)), (subst (P f) (sym here) allowed, called))

      -- A run that starts where Inv holds, and ends where it holds.
      abbrev Keeps : {A : Type 0} → Routine A → Type 0
      Keeps m = (s : Bool) (t : Trace Call Reply) → Inv d tt s t → Ends (Inv d) (m k s t)

      bind-Keeps :
          {A B : Type 0} (m : Routine A) (f : A → Routine B)
          → Keeps m
          → ((a : A) → Keeps (f a))
          → Keeps (m >>= f)
      bind-Keeps m f h g s t i =
          Ends-bind (Inv d) (Inv d) m f k s t (h s t i) (λ a s' t' j. g a s' t' j)

      if-Keeps :
          {A : Type 0} (b : Bool) (m n : Routine A) → Keeps m → Keeps n → Keeps (if b then m else n)
      if-Keeps true m n h g = h
      if-Keeps false m n h g = g

      run_test-Keeps : (test : Test) → P test.func d → Keeps (run_test c pid home test)
      unfolding run_test
      run_test-Keeps test h =
          bind-Keeps (call_function c pid home test.func) (λ r. pure (test_result r))
            (λ s t. call_function-Inv test.func s t h) (λ r s t i. i)

      run_part-Keeps : (o : Option ℕ) → All (λ f. P f d) (part o) → Keeps (run_part c pid home o)
      unfolding run_part run_setup_teardown
      run_part-Keeps none h = λ s t i. i
      run_part-Keeps (some func) h =
          bind-Keeps (call_function c pid home func) (λ r. pure (part_result r))
            (λ s t. call_function-Inv func s t h.0) (λ r s t i. i)

      test_round-Keeps :
          (src : Source) (test : Test) (next : ℕ → List Failure → Routine (ℕ × List Failure))
          (n : ℕ) (errs : List Failure)
          → P test.func d
          → All (λ f. P f d) (part src.after_each)
          → ((n : ℕ) (errs : List Failure) → Keeps (next n errs))
          → Keeps (test_round c pid home src test next n errs)
      unfolding test_round
      test_round-Keeps src test next n errs h g ih =
          let finish : Bool × Value → Bool × Value → Routine (ℕ × List Failure) = λ r a.
            if a.0
            then next (add_success r n) (add_failure test.name r errs)
            else pure
                (add_success r n, add_failure "after_each" a (add_failure test.name r errs)) in
          bind-Keeps (run_test c pid home test)
            (λ r. run_part c pid home src.after_each >>= finish r) (run_test-Keeps test h)
            λ r.
              bind-Keeps (run_part c pid home src.after_each) (finish r)
                (run_part-Keeps src.after_each g) λ a. if-Keeps a.0 _ _ (ih _ _) (λ s t i. i)

      All-left : (fs gs : List ℕ) → All (λ f. P f d) (fs ++ gs) → All (λ f. P f d) fs
      All-left [] gs h = tt
      All-left (f ∷ fs) gs h = (h.0, All-left fs gs h.1)

      All-right : (fs gs : List ℕ) → All (λ f. P f d) (fs ++ gs) → All (λ f. P f d) gs
      All-right [] gs h = h
      All-right (f ∷ fs) gs h = All-right fs gs h.1

      run_tests-Keeps :
          (src : Source) (tests : List Test) (n : ℕ) (errs : List Failure)
          → All (λ f. P f d) (declared_tests src tests)
          → Keeps (run_tests c pid home src tests n errs)
      unfolding run_tests
      run_tests-Keeps src [] n errs h = λ s t i. i
      run_tests-Keeps src (test ∷ tests) n errs h =
          let round = test_round c pid home src test (run_tests c pid home src tests) n errs in
          let later = part src.after_each ++ declared_tests src tests in
          let rest = All-right (part src.before_each) (test.func ∷ later) h in
          bind-Keeps (run_part c pid home src.before_each)
            (λ b. if b.0 then round else pure (n, add_failure "before_each" b errs))
            (run_part-Keeps src.before_each (All-left (part src.before_each) (test.func ∷ later) h))
            λ b.
              if-Keeps b.0 round (pure (n, add_failure "before_each" b errs))
                (test_round-Keeps src test (run_tests c pid home src tests) n errs rest.0
                  (All-left (part src.after_each) (declared_tests src tests) rest.1)
                  λ n' errs'.
                    run_tests-Keeps src tests n' errs'
                      (All-right (part src.after_each) (declared_tests src tests) rest.1))
                (λ s t i. i)

      pub run_file-Keeps :
          (src : Source) → All (λ f. P f d) (declared src) → Keeps (run_file c pid home src)
      unfolding run_file run_file_tests
      run_file-Keeps src h =
          let tests = declared_tests src src.tests in
          let rest = All-right (part src.before_all) (tests ++ part src.after_all) h in
          let finish : ℕ × List Failure → Bool × Value → Routine (ℕ × List Failure) =
            λ r a. pure (r.0, add_failure "after_all" a r.1) in
          bind-Keeps (run_part c pid home src.before_all)
            (λ b.
              if b.0
              then run_file_tests c pid home src
              else pure (0, add_failure "before_all" b []))
            (run_part-Keeps src.before_all
              (All-left (part src.before_all) (tests ++ part src.after_all) h))
            λ b.
              if-Keeps b.0 (run_file_tests c pid home src) (pure (0, add_failure "before_all" b []))
                (bind-Keeps (run_tests c pid home src src.tests 0 [])
                  (λ r. run_part c pid home src.after_all >>= finish r)
                  (run_tests-Keeps src src.tests 0 [] (All-left tests (part src.after_all) rest))
                  λ r.
                    bind-Keeps (run_part c pid home src.after_all) (finish r)
                      (run_part-Keeps src.after_all (All-right tests (part src.after_all) rest))
                      (λ a s t i. i))
                (λ s t i. i)
