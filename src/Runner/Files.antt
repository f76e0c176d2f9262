-- ===== src/Runner/Files.antt =====
-- What run_file of lib/runner.lua returns, by how its functions ended.
use lua_testcase.Common.{
  List, ℕ, String, Bool, ◌∷◌, ◌++◌, if◌then◌else◌, suc, [], arith, refl, length, Bool-cases, inl,
  length-append, inr,
}
use lua_testcase.Common.Int.{ℤ}
use lua_testcase.Lua.{Conversions, Value}
use lua_testcase.Lua.Run.{Trace, Kernel, pure, ◌>>=◌}
use mathlib.Core.List.{append-nil}
use lua_testcase.Runner.{
  Call, Reply, run_part, run_test, Test, Source, test_round, Failure, Routine, add_success,
  add_failure, run_tests, run_file_tests, run_file,
}
use lua_testcase.Lua.Ends.{Ends, Ends-bind, Ends-map}
use lua_testcase.Runner.Functions.{
  ran, part, declared_tests, declared, IsCalm, Called, PartDone, run_part_lem, run_test_lem,
}
use lua_testcase.Runner.Counts.{
  Done, joined, failed-Done, length-add_failure, part-Done, test-Done, after_all-Done,
}

module _ (c : Conversions) (pid : ℤ) (home : String) (k : Kernel Call Reply)
    (calm : IsCalm pid k) where
  test_round_lem :
      (src : Source) (test : Test) (m : ℕ) (fs : List ℕ) (n : ℕ) (errs : List Failure) (s : Bool)
      (t : Trace Call Reply) (next : ℕ → List Failure → Routine (ℕ × List Failure))
      → ((n : ℕ) (errs : List Failure) (s : Bool) (t : Trace Call Reply)
          → Ends (Done m fs n errs t) (next n errs k s t))
      → Ends
          (Done (suc m) (test.func ∷ (part src.after_each ++ fs)) n errs t)
          (test_round c pid home src test next n errs k s t)
  unfolding test_round
  test_round_lem src test m fs n errs s t next ih =
      let after : Bool × Value → Bool × Value → Routine (ℕ × List Failure) = λ r a.
        if a.0
        then next (add_success r n) (add_failure test.name r errs)
        else pure (add_success r n, add_failure "after_each" a (add_failure test.name r errs)) in
      let gs = part src.after_each in
      let P = Done (suc m) (test.func ∷ (gs ++ fs)) n errs t in
      Ends-bind (Called test.func t) P (run_test c pid home test)
        (λ r. run_part c pid home src.after_each >>= after r) k s t
        (run_test_lem c pid home k calm test s t)
        λ r s₁ t₁ h.
          Ends-bind (PartDone src.after_each t₁) P (run_part c pid home src.after_each) (after r) k
            s₁ t₁ (run_part_lem c pid home k calm src.after_each s₁ t₁)
            λ a s₂ t₂ g.
              let n' = add_success r n in
              let errs' = add_failure test.name r errs in
              let counted = length-add_failure test.name r errs in
              elim (Bool-cases a.0) [
                | inl good ↦ rw good (
                    Ends-map (Done m fs n' errs' t₂) P (next n' errs' k s₂ t₂) (ih n' errs' s₂ t₂)
                      λ r' s' t' d.
                        test-Done (test.func ∷ gs) (ground arith) (ground arith) (ground arith)
                          (ground arith) (joined (ran t) (test.func ∷ []) gs h.0 g.0) d)
                | inr bad ↦ rw bad (
                    failed-Done (suc m) (test.func ∷ (gs ++ fs)) n n' errs
                      (errs' ++ record { name = "after_each"; error = a.1 } ∷ []) t t₂ s₂
                      (ground arith)
                      (ground (
                        arith,
                        length-append errs' (record { name = "after_each"; error = a.1 } ∷ []),
                      ))
                      (ground arith))
              ]

  run_tests_lem :
      (src : Source) (tests : List Test) (n : ℕ) (errs : List Failure) (s : Bool)
      (t : Trace Call Reply)
      → Ends
          (Done (length tests) (declared_tests src tests) n errs t)
          (run_tests c pid home src tests n errs k s t)
  unfolding run_tests
  run_tests_lem src [] n errs s t = record {
    counted = refl;
    grows = omega arith;
    fewer = omega arith;
    all = λ h. (omega arith, rw append-nil refl);
  }
  run_tests_lem src (test ∷ tests) n errs s t =
      let round = test_round c pid home src test (run_tests c pid home src tests) n errs in
      let after : Bool × Value → Routine (ℕ × List Failure) =
        λ b. if b.0 then round else pure (n, add_failure "before_each" b errs) in
      let m = length tests in
      let fs = test.func ∷ (part src.after_each ++ declared_tests src tests) in
      let P = Done (suc m) (part src.before_each ++ fs) n errs t in
      Ends-bind (PartDone src.before_each t) P (run_part c pid home src.before_each) after k s t
        (run_part_lem c pid home k calm src.before_each s t)
        λ b s₁ t₁ h. elim (Bool-cases b.0) [
          | inl good ↦ rw good (
              Ends-map (Done (suc m) fs n errs t₁) P (round k s₁ t₁)
                (test_round_lem src test m (declared_tests src tests) n errs s₁ t₁
                  (run_tests c pid home src tests) (run_tests_lem src tests))
                λ r' s' t' d. part-Done (part src.before_each) h.0 (ground arith) d)
          | inr bad ↦ rw bad (
              failed-Done (suc m) (part src.before_each ++ fs) n n errs
                (errs ++ record { name = "before_each"; error = b.1 } ∷ []) t t₁ s₁ (omega arith)
                (ground
                  (arith, length-append errs (record { name = "before_each"; error = b.1 } ∷ [])))
                (ground arith))
        ]

  run_file_tests_lem :
      (src : Source) (s : Bool) (t : Trace Call Reply)
      → Ends
          (Done (length src.tests) (declared_tests src src.tests ++ part src.after_all) 0 [] t)
          (run_file_tests c pid home src k s t)
  unfolding run_file_tests
  run_file_tests_lem src s t =
      let m = length src.tests in
      let fs = declared_tests src src.tests in
      let P = Done m (fs ++ part src.after_all) 0 [] t in
      let finish : ℕ × List Failure → Bool × Value → Routine (ℕ × List Failure) =
        λ r a. pure (r.0, add_failure "after_all" a r.1) in
      Ends-bind (Done m fs 0 [] t) P (run_tests c pid home src src.tests 0 [])
        (λ r. run_part c pid home src.after_all >>= finish r) k s t
        (run_tests_lem src src.tests 0 [] s t)
        λ r s₁ t₁ d.
          Ends-bind (PartDone src.after_all t₁) P (run_part c pid home src.after_all) (finish r) k
            s₁ t₁ (run_part_lem c pid home k calm src.after_all s₁ t₁)
            λ a s₂ t₂ h. after_all-Done m fs src.after_all t t₁ r s₁ a s₂ t₂ d h

  pub run_file_lem :
      (src : Source) (s : Bool) (t : Trace Call Reply)
      → Ends (Done (length src.tests) (declared src) 0 [] t) (run_file c pid home src k s t)
  unfolding run_file
  run_file_lem src s t =
      let m = length src.tests in
      let fs = declared_tests src src.tests ++ part src.after_all in
      let P = Done m (part src.before_all ++ fs) 0 [] t in
      let after : Bool × Value → Routine (ℕ × List Failure) = λ b.
        if b.0 then run_file_tests c pid home src else pure (0, add_failure "before_all" b []) in
      Ends-bind (PartDone src.before_all t) P (run_part c pid home src.before_all) after k s t
        (run_part_lem c pid home k calm src.before_all s t)
        λ b s₁ t₁ h. elim (Bool-cases b.0) [
          | inl good ↦ rw good (
              Ends-map (Done m fs 0 [] t₁) P (run_file_tests c pid home src k s₁ t₁)
                (run_file_tests_lem src s₁ t₁)
                λ r' s' t' d. part-Done (part src.before_all) h.0 (ground arith) d)
          | inr bad ↦ rw bad (
              failed-Done m (part src.before_all ++ fs) 0 0 []
                (record { name = "before_all"; error = b.1 } ∷ []) t t₁ s₁ (omega arith)
                (ground arith) (ground arith))
        ]
