-- ===== src/Runner/Directory/Files.antt =====
-- Every function of a test file runs in the directory of its file, in lib/runner.lua.
use lua_testcase.Lua.Run.{Kernel, Trace, ◌>>=◌, returned, pure}
use lua_testcase.Common.Int.{ℤ}
use lua_testcase.Lua.{Conversions}
use lua_testcase.Common.{
  ℕ, String, List, IsOneOf, ◌∷◌, ◌≡◌, All, inl, false, ◌⊎◌, Bool, [], inr, none, Bool-cases, some,
  refl, arith,
}
use lua_testcase.Lua.Ends.{Ends, Ends-bind}
use lua_testcase.Runner.{
  Call, Reply, Routine, Source, Report, run_file, run_files, must_change_dir, change_dir, add_file,
  chdir, Failure,
}
use lua_testcase.Runner.Functions.{declared}
use lua_testcase.Runner.Selection.{select_testcases, named_sources, select_testcases_lem}
use lua_testcase.Runner.Run.{run, run_list, finished, start_report, selected, any_zero}
use lua_testcase.Runner.Directory.{directory, AreCalledIn, IsTracking, run_file-Keeps}

-- The function is one of a file of the list, and this is the file's directory.
abbrev pub Belongs : (String → String → String) → String → List Source → ℕ → String → Type 0
Belongs resolve home [] f d = ⊥
Belongs resolve home (src ∷ list) f d =
    (IsOneOf f (declared src) × (d ≡ resolve home src.dirname)) ⊎ Belongs resolve home list f d

All-from_IsOneOf : (P : ℕ → Type 0) (fs : List ℕ) → ((f : ℕ) → IsOneOf f fs → P f) → All P fs
All-from_IsOneOf P [] h = tt
All-from_IsOneOf P (f ∷ fs) h = (h f (inl refl), All-from_IsOneOf P fs (λ g i. h g (inr i)))

module _ (resolve : String → String → String) (c : Conversions) (pid : ℤ) (home : String)
    (first : String) (k : Kernel Call Reply) (law : IsTracking resolve pid first k)
    (at_home : (x : String) → resolve x home ≡ home)
    (absolute : (x p : String) → resolve x (resolve home p) ≡ resolve home p) where
  module _ (P : ℕ → String → Type 0) where
    abbrev Calls : {A : Type 0} → A → Bool → Trace Call Reply → Type 0
    Calls a s t = AreCalledIn resolve P first t

    abbrev Arrives : String → {A : Type 0} → A → Bool → Trace Call Reply → Type 0
    Arrives d a s t = (directory resolve first t ≡ d) × AreCalledIn resolve P first t

    go_home :
        (s : Bool) (t : Trace Call Reply)
        → AreCalledIn resolve P first t
        → Ends (Arrives home) (must_change_dir c pid home none k s t)
    unfolding must_change_dir
    go_home s t h =
        let e = law.moves home t in
        let run : must_change_dir c pid home none k s t
            ≡ (returned tt, s, (chdir home, k t (chdir home)) ∷ t) =
          ground arith in
        rw run (rw e (at_home (directory resolve first t)), h)

    go_to :
        (p : String) (s : Bool) (t : Trace Call Reply)
        → Arrives home tt s t
        → Ends (Arrives (resolve home p)) (must_change_dir c pid home (some p) k s t)
    unfolding must_change_dir
    go_to p s t (here, h) =
        let e = law.moves p t in
        let run : must_change_dir c pid home (some p) k s t
            ≡ (returned tt, s, (chdir p, k t (chdir p)) ∷ t) =
          ground arith in
        rw run (rw (e, here) refl, h)

    run_files-Calls :
        (list : List Source) (r : Report) (s : Bool) (t : Trace Call Reply)
        → ((f : ℕ) (d : String) → Belongs resolve home list f d → P f d)
        → AreCalledIn resolve P first t
        → Ends Calls (run_files c pid home list r k s t)
    unfolding run_files
    run_files-Calls [] r s t allowed h = h
    run_files-Calls (src ∷ list) r s t allowed h =
        let rest : ℕ × List Failure → Routine Report =
          λ f. run_files c pid home list (add_file src f r) in
        let here : Routine Report = run_file c pid home src >>= rest in
        let there : Routine Report = must_change_dir c pid home (some src.dirname) >>= λ _. here in
        let d = resolve home src.dirname in
        Ends-bind (Arrives home) Calls (must_change_dir c pid home none) (λ _. there) k s t
          (go_home s t h)
          λ _ s₁ t₁ i.
            Ends-bind (Arrives d) Calls (must_change_dir c pid home (some src.dirname)) (λ _. here)
              k s₁ t₁ (go_to src.dirname s₁ t₁ i)
              λ _ s₂ t₂ j.
                Ends-bind (Arrives d) Calls (run_file c pid home src) rest k s₂ t₂
                  (run_file-Keeps resolve c pid home first k law P d (λ x. absolute x src.dirname)
                    src
                    (All-from_IsOneOf (λ f. P f d) (declared src)
                      (λ f m. allowed f d (inl (m, refl))))
                    s₂ t₂ j)
                  λ f s₃ t₃ q.
                    run_files-Calls list (add_file src f r) s₃ t₃ (λ g e b. allowed g e (inr b)) q.1

    run_list-Calls :
        (list : List Source) (s : Bool) (t : Trace Call Reply)
        → ((f : ℕ) (d : String) → Belongs resolve home list f d → P f d)
        → AreCalledIn resolve P first t
        → Ends Calls (run_list c pid home list k s t)
    unfolding run_list change_dir
    run_list-Calls list s t allowed h =
        Ends-bind Calls Calls (run_files c pid home list start_report)
          (λ r. change_dir c pid home none >>= λ e. pure (finished r)) k s t
          (run_files-Calls list start_report s t allowed h)
          λ r s₁ t₁ q. let e = law.moves home t₁ in q

  -- Where chdir does not fail and getcwd names the working directory, and the initial directory and
  -- the paths from it are absolute: run calls each function of a selected file in the directory of
  -- its file, in whatever directories the functions called before have left the process.
  pub run-AreCalledIn :
      (list : List Source) (names : List String)
      → Ends
          (λ r s t. AreCalledIn resolve (Belongs resolve home (selected list names)) first t)
          (run c pid home list names k false [])
  unfolding run
  run-AreCalledIn list [] = run_list-Calls (Belongs resolve home list) list false [] (λ f d b. b) tt
  run-AreCalledIn list (name ∷ names) =
      let asked = name ∷ names in
      let list' = named_sources asked list in
      let (e, q) = select_testcases_lem list asked in
      elim (Bool-cases (any_zero asked (select_testcases list asked).1)) [
        | inl bad ↦ rw bad tt
        | inr good ↦
            rw (good, e)
              (run_list-Calls (Belongs resolve home list') list' false [] (λ f d b. b) tt)
      ]
