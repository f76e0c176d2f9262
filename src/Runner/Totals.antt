-- ===== src/Runner/Totals.antt =====
-- What the files that lib/runner.lua has run add to its report.
use lua_testcase.Runner.Files.{run_file_lem}
use lua_testcase.Common.Int.{ℤ}
use lua_testcase.Lua.{Conversions}
use lua_testcase.Lua.Run.{Trace, Kernel, ◌>>=◌}
use lua_testcase.Common.{
  String, List, [], Option, ◌++◌, Bool, ℕ, length, some, ◌+◌, ◌≡◌, ◌∷◌, ◌≤◌, none, arith, ◌∙◌, ap,
  refl,
}
use lua_testcase.Lua.Ends.{Ends, Ends-bind, Ends-map}
use mathlib.Core.List.{append-nil}
use lua_testcase.Runner.{
  Source, Report, Failure, Routine, Call, Reply, must_change_dir, run_files, add_file, run_file,
}
use lua_testcase.Runner.Functions.{ran, fails, declared, IsCalm}
use lua_testcase.Runner.Counts.{Done, joined}

-- The tests and the functions of the files of a list.
abbrev pub total : List Source → ℕ
total [] = 0
total (src ∷ list) = length src.tests + total list

abbrev pub declared_in : List Source → List ℕ
declared_in [] = []
declared_in (src ∷ list) = declared src ++ declared_in list

-- The errors that are listed by file.
abbrev pub listed : List (String × List Failure) → ℕ
listed [] = 0
listed ((name, errs) ∷ l) = length errs + listed l

listed-append : (l m : List (String × List Failure)) → listed (l ++ m) ≡ listed l + listed m
listed-append [] m = omega arith
listed-append ((name, errs) ∷ l) m = omega (arith, listed-append l m)

-- The files of a list have been run: every function that failed is counted and listed as one error; and
-- where none failed all tests have succeeded, and all functions have been called.
pub record FilesDone (list : List Source) (r : Report) (t : Trace Call Reply) (r' : Report)
    (s : Bool) (t' : Trace Call Reply) : Type 0 where
  pub counted : fails t' + r.count ≡ fails t + r'.count
  pub listed_all : listed r'.errors + r.count ≡ listed r.errors + r'.count
  pub grows : fails t ≤ fails t'
  pub ntest : r'.ntest ≡ r.ntest + total list
  pub fewer : r'.nsuccess ≤ r.nsuccess + total list
  pub all :
      fails t' ≡ fails t
      → (r'.nsuccess ≡ r.nsuccess + total list) × (ran t' ≡ ran t ++ declared_in list)

file-FilesDone :
    (src : Source) (list : List Source) (r : Report) (t t₁ : Trace Call Reply)
    (f : ℕ × List Failure) (r' : Report) (s₁ s : Bool) (t' : Trace Call Reply)
    → Done (length src.tests) (declared src) 0 [] t f s₁ t₁
    → FilesDone list (add_file src f r) t₁ r' s t'
    → FilesDone (src ∷ list) r t r' s t'
file-FilesDone src list r t t₁ (n, []) r' s₁ s t' d g = record {
  counted = omega (arith, d.counted, g.counted);
  listed_all = omega (arith, g.listed_all);
  grows = omega (arith, d.grows, g.grows);
  ntest = omega (arith, g.ntest);
  fewer = omega (arith, d.fewer, g.fewer);
  all = λ h.
      let (a, b) = d.all (omega (arith, d.grows, g.grows)) in
      let (x, y) = g.all (omega (arith, d.grows, g.grows)) in
      (omega arith, joined (ran t) (declared src) (declared_in list) b y);
}
file-FilesDone src list r t t₁ (n, e ∷ errs) r' s₁ s t' d g = record {
  counted = omega (arith, d.counted, g.counted);
  listed_all = omega (arith, g.listed_all, listed-append r.errors ((src.name, e ∷ errs) ∷ []));
  grows = omega (arith, d.grows, g.grows);
  ntest = omega (arith, g.ntest);
  fewer = omega (arith, d.fewer, g.fewer);
  all = λ h. absurd (omega (arith, d.counted, d.grows, g.grows));
}

-- Nothing has been run.
abbrev Same : {A : Type 0} → Trace Call Reply → A → Bool → Trace Call Reply → Type 0
Same t a s t' = (ran t' ≡ ran t) × (fails t' ≡ fails t)

module _ (c : Conversions) (pid : ℤ) (home : String) (k : Kernel Call Reply)
    (calm : IsCalm pid k) where
  must_change_dir_lem :
      (o : Option String) (s : Bool) (t : Trace Call Reply)
      → Ends (Same t) (must_change_dir c pid home o k s t)
  unfolding must_change_dir
  must_change_dir_lem none s t = let moved = calm.moves home t in ground arith
  must_change_dir_lem (some p) s t = let moved = calm.moves p t in ground arith

  moved-FilesDone :
      (list : List Source) (r : Report) (t t₁ : Trace Call Reply) (r' : Report) (s : Bool)
      (t' : Trace Call Reply)
      → (ran t₁ ≡ ran t) × (fails t₁ ≡ fails t)
      → FilesDone list r t₁ r' s t'
      → FilesDone list r t r' s t'
  moved-FilesDone list r t t₁ r' s t' (e, q) d = record {
    counted = omega (arith, d.counted);
    listed_all = d.listed_all;
    grows = omega (arith, d.grows);
    ntest = d.ntest;
    fewer = d.fewer;
    all = λ h. let (a, b) = d.all (omega arith) in (a, b ∙ ap (λ l. l ++ declared_in list) e);
  }

  pub run_files_lem :
      (list : List Source) (r : Report) (s : Bool) (t : Trace Call Reply)
      → Ends (FilesDone list r t) (run_files c pid home list r k s t)
  unfolding run_files
  run_files_lem [] r s t = record {
    counted = refl;
    listed_all = refl;
    grows = omega arith;
    ntest = omega arith;
    fewer = omega arith;
    all = λ h. (omega arith, rw append-nil refl);
  }
  run_files_lem (src ∷ list) r s t =
      let P = FilesDone (src ∷ list) r t in
      let rest : ℕ × List Failure → Routine Report =
        λ f. run_files c pid home list (add_file src f r) in
      let here : Routine Report = run_file c pid home src >>= rest in
      let there : Routine Report = must_change_dir c pid home (some src.dirname) >>= λ _. here in
      Ends-bind (Same t) P (must_change_dir c pid home none) (λ _. there) k s t
        (must_change_dir_lem none s t)
        λ _ s₁ t₁ g.
          Ends-bind (Same t₁) P (must_change_dir c pid home (some src.dirname)) (λ _. here) k s₁ t₁
            (must_change_dir_lem (some src.dirname) s₁ t₁)
            λ _ s₂ t₂ h.
              Ends-bind (Done (length src.tests) (declared src) 0 [] t₂) P (run_file c pid home src)
                rest k s₂ t₂ (run_file_lem c pid home k calm src s₂ t₂)
                λ f s₃ t₃ d.
                  Ends-map (FilesDone list (add_file src f r) t₃) P (rest f k s₃ t₃)
                    (run_files_lem list (add_file src f r) s₃ t₃)
                    λ r' s' t' q.
                      moved-FilesDone (src ∷ list) r t t₂ r' s' t' (h.0 ∙ g.0, h.1 ∙ g.1)
                        (file-FilesDone src list r t₂ t₃ f r' s₃ s' t' d q)
