-- ===== src/Runner/Run.antt =====
-- run, block and unblock of lib/runner.lua, and what a run reports.
use lua_testcase.Common.Int.{ℤ}
use lua_testcase.Lua.{Conversions}
use lua_testcase.Lua.Run.{Trace, put, Kernel, ◌>>=◌, get, pure}
use lua_testcase.Common.{
  String, List, [], Option, true, Bool, false, ℕ, some, ◌≡◌, ◌∷◌, ◌==◌, none, arith, if◌then◌else◌,
  ◌∙◌, eq_iff, refl, Bool-cases, inl, inr,
}
use lua_testcase.Lua.Ends.{Ends, Ends-bind, Ends-map}
use lua_testcase.Runner.{Source, Report, Routine, Call, Reply, change_dir, run_files}
use lua_testcase.Runner.Functions.{IsCalm}
use lua_testcase.Runner.Totals.{FilesDone, run_files_lem}
use lua_testcase.Runner.Selection.{
  Targets, count_of, select_testcases, select_testcases_lem, contains, named_sources, occurs_in,
}

pub block : Routine (Unit {0})
block = put true

unfoldable pub unblock : Routine (Unit {0})
unblock = put false

-- What run returns: false with the reason, or true with the report.
pub data Ran : Type 0 where
  refused : String → Ran
  finished : Report → Ran

abbrev pub start_report : Report
start_report = record { nsuccess = 0; ntest = 0; errors = []; count = 0 }

-- Whether the count of a name is zero.
abbrev pub is_zero : Option ℕ → Bool
is_zero none = false
is_zero (some n) = n == 0

abbrev pub any_zero : List String → Targets → Bool
any_zero [] ts = false
any_zero (k ∷ names) ts = if is_zero (count_of k ts) then true else any_zero names ts

module _ (c : Conversions) (pid : ℤ) (home : String) where
  unfoldable pub run_list : List Source → Routine Ran
  run_list list = do
    r ← run_files c pid home list start_report
    e ← change_dir c pid home none
    pure (finished r)

  unfoldable pub run : List Source → List String → Routine Ran
  run list testcases = do
    do_not_run ← get
    (if do_not_run then pure (refused "cannot run test cases while blocking") else elim testcases [
      | [] ↦ run_list list
      | name ∷ names ↦
          let (newlist, targets) = select_testcases list (name ∷ names) in
          if any_zero (name ∷ names) targets
          then pure (refused "specified testcases not found")
          else run_list newlist
    ])

-- What run returns for the files that are selected.
abbrev pub Reported : List Source → Trace Call Reply → Ran → Bool → Trace Call Reply → Type 0
Reported list t (refused e) s t' = ⊥
Reported list t (finished r) s t' = FilesDone list start_report t r s t'

module _ (c : Conversions) (pid : ℤ) (home : String) (k : Kernel Call Reply)
    (calm : IsCalm pid k) where
  run_list_lem :
      (list : List Source) (s : Bool) (t : Trace Call Reply)
      → Ends (Reported list t) (run_list c pid home list k s t)
  unfolding run_list change_dir
  run_list_lem list s t =
      Ends-bind (FilesDone list start_report t) (Reported list t)
        (run_files c pid home list start_report)
        (λ r. change_dir c pid home none >>= λ e. pure (finished r)) k s t
        (run_files_lem c pid home k calm list start_report s t)
        λ r s₁ t₁ d.
          let back = calm.moves home t₁ in
          record {
            counted = ground (arith, d.counted);
            listed_all = d.listed_all;
            grows = ground (arith, d.grows);
            ntest = d.ntest;
            fewer = d.fewer;
            all = λ h. d.all h;
          }

-- The files that are run, and whether a name is asked for that no test has.
abbrev pub selected : List Source → List String → List Source
selected list [] = list
selected list (name ∷ names) = named_sources (name ∷ names) list

abbrev pub has_unknown : List String → List Source → Bool
has_unknown [] list = false
has_unknown (name ∷ names) list = if occurs_in name list == 0 then true else has_unknown names list

any_zero-has_unknown :
    (names more : List String) (list : List Source) (ts : Targets)
    → ((k : String) → count_of k ts ≡ (if contains more k then some (occurs_in k list) else none))
    → ((k : String) → contains names k ≡ true → contains more k ≡ true)
    → any_zero names ts ≡ has_unknown names list
any_zero-has_unknown [] more list ts h sub = refl
any_zero-has_unknown (name ∷ names) more list ts h sub =
    let rest =
      any_zero-has_unknown names more list ts h (λ k e. sub k (ground (arith, eq_iff name k))) in
    ground (arith, h name, sub name, eq_iff name name)

-- What run returns where it is not blocked.
abbrev pub Returned :
    List Source → List String → Trace Call Reply → Ran → Bool → Trace Call Reply → Type 0
Returned list names t r s t' =
    if has_unknown names list
    then (r ≡ refused "specified testcases not found") × (t' ≡ t)
    else Reported (selected list names) t r s t'

module _ (c : Conversions) (pid : ℤ) (home : String) (k : Kernel Call Reply)
    (calm : IsCalm pid k) where
  -- Where chdir and getcwd do not fail and no function goes on in a child that it forks: run, not
  -- blocked, refuses if and only if a name is asked for that no test has, and then calls nothing;
  -- otherwise it returns a report on the selected files: all their tests are counted, every
  -- function that failed is one error more, counted and listed by file, and no more tests have
  -- succeeded than there are; and where no function failed all tests have succeeded, and all
  -- functions have been called in their order.
  pub run_lem :
      (list : List Source) (names : List String) (t : Trace Call Reply)
      → Ends (Returned list names t) (run c pid home list names k false t)
  unfolding run
  run_lem list [] t = run_list_lem c pid home k calm list false t
  run_lem list (name ∷ names) t =
      let asked = name ∷ names in
      let targets = (select_testcases list asked).1 in
      let (e, q) = select_testcases_lem list asked in
      let found = any_zero-has_unknown asked asked list targets q (λ j h. h) in
      elim (Bool-cases (has_unknown asked list)) [
        | inl bad ↦ rw (found ∙ bad, bad) (refl, refl)
        | inr good ↦
            let list' = named_sources asked list in
            rw (found ∙ good, e)
              (Ends-map (Reported list' t) (Returned list asked t)
                (run_list c pid home list' k false t) (run_list_lem c pid home k calm list' false t)
                λ r s t' d. rw good d)
      ]
