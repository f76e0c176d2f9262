-- ===== src/Command/Registered.antt =====
-- The registry of lib/registry.lua under the command: from what test files add to what the command runs.
use lua_testcase.Common.{
  Bool, true, false, String, List, [], ◌∷◌, ◌++◌, some, str_eq, ◌≡◌, refl, arith, eq_iff, inl, inr,
  Bool-cases, ◌==◌, All, ◌<◌, IsOneOf, sym, ap, ◌∙◌,
}
use lua_testcase.Common.Int.{ℤ}
use lua_testcase.Lua.{Conversions, Value}
use lua_testcase.Lua.Run.{Kernel, Outcome, Trace, returned}
use lua_testcase.Registry.{
  Entry, Addition, added, Item, is_part, Pairs, Sort, getlist, sources_of, source_of, tests_of,
}
use lua_testcase.Registry.Added.{first, any_in, is_some, first-any_in}
use lua_testcase.Registry.Visited.{count, has_name, PairsLaw, SortLaw, IsOrder}
use lua_testcase.Registry.Listed.{is_file, IsItem, getlist_lem}
use lua_testcase.Runner.{Source, Call, Reply}
use lua_testcase.Runner.Functions.{ran, fails, IsCalm, declared, declared_tests, part}
use lua_testcase.Runner.Totals.{declared_in}
use lua_testcase.Command.{main, main_status, Verdict}

IsOneOf-left : {A : Type 0} (a : A) (l m : List A) → IsOneOf a l → IsOneOf a (l ++ m)
IsOneOf-left a [] m h = absurd h
IsOneOf-left a (b ∷ l) m (inl e) = inl e
IsOneOf-left a (b ∷ l) m (inr h) = inr (IsOneOf-left a l m h)

IsOneOf-right : {A : Type 0} (a : A) (l m : List A) → IsOneOf a m → IsOneOf a (l ++ m)
IsOneOf-right a [] m h = h
IsOneOf-right a (b ∷ l) m h = inr (IsOneOf-right a l m h)

module _ (adds : List Addition) (p k : String) (e : Entry) (there : first p k adds ≡ some e) where
  in_tests :
      (src : Source) (l : List Entry)
      → All (λ x. first p x.name adds ≡ some x) l
      → 0 < count (has_name k) l
      → IsOneOf e.func (declared_tests src (tests_of l))
  in_tests src [] h more = absurd (omega (arith, more))
  in_tests src (x ∷ l) h more = elim (Bool-cases (str_eq x.name k)) [
    | inl same ↦
        let named : x.name ≡ k = (eq_iff x.name k).0 same in
        let found : some e ≡ some x = sym there ∙ ap (λ n. first p n adds) (sym named) ∙ h.0 in
        let one : e.func ≡ x.func = cc found in
        IsOneOf-right e.func (part src.before_each) _ (inl one)
    | inr other ↦ IsOneOf-right e.func (part src.before_each) _ (
        inr (
          IsOneOf-right e.func (part src.after_each) _
            (in_tests src l h.1 (ground (arith, more, other)))))
  ]

  in_items :
      (l : List Item)
      → is_part k ≡ false
      → All (IsItem adds) l
      → 0 < count (is_file p) l
      → IsOneOf e.func (declared_in (sources_of l))
  in_items [] test h more = absurd (omega (arith, more))
  in_items (i ∷ l) test h more = elim (Bool-cases (str_eq i.name p)) [
    | inl same ↦
        let named : i.name ≡ p = (eq_iff i.name p).0 same in
        let (parts, own, once, order) = h.0 in
        let src = source_of i in
        IsOneOf-left e.func (declared src) _ (
          IsOneOf-right e.func (part src.before_all) _ (
            IsOneOf-left e.func (declared_tests src src.tests) _ (
              in_tests src i.tests (rw (sym named) own)
                (rw (once k, test, ap (λ n. first n k adds) named ∙ there) (omega arith)))))
    | inr other ↦
        IsOneOf-right e.func (declared (source_of i)) _
          (in_items l test h.1 (ground (arith, more, other)))
  ]

abbrev pub outcome : {A : Type 0} → Outcome A × Bool × Trace Call Reply → Outcome A
outcome (o, s, t) = o

abbrev pub trace_of : {A : Type 0} → Outcome A × Bool × Trace Call Reply → Trace Call Reply
trace_of (o, s, t) = t

-- Where the command succeeds, asked for no names.
success_lem :
    (errfiles : List (String × Value)) (list : List Source)
    (x : Outcome (Unit {0}) × Bool × Trace Call Reply)
    → Verdict errfiles list [] x
    → outcome x ≡ returned tt
    → (errfiles ≡ []) × (fails (trace_of x) ≡ 0) × (ran (trace_of x) ≡ declared_in list)
success_lem [] list (o, s, t) v h = elim (Bool-cases (fails t == 0)) [
  | inl none_failed ↦ (refl, ground (arith, none_failed), v.1 none_failed)
  | inr some_failed ↦ absurd (ground (arith, v.0, h, some_failed))
]
success_lem (e ∷ errfiles) list (o, s, t) v h = absurd (cc (sym h ∙ v.0))

-- Where pairs and table.sort do what they do, names are compared by an order, chdir and getcwd do not fail
-- and no function goes on in a child that it forks: if the command succeeds on the list that getlist makes
-- after any calls of add, asked for no names, then every file has been loaded, no function has failed, and
-- every test function that was added first under its name in its file has been called.
pub main_runs_tests :
    (pairs : Pairs) (sort : Sort) (lt_name : String → String → Bool) (c : Conversions) (pid : ℤ)
    (home : String) (k : Kernel Call Reply) (errfiles : List (String × Value))
    (adds : List Addition) (p name : String) (e : Entry)
    → PairsLaw pairs
    → SortLaw sort
    → IsOrder lt_name
    → IsCalm pid k
    → first p name adds ≡ some e
    → is_part name ≡ false
    → outcome (
        main c pid home errfiles
          (sources_of (getlist pairs sort lt_name (added adds [])).0)
          []
          k
          true
          [])
      ≡ returned tt
    → (errfiles ≡ [])
      × (fails (
            trace_of (
              main c pid home errfiles
                (sources_of (getlist pairs sort lt_name (added adds [])).0)
                []
                k
                true
                []))
          ≡ 0)
      × IsOneOf e.func (
          ran (
            trace_of (
              main c pid home errfiles
                (sources_of (getlist pairs sort lt_name (added adds [])).0)
                []
                k
                true
                [])))
main_runs_tests pairs sort lt_name c pid home k errfiles adds p name e pl sl order calm there test
      h =
    let (good, once, sorted, count) = getlist_lem pairs sort lt_name pl sl adds order in
    let l = (getlist pairs sort lt_name (added adds [])).0 in
    let v = main_status c pid home k errfiles (sources_of l) [] calm in
    let (loaded, fine, all) =
      success_lem errfiles (sources_of l) (main c pid home errfiles (sources_of l) [] k true []) v
        h in
    let some_in : any_in p adds ≡ true = first-any_in p name adds (ap is_some there) in
    (
      loaded,
      fine,
      rw all (in_items adds p name e there l test good (rw (once p, some_in) (omega arith))),
    )
