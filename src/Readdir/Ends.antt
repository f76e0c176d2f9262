-- ===== src/Readdir/Ends.antt =====
-- The loop of src/readdir.c ends.
use lua_testcase.Lua.Run.{Kernel, Trace, returned}
use lua_testcase.Lua.{Value, Conversions}
use lua_testcase.Common.{
  Option, ℕ, String, ◌<◌, arith, ◌≤◌, ◌+◌, ◌≢◌, suc, some, ◌≡◌, ◌∷◌, none, zero, List, [],
}
use native.Mathlib.Decide.{dec_lt}
use lua_testcase.Readdir.{
  readdir_lua, visit_entries, start, step, after, finish, Answer, Call, Reply, Routine, Machine,
  failed, readdir, answered, call_back, or_kept,
}
use lua_testcase.Readdir.Visits.{reads}

-- The system has no more than `most` entries to give, whatever is called in between.
abbrev pub GivesAtMost : ℕ → Kernel Call Reply → Type 0
GivesAtMost most k = (t : Trace Call Reply) → most ≤ reads t → (k t readdir).entry ≡ none

-- A routine that does not run out of fuel, from a trace with at least so many calls of readdir.
abbrev Ends : ℕ → Kernel Call Reply → Routine (Option Value) → Type 0
Ends n k m = (s : Machine) (t : Trace Call Reply) → n ≤ reads t → (m k s t).0 ≢ returned none

after-Ends :
    (a : Answer) (n : ℕ) (k : Kernel Call Reply) (rest : Routine (Option Value))
    → Ends n k rest
    → Ends n k (after a rest)
unfolding after
after-Ends (failed v) n k rest ih s t h = ground arith
after-Ends (answered v) n k rest ih s t h = ground (arith, ih (record s { errno = 0 }) t h)

step-Ends :
    (e : Option String) (f : Value) (n : ℕ) (k : Kernel Call Reply) (rest : Routine (Option Value))
    → Ends n k rest
    → Ends n k (step e f rest)
unfolding step finish
step-Ends none f n k rest ih s t h = ground arith
step-Ends (some name) f n k rest ih s t h =
    let r = k t (call_back f name) in
    after-Ends r.answer n k rest ih (record { errno = or_kept r.errno s.errno; top = s.top + 1 })
      ((call_back f name, r) ∷ t) h

finish_ends :
    (k : Kernel Call Reply) (s : Machine) (t : Trace Call Reply) → (finish k s t).0 ≢ returned none
unfolding finish
finish_ends k s t = ground arith

visit_entries-Ends :
    (f : Value) (most fuel n : ℕ) (k : Kernel Call Reply)
    → GivesAtMost most k
    → most < fuel + n
    → n ≤ most
    → Ends n k (visit_entries f fuel)
unfolding visit_entries step
visit_entries-Ends f most zero n k law enough le s t h = absurd (omega arith)
visit_entries-Ends f most (suc fuel) n k law enough le s t h =
    let r = k t readdir in
    let s' : Machine = record s { errno = or_kept r.errno s.errno } in
    let t' : Trace Call Reply = (readdir, r) ∷ t in
    elim (dec_lt n most) [
      | yes more ↦
          step-Ends r.entry f (suc n) k (visit_entries f fuel)
            (visit_entries-Ends f most fuel (suc n) k law (omega arith) (omega arith)) s' t'
            (omega arith)
      | no last ↦ ground (arith, law t (omega arith), finish_ends k s' t')
    ]

start_ends :
    (k : Kernel Call Reply) (most fuel : ℕ) (o : Reply) (f : Value) (s : Machine)
    (t : Trace Call Reply)
    → GivesAtMost most k
    → most < fuel
    → (start o f fuel k s t).0 ≢ returned none
unfolding start
start_ends k most fuel o f s t law enough = ground (
  arith,
  visit_entries-Ends f most fuel 0 k law (omega arith) (omega arith) (record s { errno = 0 }) t
      (omega arith),
)

-- On a system that gives at most so many entries, readdir_lua does not run out of greater fuel, whatever
-- its arguments, the callback's answers and the errors of the system are.
pub readdir_lua_ends :
    (c : Conversions) (k : Kernel Call Reply) (most fuel : ℕ) (args : List Value) (s : Machine)
    → GivesAtMost most k
    → most < fuel
    → (readdir_lua c fuel args k s []).0 ≢ returned none
unfolding readdir_lua
readdir_lua_ends c k most fuel args s law enough = grind (
  arith,
  λ (o : Reply) (f : Value) (s : Machine) (t : Trace Call Reply).
      start_ends k most fuel o f s t law enough,
)
