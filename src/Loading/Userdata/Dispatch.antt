-- ===== src/Loading/Userdata/Dispatch.antt =====
-- What the luaopen_* functions of the userdata modules make of a machine on which they run first.
use mathlib.Core.Path.{fun_ext}
use lua_testcase.Loading.{
  Functions, Machine, Entries, cfunction, find, named, table, M, Item, update, set_entry, text,
  entries_of,
}
use lua_testcase.Common.{
  String, Bool, ◌∷◌, ℕ, ◌≤◌, ◌<◌, ◌≡◌, [], some, str_eq, false, ◌++◌, none, List, suc, arith, refl,
  eq_iff, true, ap,
}
use lua_testcase.Loading.Loops.{
  machine, Fills, fill-Fills, set_all, fill, fill_fields-Fills, fill_do, fill_do-Fills,
}
use lua_testcase.Loading.Userdata.{
  luaopen_fork, set_methods, fork_mmethod, fork_method, timer_mmethod, luaopen_timer,
  set_method_fields, timer_method, socketpair_method, luaopen_socketpair, socketpair_mmethod,
  timer_module,
}

-- The metatable of a name, and the table of its methods.
abbrev pub Bound : Bool → String → Functions → Functions → Machine → Type 0
Bound sets_name mt mmethod method s =
    (m : ℕ) × (i : ℕ) × (m < s.next)
    × (i < s.next)
    × (find mt s.registry ≡ some m)
    × (s.heap m ≡ named sets_name mt ++ entries_of mmethod ++ ("__index", table i) ∷ [])
    × (s.heap i ≡ entries_of method)

-- What is there stays: the tables, and the metatables of other names.
abbrev pub Keeps : String → Machine → Machine → Type 0
Keeps mt s s' =
    (s.next ≤ s'.next)
    × ((a : ℕ) → a < s.next → s'.heap a ≡ s.heap a)
    × ((j : String) → str_eq mt j ≡ false → find j s'.registry ≡ find j s.registry)

set_methods_lem :
    (loop : Functions → M (Unit {0})) (mmethod method : Functions) (h : ℕ → Entries) (n : ℕ)
    (r : List (String × ℕ)) (m : ℕ) (st : List Item)
    → Fills loop mmethod
    → Fills loop method
    → let h₁ = update h m (set_all mmethod (h m)) in
      let h₂ = update h₁ n [] in
      let h₃ = update h₂ n (set_all method (h₂ n)) in
      set_methods loop mmethod method (machine h n r (table m ∷ st))
      ≡ some (
        tt,
        machine (update h₃ m (set_entry "__index" (table n) (h₃ m))) (suc n) r (table m ∷ st),
      )
unfolding set_methods
set_methods_lem loop mmethod method h n r m st fm fs =
    let h₁ = update h m (set_all mmethod (h m)) in
    let h₂ = update h₁ n [] in
    ground (arith, fm h n r m st, fs h₂ (suc n) r n (text "__index" ∷ table m ∷ st))

set_method_fields_lem :
    (mmethod method : Functions) (h : ℕ → Entries) (n : ℕ) (r : List (String × ℕ)) (m : ℕ)
    (st : List Item)
    → let h₁ = update h m (set_all mmethod (h m)) in
      let h₂ = update h₁ n [] in
      let h₃ = update h₂ n (set_all method (h₂ n)) in
      set_method_fields mmethod method (machine h n r (table m ∷ st))
      ≡ some (
        tt,
        machine (update h₃ m (set_entry "__index" (table n) (h₃ m))) (suc n) r (table m ∷ st),
      )
unfolding set_method_fields
set_method_fields_lem mmethod method h n r m st =
    let h₁ = update h m (set_all mmethod (h m)) in
    let h₂ = update h₁ n [] in
    ground (
      arith,
      fill_fields-Fills mmethod h n r m st,
      fill_fields-Fills method h₂ (suc n) r n (table m ∷ st),
    )

module _ (sets_name : Bool) (mt : String) (mmethod method : Functions) (s : Machine) where
  -- The store with the new metatable at the next address, and its methods at the one after.
  abbrev made_heap : ℕ → Entries
  made_heap =
      let n = s.next in
      let h₀ = update s.heap n (named sets_name mt) in
      let h₁ = update h₀ n (set_all mmethod (h₀ n)) in
      let h₂ = update h₁ (suc n) [] in
      let h₃ = update h₂ (suc n) (set_all method (h₂ (suc n))) in
      update h₃ n (set_entry "__index" (table (suc n)) (h₃ n))

  abbrev pub made : List Item → Machine
  made st = machine made_heap (suc (suc s.next)) ((mt, s.next) ∷ s.registry) st

  -- The two arrays have no name twice, and do not name the fields that are set beside them.
  abbrev pub AreDistinct : Type 0
  AreDistinct =
      ((v : Item)
        → set_entry "__index" v (set_all mmethod (named sets_name mt))
          ≡ named sets_name mt ++ entries_of mmethod ++ ("__index", v) ∷ [])
      × (set_all method [] ≡ entries_of method)

  made_heap_lem :
      AreDistinct
      → (made_heap s.next
          ≡ named sets_name mt ++ entries_of mmethod ++ ("__index", table (suc s.next)) ∷ [])
        × (made_heap (suc s.next) ≡ entries_of method)
        × ((a : ℕ) → a < s.next → made_heap a ≡ s.heap a)
  made_heap_lem d = (ground (arith, d.0 (table (suc s.next))), ground arith, λ a h. ground arith)

  pub made-Bound : (st : List Item) → AreDistinct → Bound sets_name mt mmethod method (made st)
  made-Bound st d =
      let (a, b, _) = made_heap_lem d in
      (s.next, suc s.next, omega arith, omega arith, ground (arith, eq_iff mt mt), a, b)

  pub made-Keeps : (st : List Item) → AreDistinct → Keeps mt s (made st)
  made-Keeps st d =
      let (_, _, c) = made_heap_lem d in (omega arith, c, λ j e. ground (arith, eq_iff mt j))

-- A userdata module: its metatable's name, its functions, and how it is opened.
pub data Module : Type 0 where
  timer fork socketpair : Module

abbrev pub name_of : Module → String
name_of timer = "testcase.timer"
name_of fork = "testcase.process"
name_of socketpair = "testcase.socketpair"

abbrev pub mmethod_of : Module → Functions
mmethod_of timer = timer_mmethod
mmethod_of fork = fork_mmethod
mmethod_of socketpair = socketpair_mmethod

abbrev pub method_of : Module → Functions
method_of timer = timer_method
method_of fork = fork_method
method_of socketpair = socketpair_method

abbrev pub luaopen : Bool → Module → M (Unit {0})
luaopen b timer = luaopen_timer b
luaopen b fork = luaopen_fork b
luaopen b socketpair = luaopen_socketpair b

abbrev pub IsBound : Bool → Module → Machine → Type 0
IsBound b x s = Bound b (name_of x) (mmethod_of x) (method_of x) s

pub distinct :
    (b : Bool) (x : Module) (s : Machine) → AreDistinct b (name_of x) (mmethod_of x) (method_of x) s
distinct true timer s = (λ v. refl, refl)
distinct false timer s = (λ v. refl, refl)
distinct true fork s = (λ v. refl, refl)
distinct false fork s = (λ v. refl, refl)
distinct true socketpair s = (λ v. refl, refl)
distinct false socketpair s = (λ v. refl, refl)

abbrev pub made_for : Bool → Module → Machine → List Item → Machine
made_for b x s st = made b (name_of x) (mmethod_of x) (method_of x) s st

-- A table added to a machine, and a stack put in place of its own.
abbrev pub with_table : Machine → Entries → List Item → Machine
with_table s t st = machine (update s.heap s.next t) (suc s.next) s.registry st

abbrev pub timer_functions : Entries
timer_functions =
    ("new", cfunction "new_lua")
    ∷ ("usleep", cfunction "usleep_lua")
    ∷ ("sleep", cfunction "sleep_lua")
    ∷ ("nanotime", cfunction "nanotime_lua")
    ∷ []

-- What opening a module for the first time makes of the machine.
abbrev pub opened : Bool → Module → Machine → Machine
opened b timer s =
    let s' = made_for b timer s [] in with_table s' timer_functions (table s'.next ∷ [])
opened b fork s = made_for b fork s (cfunction "fork_lua" ∷ s.stack)
opened b socketpair s = made_for b socketpair s (cfunction "new_lua" ∷ [])

timer_module_lem :
    (h : ℕ → Entries) (n : ℕ) (r : List (String × ℕ)) (st : List Item)
    → let s = machine h n r st in
      timer_module s ≡ some (tt, with_table s timer_functions (table n ∷ st))
unfolding timer_module
timer_module_lem h n r st =
    ap (λ h'. some (tt, machine h' (suc n) r (table n ∷ st))) (fun_ext (λ j. ground arith))

pub luaopen_lem :
    (b : Bool) (x : Module) (s : Machine)
    → find (name_of x) s.registry ≡ none
    → luaopen b x s ≡ some (tt, opened b x s)
unfolding luaopen_timer luaopen_fork luaopen_socketpair
luaopen_lem b timer s e =
    let st : List Item = [] in
    ground (
      arith,
      e,
      set_methods_lem fill_do timer_mmethod timer_method
          (update s.heap s.next (named b "testcase.timer")) (suc s.next)
          (("testcase.timer", s.next) ∷ s.registry) s.next s.stack
          (fill_do-Fills ("__tostring", "tostring_lua") [])
          (fill_do-Fills ("reset", "reset_lua")
            (("total", "total_lua")
              ∷ ("start", "start_lua")
              ∷ ("stop", "stop_lua")
              ∷ ("elapsed", "elapsed_lua")
              ∷ ("elapsed_sec", "elapsed_sec_lua")
              ∷ [])),
      timer_module_lem (made_for b timer s []).heap (suc (suc s.next))
          (("testcase.timer", s.next) ∷ s.registry) [],
    )
luaopen_lem b fork s e = ground (
  arith,
  e,
  set_methods_lem fill fork_mmethod fork_method (update s.heap s.next (named b "testcase.process"))
      (suc s.next) (("testcase.process", s.next) ∷ s.registry) s.next s.stack
      (fill-Fills fork_mmethod) (fill-Fills fork_method),
)
luaopen_lem b socketpair s e = ground (
  arith,
  e,
  set_method_fields_lem socketpair_mmethod socketpair_method
      (update s.heap s.next (named b "testcase.socketpair")) (suc s.next)
      (("testcase.socketpair", s.next) ∷ s.registry) s.next s.stack,
)
