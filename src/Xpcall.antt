-- ===== src/Xpcall.antt =====
-- src/xpcall.c: a function run under a message handler. The run is a call; what stands on the Lua stack
-- is a list, the lowest value first.
pub mod Results
mod Tests
use lua_testcase.Common.{none, some}
use lua_testcase.Lua.Args.{check_function}
use lua_testcase.Lua.{Value, boolean}
use lua_testcase.Lua.Run.{Action, ◌>>=◌, ◌>>◌, pure, call}
use lua_testcase.Common.{
  ℕ, Option, Bool, List, drop, length, ◌-◌, ◌++◌, take, get_elem?, ◌∷◌, [], true, false,
}

-- lua_pcall of a function without arguments, and a handler.
pub data Call : Type 0 where
  run : Option Value → Option Value → Call

-- What the handler gives, where the function fails.
pub record Reply : Type 0 where
  pub failure : Option Value

abbrev pub Routine : Type 0 → Type 0
Routine A = Action Call Reply (Unit {0}) A

-- lua_insert: the highest value goes to an index, and those from there on go up.
pub insert : ℕ → List Value → List Value
insert i stack =
    let n = length stack - 1 in
    let below = take n stack in take (i - 1) below ++ drop n stack ++ drop (i - 1) below

-- What a C function that returns n gives: the values that stand highest on the stack.
pub results : ℕ → List Value → List Value
results n stack = drop (length stack - n) stack

-- lua_pcall(L, 0, 0, 1): the highest value is the function, the lowest the handler; the function goes,
-- and where it fails the handler's value comes.
pub pcall : List Value → Routine (Bool × List Value)
pcall stack = do
  r ← call (run (get_elem? stack (length stack - 1)) (get_elem? stack 0))
  let rest = take (length stack - 1) stack in
      elim r.failure [ none ↦ pure (true, rest) | some e ↦ pure (false, rest ++ e ∷ []) ]

-- The switch.
pub finish : Bool × List Value → Routine (List Value)
finish (true, stack) = pure (results 1 (stack ++ boolean true ∷ []))
finish (false, stack) = pure (results 2 (insert 2 (stack ++ boolean false ∷ [])))

pub xpcall_lua : List Value → Routine (List Value)
xpcall_lua args = do
  check_function args 1
  check_function args 2
  p ← pcall (insert 1 (take 2 args))
  finish p
