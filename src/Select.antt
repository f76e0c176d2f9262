-- ===== src/Select.antt =====
-- src/select.c: functions on the arguments that they are called with. No call is made and no state kept;
-- what stands on the Lua stack is the list of the arguments.
pub mod Split
mod Tests
use lua_testcase.Common.Int.{pos, ltb_ℤ, leb_ℤ, pos_part}
use lua_testcase.Lua.Args.{check_integer}
use lua_testcase.Lua.Run.{Action, ◌>>=◌, pure}
use lua_testcase.Common.{List, ℕ, drop, length, ◌-◌, ◌∷◌, if◌then◌else◌, [], take, ◌+◌}
use lua_testcase.Lua.{Conversions, Value, integer}

abbrev pub Routine : Type 0
Routine = Action (Unit {0}) (Unit {0}) (Unit {0}) (List Value)

-- What a C function that returns n gives: the values that stand highest on the stack.
abbrev pub highest : ℕ → List Value → List Value
highest n stack = drop (length stack - n) stack

pub len_lua : List Value → Routine
len_lua args = pure (integer (pos (length args)) ∷ [])

module _ (c : Conversions) where
  -- narg is -1 where there is no argument, and then the check of the first raises.
  pub head_lua : List Value → Routine
  head_lua args = do
    idx ← check_integer c args 1
    let narg = length args - 1 in
        let stack = drop 1 args in
        if ltb_ℤ (pos narg) idx
        then pure (highest narg stack)
        else if leb_ℤ idx (pos 0)
        then pure []
        else let n = pos_part idx in pure (highest n (take n stack))

  pub tail_lua : List Value → Routine
  tail_lua args = do
    idx ← check_integer c args 1
    let narg = length args - 1 in
        if ltb_ℤ (pos narg) idx
        then pure []
        else if leb_ℤ idx (pos 1)
        then pure (highest narg args)
        else pure (highest (narg - pos_part idx + 1) args)
