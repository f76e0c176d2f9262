-- ===== src/Select/Tests.antt =====
-- src/select.c on a few arguments, and its theorems at concrete inputs.
use lua_testcase.Lua.Plain.{plain}
use lua_testcase.Common.Int.{pos}
use lua_testcase.Common.{List, [], ◌≡◌, ◌∷◌, refl}
use lua_testcase.Lua.{Value, integer, string, bad_argument}
use lua_testcase.Select.{tail_lua, head_lua, len_lua}
use lua_testcase.Lua.Run.{Kernel, raised, returned}

abbrev idle : Kernel (Unit {0}) (Unit {0})
idle t c = tt

abbrev others : List Value
others = string "a" ∷ string "b" ∷ string "c" ∷ []

no_arguments : (head_lua plain [] idle tt []).0 ≡ raised (bad_argument 1)
unfolding head_lua
no_arguments = refl

last_two :
    (tail_lua plain (integer (pos 2) ∷ others) idle tt []).0
    ≡ returned (string "b" ∷ string "c" ∷ [])
unfolding tail_lua
last_two = refl

their_number : (len_lua others idle tt []).0 ≡ returned (integer (pos 3) ∷ [])
unfolding len_lua
their_number = refl
