-- ===== src/Iohook/Tests.antt =====
-- A run of iohook.
use lua_testcase.Common.{false, List, [], ◌∷◌, none, some, ◌≡◌, refl}
use lua_testcase.Lua.Format.{bytes_of}
use lua_testcase.Iohook.{start, called, written, hook, unhook, print, printout, function, other}
use lua_testcase.Iohook.Sessions.{
  Part, outside, inside, prints, blocks, unblocks, run, expected, run-log,
}

abbrev parts : List Part
parts =
    outside (prints (bytes_of "a" ∷ []))
    ∷ inside (some 1) (some 2) (some 3) (
        prints (bytes_of "b" ∷ [])
        ∷ blocks
        ∷ prints (bytes_of "c" ∷ [])
        ∷ unblocks
        ∷ prints (bytes_of "d" ∷ [])
        ∷ [])
    ∷ inside (some 1) (some 2) none []
    ∷ []

run-log_example :
    ((run parts start).log ≡ expected parts false) × ((run parts start).replaced ≡ false)
run-log_example = run-log parts

events :
    (run parts start).log
    ≡ written (bytes_of "a" ∷ [])
      ∷ called 2 []
      ∷ called 1 (bytes_of "b" ∷ [])
      ∷ called 1 (bytes_of "d" ∷ [])
      ∷ called 3 []
      ∷ []
unfolding hook unhook print printout
events = refl

refused : (hook (function 1) (other "string") (function 2) start).0 ≡ some (2, "string")
unfolding hook
refused = refl
