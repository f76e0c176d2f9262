-- ===== src/Realpath/Tests.antt =====
-- src/realpath.c on a small system, and its theorems at concrete inputs.
use lua_testcase.Lua.{string, nil}
use lua_testcase.Lua.Plain.{plain}
use lua_testcase.Lua.Run.{Kernel}
use lua_testcase.Realpath.{start, luaopen, Call, Reply, realpath_lua}
use lua_testcase.Common.{List, ◌∷◌, some, [], ◌≡◌, arith, refl, inl}
use lua_testcase.Realpath.Buffer.{
  Fits, session, Event, resolves, opens, session-Fits, session-not-Fits,
}
use lua_testcase.Common.Int.{ℤ, minus_one, pos}

-- PATH_MAX is 16 here; pathconf gives a limit of `n`, and realpath resolves to a path of eleven bytes.
abbrev limited : ℤ → Kernel Call Reply
limited n t c = record { limit = n; resolved = some "/home/user"; written = 11; errno = 0 }

abbrev events : List Event
events = resolves (string "." ∷ []) ∷ opens ∷ resolves (nil ∷ []) ∷ []

two_opened :
    (session plain (limited (pos 16)) (opens ∷ events) (start 16) []).0
    ≡ record { bufsiz = 16; buf = some 16 }
unfolding session start luaopen realpath_lua
two_opened = refl

session-Fits_example : Fits (session plain (limited minus_one) (opens ∷ events) (start 16) []).1
session-Fits_example =
    session-Fits plain (limited minus_one) 16 events (λ t p b. omega arith) (λ t. inl refl)

session-not-Fits_example :
    ¬ Fits
      (session plain (limited (pos 8)) (opens ∷ resolves (string "." ∷ []) ∷ []) (start 16) []).1
session-not-Fits_example = session-not-Fits plain (limited (pos 8)) 16 8 "." refl (λ t. omega arith)
