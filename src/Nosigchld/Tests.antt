-- ===== src/Nosigchld/Tests.antt =====
-- src/nosigchld.c against a system that keeps the disposition, and its theorems at concrete inputs.
use lua_testcase.Common.Int.{pos, minus_one}
use lua_testcase.Lua.{Value, boolean, nil}
use lua_testcase.Nosigchld.{
  Call, nosigchld_lua, new, Reply, set_enabled, change, noop, other, restore, install,
}
use lua_testcase.Lua.Run.{Kernel}
use lua_testcase.Nosigchld.Disposition.{session, disposition, session-disposition}
use lua_testcase.Common.{◌≡◌, List, [], true, ◌∷◌, if◌then◌else◌, false, refl}

abbrev keeper : Kernel Call Reply
keeper t c = record { ret = pos 0; errno = 0; old = disposition (other 7) t }

abbrev unwilling : Kernel Call Reply
unwilling t c = record { ret = minus_one; errno = 22; old = noop }

abbrev calls : List (List Value)
calls = (boolean true ∷ []) ∷ (boolean true ∷ []) ∷ (boolean false ∷ []) ∷ (nil ∷ []) ∷ []

-- Two of the four calls change something.
restored :
    (session keeper calls new []).1
    ≡ (restore (other 7), record { ret = pos 0; errno = 0; old = noop })
      ∷ (install, record { ret = pos 0; errno = 0; old = other 7 })
      ∷ []
unfolding session nosigchld_lua set_enabled change new
restored = refl

session-disposition_example :
    let (s, t) = session keeper calls new [] in
    disposition (other 7) t ≡ (if s.enabled then noop else other 7)
session-disposition_example = session-disposition (other 7) keeper calls (λ t h. refl)
