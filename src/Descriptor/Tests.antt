-- ===== src/Descriptor/Tests.antt =====
-- src/close.c and src/shutdown.c on a few handles, and their theorems at concrete inputs.
use lua_testcase.Descriptor.Handles.{after, IsInt, close_lua_integer}
use lua_testcase.Common.{suc, ◌∷◌, some, true, [], false, if◌then◌else◌, ◌≡◌, none, zero, refl, ◌↔◌}
use lua_testcase.Lua.{userdata, integer, boolean, bad_argument, errno_object}
use lua_testcase.Lua.Plain.{plain}
use lua_testcase.Descriptor.{
  Handles, close_lua, Call, check_fd, Reply, descriptor_of, fileno, close, shutdown,
}
use lua_testcase.Lua.Run.{Kernel, raised, returned}
use lua_testcase.Common.Int.{ℤ, to_int, pos, ltb_ℤ, minus_one}

-- Stream 40 has the descriptor 3; the system takes any descriptor that is not negative.
abbrev small : Kernel Call Reply
small t (fileno p) = record { ret = pos 3; errno = 0 }
small t (close fd) = record { ret = if ltb_ℤ fd (pos 0) then minus_one else pos 0; errno = 9 }
small t (shutdown fd h) = record { ret = pos 0; errno = 0 }

-- Handle 1 is open; handle 2 is closed and still points at the stream, handle 3 is closed and does not.
abbrev handles : Handles
handles (pos (suc zero)) = record { f = some 40; is_open = true }
handles (pos (suc (suc zero))) = record { f = some 40; is_open = false }
handles h = record { f = none; is_open = false }

no_descriptor :
    (close_lua plain (userdata "FILE*" (pos 3) ∷ []) small handles []).0
    ≡ returned (boolean false ∷ errno_object 9 "close" [] ∷ [])
unfolding close_lua check_fd descriptor_of
no_descriptor = refl

not_a_file :
    (close_lua plain (userdata "testcase.timer" (pos 3) ∷ []) small handles []).0
    ≡ raised (bad_argument 1)
unfolding close_lua check_fd descriptor_of
not_a_file = refl

close_lua_integer_example :
    (fd : ℤ) × (close_lua plain (integer (pos 4_294_967_299) ∷ []) small handles []
      ≡ after small handles [] "close" (close fd))
    × IsInt fd
    × ((fd ≡ pos 4_294_967_299) ↔ IsInt (pos 4_294_967_299))
close_lua_integer_example = close_lua_integer plain small handles (pos 4_294_967_299)

-- The descriptor that is closed then.
another_one :
    close_lua plain (integer (pos 4_294_967_299) ∷ []) small handles []
    ≡ after small handles [] "close" (close (pos 3))
unfolding close_lua check_fd to_int
another_one = refl
