-- ===== src/Descriptor/Handles.antt =====
-- The descriptor that src/close.c and src/shutdown.c take from their first argument.
use lua_testcase.Common.{
  ◌≡◌, arith, ◌<◌, ◌^◌, Option, ℕ, List, ◌∷◌, String, [], some, ◌↔◌, none, refl, sym,
}
use lua_testcase.Lua.{Conversions, integer, userdata, Value}
use lua_testcase.Common.Int.{to_int, ℤ, pos, negsuc, minus_one}
use lua_testcase.Lua.Run.{Kernel, Trace, Outcome, returned}
use lua_testcase.Descriptor.{
  close_lua, shutdown_lua, check_fd, descriptor_of, check_how, Call, Reply, Handles, how_of, close,
  fileno, reported, shutdown, shut_rdwr,
}

-- The descriptor for a FILE*, with the call that asks for it.
abbrev pub asked : Kernel Call Reply → Option ℕ → ℤ × Trace Call Reply
asked k none = (minus_one, [])
asked k (some p) = let r = k [] (fileno p) in (r.ret, (fileno p, r) ∷ [])

-- One more call, with what is returned for its reply.
abbrev pub after :
    Kernel Call Reply
    → Handles
    → Trace Call Reply
    → String
    → Call
    → Outcome (List Value) × Handles × Trace Call Reply
after k s t name call = let r = k t call in (returned (reported name r), s, (call, r) ∷ t)

module _ (c : Conversions) (k : Kernel Call Reply) where
  -- Of a file handle close and shutdown take its FILE*, whether the handle is open or closed: they ask
  -- that stream for its descriptor, or take -1 where it is NULL, and then make their one call on it.
  -- The handle is left as it was, and they return true for 0, else false and the error.
  close_lua_handle :
      (s : Handles) (h : ℤ)
      → let (fd, t) = asked k (s h).f in
        (close_lua c (userdata "FILE*" h ∷ []) k s [] ≡ after k s t "close" (close fd))
        × (shutdown_lua c (userdata "FILE*" h ∷ []) k s []
            ≡ after k s t "shutdown" (shutdown fd shut_rdwr))
  unfolding close_lua shutdown_lua check_how how_of check_fd descriptor_of
  close_lua_handle s h = (ground arith, ground arith)

-- What fits an int.
abbrev pub IsInt : ℤ → Type 0
IsInt (pos n) = n < 2 ^ 31
IsInt (negsuc n) = n < 2 ^ 31

to_int-IsInt : (v : ℤ) → IsInt (to_int v)
unfolding to_int
to_int-IsInt v = ground arith

to_int_same : (v : ℤ) → IsInt v → to_int v ≡ v
unfolding to_int
to_int_same (pos n) h = ground arith
to_int_same (negsuc n) h = ground arith

-- Given an integer close makes one call, on a descriptor that fits an int; it is the integer itself if
-- and only if that fits, so that any other integer closes a descriptor that was not named.
pub close_lua_integer :
    (c : Conversions) (k : Kernel Call Reply) (s : Handles) (v : ℤ)
    → (fd : ℤ) × (close_lua c (integer v ∷ []) k s [] ≡ after k s [] "close" (close fd))
      × IsInt fd
      × ((fd ≡ v) ↔ IsInt v)
unfolding close_lua check_fd
close_lua_integer c k s v =
    (to_int v, refl, to_int-IsInt v, (λ e. rw (sym e) (to_int-IsInt v), λ h. to_int_same v h))
