-- ===== src/Socketpair/Lifetime.antt =====
-- A descriptor of src/socketpair.c over the life of its userdatum: it is closed once, and no call
-- names it after that, when its number may stand for another file.
use lua_testcase.Lua.{Conversions, Value}
use lua_testcase.Lua.Run.{Trace, Kernel}
use lua_testcase.Socketpair.{
  Call, Platform, write, Reply, close, read, shutdown, gc, fd_lua, Handler, getsockopt, close_lua,
  setsockopt, shutwr_lua, shutrd_lua, getfl, shutdown_lua, setfl, do_shutdown, read_lua, write_lua,
  recvbuf_lua, sendbuf_lua, nonblock_lua, sockbuf, new_size, change_size, enabled_of, change_flags,
  socketpair,
}
use lua_testcase.Common.Int.{ℤ, pos, minus_one}
use lua_testcase.Common.{
  ◌≡◌, List, Bool, ℕ, [], true, inl, ◌⊎◌, arith, false, ◌∷◌, refl, if◌then◌else◌, ◌==◌, suc,
}

-- The methods with their arguments; gc is not one of them, it comes last.
pub data Method : Type 0 where
  fd closes shutwr shutrd shutdowns reads : Method
  writes recvbuf sendbuf nonblock : List Value → Method

abbrev pub target : Call → ℤ
target (write s m) = s
target (read s n) = s
target (shutdown s h) = s
target (close s) = s
target (getsockopt s o) = s
target (setsockopt s o v) = s
target (getfl s) = s
target (setfl s f) = s
target socketpair = minus_one

abbrev pub is_close : Call → Bool
is_close (close s) = true
is_close _ = false

abbrev pub closings : Trace Call Reply → ℕ
closings [] = 0
closings ((c, r) ∷ t) = if is_close c then suc (closings t) else closings t

-- Each call names the descriptor while it has not been closed, and -1 after that.
abbrev pub IsSafe : ℤ → Trace Call Reply → Type 0
IsSafe s [] = Unit
IsSafe s ((c, r) ∷ t) = (target c ≡ (if closings t == 0 then s else minus_one)) × IsSafe s t

module _ (p : Platform) (c : Conversions) (k : Kernel Call Reply) where
  abbrev pub method : Method → Handler
  method fd = fd_lua
  method closes = close_lua
  method shutwr = shutwr_lua
  method shutrd = shutrd_lua
  method shutdowns = shutdown_lua
  method reads = read_lua p c
  method (writes args) = write_lua p c args
  method (recvbuf args) = recvbuf_lua p c args
  method (sendbuf args) = sendbuf_lua p c args
  method (nonblock args) = nonblock_lua p c args

  unfoldable pub session : List Method → ℤ → Trace Call Reply → ℤ × Trace Call Reply
  session [] s t = (s, t)
  session (m ∷ ms) s t = let (_, s', t') = method m k s t in session ms s' t'

  -- The calls made over the life of a userdatum: by its methods, and by gc in the end.
  unfoldable pub life : List Method → ℤ → Trace Call Reply
  unfolding session
  life ms s = let (s', t') = session ms s [] in (gc k s' t').2

  abbrev Holds : ℕ → ℤ → Trace Call Reply → Type 0
  Holds n s t =
      IsSafe (pos n) t × (((s ≡ pos n) × (closings t ≡ 0)) ⊎ ((s ≡ minus_one) × (closings t ≡ 1)))

  method-Holds :
      (m : Method) (n : ℕ) (s : ℤ) (t : Trace Call Reply)
      → Holds n s t
      → let (_, s', t') = method m k s t in Holds n s' t'
  unfolding fd_lua close_lua shutwr_lua shutrd_lua shutdown_lua do_shutdown read_lua write_lua
      recvbuf_lua sendbuf_lua sockbuf new_size change_size nonblock_lua enabled_of change_flags
  method-Holds fd n s t h = ground arith
  method-Holds _ n s t h = ground arith

  session-Holds :
      (ms : List Method) (n : ℕ) (s : ℤ) (t : Trace Call Reply)
      → Holds n s t
      → let (s', t') = session ms s t in Holds n s' t'
  unfolding session
  session-Holds [] n s t h = h
  session-Holds (m ∷ ms) n s t h =
      let (_, s', t') = method m k s t in session-Holds ms n s' t' (method-Holds m n s t h)

  gc-closes :
      (n : ℕ) (s : ℤ) (t : Trace Call Reply)
      → Holds n s t
      → IsSafe (pos n) (gc k s t).2 × (closings (gc k s t).2 ≡ 1)
  unfolding gc
  gc-closes n s t h = ground arith

  -- Over the life of a socket userdatum, whatever methods are called with whatever arguments and
  -- however the system answers, the descriptor is closed exactly once; every call before that names
  -- it, and every call after that names -1.
  pub life_closes_once :
      (ms : List Method) (n : ℕ)
      → IsSafe (pos n) (life ms (pos n)) × (closings (life ms (pos n)) ≡ 1)
  unfolding life
  life_closes_once ms n =
      let (s, t) = session ms (pos n) [] in
      gc-closes n s t (session-Holds ms n (pos n) [] (tt, inl (refl, refl)))
