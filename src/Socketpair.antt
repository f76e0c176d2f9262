-- ===== src/Socketpair.antt =====
-- src/socketpair.c: a pair of connected sockets. The state of a run is the content of one userdatum:
-- the descriptor, -1 once it is closed. The functions of <unistd.h>, <fcntl.h> and <sys/socket.h>
-- are calls of the system; O_NONBLOCK, EAGAIN and EWOULDBLOCK are parameters.
pub mod Lifetime
pub mod Flags
pub mod Stream
pub mod Buffers
mod Tests
use lua_testcase.Lua.Args.{check_boolean, check_integer, check_string}
use lua_testcase.Common.Int.{ℤ, eqb_ℤ, minus_one, to_int, pos_part, pos}
use lua_testcase.Lua.Format.{pointer_text}
use lua_testcase.Lua.{Conversions, Value, integer, boolean, nil, strerror, bytes, userdata}
use lua_testcase.Lua.Run.{◌>>◌, Action, pure, ◌>>=◌, call, get, when, put}
use lua_testcase.Common.{
  ℕ, Bool, List, Option, if◌then◌else◌, String, ◌/◌, ◌-◌, ◌+◌, ◌%◌, ltb, ◌==◌, ◌∷◌, length, ◌||◌,
  [], true, some, false, none, take, not,
}

-- SHUT_RD, SHUT_WR, SHUT_RDWR
pub data How : Type 0 where
  shut_rd shut_wr shut_rdwr : How

-- SO_RCVBUF, SO_SNDBUF
pub data SocketOption : Type 0 where
  so_rcvbuf so_sndbuf : SocketOption

-- fcntl is called with F_GETFL and F_SETFL, the socket options with the level SOL_SOCKET.
pub data Call : Type 0 where
  write : ℤ → String → Call
  read : ℤ → ℕ → Call
  shutdown : ℤ → How → Call
  close : ℤ → Call
  getsockopt : ℤ → SocketOption → Call
  setsockopt : ℤ → SocketOption → ℤ → Call
  getfl : ℤ → Call
  setfl : ℤ → ℕ → Call
  socketpair : Call

-- The return value, errno, and what the call stores: the buffer of read, the value of getsockopt,
-- the two descriptors of socketpair.
pub record Reply : Type 0 where
  pub ret : ℤ
  pub errno : ℕ
  pub buf : List ℕ
  pub value : ℤ
  pub pair0 : ℤ
  pub pair1 : ℤ

pub record Platform : Type 0 where
  pub o_nonblock : ℕ
  pub eagain : ℕ
  pub ewouldblock : ℕ

abbrev pub Handler : Type 0
Handler = Action Call Reply ℤ (List Value)

abbrev pub Routine : Type 0 → Type 0
Routine A = Action Call Reply ℤ A

abbrev pub failed : Reply → Bool
failed r = eqb_ℤ r.ret minus_one

-- The tests and changes of the one bit that O_NONBLOCK is: flags & m, flags | m, flags & ~m.
abbrev pub has_flag : ℕ → ℕ → Bool
has_flag flags m = flags / m % 2 == 1

abbrev pub set_flag : ℕ → ℕ → ℕ
set_flag flags m = if has_flag flags m then flags else flags + m

abbrev pub clear_flag : ℕ → ℕ → ℕ
clear_flag flags m = if has_flag flags m then flags - m else flags

module _ (p : Platform) (c : Conversions) where
  -- What write and read give for -1.
  abbrev transfer_error : Reply → List Value
  transfer_error r =
      if r.errno == p.eagain || r.errno == p.ewouldblock
      then nil ∷ nil ∷ boolean true ∷ []
      else nil ∷ strerror r.errno ∷ []

  pub write_lua : List Value → Handler
  write_lua args = do
    msg ← check_string c args 2
    sock ← get
    r ← call (write sock msg)
    pure (if failed r then transfer_error r else integer r.ret ∷ [])

  -- read returns at most the size of the buffer, so its bytes stand in the buffer.
  pub read_lua : Handler
  read_lua = do
    sock ← get
    r ← call (read sock 4096)
    pure (
        if failed r
        then transfer_error r
        else if eqb_ℤ r.ret (pos 0)
        then nil ∷ []
        else bytes (take (pos_part r.ret) r.buf) ∷ [])

  -- sockbuf; the arguments stand behind the userdatum, which is the first.
  size_result : Reply → Reply → List Value
  size_result old r = if failed r then nil ∷ strerror r.errno ∷ [] else integer old.value ∷ []

  change_size : SocketOption → Option ℤ → ℤ → Reply → Handler
  change_size opt none sock old = pure (integer old.value ∷ [])
  change_size opt (some newsize) sock old =
      call (setsockopt sock opt newsize) >>= λ r. pure (size_result old r)

  -- luaL_checkinteger(L, 2), stored in an int, if there is a second argument.
  new_size : List Value → Routine (Option ℤ)
  new_size args =
      if ltb 1 (length args)
      then (check_integer c args 2 >>= λ n. pure (some (to_int n)))
      else pure none

  pub sockbuf : SocketOption → List Value → Handler
  sockbuf opt args = do
    newsize ← new_size args
    sock ← get
    old ← call (getsockopt sock opt)
    if failed old then pure (nil ∷ strerror old.errno ∷ []) else change_size opt newsize sock old

  pub sendbuf_lua : List Value → Handler
  sendbuf_lua = sockbuf so_rcvbuf

  pub recvbuf_lua : List Value → Handler
  recvbuf_lua = sockbuf so_rcvbuf

  -- luaL_checktype(L, 2, LUA_TBOOLEAN); lua_toboolean(L, 2), if there is a second argument.
  enabled_of : List Value → Routine (Option Bool)
  enabled_of args =
      if ltb 1 (length args) then (check_boolean args 2 >>= λ b. pure (some b)) else pure none

  change_flags : Option Bool → ℤ → ℕ → Handler
  change_flags none sock flags = pure (boolean (has_flag flags p.o_nonblock) ∷ [])
  change_flags (some enabled) sock flags = do
    r ← call (
        setfl sock (if enabled then set_flag flags p.o_nonblock else clear_flag flags p.o_nonblock))
    pure (
        if failed r
        then nil ∷ strerror r.errno ∷ []
        else boolean (has_flag flags p.o_nonblock) ∷ [])

  pub nonblock_lua : List Value → Handler
  nonblock_lua args = do
    enabled ← enabled_of args
    sock ← get
    r ← call (getfl sock)
    if failed r
        then pure (nil ∷ strerror r.errno ∷ [])
        else change_flags enabled sock (pos_part r.ret)

  -- socketpair(AF_UNIX, SOCK_STREAM, 0, pair); the second socket stands below the first on the
  -- stack, with the content of sock2.
  make_pair : Bool → Reply → Handler
  make_pair nonblock r = if failed r then pure (nil ∷ strerror r.errno ∷ []) else do
    when nonblock
        (call (setfl r.pair0 p.o_nonblock) >> (call (setfl r.pair1 p.o_nonblock) >> pure tt))
    pure (userdata "testcase.socketpair" r.pair1 ∷ userdata "testcase.socketpair" r.pair0 ∷ [])

  pub new_lua : List Value → Handler
  new_lua args = do
    nonblock ← (if ltb 0 (length args) then check_boolean args 1 else pure false)
    r ← call socketpair
    make_pair nonblock r

do_shutdown : How → Handler
do_shutdown how = do
  sock ← get
  r ← call (shutdown sock how)
  pure (if eqb_ℤ r.ret (pos 0) then boolean true ∷ [] else boolean false ∷ strerror r.errno ∷ [])

pub shutwr_lua : Handler
shutwr_lua = do_shutdown shut_wr

pub shutrd_lua : Handler
shutrd_lua = do_shutdown shut_rd

pub shutdown_lua : Handler
shutdown_lua = do_shutdown shut_rdwr

pub close_lua : Handler
close_lua = do
  sock ← get
  when (not (eqb_ℤ sock minus_one)) (call (close sock) >> put minus_one)
  pure []

pub fd_lua : Handler
fd_lua = do sock ← get; pure (integer sock ∷ [])

pub gc : Handler
gc = do sock ← get; when (not (eqb_ℤ sock minus_one)) (call (close sock) >> pure tt); pure []

-- What the system prints of the userdatum's address is an argument.
pub tostring_lua : List ℕ → Handler
tostring_lua pointer = pure (pointer_text "testcase.socketpair" pointer ∷ [])
