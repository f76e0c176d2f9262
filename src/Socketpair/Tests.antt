-- ===== src/Socketpair/Tests.antt =====
-- src/socketpair.c against systems that answer in a fixed way, and its theorems at concrete inputs.
use lua_testcase.Socketpair.Stream.{
  exchange, Ends, Event, taken, IsConnected, step, receives, read_of, sends, exchange-prefix,
  written,
}
use lua_testcase.Lua.Plain.{plain}
use lua_testcase.Socketpair.Buffers.{
  KeepsSizes, buffer_lua, sending, receiving, sendbuf_lua-recvbuf_lua,
}
use lua_testcase.Socketpair.Flags.{KeepsFlags, AgreeBut, nonblock_lua_toggles}
use lua_testcase.Common.Int.{ℤ, pos, eqb_ℤ_refl, pos_part, eqb_ℤ, minus_one, to_int}
use lua_testcase.Socketpair.{
  nonblock_lua, Platform, new_lua, Reply, Call, enabled_of, make_pair, change_flags, write_lua,
  getfl, read_lua, setfl, close_lua, has_flag, gc, so_rcvbuf, failed, read, close, write,
  SocketOption, getsockopt, so_sndbuf, setsockopt,
}
use lua_testcase.Lua.{Value, userdata, boolean, integer, string}
use lua_testcase.Lua.Run.{Trace, Kernel, returned}
use lua_testcase.Socketpair.Lifetime.{
  IsSafe, life, session, Method, closings, writes, life_closes_once, closes, reads,
}
use lua_testcase.Common.{
  ◌≡◌, List, ◌∷◌, arith, [], ℕ, true, refl, if◌then◌else◌, ◌&&◌, not, drop, ◌++◌, length, ◌*◌, Bool,
  false,
}

abbrev linux : Platform
linux = record { o_nonblock = 2048; eagain = 11; ewouldblock = 11 }

abbrev reply : ℤ → Reply
reply v = record { ret = v; errno = 0; buf = []; value = pos 212992; pair0 = pos 3; pair1 = pos 4 }

-- The flags of a descriptor, 2 (O_RDWR) at first.
abbrev flags_in : Trace Call Reply → ℤ → ℕ
flags_in [] s = 2
flags_in ((c, a) ∷ t) s = elim c [
  | setfl q f ↦ if eqb_ℤ q s && not (failed a) then f else flags_in t s
  | _ ↦ flags_in t s
]

abbrev keeper : Kernel Call Reply
keeper t c = elim c [ getfl s ↦ reply (pos (flags_in t s)) | _ ↦ reply (pos 0) ]

keeper-KeepsFlags : KeepsFlags keeper
keeper-KeepsFlags = record {
  gives = λ t s. refl;
  sets = λ t s f. refl;
  keeps = λ t s f a h. ground (arith, eqb_ℤ_refl s);
}

abbrev self : Value
self = userdata "testcase.socketpair" (pos 3)

nonblocking :
    (nonblock_lua linux plain (self ∷ boolean true ∷ []) keeper (pos 3) []).2
    ≡ (setfl (pos 3) 2050, reply (pos 0)) ∷ (getfl (pos 3), reply (pos 2)) ∷ []
unfolding nonblock_lua enabled_of change_flags
nonblocking = refl

second_first :
    (new_lua linux plain [] keeper (pos 0) []).0
    ≡ returned
        (userdata "testcase.socketpair" (pos 4) ∷ userdata "testcase.socketpair" (pos 3) ∷ [])
unfolding new_lua make_pair
second_first = refl

nonblock_lua_toggles_example :
    let (o, s', t') = nonblock_lua linux plain (self ∷ boolean true ∷ []) keeper (pos 3) [] in
    let new = pos_part (keeper t' (getfl (pos 3))).ret in
    (o ≡ returned (boolean (has_flag 2 2048) ∷ []))
    × (s' ≡ pos 3)
    × ((nonblock_lua linux plain (self ∷ []) keeper s' t').0 ≡ returned (boolean true ∷ []))
    × AgreeBut 2048 new 2
nonblock_lua_toggles_example =
    nonblock_lua_toggles linux plain keeper self true (pos 3) [] (omega arith) keeper-KeepsFlags

abbrev methods : List Method
methods = writes (self ∷ string "hi" ∷ []) ∷ closes ∷ reads ∷ closes ∷ []

-- The read after the close asks for descriptor -1.
closed_once :
    life linux plain keeper methods (pos 3)
    ≡ (read minus_one 4096, reply (pos 0))
      ∷ (close (pos 3), reply (pos 0))
      ∷ (write (pos 3) "hi", reply (pos 0))
      ∷ []
unfolding life session write_lua read_lua close_lua gc
closed_once = refl

life_closes_once_example :
    IsSafe (pos 3) (life linux plain keeper methods (pos 3))
    × (closings (life linux plain keeper methods (pos 3)) ≡ 1)
life_closes_once_example = life_closes_once linux plain keeper methods 3

-- A system that doubles a size that is set; the sizes of a descriptor are 212992 at first.
abbrev same_option : SocketOption → SocketOption → Bool
same_option so_rcvbuf so_rcvbuf = true
same_option so_sndbuf so_sndbuf = true
same_option so_rcvbuf so_sndbuf = false
same_option so_sndbuf so_rcvbuf = false

same_option_refl : (o : SocketOption) → same_option o o ≡ true
same_option_refl so_rcvbuf = refl
same_option_refl so_sndbuf = refl

abbrev doubled : ℤ → ℤ
doubled v = pos (2 * pos_part v)

abbrev size_in : Trace Call Reply → ℤ → SocketOption → ℤ
size_in [] s o = pos 212992
size_in ((c, a) ∷ t) s o = elim c [
  | setsockopt q p v ↦
      if (eqb_ℤ q s && same_option p o) && not (failed a) then doubled v else size_in t s o
  | _ ↦ size_in t s o
]

abbrev doubler : Kernel Call Reply
doubler t c = elim c [
  | getsockopt s o ↦ record (reply (pos 0)) { value = size_in t s o }
  | _ ↦ reply (pos 0)
]

doubler-KeepsSizes : KeepsSizes doubler doubled
doubler-KeepsSizes = record {
  gives = λ t s o. refl;
  sets = λ t s o v. refl;
  keeps = λ t s o v a h. rw (eqb_ℤ_refl s, same_option_refl o, h) refl;
  apart = λ t s v a. rw (eqb_ℤ_refl s) refl;
  stays = λ t s o p a. refl;
}

-- What sendbuf sets, recvbuf returns.
sendbuf_lua-recvbuf_lua_example :
    let (o, s', t') =
      buffer_lua linux plain sending (self ∷ integer (pos 4096) ∷ []) doubler (pos 3) [] in
    (o ≡ returned (integer (pos 212992) ∷ []))
    × (s' ≡ pos 3)
    × ((buffer_lua linux plain receiving (self ∷ []) doubler s' t').0
        ≡ returned (integer (pos 8192) ∷ []))
    × ((doubler t' (getsockopt (pos 3) so_sndbuf)).value ≡ pos 212992)
unfolding to_int
sendbuf_lua-recvbuf_lua_example =
    sendbuf_lua-recvbuf_lua linux plain doubler doubled doubler-KeepsSizes self sending receiving
      (pos 4096) (pos 3) []

abbrev pair_ends : Ends
pair_ends = record { bytes_of = λ m. b'h' ∷ b'e' ∷ b'y' ∷ []; from = pos 3; to = pos 4 }

abbrev give : List ℕ → Reply
give [] = record (reply minus_one) { errno = 11 }
give (x ∷ l) = record (reply (pos 1)) { buf = x ∷ [] }

give_next : (l : List ℕ) → taken (give l).ret (give l).buf ≡ taken (give l).ret l
give_next [] = refl
give_next (x ∷ l) = refl

-- A pair that takes two bytes of a message at once, and gives one at once.
abbrev narrow : Kernel Call Reply
narrow t c = elim c [
  | read s n ↦ give (drop (length (read_of pair_ends t)) (written pair_ends t))
  | _ ↦ reply (pos 2)
]

narrow-IsConnected : IsConnected pair_ends narrow
narrow-IsConnected t = give_next (drop (length (read_of pair_ends t)) (written pair_ends t))

abbrev talk : List Event
talk = receives ∷ sends "hey" ∷ receives ∷ sends "hey" ∷ receives ∷ receives ∷ []

talked :
    let (sent, got, _) = exchange linux plain narrow pair_ends talk ([], [], []) in
    (sent ≡ b'h' ∷ b'e' ∷ b'h' ∷ b'e' ∷ []) × (got ≡ b'h' ∷ b'e' ∷ b'h' ∷ [])
unfolding exchange step write_lua read_lua
talked = (refl, refl)

exchange-prefix_example :
    let (sent, got, _) = exchange linux plain narrow pair_ends talk ([], [], []) in
    (rest : List ℕ) × (sent ≡ got ++ rest)
exchange-prefix_example = exchange-prefix linux plain narrow pair_ends talk narrow-IsConnected
