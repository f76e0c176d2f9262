-- ===== src/Socketpair/Buffers.antt =====
-- The buffer sizes of src/socketpair.c.
use lua_testcase.Common.Int.{ℤ, to_int}
use lua_testcase.Lua.{Conversions, Value, integer}
use lua_testcase.Lua.Run.{Trace, Kernel, returned}
use lua_testcase.Socketpair.{
  sendbuf_lua, SocketOption, Call, so_rcvbuf, so_sndbuf, recvbuf_lua, Reply, sockbuf, new_size,
  getsockopt, change_size, size_result, Platform, setsockopt, failed, Handler,
}
use lua_testcase.Common.{◌≡◌, List, [], arith, ◌∷◌, refl, false, ◌∙◌, ap}

-- The system's buffer sizes of a descriptor: the calls do not fail, and a size that is set is kept as the
-- system makes it (Linux doubles it), while getsockopt and the other option leave it as it is.
pub record KeepsSizes (k : Kernel Call Reply) (made : ℤ → ℤ) : Type 0 where
  pub gives :
      (t : Trace Call Reply) (s : ℤ) (o : SocketOption) → failed (k t (getsockopt s o)) ≡ false
  pub sets :
      (t : Trace Call Reply) (s : ℤ) (o : SocketOption) (v : ℤ)
      → failed (k t (setsockopt s o v)) ≡ false
  pub keeps :
      (t : Trace Call Reply) (s : ℤ) (o : SocketOption) (v : ℤ) (a : Reply)
      → failed a ≡ false
      → (k ((setsockopt s o v, a) ∷ t) (getsockopt s o)).value ≡ made v
  pub apart :
      (t : Trace Call Reply) (s v : ℤ) (a : Reply)
      → (k ((setsockopt s so_rcvbuf v, a) ∷ t) (getsockopt s so_sndbuf)).value
        ≡ (k t (getsockopt s so_sndbuf)).value
  pub stays :
      (t : Trace Call Reply) (s : ℤ) (o p : SocketOption) (a : Reply)
      → (k ((getsockopt s o, a) ∷ t) (getsockopt s p)).value ≡ (k t (getsockopt s p)).value

pub data Buffer : Type 0 where
  sending receiving : Buffer

abbrev pub buffer_lua : Platform → Conversions → Buffer → List Value → Handler
buffer_lua p c sending = sendbuf_lua p c
buffer_lua p c receiving = recvbuf_lua p c

module _ (p : Platform) (c : Conversions) (k : Kernel Call Reply) (made : ℤ → ℤ)
    (law : KeepsSizes k made) (self : Value) where
  asks :
      (b : Buffer) (s : ℤ) (t : Trace Call Reply)
      → (buffer_lua p c b (self ∷ []) k s t).0
        ≡ returned (integer (k t (getsockopt s so_rcvbuf)).value ∷ [])
  unfolding sendbuf_lua recvbuf_lua sockbuf new_size change_size size_result
  asks sending s t = ground (arith, law.gives t s so_rcvbuf)
  asks receiving s t = ground (arith, law.gives t s so_rcvbuf)

  -- The trace after the two calls.
  abbrev set_trace : ℤ → ℤ → Trace Call Reply → Trace Call Reply
  set_trace n s t =
      let t₁ : Trace Call Reply = (getsockopt s so_rcvbuf, k t (getsockopt s so_rcvbuf)) ∷ t in
      (setsockopt s so_rcvbuf (to_int n), k t₁ (setsockopt s so_rcvbuf (to_int n))) ∷ t₁

  changes :
      (b : Buffer) (n s : ℤ) (t : Trace Call Reply)
      → buffer_lua p c b (self ∷ integer n ∷ []) k s t
        ≡ (returned (integer (k t (getsockopt s so_rcvbuf)).value ∷ []), s, set_trace n s t)
  unfolding sendbuf_lua recvbuf_lua sockbuf new_size change_size size_result
  changes sending n s t =
      let t₁ : Trace Call Reply = (getsockopt s so_rcvbuf, k t (getsockopt s so_rcvbuf)) ∷ t in
      rw (law.gives t s so_rcvbuf) (rw (law.sets t₁ s so_rcvbuf (to_int n)) refl)
  changes receiving n s t =
      let t₁ : Trace Call Reply = (getsockopt s so_rcvbuf, k t (getsockopt s so_rcvbuf)) ∷ t in
      rw (law.gives t s so_rcvbuf) (rw (law.sets t₁ s so_rcvbuf (to_int n)) refl)

  -- Where the system keeps buffer sizes, sendbuf and recvbuf alike return, given an integer, the size that the
  -- receive buffer had, and ask for that integer, made an int, as its size, which the next call of either
  -- returns as the system has made it; and the size of the send buffer stays as it was.
  pub sendbuf_lua-recvbuf_lua :
      (b next : Buffer) (n s : ℤ) (t : Trace Call Reply)
      → let old = k t (getsockopt s so_rcvbuf) in
        let (o, s', t') = buffer_lua p c b (self ∷ integer n ∷ []) k s t in
        (o ≡ returned (integer old.value ∷ []))
        × (s' ≡ s)
        × ((buffer_lua p c next (self ∷ []) k s' t').0 ≡ returned (integer (made (to_int n)) ∷ []))
        × ((k t' (getsockopt s so_sndbuf)).value ≡ (k t (getsockopt s so_sndbuf)).value)
  sendbuf_lua-recvbuf_lua b next n s t =
      let old = k t (getsockopt s so_rcvbuf) in
      let t₁ : Trace Call Reply = (getsockopt s so_rcvbuf, old) ∷ t in
      let a = k t₁ (setsockopt s so_rcvbuf (to_int n)) in
      let set = law.sets t₁ s so_rcvbuf (to_int n) in
      let kept = law.keeps t₁ s so_rcvbuf (to_int n) a set in
      rw (changes b n s t) (
        refl,
        refl,
        asks next s (set_trace n s t) ∙ ap (λ v. returned (integer v ∷ [])) kept,
        law.apart t₁ s (to_int n) a ∙ law.stays t s so_rcvbuf so_sndbuf old,
      )
