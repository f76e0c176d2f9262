-- ===== src/Socketpair/Stream.antt =====
-- The two sockets of src/socketpair.c as a stream of bytes, from the one that is written to the other.
use lua_testcase.Lua.{Value, Conversions, userdata, integer, bytes, string}
use lua_testcase.Common.Int.{ℤ, pos, negsuc, eqb_ℤ, eqb_ℤ_refl}
use lua_testcase.Lua.Run.{Trace, Kernel, Outcome, returned}
use lua_testcase.Common.{
  String, List, ℕ, ◌≡◌, ◌∷◌, take, [], if◌then◌else◌, ◌++◌, drop, length, arith, ap, ◌∙◌, refl,
  take-append-drop, drop-length-append, sym,
}
use mathlib.Core.List.{append_assoc}
use lua_testcase.Socketpair.{write_lua, read_lua, Platform, Call, Reply, write, read}

pub data Event : Type 0 where
  sends : String → Event
  receives : Event

-- The bytes of a text, the first socket's descriptor and the second's.
pub record Ends : Type 0 where
  pub bytes_of : String → List ℕ
  pub from : ℤ
  pub to : ℤ

abbrev pub taken : ℤ → List ℕ → List ℕ
taken (pos n) l = take n l
taken (negsuc n) l = []

abbrev left : ℤ → List ℕ → List ℕ
left (pos n) l = drop n l
left (negsuc n) l = l

taken-left : (v : ℤ) (l : List ℕ) → taken v l ++ left v l ≡ l
taken-left (pos n) l = take-append-drop n l
taken-left (negsuc n) l = refl

-- What has been written to the first socket, and read from the second, by the system's replies.
abbrev pub written : Ends → Trace Call Reply → List ℕ
written e [] = []
written e ((write s m, r) ∷ t) =
    if eqb_ℤ s e.from then written e t ++ taken r.ret (e.bytes_of m) else written e t
written e (x ∷ t) = written e t

abbrev pub read_of : Ends → Trace Call Reply → List ℕ
read_of e [] = []
read_of e ((read s n, r) ∷ t) =
    if eqb_ℤ s e.to then read_of e t ++ taken r.ret r.buf else read_of e t
read_of e (x ∷ t) = read_of e t

-- A connected pair: a read stores the bytes that come next of those written.
abbrev pub IsConnected : Ends → Kernel Call Reply → Type 0
IsConnected e k =
    (t : Trace Call Reply)
    → let r = k t (read e.to 4096) in
      taken r.ret r.buf ≡ taken r.ret (drop (length (read_of e t)) (written e t))

-- What Lua code knows to be sent of a message, and to be received, by the values that are returned.
abbrev pub sent_by : List ℕ → Outcome (List Value) → List ℕ
sent_by m (returned (integer v ∷ [])) = taken v m
sent_by m _ = []

abbrev pub received_by : Outcome (List Value) → List ℕ
received_by (returned (bytes b ∷ [])) = b
received_by _ = []

-- The bytes sent and received so far, and the trace.
abbrev pub Progress : Type 0
Progress = List ℕ × List ℕ × Trace Call Reply

module _ (p : Platform) (c : Conversions) (k : Kernel Call Reply) (e : Ends) where
  unfoldable pub step : Event → Progress → Progress
  step (sends m) (sent, got, t) =
      let (o, _, t') =
        write_lua p c (userdata "testcase.socketpair" e.from ∷ string m ∷ []) k e.from t in
      (sent ++ sent_by (e.bytes_of m) o, got, t')
  step receives (sent, got, t) =
      let (o, _, t') = read_lua p c k e.to t in (sent, got ++ received_by o, t')

  unfoldable pub exchange : List Event → Progress → Progress
  exchange [] x = x
  exchange (ev ∷ es) x = exchange es (step ev x)

  -- What holds between two events: what Lua code knows is what the system did, and is a prefix.
  abbrev Holds : Progress → Type 0
  Holds (sent, got, t) =
      (sent ≡ written e t) × (got ≡ read_of e t) × ((rest : List ℕ) × (sent ≡ got ++ rest))

  sent_lem :
      (m : String) (t : Trace Call Reply)
      → let r = k t (write e.from m) in
        sent_by
          (e.bytes_of m)
          (write_lua p c (userdata "testcase.socketpair" e.from ∷ string m ∷ []) k e.from t).0
        ≡ taken r.ret (e.bytes_of m)
  unfolding write_lua
  sent_lem m t = ground arith

  received_lem :
      (t : Trace Call Reply)
      → let r = k t (read e.to 4096) in received_by (read_lua p c k e.to t).0 ≡ taken r.ret r.buf
  unfolding read_lua
  received_lem t = ground arith

  step-Holds : (ev : Event) (x : Progress) → IsConnected e k → Holds x → Holds (step ev x)
  unfolding step write_lua read_lua
  step-Holds (sends m) (sent, got, t) law (a, b, (rest, d)) =
      let r = k t (write e.from m) in
      let x = taken r.ret (e.bytes_of m) in
      let y = sent_lem m t in
      (
        rw y (rw (eqb_ℤ_refl e.from) (ap (λ l. l ++ x) a)),
        b,
        (rest ++ x, rw y (ap (λ l. l ++ x) d ∙ append_assoc got rest x)),
      )
  step-Holds receives (sent, got, t) law (a, b, (rest, d)) =
      let r = k t (read e.to 4096) in
      let y = received_lem t in
      let next : drop (length (read_of e t)) (written e t) ≡ rest =
        rw (← a, ← b, d) (drop-length-append got rest) in
      let same : taken r.ret r.buf ≡ taken r.ret rest = law t ∙ ap (taken r.ret) next in
      (
        a,
        rw y (rw (eqb_ℤ_refl e.to) (ap (λ l. l ++ taken r.ret r.buf) b)),
        (
          left r.ret rest,
          d
              ∙ ap (λ l. got ++ l) (sym (taken-left r.ret rest))
              ∙ sym (append_assoc got (taken r.ret rest) (left r.ret rest))
              ∙ ap (λ l. (got ++ l) ++ left r.ret rest) (sym (y ∙ same)),
        ),
      )

  exchange-Holds :
      (es : List Event) (x : Progress) → IsConnected e k → Holds x → Holds (exchange es x)
  unfolding exchange
  exchange-Holds [] x law h = h
  exchange-Holds (ev ∷ es) x law h = exchange-Holds es (step ev x) law (step-Holds ev x law h)

  -- On a connected pair, whatever messages are sent and however sends and receives follow one another,
  -- fail, would block, or are cut short: the bytes that the values of read give to Lua code are, put
  -- together, the first of those that the values of write told it to be sent, in their order.
  pub exchange-prefix :
      (es : List Event)
      → IsConnected e k
      → let (sent, got, _) = exchange es ([], [], []) in (rest : List ℕ) × (sent ≡ got ++ rest)
  exchange-prefix es law = (exchange-Holds es ([], [], []) law (refl, refl, ([], refl))).2
