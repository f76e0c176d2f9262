-- ===== src/Nosigchld/Disposition.antt =====
-- What src/nosigchld.c makes of the process's disposition of SIGCHLD.
use lua_testcase.Lua.Args.{to_boolean, arg}
use lua_testcase.Lua.{Value, boolean, strerror}
use lua_testcase.Nosigchld.{
  new, nosigchld_lua, Handling, Nosigchld, change, Call, Reply, succeeded, noop, install, restore,
  set_enabled,
}
use lua_testcase.Lua.Run.{Kernel, Trace, returned, Outcome}
use lua_testcase.Common.{
  ◌≡◌, List, ◌∷◌, if◌then◌else◌, true, [], arith, refl, ◌⊎◌, false, Bool, Bool-cases, inl, inr,
}

-- The disposition that is in force after the calls of a trace.
abbrev pub disposition : Handling → Trace Call Reply → Handling
disposition first [] = first
disposition first ((install, r) ∷ t) = if succeeded r then noop else disposition first t
disposition first ((restore d, r) ∷ t) = if succeeded r then d else disposition first t

-- A sigaction that succeeds stores the disposition that was in force.
abbrev pub StoresOld : Handling → Kernel Call Reply → Type 0
StoresOld first k =
    (t : Trace Call Reply)
    → succeeded (k t install) ≡ true
    → (k t install).old ≡ disposition first t

unfoldable pub session :
    Kernel Call Reply
    → List (List Value)
    → Nosigchld
    → Trace Call Reply
    → Nosigchld × Trace Call Reply
session k [] s t = (s, t)
session k (args ∷ calls) s t = let (_, s', t') = nosigchld_lua args k s t in session k calls s' t'

-- What holds between two calls.
abbrev Holds : Handling → Nosigchld → Trace Call Reply → Type 0
Holds first s t =
    (disposition first t ≡ (if s.enabled then noop else first))
    × (s.enabled ≡ true → s.saved ≡ first)

nosigchld_lua-Holds :
    (first : Handling) (k : Kernel Call Reply) (args : List Value) (s : Nosigchld)
    (t : Trace Call Reply)
    → StoresOld first k
    → Holds first s t
    → let (_, s', t') = nosigchld_lua args k s t in Holds first s' t'
unfolding nosigchld_lua set_enabled change
nosigchld_lua-Holds first k args s t law h = ground (arith, law t)

session-Holds :
    (first : Handling) (k : Kernel Call Reply) (calls : List (List Value)) (s : Nosigchld)
    (t : Trace Call Reply)
    → StoresOld first k
    → Holds first s t
    → let (s', t') = session k calls s t in Holds first s' t'
unfolding session
session-Holds first k [] s t law h = h
session-Holds first k (args ∷ calls) s t law h =
    let (_, s', t') = nosigchld_lua args k s t in
    session-Holds first k calls s' t' law (nosigchld_lua-Holds first k args s t law h)

-- After any calls of nosigchld, whichever of them failed, the process's disposition of SIGCHLD is the
-- handler that does nothing if the module counts it as enabled, and is the one from before the first
-- call if not.
pub session-disposition :
    (first : Handling) (k : Kernel Call Reply) (calls : List (List Value))
    → StoresOld first k
    → let (s, t) = session k calls new [] in
      disposition first t ≡ (if s.enabled then noop else first)
unfolding new
session-disposition first k calls law = (session-Holds first k calls new [] law (refl, λ e. cc)).0

-- How a call ends: as it was asked to, or refused by the system.
abbrev pub Ends :
    Nosigchld
    → Trace Call Reply
    → Bool
    → Outcome (List Value) × Nosigchld × Trace Call Reply
    → Type 0
Ends s t wanted (o, s', t') =
    ((o ≡ returned (boolean true ∷ [])) × (s'.enabled ≡ wanted))
    ⊎ ((r : Reply) × (o ≡ returned (boolean false ∷ strerror r.errno ∷ []))
        × (s' ≡ s)
        × (succeeded r ≡ false)
        × (t' ≡ ((if wanted then install else restore s.saved), r) ∷ t))

set_enabled-Ends :
    (k : Kernel Call Reply) (wanted : Bool) (s : Nosigchld) (t : Trace Call Reply)
    → Ends s t wanted (set_enabled wanted k s t)
unfolding set_enabled change
set_enabled-Ends k true s t = elim (Bool-cases s.enabled) [
  | inl on ↦ inl (ground arith, ground arith)
  | inr off ↦ elim (Bool-cases (succeeded (k t install))) [
    | inl good ↦ inl (ground arith, ground arith)
    | inr bad ↦ inr (k t install, ground arith, ground arith, bad, ground arith)
  ]
]
set_enabled-Ends k false s t = elim (Bool-cases s.enabled) [
  | inl on ↦ elim (Bool-cases (succeeded (k t (restore s.saved)))) [
    | inl good ↦ inl (ground arith, ground arith)
    | inr bad ↦ inr (k t (restore s.saved), ground arith, ground arith, bad, ground arith)
  ]
  | inr off ↦ inl (ground arith, ground arith)
]

-- A call of nosigchld either returns true, and then the module is in the state asked for (enabled for
-- an argument that Lua counts as true), or returns false and the message for errno, and then the state
-- is what it was and the call has made one call of sigaction, which failed.
pub nosigchld_lua-Ends :
    (k : Kernel Call Reply) (args : List Value) (s : Nosigchld) (t : Trace Call Reply)
    → Ends s t (to_boolean (arg args 1)) (nosigchld_lua args k s t)
unfolding nosigchld_lua
nosigchld_lua-Ends k args s t = set_enabled-Ends k (to_boolean (arg args 1)) s t
