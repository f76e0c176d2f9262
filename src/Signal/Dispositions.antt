-- ===== src/Signal/Dispositions.antt =====
-- What src/signal.c and src/nosigpipe.c make of the process's dispositions of signals.
use lua_testcase.Nosigpipe.{luaopen_nosigpipe}
use lua_testcase.Common.{
  ◌≡◌, Bool, true, false, String, List, [], ◌∷◌, Option, none, some, arith, if◌then◌else◌, ℕ, refl,
  Option-cases, inl, inr,
}
use lua_testcase.Common.Int.{ℤ, eqb_ℤ, to_int}
use lua_testcase.Lua.{Value, boolean, integer, string, Conversions}
use lua_testcase.Lua.Run.{Kernel, Trace, Outcome, returned}
use lua_testcase.Signal.{Entry, Platform, signals, lookup_by_name}
use lua_testcase.Signal.Calls.{
  Call, Reply, Handler, kill, raise_signal, ignore, restore, alarm, kill_lua, raise_lua,
  sigignore_lua, sigdefault_lua, alarm_lua, succeeded,
}

-- SIG_IGN, SIG_DFL, or a handler.
pub data Disposition : Type 0 where
  ignored default : Disposition
  handler : ℕ → Disposition

-- The disposition of a signal after the calls of a trace.
abbrev pub disposition : (ℤ → Disposition) → ℤ → Trace Call Reply → Disposition
disposition first v [] = first v
disposition first v ((ignore n, r) ∷ t) =
    if (if succeeded r then eqb_ℤ n v else false) then ignored else disposition first v t
disposition first v ((restore n, r) ∷ t) =
    if (if succeeded r then eqb_ℤ n v else false) then default else disposition first v t
disposition first v ((kill x y, r) ∷ t) = disposition first v t
disposition first v ((raise_signal x, r) ∷ t) = disposition first v t
disposition first v ((alarm x, r) ∷ t) = disposition first v t

-- A signal as Lua code names it.
pub data Name : Type 0 where
  by_text : String → Name
  by_number : ℤ → Name

abbrev pub value : Name → Value
value (by_text s) = string s
value (by_number n) = integer n

-- What Lua code asks for, with the arguments after the signal.
pub data Request : Type 0 where
  kills raises ignores restores : Name → List Value → Request
  alarms : List Value → Request
  opens_nosigpipe : Request

module _ (p : Platform) (c : Conversions) where
  abbrev pub run : Request → Handler (List Value)
  run (kills n l) = kill_lua p c (value n ∷ l)
  run (raises n l) = raise_lua p c (value n ∷ l)
  run (ignores n l) = sigignore_lua p c (value n ∷ l)
  run (restores n l) = sigdefault_lua p c (value n ∷ l)
  run (alarms l) = alarm_lua p c l
  run opens_nosigpipe = luaopen_nosigpipe p

  -- The requests with what Lua code saw of them, the last one first.
  abbrev pub History : Type 0
  History = List (Request × Outcome (List Value))

  unfoldable pub session :
      Kernel Call Reply → List Request → History → Trace Call Reply → History × Trace Call Reply
  session k [] h t = (h, t)
  session k (q ∷ l) h t = let (o, _, t') = run q k tt t in session k l ((q, o) ∷ h) t'

  abbrev returned_true : Outcome (List Value) → Bool
  returned_true (returned (boolean b ∷ l)) = b
  returned_true _ = false

  abbrev has_number : Option Entry → ℤ → Bool
  has_number none v = false
  has_number (some e) v = eqb_ℤ e.num v

  -- Whether a name stands for the number: by SIGNALS if it is a text, as an int if it is a number.
  abbrev is_signal : Name → ℤ → Bool
  is_signal (by_text s) v = has_number (lookup_by_name (signals p) s) v
  is_signal (by_number n) v = eqb_ℤ (to_int n) v

  -- Whether a request that returned true has changed the disposition of the signal, and to what.
  abbrev asked : Request → ℤ → Option Disposition
  asked (ignores n l) v = if is_signal n v then some ignored else none
  asked (restores n l) v = if is_signal n v then some default else none
  asked opens_nosigpipe v = elim (p "SIGPIPE") [
    | none ↦ none
    | some sig ↦ if eqb_ℤ sig v then some ignored else none
  ]
  asked _ v = none

  abbrev changed : Disposition → Option Disposition → Disposition
  changed d none = d
  changed d (some d') = d'

  -- The disposition of a signal by what Lua code saw: what the last request asked for it, of those
  -- that returned true.
  abbrev pub seen : (ℤ → Disposition) → ℤ → History → Disposition
  seen first v [] = first v
  seen first v ((q, o) ∷ h) =
      if returned_true o then changed (seen first v h) (asked q v) else seen first v h

  abbrev Accepts : Kernel Call Reply → Type 0
  Accepts k =
      (sig : ℤ) (t : Trace Call Reply)
      → p "SIGPIPE" ≡ some sig
      → succeeded (k t (ignore sig)) ≡ true

  module _ (first : ℤ → Disposition) (k : Kernel Call Reply) (v : ℤ) (law : Accepts k) where
    run-seen :
        (q : Request) (h : History) (t : Trace Call Reply)
        → disposition first v t ≡ seen first v h
        → let (o, _, t') = run q k tt t in disposition first v t' ≡ seen first v ((q, o) ∷ h)
    unfolding kill_lua raise_lua sigignore_lua sigdefault_lua alarm_lua luaopen_nosigpipe
    run-seen (kills (by_text s) l) h t e = ground arith
    run-seen (kills (by_number n) l) h t e = ground arith
    run-seen (raises (by_text s) l) h t e = ground arith
    run-seen (raises (by_number n) l) h t e = ground arith
    run-seen (ignores (by_text s) l) h t e = ground arith
    run-seen (ignores (by_number n) l) h t e = ground arith
    run-seen (restores (by_text s) l) h t e = ground arith
    run-seen (restores (by_number n) l) h t e = ground arith
    run-seen (alarms l) h t e = ground arith
    run-seen opens_nosigpipe h t e = elim (Option-cases (p "SIGPIPE")) [
      | inl undefined ↦ ground arith
      | inr (sig, is) ↦ ground (arith, law sig t is)
    ]

    session-seen_from :
        (l : List Request) (h : History) (t : Trace Call Reply)
        → disposition first v t ≡ seen first v h
        → let (h', t') = session k l h t in disposition first v t' ≡ seen first v h'
    unfolding session
    session-seen_from [] h t e = e
    session-seen_from (q ∷ l) h t e =
        let (o, _, t') = run q k tt t in session-seen_from l ((q, o) ∷ h) t' (run-seen q h t e)

  -- Where the system lets SIGPIPE be ignored: after any calls of kill, raise, sigignore and
  -- sigdefault, for a signal given by a text or an integer, of alarm, and any loading of nosigpipe,
  -- whichever of them failed or raised an error, the disposition of every signal is what the last of
  -- the calls that returned true asked for it, by its number or a name of SIGNALS, and is the one
  -- from before them where there is none.
  pub session-seen :
      (first : ℤ → Disposition) (k : Kernel Call Reply) (v : ℤ) (l : List Request)
      → Accepts k
      → let (h, t) = session k l [] [] in disposition first v t ≡ seen first v h
  session-seen first k v l law = session-seen_from first k v law l [] [] refl
