-- ===== src/Loading/Calls.antt =====
-- What Lua code runs by calling a method of a userdatum, in the models of src/timer.c, src/fork.c and
-- src/socketpair.c: the machine finds a function of C, and its name stands for a function of the model.
use lua_testcase.Loading.Userdata.{timer_method, socketpair_method, fork_method}
use lua_testcase.Loading.Userdata.Dispatch.{fork, socketpair, timer, Module}
use lua_testcase.Common.{
  String, List, ◌≡◌, Option, ◌∷◌, some, [], ap, none, ◌∙◌, Bool-cases, str_eq, inl, inr, refl, Bool,
  All, if◌then◌else◌,
}
use lua_testcase.Lua.{Conversions, Value}
use lua_testcase.Socketpair
use lua_testcase.Fork
use lua_testcase.Timer
use lua_testcase.Loading.{Item, Machine, Functions, find, cfunction, entries_of}
use lua_testcase.Loading.Userdata.Methods.{
  open_all, open_all-Reaches, All-map, Reaches, AreOnce, AreNew, method, metamethod,
}

module _ {H : Type 0} (g : String → Option H) where
  -- The function of the model that an item stands for.
  abbrev pub runs : Option Item → Option H
  runs (some (cfunction f)) = g f
  runs _ = none

  -- The names of an array, each with what its function stands for.
  abbrev linked : Functions → List (String × Option H)
  linked [] = []
  linked ((k, f) ∷ l) = (k, g f) ∷ linked l

  abbrev named : List (String × H) → List (String × Option H)
  named [] = []
  named ((k, h) ∷ a) = (k, some h) ∷ named a

  abbrev picked : String → List (String × Option H) → Option H
  picked k [] = none
  picked k ((j, h) ∷ l) = if str_eq j k then h else picked k l

  runs-find : (l : Functions) (k : String) → runs (find k (entries_of l)) ≡ picked k (linked l)
  runs-find [] k = refl
  runs-find ((j, f) ∷ l) k = elim (Bool-cases (str_eq j k)) [
    | inl same ↦ rw same refl
    | inr other ↦ rw other (runs-find l k)
  ]

  picked-named : (a : List (String × H)) (k : String) → picked k (named a) ≡ find k a
  picked-named [] k = refl
  picked-named ((j, h) ∷ a) k = elim (Bool-cases (str_eq j k)) [
    | inl same ↦ rw same refl
    | inr other ↦ rw other (picked-named a k)
  ]

  -- Where the names of an array stand for the functions that are named, a look-up finds the same in both.
  runs-same :
      (l : Functions) (a : List (String × H)) (k : String)
      → linked l ≡ named a
      → runs (find k (entries_of l)) ≡ find k a
  runs-same l a k e = runs-find l k ∙ ap (picked k) e ∙ picked-named a k

-- The functions of C by their names.
abbrev pub socket_function :
    Socketpair.Platform → Conversions → String → Option (List Value → Socketpair.Handler)
socket_function p c f = find f (
    ("fd_lua", λ args. Socketpair.fd_lua)
    ∷ ("nonblock_lua", Socketpair.nonblock_lua p c)
    ∷ ("recvbuf_lua", Socketpair.recvbuf_lua p c)
    ∷ ("sendbuf_lua", Socketpair.sendbuf_lua p c)
    ∷ ("close_lua", λ args. Socketpair.close_lua)
    ∷ ("shutdown_lua", λ args. Socketpair.shutdown_lua)
    ∷ ("shutrd_lua", λ args. Socketpair.shutrd_lua)
    ∷ ("shutwr_lua", λ args. Socketpair.shutwr_lua)
    ∷ ("read_lua", λ args. Socketpair.read_lua p c)
    ∷ ("write_lua", Socketpair.write_lua p c)
    ∷ ("gc_lua", λ args. Socketpair.gc)
    ∷ [])

abbrev pub fork_function : Fork.Macros → Fork.Errno → String → Option Fork.Handler
fork_function m e f = find f (
    ("wait_lua", Fork.wait m e)
    ∷ ("is_child_lua", Fork.is_child)
    ∷ ("pid_lua", Fork.pid_lua)
    ∷ ("gc_lua", Fork.gc)
    ∷ [])

abbrev pub timer_function : String → Option Timer.Handler
timer_function f = find f (
    ("elapsed_lua", Timer.elapsed)
    ∷ ("elapsed_sec_lua", Timer.elapsed_sec)
    ∷ ("stop_lua", Timer.stop)
    ∷ ("start_lua", Timer.start)
    ∷ ("total_lua", Timer.total)
    ∷ ("reset_lua", Timer.reset)
    ∷ [])

-- The methods of README.md.
abbrev pub socket_methods :
    Socketpair.Platform → Conversions → List (String × (List Value → Socketpair.Handler))
socket_methods p c =
    ("fd", λ args. Socketpair.fd_lua)
    ∷ ("nonblock", Socketpair.nonblock_lua p c)
    ∷ ("recvbuf", Socketpair.recvbuf_lua p c)
    ∷ ("sendbuf", Socketpair.sendbuf_lua p c)
    ∷ ("close", λ args. Socketpair.close_lua)
    ∷ ("shutdown", λ args. Socketpair.shutdown_lua)
    ∷ ("shutrd", λ args. Socketpair.shutrd_lua)
    ∷ ("shutwr", λ args. Socketpair.shutwr_lua)
    ∷ ("read", λ args. Socketpair.read_lua p c)
    ∷ ("write", Socketpair.write_lua p c)
    ∷ []

abbrev pub fork_methods : Fork.Macros → Fork.Errno → List (String × Fork.Handler)
fork_methods m e =
    ("pid", Fork.pid_lua) ∷ ("is_child", Fork.is_child) ∷ ("wait", Fork.wait m e) ∷ []

abbrev pub timer_methods : List (String × Timer.Handler)
timer_methods =
    ("reset", Timer.reset)
    ∷ ("total", Timer.total)
    ∷ ("start", Timer.start)
    ∷ ("stop", Timer.stop)
    ∷ ("elapsed", Timer.elapsed)
    ∷ ("elapsed_sec", Timer.elapsed_sec)
    ∷ []

-- What obj:k runs, and what the collector runs on obj.
abbrev pub RunsTimer : Machine → Type 0
RunsTimer s =
    ((k : String) → runs timer_function (method s "testcase.timer" k) ≡ find k timer_methods)
    × (runs timer_function (metamethod s "testcase.timer" "__gc") ≡ none)

abbrev pub RunsFork : Fork.Macros → Fork.Errno → Machine → Type 0
RunsFork m e s =
    ((k : String)
      → runs (fork_function m e) (method s "testcase.process" k) ≡ find k (fork_methods m e))
    × (runs (fork_function m e) (metamethod s "testcase.process" "__gc") ≡ some Fork.gc)

abbrev pub RunsSocketpair : Socketpair.Platform → Conversions → Machine → Type 0
RunsSocketpair p c s =
    ((k : String)
      → runs (socket_function p c) (method s "testcase.socketpair" k) ≡ find k (socket_methods p c))
    × (runs (socket_function p c) (metamethod s "testcase.socketpair" "__gc")
        ≡ some (λ args. Socketpair.gc))

module _ (p : Socketpair.Platform) (c : Conversions) (m : Fork.Macros) (e : Fork.Errno)
    (s : Machine) where
  Reaches-RunsTimer : Reaches timer s → RunsTimer s
  Reaches-RunsTimer (f, g, _) = (
    λ k.
        ap (runs timer_function) (f k) ∙ runs-same timer_function timer_method timer_methods k refl,
    ap (runs timer_function) g,
  )

  Reaches-RunsFork : Reaches fork s → RunsFork m e s
  Reaches-RunsFork (f, g, _) = (
    λ k.
        ap (runs (fork_function m e)) (f k)
        ∙ runs-same (fork_function m e) fork_method (fork_methods m e) k refl,
    ap (runs (fork_function m e)) g,
  )

  Reaches-RunsSocketpair : Reaches socketpair s → RunsSocketpair p c s
  Reaches-RunsSocketpair (f, g, _) = (
    λ k.
        ap (runs (socket_function p c)) (f k)
        ∙ runs-same (socket_function p c) socketpair_method (socket_methods p c) k refl,
    ap (runs (socket_function p c)) g,
  )

-- What the modules of a list give, once they have been opened.
abbrev pub Runs :
    Socketpair.Platform → Conversions → Fork.Macros → Fork.Errno → Machine → Module → Type 0
Runs p c m e s timer = RunsTimer s
Runs p c m e s fork = RunsFork m e s
Runs p c m e s socketpair = RunsSocketpair p c s

Reaches-Runs :
    (p : Socketpair.Platform) (c : Conversions) (m : Fork.Macros) (e : Fork.Errno) (s : Machine)
    (x : Module)
    → Reaches x s
    → Runs p c m e s x
Reaches-Runs p c m e s timer h = Reaches-RunsTimer p c m e s h
Reaches-Runs p c m e s fork h = Reaches-RunsFork p c m e s h
Reaches-Runs p c m e s socketpair h = Reaches-RunsSocketpair p c m e s h

-- Where the userdata modules of a list are opened in its order, each once and with its metatable not yet
-- registered: the opening does not fault, and after it Lua code that calls a method of a timer, a process
-- or a socket by a name of README.md runs the function of the model that the name stands for, and by any
-- other name none; and the collector runs gc on processes and sockets, and nothing on timers.
pub open_all-Runs :
    (p : Socketpair.Platform) (c : Conversions) (m : Fork.Macros) (e : Fork.Errno)
    (sets_name : Bool) (l : List Module) (s : Machine)
    → AreOnce l
    → AreNew l s
    → (s' : Machine) × (open_all sets_name l s ≡ some (tt, s')) × All (Runs p c m e s') l
open_all-Runs p c m e sets_name l s once new =
    let (s', run, all) = open_all-Reaches sets_name l s once new in
    (s', run, All-map (Reaches-Runs p c m e s') l all)
