-- ===== src/Iohook/Sessions.antt =====
-- What happens over calls of the module and of print.
use mathlib.Core.List.{append-nil, append_assoc}
use lua_testcase.Common.{
  ℕ, Bool, true, false, List, [], ◌∷◌, ◌++◌, Option, none, some, if◌then◌else◌, ◌≡◌, refl, ap, ◌∙◌,
  sym,
}
use lua_testcase.Paths.{Text}
use lua_testcase.Iohook.{
  Event, written, Hooks, start, event, block, unblock, printout, print, Argument, hook, unhook,
  absent, function,
}

-- What is done between hook and unhook, and outside.
pub data Output : Type 0 where
  prints : List Text → Output
  blocks : Output
  unblocks : Output

-- Outside, or with these hook, start and end functions.
pub data Part : Type 0 where
  outside : Output → Part
  inside : Option ℕ → Option ℕ → Option ℕ → List Output → Part

abbrev pub act : Output → Hooks → Hooks
act (prints args) h = print args h
act blocks h = block h
act unblocks h = unblock h

abbrev pub act_all : List Output → Hooks → Hooks
act_all [] h = h
act_all (o ∷ l) h = act_all l (act o h)

abbrev pub given : Option ℕ → Argument
given none = absent
given (some f) = function f

abbrev pub run : List Part → Hooks → Hooks
run [] h = h
run (outside o ∷ l) h = run l (act o h)
run (inside f s e os ∷ l) h = run l (unhook (act_all os (hook (given f) (given s) (given e) h).1))

-- Whether output is blocked after these, if it was before.
abbrev pub blocked_after : List Output → Bool → Bool
blocked_after [] b = b
blocked_after (prints args ∷ l) b = blocked_after l b
blocked_after (blocks ∷ l) b = blocked_after l true
blocked_after (unblocks ∷ l) b = blocked_after l false

-- What is printed while output is not blocked.
abbrev pub let_through : List Output → Bool → List (List Text)
let_through [] b = []
let_through (prints args ∷ l) b = let rest = let_through l b in if b then rest else args ∷ rest
let_through (blocks ∷ l) b = let_through l true
let_through (unblocks ∷ l) b = let_through l false

abbrev pub events_of : Option ℕ → List (List Text) → List Event
events_of f [] = []
events_of f (args ∷ l) = event f args ++ events_of f l

-- The start function, the hook function with each output, and the end function, where there is any output.
abbrev pub framed : Option ℕ → Option ℕ → Option ℕ → List (List Text) → List Event
framed f s e [] = []
framed f s e (args ∷ l) = event s [] ++ (events_of f (args ∷ l) ++ event e [])

abbrev pub expected : List Part → Bool → List Event
expected [] b = []
expected (outside (prints args) ∷ l) b = written args ∷ expected l b
expected (outside blocks ∷ l) b = expected l true
expected (outside unblocks ∷ l) b = expected l false
expected (inside f s e os ∷ l) b =
    framed f s e (let_through os b) ++ expected l (blocked_after os b)

-- Outside, and with these functions, before and after the first output.
abbrev idle : Bool → List Event → Hooks
idle b log = record {
  is_blocked = b;
  is_hooked = false;
  on_start = none;
  on_hook = none;
  on_end = none;
  replaced = false;
  log = log;
}

abbrev hooks : Bool → Option ℕ → Option ℕ → Option ℕ → Bool → List Event → Hooks
hooks k f s e b log = record {
  is_blocked = b;
  is_hooked = k;
  on_start = s;
  on_hook = f;
  on_end = e;
  replaced = true;
  log = log;
}

act_all_hooked :
    (f s e : Option ℕ) (os : List Output) (b : Bool) (log : List Event)
    → act_all os (hooks true f s e b log)
      ≡ hooks true f s e (blocked_after os b) (log ++ events_of f (let_through os b))
unfolding print printout
act_all_hooked f s e [] b log = rw (append-nil log) refl
act_all_hooked f s e (prints args ∷ os) true log = act_all_hooked f s e os true log
act_all_hooked f s e (prints args ∷ os) false log =
    act_all_hooked f s e os false (log ++ event f args)
    ∙ ap (hooks true f s e (blocked_after os false))
        (append_assoc log (event f args) (events_of f (let_through os false)))
act_all_hooked f s e (blocks ∷ os) b log = act_all_hooked f s e os true log
act_all_hooked f s e (unblocks ∷ os) b log = act_all_hooked f s e os false log

unhook_hooked :
    (f s e : Option ℕ) (b : Bool) (log : List Event)
    → unhook (hooks true f s e b log) ≡ idle b (log ++ event e [])
unfolding unhook
unhook_hooked f s e b log = refl

-- Between hook and unhook.
window_lem :
    (f s e : Option ℕ) (os : List Output) (b : Bool) (log : List Event)
    → unhook (act_all os (hooks false f s e b log))
      ≡ idle (blocked_after os b) (log ++ framed f s e (let_through os b))
unfolding print printout unhook
window_lem f s e [] b log = ap (idle b) (sym (append-nil log))
window_lem f s e (prints args ∷ os) true log = window_lem f s e os true log
window_lem f s e (prints args ∷ os) false log =
    let log' = (log ++ event s []) ++ event f args in
    let more = events_of f (let_through os false) in
    ap unhook (act_all_hooked f s e os false log')
    ∙ ap (idle (blocked_after os false)) (
        append_assoc log' more (event e [])
        ∙ append_assoc (log ++ event s []) (event f args) (more ++ event e [])
        ∙ append_assoc log (event s []) (event f args ++ (more ++ event e []))
        ∙ ap (λ x. log ++ (event s [] ++ x)) (sym (append_assoc (event f args) more (event e []))))
window_lem f s e (blocks ∷ os) b log = window_lem f s e os true log
window_lem f s e (unblocks ∷ os) b log = window_lem f s e os false log

hook-given :
    (f s e : Option ℕ) (b : Bool) (log : List Event)
    → (hook (given f) (given s) (given e) (idle b log)).1 ≡ hooks false f s e b log
unfolding hook
hook-given none none none b log = refl
hook-given none none (some e) b log = refl
hook-given none (some s) none b log = refl
hook-given none (some s) (some e) b log = refl
hook-given (some f) none none b log = refl
hook-given (some f) none (some e) b log = refl
hook-given (some f) (some s) none b log = refl
hook-given (some f) (some s) (some e) b log = refl

run_lem :
    (l : List Part) (b : Bool) (log : List Event)
    → (b' : Bool) × (run l (idle b log) ≡ idle b' (log ++ expected l b))
unfolding print
run_lem [] b log = (b, ap (idle b) (sym (append-nil log)))
run_lem (outside (prints args) ∷ l) b log =
    let (b', e) = run_lem l b (log ++ written args ∷ []) in
    (b', e ∙ ap (idle b') (append_assoc log (written args ∷ []) (expected l b)))
run_lem (outside blocks ∷ l) b log = run_lem l true log
run_lem (outside unblocks ∷ l) b log = run_lem l false log
run_lem (inside f s e os ∷ l) b log =
    let frame = framed f s e (let_through os b) in
    let (b', rest) = run_lem l (blocked_after os b) (log ++ frame) in
    (
      b',
      ap (λ h. run l (unhook (act_all os h))) (hook-given f s e b log)
          ∙ ap (run l) (window_lem f s e os b log)
          ∙ rest
          ∙ ap (idle b') (append_assoc log frame (expected l (blocked_after os b))),
    )

-- Where each hook is followed by an unhook before the next: outside of these all output is written, blocked or
-- not; between them nothing is written, and if anything is printed while output is not blocked, the start
-- function is called once, then the hook function with each such output in order, and the end function once,
-- by unhook; otherwise none of them is called. After it all the outputs are the real ones again.
pub run-log :
    (l : List Part) → ((run l start).log ≡ expected l false) × ((run l start).replaced ≡ false)
run-log l = let (b, e) = run_lem l false [] in (ap (λ h. h.log) e, ap (λ h. h.replaced) e)
