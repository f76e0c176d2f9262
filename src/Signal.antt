-- ===== src/Signal.antt =====
-- src/signal.c: names and numbers of signals, and the calls that take either.
pub mod Names
pub mod Lookup
pub mod Calls
pub mod Agreement
pub mod Dispositions
mod Tests
use Prim.Native.Char.{code}
use lua_testcase.Common.{
  ℕ, ◌+◌, ◌==◌, ◌≡◌, Bool, true, false, ◌&&◌, String, List, [], ◌∷◌, map, Option, none, some, leb,
  if◌then◌else◌,
}
use lua_testcase.Common.Int.{ℤ, pos, eqb_ℤ}

-- signal_entry_t
pub record Entry : Type 0 where
  pub name : String
  pub num : ℤ

-- Which SIG* macros the system defines, and as what.
abbrev pub Platform : Type 0
Platform = String → Option ℤ

-- The names of the table SIGNALS, in its order.
abbrev pub signal_names : List String
signal_names =
    "SIGHUP" ∷ "SIGINT" ∷ "SIGQUIT" ∷ "SIGILL" ∷ "SIGTRAP" ∷ "SIGABRT" ∷ "SIGFPE" ∷ "SIGKILL"
    ∷ "SIGSEGV" ∷ "SIGPIPE" ∷ "SIGALRM" ∷ "SIGTERM" ∷ "SIGUSR1" ∷ "SIGUSR2" ∷ "SIGCHLD" ∷ "SIGCONT"
    ∷ "SIGSTOP" ∷ "SIGTSTP" ∷ "SIGTTIN" ∷ "SIGTTOU" ∷ "SIGBUS" ∷ "SIGPROF" ∷ "SIGSYS" ∷ "SIGURG"
    ∷ "SIGVTALRM" ∷ "SIGXCPU" ∷ "SIGXFSZ" ∷ "SIGPOLL" ∷ "SIGWINCH" ∷ "SIGEMT" ∷ "SIGINFO" ∷ "SIGPWR"
    ∷ "SIGSTKFLT" ∷ "SIGIOT" ∷ "SIGCLD" ∷ "SIGIO" ∷ []

-- A row of SIGNALS stands there if its macro is defined.
unfoldable pub entries : Platform → List String → List Entry
entries p [] = []
entries p (n ∷ ns) = elim (p n) [
  | none ↦ entries p ns
  | some v ↦ record { name = n; num = v } ∷ entries p ns
]

-- SIGNALS
unfoldable pub signals : Platform → List Entry
unfolding entries
signals p = entries p signal_names

-- The bytes of a C string: those before the first NUL.
abbrev pub c_string : String → List ℕ
c_string String.[] = []
c_string (String.◌∷◌ c s) = if code c == 0 then [] else code c ∷ c_string s

abbrev pub to_lower : ℕ → ℕ
to_lower c = if leb b'A' c && leb c b'Z' then c + 32 else c

-- A string as strcasecmp reads it.
unfoldable pub fold_case : String → List ℕ
fold_case s = map to_lower (c_string s)

abbrev pub eq_bytes : List ℕ → List ℕ → Bool
eq_bytes [] [] = true
eq_bytes [] (y ∷ ys) = false
eq_bytes (x ∷ xs) [] = false
eq_bytes (x ∷ xs) (y ∷ ys) = x == y && eq_bytes xs ys

-- strcasecmp(a, b) == 0
abbrev pub strcasecmp : String → String → Bool
strcasecmp a b = eq_bytes (fold_case a) (fold_case b)

unfoldable pub lookup_by_name : List Entry → String → Option Entry
lookup_by_name [] name = none
lookup_by_name (e ∷ es) name = if strcasecmp e.name name then some e else lookup_by_name es name

unfoldable pub lookup_by_num : List Entry → ℤ → Option Entry
lookup_by_num [] num = none
lookup_by_num (e ∷ es) num = if eqb_ℤ e.num num then some e else lookup_by_num es num
