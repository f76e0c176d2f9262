-- ===== src/Loading/Modules.antt =====
-- The luaopen_* functions of the modules that are tables of functions: src/signal.c and src/select.c.
use lua_testcase.Common.{◌∷◌, ◌≡◌, some, [], arith, suc, ℕ, ◌<◌, refl}
use lua_testcase.Loading.{
  Functions, Entries, Machine, M, update, ◌>>◌, table, new_table, entries_of,
}
use lua_testcase.Loading.Loops.{fill_do, fill_fields, fill_do-Fills, fill_fields-Fills, set_all}

abbrev pub signal_funcs : Functions
signal_funcs =
    ("kill", "kill_lua")
    ∷ ("raise", "raise_lua")
    ∷ ("tosigname", "tosigname_lua")
    ∷ ("tosignum", "tosignum_lua")
    ∷ ("signames", "signames_lua")
    ∷ ("sigignore", "sigignore_lua")
    ∷ ("sigdefault", "sigdefault_lua")
    ∷ ("alarm", "alarm_lua")
    ∷ []

abbrev pub select_funcs : Functions
select_funcs = ("len", "len_lua") ∷ ("head", "head_lua") ∷ ("tail", "tail_lua") ∷ []

pub luaopen_signal : M (Unit {0})
luaopen_signal = do new_table; fill_fields signal_funcs

pub luaopen_select : M (Unit {0})
luaopen_select = do new_table; fill_do select_funcs

-- The highest value of the stack is a new table with these entries, above what was there; the tables and
-- metatables that were there stay.
abbrev pub Returns : Entries → Machine → Machine → Type 0
Returns t s s' =
    (s'.stack ≡ table s.next ∷ s.stack)
    × (s'.heap s.next ≡ t)
    × ((a : ℕ) → a < s.next → s'.heap a ≡ s.heap a)
    × (s'.registry ≡ s.registry)

abbrev with_functions : Machine → Functions → Machine
with_functions s l =
    let h = update s.heap s.next [] in
    record s {
      heap = update h s.next (set_all l (h s.next));
      next = suc s.next;
      stack = table s.next ∷ s.stack;
    }

with_functions-Returns :
    (s : Machine) (l : Functions) (t : Entries)
    → set_all l [] ≡ t
    → Returns t s (with_functions s l)
with_functions-Returns s l t e = (refl, ground arith, λ a h. ground arith, refl)

-- signal and select are new tables of the functions in their arrays, each under its name.
pub luaopen_tables :
    (s : Machine)
    → ((s' : Machine) × (luaopen_signal s ≡ some (tt, s')) × Returns (entries_of signal_funcs) s s')
      × ((s' : Machine) × (luaopen_select s ≡ some (tt, s'))
          × Returns (entries_of select_funcs) s s')
unfolding luaopen_signal luaopen_select
luaopen_tables s =
    let h = update s.heap s.next [] in
    (
      (
        with_functions s signal_funcs,
        fill_fields-Fills signal_funcs h (suc s.next) s.registry s.next s.stack,
        with_functions-Returns s signal_funcs (entries_of signal_funcs) refl,
      ),
      (
        with_functions s select_funcs,
        fill_do-Fills ("len", "len_lua") (("head", "head_lua") ∷ ("tail", "tail_lua") ∷ []) h
            (suc s.next) s.registry s.next s.stack,
        with_functions-Returns s select_funcs (entries_of select_funcs) refl,
      ),
    )
