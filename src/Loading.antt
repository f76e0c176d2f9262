-- ===== src/Loading.antt =====
-- The functions luaopen_* of src/timer.c, src/fork.c, src/socketpair.c, src/signal.c and src/select.c on
-- a Lua machine: a store of tables, so that the metatable on the stack is the one in the registry, the
-- registry's metatables, and the stack, the highest value first. A function of C is known by its name.
pub mod Loops
pub mod Userdata
pub mod Modules
pub mod Calls
pub mod Functions
mod Tests
use lua_testcase.Common.{
  ℕ, Option, List, some, Bool, String, ◌∷◌, none, [], if◌then◌else◌, false, str_eq, true, ◌==◌, suc,
}

pub data Item : Type 0 where
  nil : Item
  text : String → Item
  cfunction : String → Item
  table : ℕ → Item

abbrev pub Entries : Type 0
Entries = List (String × Item)

pub record Machine : Type 0 where
  pub heap : ℕ → Entries
  pub next : ℕ
  pub registry : List (String × ℕ)
  pub stack : List Item

-- luaL_Reg arrays, up to the entry of NULLs: the field's name and the function's.
abbrev pub Functions : Type 0
Functions = List (String × String)

-- The fields that an array asks for.
abbrev pub entries_of : Functions → Entries
entries_of [] = []
entries_of ((k, f) ∷ l) = (k, cfunction f) ∷ entries_of l

-- none stands for a fault: an operation on a stack that has not what it needs.
abbrev pub M : Type 0 → Type 0
M A = Machine → Option (A × Machine)

infixl 5 ◌>>=◌ ◌>>◌
abbrev pub ◌>>=◌ : {A B : Type 0} → M A → (A → M B) → M B
◌>>=◌ m f s = elim (m s) [ none ↦ none | some (a, s') ↦ f a s' ]

abbrev pub ◌>>◌ : {B : Type 0} → M (Unit {0}) → M B → M B
m >> n = m >>= λ _. n

abbrev pub done : M (Unit {0})
done s = some (tt, s)

abbrev pub update : (ℕ → Entries) → ℕ → Entries → ℕ → Entries
update h a t j = if j == a then t else h j

abbrev pub set_entry : String → Item → Entries → Entries
set_entry k v [] = (k, v) ∷ []
set_entry k v ((j, w) ∷ t) = if str_eq j k then (k, v) ∷ t else (j, w) ∷ set_entry k v t

abbrev pub find {ℓ} : {A : Type ℓ} → String → List (String × A) → Option A
find k [] = none
find k ((j, v) ∷ t) = if str_eq j k then some v else find k t

abbrev pub push : Item → M (Unit {0})
push v s = some (tt, record s { stack = v ∷ s.stack })

-- lua_newtable
abbrev pub new_table : M (Unit {0})
new_table s = some (
  tt,
  record s { heap = update s.heap s.next []; next = suc s.next; stack = table s.next ∷ s.stack },
)

-- lua_rawset(L, -3), for a key that is a text.
abbrev pub raw_set_on : List Item → M (Unit {0})
raw_set_on (v ∷ text k ∷ table a ∷ st) s =
    some (tt, record s { heap = update s.heap a (set_entry k v (s.heap a)); stack = table a ∷ st })
raw_set_on _ s = none

abbrev pub raw_set : M (Unit {0})
raw_set s = raw_set_on s.stack s

-- lua_setfield(L, -2, k), for a table without a metatable.
abbrev pub set_field_on : String → List Item → M (Unit {0})
set_field_on k (v ∷ table a ∷ st) s =
    some (tt, record s { heap = update s.heap a (set_entry k v (s.heap a)); stack = table a ∷ st })
set_field_on k _ s = none

abbrev pub set_field : String → M (Unit {0})
set_field k s = set_field_on k s.stack s

-- lua_settop(L, 0)
abbrev pub clear : M (Unit {0})
clear s = some (tt, record s { stack = [] })

-- lua_pop(L, 1)
abbrev pub pop_on : List Item → M (Unit {0})
pop_on (v ∷ st) s = some (tt, record s { stack = st })
pop_on [] s = none

abbrev pub pop : M (Unit {0})
pop s = pop_on s.stack s

-- What luaL_newmetatable puts into a new table: its name, from Lua 5.3 on.
abbrev pub named : Bool → String → Entries
named sets_name mt = if sets_name then ("__name", text mt) ∷ [] else []

-- luaL_newmetatable: whether the table is new.
abbrev pub new_metatable_of : Bool → String → Option ℕ → M Bool
new_metatable_of sets_name mt (some a) s = some (false, record s { stack = table a ∷ s.stack })
new_metatable_of sets_name mt none s = some (
  true,
  record s {
    heap = update s.heap s.next (named sets_name mt);
    next = suc s.next;
    registry = (mt, s.next) ∷ s.registry;
    stack = table s.next ∷ s.stack;
  },
)

abbrev pub new_metatable : Bool → String → M Bool
new_metatable sets_name mt s = new_metatable_of sets_name mt (find mt s.registry) s
