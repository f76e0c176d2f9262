-- ===== src/Registry.antt =====
-- lib/registry.lua: the functions that test files add, by their file, and the list of them that the
-- runner takes. A table is the list of its keys and values; pairs and table.sort are parameters. The
-- texts of the errors are kept as what is formatted into them.
pub mod Added
pub mod Results
pub mod Visited
pub mod Listed
pub mod Tests
use lua_testcase.Common.{
  ℕ, Bool, true, String, List, [], ◌∷◌, ◌++◌, Option, none, some, if◌then◌else◌, str_eq, ltb, ◌+◌,
  length, ◌⊎◌, inl, inr,
}
use lua_testcase.Lua.{Value}
use lua_testcase.Runner.{Source, Test}

abbrev pub Table : Type 0 → Type 0
Table A = List (String × A)

unfoldable pub lookup : {A : Type 0} → String → Table A → Option A
lookup k [] = none
lookup k ((j, a) ∷ t) = if str_eq j k then some a else lookup k t

unfoldable pub assign : {A : Type 0} → String → A → Table A → Table A
assign k a [] = (k, a) ∷ []
assign k a ((j, b) ∷ t) = if str_eq j k then (j, a) ∷ t else (j, b) ∷ assign k a t

-- What getstat gives of a file.
pub record Stat : Type 0 where
  pub dirname : String
  pub basename : String
  pub pathname : String
  pub realpath : String

pub record Entry : Type 0 where
  pub name : String
  pub func : ℕ
  pub lineno : ℕ

pub record File : Type 0 where
  pub dirname : String
  pub basename : String
  pub pathname : String
  pub realpath : String
  pub tests : Table Entry

abbrev pub Registry : Type 0
Registry = Table File

-- An argument of add; one that is neither is known by its type.
pub data Argument : Type 0 where
  string : String → Argument
  function : ℕ → Argument
  other : String → Argument

abbrev pub type_of : Argument → String
type_of (string s) = "string"
type_of (function f) = "function"
type_of (other t) = t

-- The arguments of a call, with the line that getinfo gives of the function and what getstat gives of its
-- file, or its error.
pub record Addition : Type 0 where
  pub name : Argument
  pub func : Argument
  pub lineno : ℕ
  pub stat : Stat ⊎ Value

pub data Refusal : Type 0 where
  name_expected : String → Refusal
  function_expected : String → Refusal
  no_fileinfo : Value → Refusal
  already_defined : String → ℕ → ℕ → Refusal

-- The file in the registry, or a new one.
abbrev pub file_of : Stat → Option File → File
file_of s (some f) = f
file_of s none = record {
  dirname = s.dirname;
  basename = s.basename;
  pathname = s.pathname;
  realpath = s.realpath;
  tests = [];
}

unfoldable pub enter : Stat → Entry → Registry → Option Refusal × Registry
enter s e r =
    let f = file_of s (lookup s.pathname r) in
    elim (lookup e.name f.tests) [
      | some old ↦ (some (already_defined e.name e.lineno old.lineno), assign s.pathname f r)
      | none ↦ (none, assign s.pathname (record f { tests = assign e.name e f.tests }) r)
    ]

-- The check of the first argument, and of the second.
abbrev pub name_of : Argument → String ⊎ Refusal
name_of (string s) = inl s
name_of a = inr (name_expected (type_of a))

abbrev pub func_of : Argument → ℕ ⊎ Refusal
func_of (function f) = inl f
func_of a = inr (function_expected (type_of a))

-- What add does after its checks.
unfoldable pub add_checked :
    String ⊎ Refusal → ℕ ⊎ Refusal → ℕ → Stat ⊎ Value → Registry → Option Refusal × Registry
add_checked (inr e) func lineno stat r = (some e, r)
add_checked (inl name) (inr e) lineno stat r = (some e, r)
add_checked (inl name) (inl f) lineno (inr err) r = (some (no_fileinfo err), r)
add_checked (inl name) (inl f) lineno (inl s) r =
    enter s (record { name = name; func = f; lineno = lineno }) r

unfoldable pub add : Addition → Registry → Option Refusal × Registry
add a r = add_checked (name_of a.name) (func_of a.func) a.lineno a.stat r

-- Calls of add, one after the other.
abbrev pub added : List Addition → Registry → Registry
added [] r = r
added (a ∷ l) r = added l (add a r).1

-- An item of the list; its fields of setups and teardowns are a table.
pub record Item : Type 0 where
  pub name : String
  pub basename : String
  pub dirname : String
  pub realpath : String
  pub parts : Table ℕ
  pub tests : List Entry

-- SETUP_AND_TEARDOWN
unfoldable pub is_part : String → Bool
is_part k =
    if str_eq k "before_all"
    then true
    else if str_eq k "after_all"
    then true
    else if str_eq k "before_each"
    then true
    else str_eq k "after_each"

-- The item with a function, that is a setup or teardown or is not.
abbrev pub place : String → Entry → Item → Bool → Item
place name test i part =
    if part
    then record i { parts = assign name test.func i.parts }
    else record i { tests = i.tests ++ test ∷ [] }

unfoldable pub visit : Table Entry → Item → Item
visit [] i = i
visit ((name, test) ∷ l) i = visit l (place name test i (is_part name))

abbrev pub cmp_lineno : Entry → Entry → Bool
cmp_lineno a b = ltb a.lineno b.lineno

abbrev pub start_item : String → File → Item
start_item src f = record {
  name = src;
  basename = f.basename;
  dirname = f.dirname;
  realpath = f.realpath;
  parts = [];
  tests = [];
}

abbrev pub Pairs : Type 1
Pairs = (A : Type 0) → Table A → Table A

abbrev pub Sort : Type 1
Sort = (A : Type 0) → (A → A → Bool) → List A → List A

-- The comparison of two names is a parameter too.
module _ (pairs : Pairs) (sort : Sort) (lt_name : String → String → Bool) where
  abbrev pub cmp_name : Item → Item → Bool
  cmp_name a b = lt_name a.name b.name

  abbrev pub item_of : String → File → Item
  item_of src f =
      let i = visit (pairs Entry f.tests) (start_item src f) in
      record i { tests = sort Entry cmp_lineno i.tests }

  abbrev pub items : Table File → List Item × ℕ
  items [] = ([], 0)
  items ((src, f) ∷ l) =
      let i = item_of src f in let (l', n) = items l in (i ∷ l', length i.tests + n)

  unfoldable pub getlist : Registry → List Item × ℕ
  getlist r = let (l, n) = items (pairs File r) in (sort Item cmp_name l, n)

abbrev pub clear : Registry → Registry
clear r = []

-- What the runner takes of an item.
abbrev pub test_of : Entry → Test
test_of e = record { name = e.name; func = e.func }

abbrev pub tests_of : List Entry → List Test
tests_of [] = []
tests_of (e ∷ l) = test_of e ∷ tests_of l

abbrev pub source_of : Item → Source
source_of i = record {
  name = i.name;
  dirname = i.dirname;
  before_all = lookup "before_all" i.parts;
  after_all = lookup "after_all" i.parts;
  before_each = lookup "before_each" i.parts;
  after_each = lookup "after_each" i.parts;
  tests = tests_of i.tests;
}

abbrev pub sources_of : List Item → List Source
sources_of [] = []
sources_of (i ∷ l) = source_of i ∷ sources_of l
