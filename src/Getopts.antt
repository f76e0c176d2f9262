-- ===== src/Getopts.antt =====
-- lib/getopts.lua: the options of the command line, as their bytes. The set of the names seen is the list of
-- the names found.
pub mod Names
pub mod Order
mod Tests
use lua_testcase.Lua.Format.{bytes_of}
use lua_testcase.Common.{
  ℕ, zero, suc, ◌+◌, ◌==◌, Bool, true, false, List, [], ◌∷◌, ◌++◌, length, Option, none, some,
  String, if◌then◌else◌,
}
use lua_testcase.Paths.{Text, same}

pub data Result (A : Type 0) : Type 0 where
  ok : A → Result A
  err : String → Result A

abbrev pub no_name : String
no_name = "option \"--testcase\" requires one or more test case names"

abbrev pub given_twice : String
given_twice = "option \"--testcase\" must not be specified more than once"

-- The bytes up to the first that is x, and those after it.
unfoldable pub break_at : ℕ → Text → Text × Option Text
break_at x [] = ([], none)
break_at x (y ∷ s) = let (a, rest) = break_at x s in if y == x then ([], some s) else (y ∷ a, rest)

abbrev pub contains : List Text → Text → Bool
contains [] s = false
contains (n ∷ names) s = if same n s then true else contains names s

abbrev pub add_name : Text → List Text → List Text
add_name name names = if contains names name then names else names ++ name ∷ []

abbrev pub is_nil : Text → Bool
is_nil [] = true
is_nil (x ∷ s) = false

-- The loop of parse_testcase, on the value from the offset on; none where the fuel runs out.
unfoldable pub names_loop : ℕ → List Text → Text → Option (Result (List Text))
names_loop zero names value = none
names_loop (suc fuel) names value =
    let (name, rest) = break_at b',' value in
    elim rest [
      | none ↦ some (if is_nil name then err no_name else ok (add_name name names))
      | some value' ↦
          let more = names_loop fuel (add_name name names) value' in
          if is_nil name then some (err no_name) else more
    ]

-- Each round takes at least a comma off the value.
unfoldable pub parse_testcase : Text → Option (Result (List Text))
parse_testcase value =
    if is_nil value then some (err no_name) else names_loop (suc (length value)) [] value

-- What getopts returns: the switches, the names of --testcase, and the other arguments.
pub record Options : Type 0 where
  pub help : Bool
  pub coverage : Bool
  pub checkall : Bool
  pub testcase : List Text
  pub paths : List Text

abbrev pub start_options : Options
start_options = record {
  help = false;
  coverage = false;
  checkall = false;
  testcase = [];
  paths = [];
}

-- sub(s, 1, 1) == '-'
abbrev pub is_option : Text → Bool
is_option [] = false
is_option (x ∷ s) = x == b'-'

abbrev pub or_empty : Option Text → Text
or_empty none = []
or_empty (some s) = s

-- match(s, '^([^=]*)=?(.*)$')
abbrev pub key_of : Text → Text
key_of s = (break_at b'=' s).0

abbrev pub value_of : Text → Text
value_of s = or_empty (break_at b'=' s).1

abbrev is_key : String → Text → Bool
is_key k s = same (key_of s) (bytes_of k)

-- none where parse_testcase runs out of fuel.
abbrev with_names : Options → Option (Result (List Text)) → Option (Result (Options × Bool))
with_names opts none = none
with_names opts (some (err e)) = some (err e)
with_names opts (some (ok names)) = some (ok (record opts { testcase = names }, true))

-- A round of the loop of getopts, on the options and has_testcase.
unfoldable pub option_round : Text → Options → Bool → Option (Result (Options × Bool))
option_round s opts has_testcase =
    if is_option s
    then (if is_key "--help" s
        then some (ok (record opts { help = true }, has_testcase))
        else if is_key "--coverage" s
        then some (ok (record opts { coverage = true }, has_testcase))
        else if is_key "--checkall" s
        then some (ok (record opts { checkall = true }, has_testcase))
        else if is_key "--testcase" s
        then (if has_testcase
            then some (err given_twice)
            else with_names opts (parse_testcase (value_of s)))
        else some (ok (opts, has_testcase)))
    else some (ok (record opts { paths = opts.paths ++ s ∷ [] }, has_testcase))

unfoldable pub options_loop : List Text → Options → Bool → Option (Result Options)
options_loop [] opts has_testcase = some (ok opts)
options_loop (s ∷ arg) opts has_testcase = elim (option_round s opts has_testcase) [
  | none ↦ none
  | some (err e) ↦ some (err e)
  | some (ok (opts', has_testcase')) ↦ options_loop arg opts' has_testcase'
]

unfoldable pub getopts : List Text → Option (Result Options)
getopts arg = options_loop arg start_options false
