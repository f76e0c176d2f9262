-- ===== src/Getopts/Order.antt =====
-- getopts of lib/getopts.lua: what its result is, whatever the order of the arguments.
use mathlib.Core.List.{append_assoc, append-nil}
use lua_testcase.Common.{
  if◌then◌else◌, Bool, List, false, true, ◌≡◌, ◌∷◌, Option, ◌++◌, [], some, arith, refl, ◌∙◌,
}
use lua_testcase.Paths.{Text}
use lua_testcase.Getopts.{
  Result, ok, err, Options, option_round, options_loop, is_option, is_key, value_of, given_twice,
  no_name, getopts, start_options,
}
use lua_testcase.Getopts.Names.{split, has_nil, add_names, parse_testcase_lem}

-- The kinds of arguments.
pub data Kind : Type 0 where
  path help coverage checkall testcase unknown : Kind

pub kind_of : Text → Kind
kind_of s =
    if is_option s
    then (if is_key "--help" s
        then help
        else if is_key "--coverage" s
        then coverage
        else if is_key "--checkall" s
        then checkall
        else if is_key "--testcase" s
        then testcase
        else unknown)
    else path

abbrev pub has_help : List Text → Bool
has_help [] = false
has_help (s ∷ arg) = elim (kind_of s) [ help ↦ true | _ ↦ has_help arg ]

abbrev pub has_coverage : List Text → Bool
has_coverage [] = false
has_coverage (s ∷ arg) = elim (kind_of s) [ coverage ↦ true | _ ↦ has_coverage arg ]

abbrev pub has_checkall : List Text → Bool
has_checkall [] = false
has_checkall (s ∷ arg) = elim (kind_of s) [ checkall ↦ true | _ ↦ has_checkall arg ]

-- The arguments that are no options, and the values of --testcase.
abbrev pub paths_of : List Text → List Text
paths_of [] = []
paths_of (s ∷ arg) = elim (kind_of s) [ path ↦ s ∷ paths_of arg | _ ↦ paths_of arg ]

abbrev pub values_of : List Text → List Text
values_of [] = []
values_of (s ∷ arg) = elim (kind_of s) [ testcase ↦ value_of s ∷ values_of arg | _ ↦ values_of arg ]

-- What the arguments make of the options, but for the names.
abbrev pub merged : Options → List Text → Options
merged opts arg = record {
  help = if opts.help then true else has_help arg;
  coverage = if opts.coverage then true else has_coverage arg;
  checkall = if opts.checkall then true else has_checkall arg;
  testcase = opts.testcase;
  paths = opts.paths ++ paths_of arg;
}

-- What the values of --testcase make of it.
abbrev pub at_most_none : Options → List Text → Result Options
at_most_none opts [] = ok opts
at_most_none opts (v ∷ values) = err given_twice

abbrev pub at_most_one : Options → List Text → Result Options
at_most_one opts [] = ok opts
at_most_one opts (v ∷ values) =
    if has_nil (split v)
    then err no_name
    else at_most_none (record opts { testcase = add_names [] (split v) }) values

abbrev expected : Bool → Options → List Text → Result Options
expected true = at_most_none
expected false = at_most_one

-- A round, by the kind of its argument.
abbrev round_of : Kind → Text → Options → Bool → Result (Options × Bool)
round_of path s opts b = ok (record opts { paths = opts.paths ++ s ∷ [] }, b)
round_of help s opts b = ok (record opts { help = true }, b)
round_of coverage s opts b = ok (record opts { coverage = true }, b)
round_of checkall s opts b = ok (record opts { checkall = true }, b)
round_of unknown s opts b = ok (opts, b)
round_of testcase s opts true = err given_twice
round_of testcase s opts false =
    if has_nil (split (value_of s))
    then err no_name
    else ok (record opts { testcase = add_names [] (split (value_of s)) }, true)

option_round_lem :
    (s : Text) (opts : Options) (b : Bool)
    → option_round s opts b ≡ some (round_of (kind_of s) s opts b)
unfolding option_round kind_of
option_round_lem s opts true = ground arith
option_round_lem s opts false = ground (arith, parse_testcase_lem (value_of s))

abbrev continued : List Text → Result (Options × Bool) → Option (Result Options)
continued arg (err e) = some (err e)
continued arg (ok (opts, b)) = options_loop arg opts b

loop_continued :
    (s : Text) (arg : List Text) (opts : Options) (b : Bool) (r : Result (Options × Bool))
    → option_round s opts b ≡ some r
    → options_loop (s ∷ arg) opts b ≡ continued arg r
unfolding options_loop
loop_continued s arg opts b (err e) h = rw (h, options_loop) refl
loop_continued s arg opts b (ok (opts', b')) h = rw (h, options_loop) refl

abbrev Agrees : List Text → Type 0
Agrees arg =
    (opts : Options) (b : Bool)
    → options_loop arg opts b ≡ some (expected b (merged opts arg) (values_of arg))

round_of-Agrees :
    (kind : Kind) (s : Text) (arg : List Text) (opts : Options) (b : Bool)
    → kind_of s ≡ kind
    → Agrees arg
    → continued arg (round_of kind s opts b)
      ≡ some (expected b (merged opts (s ∷ arg)) (values_of (s ∷ arg)))
round_of-Agrees path s arg opts b e ih = ground (
  arith,
  ih (record opts { paths = opts.paths ++ s ∷ [] }) b,
  append_assoc opts.paths (s ∷ []) (paths_of arg),
)
round_of-Agrees help s arg opts b e ih = ground (arith, ih (record opts { help = true }) b)
round_of-Agrees coverage s arg opts b e ih = ground (arith, ih (record opts { coverage = true }) b)
round_of-Agrees checkall s arg opts b e ih = ground (arith, ih (record opts { checkall = true }) b)
round_of-Agrees unknown s arg opts b e ih = ground (arith, ih opts b)
round_of-Agrees testcase s arg opts true e ih = ground arith
round_of-Agrees testcase s arg opts false e ih =
    ground (arith, ih (record opts { testcase = add_names [] (split (value_of s)) }) true)

options_loop-Agrees : (arg : List Text) → Agrees arg
unfolding options_loop
options_loop-Agrees [] opts true = ground (arith, append-nil opts.paths)
options_loop-Agrees [] opts false = ground (arith, append-nil opts.paths)
options_loop-Agrees (s ∷ arg) opts b =
    loop_continued s arg opts b (round_of (kind_of s) s opts b) (option_round_lem s opts b)
    ∙ round_of-Agrees (kind_of s) s arg opts b refl (options_loop-Agrees arg)

-- getopts ends on every list of arguments, and its result does not depend on how options and
-- other arguments are mixed: a switch is on if and only if its option is given, the paths are the
-- arguments that do not begin with a dash, in their order, and the names are those of the one
-- --testcase that is given, or none; it fails if and only if the value of the first --testcase
-- has an empty name, or there is a second one.
pub getopts_lem :
    (arg : List Text) → getopts arg ≡ some (at_most_one (merged start_options arg) (values_of arg))
unfolding getopts
getopts_lem arg = options_loop-Agrees arg start_options false
