-- ===== src/Eval/Checks.antt =====
-- What checkline makes of a line, in each state of the context that the loop can be in.
use lua_testcase.Common.{ℕ, true, false, none, some, if◌then◌else◌, ◌≡◌, refl, Option, Bool}
use lua_testcase.Paths.{Text}
use lua_testcase.Eval.{
  Context, fine, checkline, is_placeholder, no_context, check_option, Checked, invalid, inline_opt,
  no_code, already_defined, check_value, invalid_value, trim_space, valid_optval,
}
use lua_testcase.Eval.Phases.{says, Says, value_says, bad, kind_of, no_option, off, on}

abbrev pub expecting : ℕ → Context
expecting d = record { chknext = true; decl = none; defline = some d }

abbrev pub with_code : ℕ → ℕ → ℕ → Context
with_code d h t = record { chknext = false; decl = some (h, t); defline = some d }

abbrev pub checked_before : ℕ → Says → Checked
checked_before n no_option = fine no_context
checked_before n off = fine no_context
checked_before n on = fine (expecting n)
checked_before n (bad v) = invalid (invalid_value v n)

abbrev pub checked_after : ℕ → ℕ → ℕ → ℕ → Says → Checked
checked_after d h t n no_option = fine (with_code d h t)
checked_after d h t n on = invalid (already_defined n d)
checked_after d h t n off = invalid (already_defined n d)
checked_after d h t n (bad v) = invalid (invalid_value v n)

pub value_before :
    (n : ℕ) (v : Text) (r : Option Bool)
    → check_value no_context v n r ≡ checked_before n (kind_of v r)
value_before n v none = refl
value_before n v (some true) = refl
value_before n v (some false) = refl

pub option_before :
    (n : ℕ) (o : Option Text) → check_option no_context n o ≡ checked_before n (value_says o)
option_before n none = refl
option_before n (some v) = value_before n (trim_space v) (valid_optval (trim_space v))

pub check_before : (l : Text) (n h t : ℕ) → checkline no_context l n h t ≡ checked_before n (says l)
unfolding checkline says
check_before l n h t = option_before n (inline_opt l)

pub value_after :
    (d h t n : ℕ) (v : Text) (r : Option Bool)
    → check_value (with_code d h t) v n r ≡ checked_after d h t n (kind_of v r)
value_after d h t n v none = refl
value_after d h t n v (some true) = refl
value_after d h t n v (some false) = refl

pub option_after :
    (d h t n : ℕ) (o : Option Text)
    → check_option (with_code d h t) n o ≡ checked_after d h t n (value_says o)
option_after d h t n none = refl
option_after d h t n (some v) = value_after d h t n (trim_space v) (valid_optval (trim_space v))

pub check_after :
    (l : Text) (d h t n x y : ℕ)
    → checkline (with_code d h t) l n x y ≡ checked_after d h t n (says l)
unfolding checkline says
check_after l d h t n x y = option_after d h t n (inline_opt l)

pub check_expecting :
    (l : Text) (d n x y : ℕ)
    → checkline (expecting d) l n x y
      ≡ (if is_placeholder l then fine (with_code d x y) else invalid (no_code n))
unfolding checkline
check_expecting l d n x y = refl
