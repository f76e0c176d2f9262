-- ===== src/Runner/Counts.antt =====
-- The counts of run_file in lib/runner.lua returns, by how its functions ended.
use lua_testcase.Common.{
  List, ℕ, String, ◌≡◌, Bool, ◌∷◌, ◌++◌, if◌then◌else◌, suc, [], arith, Option, ◌+◌, length, ◌≤◌,
  ◌<◌, ◌∙◌, ap, length-append,
}
use lua_testcase.Lua.{Value}
use lua_testcase.Lua.Run.{Trace}
use mathlib.Core.List.{append_assoc}
use lua_testcase.Runner.{Call, Reply, Failure, add_failure}
use lua_testcase.Runner.Functions.{ran, fails, part, PartDone}

-- Some of the m tests have succeeded. Every function that failed is one error more, and where none has
-- failed all tests have succeeded and the functions of the list have been called.
pub record Done (m : ℕ) (fs : List ℕ) (n : ℕ) (errs : List Failure) (t : Trace Call Reply)
    (r : ℕ × List Failure) (s : Bool) (t' : Trace Call Reply) : Type 0 where
  pub counted : fails t' + length errs ≡ fails t + length r.1
  pub grows : fails t ≤ fails t'
  pub fewer : r.0 ≤ n + m
  pub all : fails t' ≡ fails t → (r.0 ≡ n + m) × (ran t' ≡ ran t ++ fs)

pub failed-Done :
    (m : ℕ) (fs : List ℕ) (n n' : ℕ) (errs errs' : List Failure) (t t' : Trace Call Reply)
    (s : Bool)
    → n' ≤ n + m
    → fails t' + length errs ≡ fails t + length errs'
    → fails t < fails t'
    → Done m fs n errs t (n', errs') s t'
failed-Done m fs n n' errs errs' t t' s le e lt = record {
  counted = e;
  grows = omega arith;
  fewer = le;
  all = λ h. absurd (omega arith);
}

pub joined : (x gs fs : List ℕ) {y z : List ℕ} → y ≡ x ++ gs → z ≡ y ++ fs → z ≡ x ++ (gs ++ fs)
joined x gs fs e h = h ∙ ap (λ l. l ++ fs) e ∙ append_assoc x gs fs

pub length-add_failure :
    (name : String) (r : Bool × Value) (errs : List Failure)
    → length (add_failure name r errs) ≡ (if r.0 then length errs else suc (length errs))
length-add_failure name r errs =
    ground (arith, length-append errs (record { name = name; error = r.1 } ∷ []))

module _ {m : ℕ} {fs : List ℕ} (gs : List ℕ) {n : ℕ} {errs : List Failure} {t t₁ : Trace Call Reply}
    {r : ℕ × List Failure} {s : Bool} {t' : Trace Call Reply} where
  -- Functions that are no test, and did not fail, have been called before.
  pub part-Done :
      ran t₁ ≡ ran t ++ gs
      → fails t₁ ≡ fails t
      → Done m fs n errs t₁ r s t'
      → Done m (gs ++ fs) n errs t r s t'
  part-Done e q d = record {
    counted = omega (arith, d.counted);
    grows = omega (arith, d.grows);
    fewer = d.fewer;
    all = λ h. let (a, b) = d.all (omega arith) in (a, joined (ran t) gs fs e b);
  }

  -- One test has been run before.
  pub test-Done :
      {n' : ℕ} {errs' : List Failure}
      → n' ≤ suc n
      → fails t₁ + length errs ≡ fails t + length errs'
      → fails t ≤ fails t₁
      → (fails t₁ ≡ fails t → n' ≡ suc n)
      → ran t₁ ≡ ran t ++ gs
      → Done m fs n' errs' t₁ r s t'
      → Done (suc m) (gs ++ fs) n errs t r s t'
  test-Done {n'} {errs'} le e grows all q d = record {
    counted = omega (arith, d.counted);
    grows = omega (arith, d.grows);
    fewer = omega (arith, d.fewer);
    all = λ h.
        let (a, b) = d.all (omega (arith, d.grows)) in
        let x = all (omega (arith, d.grows)) in (omega arith, joined (ran t) gs fs q b);
  }

pub after_all-Done :
    (m : ℕ) (fs : List ℕ) (o : Option ℕ) (t t₁ : Trace Call Reply) (r : ℕ × List Failure) (s : Bool)
    (a : Bool × Value) (s₁ : Bool) (t₂ : Trace Call Reply)
    → Done m fs 0 [] t r s t₁
    → PartDone o t₁ a s₁ t₂
    → Done m (fs ++ part o) 0 [] t (r.0, add_failure "after_all" a r.1) s₁ t₂
after_all-Done m fs o t t₁ r s a s₁ t₂ d h = record {
  counted = ground (arith, d.counted, length-add_failure "after_all" a r.1);
  grows = ground (arith, d.grows);
  fewer = d.fewer;
  all = λ e. let (x, y) = d.all (ground (arith, d.grows)) in (x, joined (ran t) fs (part o) y h.0);
}
