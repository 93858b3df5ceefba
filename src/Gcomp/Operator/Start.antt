-- ===== src/Gcomp/Operator/Start.antt =====
-- The tables of operators after `ffop_gcomp_operator_init` of
-- src/components/gcomp/ffop_gcomp_operator.c.
use fflib.Base.{ℕ, ◌≡◌, refl, ◌==◌, some, [], arith, range, ffsuccess, if◌then◌else◌, count-range}
use fflib.Arman.{Entry}
use fflib.Arman.Stack.{Holds, create-Holds}
use fflib.Gcomp.Operator.{Operators, init, built_in, ffsum, ffidentity, ffmax_custom_operators}
use fflib.Gcomp.Operator.Custom.{IsCustom}

none_yet :
    (fun : ℕ → ℕ) (n : ℕ) (s : Operators)
    → n ≡ ffmax_custom_operators
    → Holds s.custom_idx (range 0 n) 0
    → (v : IsCustom fun [] s) × (v.stack ≡ range 0 n)
none_yet fun n s e held = (
  record {
    stack = range 0 n;
    held = held;
    once = λ a. ground (arith, count-range a 0 n, e);
    filled = λ a m. cc;
  },
  refl,
)

-- The two functions of the library stand in their places, and there is no custom operator.
pub init-IsCustom :
    (fun : ℕ → ℕ) (sum copy : ℕ) (m : ℕ → Entry) (s : Operators)
    → (t : Operators) × (init sum copy (some m) s ≡ some (t, ffsuccess))
      × ((v : IsCustom fun [] t) × (v.stack ≡ range 0 ffmax_custom_operators))
      × (t.operators ffsum ≡ built_in ffsum sum)
      × (t.operators ffidentity ≡ built_in ffidentity copy)
unfolding init
init-IsCustom fun sum copy m s =
    let (a, made, held) =
      create-Holds ffmax_custom_operators m s.custom_idx (omega arith) (omega arith) in
    let t : Operators = record s {
      operators = λ i.
          if i == ffidentity
          then built_in ffidentity copy
          else if i == ffsum
          then built_in ffsum sum
          else s.operators i;
      custom_idx = a;
    } in
    (t, rw made refl, none_yet fun ffmax_custom_operators t refl held, refl, refl)
