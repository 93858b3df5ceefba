-- ===== src/Gcomp/Operator.antt =====
-- The tables of the operators, in src/components/gcomp/ffop_gcomp_operator.c.
-- A function is a number; `none`: an access outside an array, or a failed assertion.
pub mod Custom
pub mod Start
pub mod Client
use fflib.Base.{
  ℕ, zero, suc, ◌+◌, ◌-◌, Bool, true, false, ◌||◌, Option, none, some, ℤ, pos, negsuc, ffsuccess,
  fferror, ffinvalid_arg, int_eq, not, ltb, ◌==◌, update, if◌then◌else◌, ◌>>=◌,
}
use fflib.Arman
use fflib.Arman.{Arman, Entry}

abbrev pub ffsum : ℕ
ffsum = 0

abbrev pub ffidentity : ℕ
ffidentity = 4

abbrev pub ffoperator_sentinel : ℕ
ffoperator_sentinel = 5

abbrev pub ffcustom : ℕ
ffcustom = 6

abbrev pub ffmax_custom_operators : ℕ
ffmax_custom_operators = 32

-- `(uint32_t) FFNONE`
abbrev pub ffnone : ℕ
ffnone = 4294967295

-- `ffop_gcomp_operator_t`
pub record Operator : Type 0 where
  pub type : ℕ
  pub commutative : ℤ
  pub idx : ℕ
  pub op_fun : Option ℕ

-- The static variables.
pub record Operators : Type 0 where
  pub operators : ℕ → Operator
  pub custom_operators : ℕ → Operator
  pub custom_idx : Arman

abbrev pub built_in : ℕ → ℕ → Operator
built_in type f = record { type = type; commutative = pos 1; idx = type; op_fun = some f }

-- `ffop_gcomp_operator_init`, for the functions `sum` and `copy`; `memory` is what `malloc` returns
-- for the index manager.
unfoldable pub init : (sum copy : ℕ) → Option (ℕ → Entry) → Operators → Option (Operators × ℤ)
init sum copy memory s = Arman.create ffmax_custom_operators memory s.custom_idx >>= λ r. some (
  record s {
    operators =
        update (update s.operators ffsum (built_in ffsum sum)) ffidentity
          (built_in ffidentity copy);
    custom_idx = r.0;
  },
  if int_eq r.1 ffsuccess then ffsuccess else fferror,
)

-- `ffop_gcomp_operator_get`: the descriptor that is copied, if one is.
unfoldable pub get : ℤ → Operators → Option (Option Operator × ℤ)
get (negsuc n) s = some (none, ffinvalid_arg)
get (pos n) s =
    if ltb n ffoperator_sentinel
    then some (some (s.operators n), ffsuccess)
    else if ltb n ffcustom
    then none
    else if ltb (n - ffcustom) ffmax_custom_operators
    then some (some (s.custom_operators (n - ffcustom)), ffsuccess)
    else some (none, ffinvalid_arg)

-- `ffop_gcomp_operator_custom_create`: the handle. Its test `idx<0` is never true of a `uint32_t`.
unfoldable pub custom_create : ℕ → ℤ → Operators → Option (Operators × ℕ × ℤ)
unfolding Arman.get
custom_create f commutative s =
    let (idx, m) = Arman.get s.custom_idx in
    if ltb idx ffmax_custom_operators
    then some (
      record s {
        custom_operators =
            update s.custom_operators idx
              (record { type = ffcustom; commutative = commutative; idx = idx; op_fun = some f });
        custom_idx = m;
      },
      idx + ffcustom,
      ffsuccess,
    )
    else none

-- `ffop_gcomp_operator_custom_delete`
unfoldable pub custom_delete : ℤ → Operators → Option (Operators × ℤ)
unfolding Arman.put
custom_delete (negsuc n) s = none
custom_delete (pos n) s =
    let i = n - ffcustom in
    if ltb n ffcustom
    then none
    else if not (ltb i ffmax_custom_operators)
    then some (s, fferror)
    else if (s.custom_operators i).type == ffnone
    then some (s, fferror)
    else (Arman.put s.custom_idx i >>= λ m. some (
      record s {
        custom_operators =
            update s.custom_operators i (record (s.custom_operators i) { type = ffnone });
        custom_idx = m;
      },
      ffsuccess,
    ))
