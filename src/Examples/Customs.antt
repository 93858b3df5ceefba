-- ===== src/Examples/Customs.antt =====
-- src/components/gcomp/ffop_gcomp_operator.c: custom operators in a fresh table.
use fflib.Base.{
  List, ℕ, ◌+◌, ◌≡◌, refl, none, some, [], ◌∷◌, arith, pos, ffsuccess, has, true, range, update,
  count, count-range, if◌then◌else◌, ltb,
}
use fflib.Arman
use fflib.Arman.{Arman, Entry}
use fflib.Arman.Stack.{Holds, create-Holds}
use fflib.Gcomp.Operator.{ffcustom, Operator, Operators, get, custom_create, custom_delete}
use fflib.Gcomp.Operator.Client.{Call, add, remove, Users, run, run-functions}
use fflib.Gcomp.Operator.Custom.{IsCustom, get-custom_create}

abbrev entries : ℕ → Entry
entries i = record { idx = 0; next = none }

abbrev old : Arman
old = record { entries = entries; free_entries = none; free_free_entries = none; tofree = none }

abbrev manager :
    (a : Arman) × (Arman.create 32 (some entries) old ≡ some (a, ffsuccess))
    × Holds a (range 0 32) 0
manager = create-Holds 32 entries old (omega arith) (omega arith)

abbrev table : Operators
table = record {
  operators = λ i. record { type = i; commutative = pos 1; idx = i; op_fun = none };
  custom_operators = λ i. record { type = 0; commutative = pos 0; idx = 0; op_fun = none };
  custom_idx = manager.0;
}

abbrev fun : ℕ → ℕ
fun i = 70

fresh : (n a : ℕ) → count a (range 0 n) + 0 ≡ (if ltb a n then 1 else 0)
fresh n a = ground (arith, count-range a 0 n)

nothing_lives :
    (a : ℕ)
    → has a [] ≡ true
    → ((table.custom_operators a).op_fun ≡ some (fun a))
      × ((table.custom_operators a).type ≡ ffcustom)
nothing_lives a h = (cc, cc)

abbrev table-IsCustom : IsCustom fun [] table
table-IsCustom = record {
  stack = range 0 32;
  held = manager.2;
  once = λ a. fresh 32 a;
  filled = nothing_lives;
}

get-custom_create_example :
    (t : Operators) × (custom_create 70 (pos 1) table ≡ some (t, 6, ffsuccess))
    × (d : Operator) × (get (pos 6) t ≡ some (some d, ffsuccess))
    × (d.op_fun ≡ some 70)
    × (u : Operators) × (custom_delete (pos 6) t ≡ some (u, ffsuccess))
    × (w : IsCustom (update fun 0 70) [] u) × (has 0 w.stack ≡ true)
get-custom_create_example = get-custom_create 70 0 (pos 1) (range 1 31) table-IsCustom refl

abbrev users : Users
users = record { table = table; live = []; fun = fun }

abbrev history : List Call
history = add 70 (pos 1) ∷ add 71 (pos 0) ∷ remove 0 ∷ add 72 (pos 1) ∷ remove 9 ∷ []

run-functions_example :
    (u : Users) × (run history users ≡ some u)
    × ((i : ℕ)
        → has i u.live ≡ true
        → (d : Operator) × (get (pos (i + 6)) u.table ≡ some (some d, ffsuccess))
          × (d.op_fun ≡ some (u.fun i)))
run-functions_example = run-functions history users table-IsCustom
