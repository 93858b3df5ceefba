-- ===== src/Gcomp/Operator/Client.antt =====
-- Histories of custom operators, in src/components/gcomp/ffop_gcomp_operator.c.
use fflib.Base.{
  ℕ, zero, suc, ◌+◌, ◌-◌, ◌<◌, ◌≡◌, refl, Bool, true, false, ◌&&◌, Option, some, List, [], ◌∷◌,
  arith, ℤ, pos, ffsuccess, has, count, erase, if◌then◌else◌, update, ◌>>=◌, Bool-cases, inl, inr,
  count-has,
}
use fflib.Gcomp.Operator.{
  Operator, Operators, ffmax_custom_operators, ffcustom, get, custom_create, custom_delete,
}
use fflib.Gcomp.Operator.Custom.{IsCustom, create-IsCustom, delete-IsCustom, get-IsCustom}

pub data Call : Type 0 where
  add : (f : ℕ) (commutative : ℤ) → Call
  remove : (i : ℕ) → Call

-- The tables, the indices of the operators that exist, and the function of each.
pub record Users : Type 0 where
  pub table : Operators
  pub live : List ℕ
  pub fun : ℕ → ℕ

abbrev pub all_live : ℕ → List ℕ → Bool
all_live zero live = true
all_live (suc n) live = has n live && all_live n live

-- The users remove what exists, and add no operator when all 32 indices are taken.
unfoldable pub run : List Call → Users → Option Users
unfolding erase
run [] w = some w
run (add f c ∷ cs) w =
    let rest = custom_create f c w.table >>= λ r. run cs (record {
      table = r.0;
      live = (r.1 - ffcustom) ∷ w.live;
      fun = update w.fun (r.1 - ffcustom) f;
    }) in
    let skip = run cs w in if all_live ffmax_custom_operators w.live then skip else rest
run (remove i ∷ cs) w =
    let rest = custom_delete (pos (i + ffcustom)) w.table >>= λ r.
    run cs (record w { table = r.0; live = erase i w.live }) in
    let skip = run cs w in if has i w.live then rest else skip

free_index :
    (n : ℕ) (live : List ℕ) → all_live n live ≡ false → (i : ℕ) × (i < n) × (has i live ≡ false)
free_index zero live e = cc
free_index (suc n) live e = elim (Bool-cases (has n live)) [
  | inr out ↦ (n, omega arith, out)
  | inl m ↦
      let (i, lt, out) = free_index n live (ground (arith, m, e)) in (i, omega (arith, lt), out)
]

abbrev pub IsServed : Users → Type 0
IsServed w = IsCustom w.fun w.live w.table

stack_top :
    (stack : List ℕ) (i : ℕ) → 0 < count i stack → (j : ℕ) × (rest : List ℕ) × (stack ≡ j ∷ rest)
stack_top [] i lt = absurd (omega arith)
stack_top (j ∷ rest) i lt = (j, rest, refl)

top :
    (w : Users) (v : IsServed w)
    → all_live ffmax_custom_operators w.live ≡ false
    → (j : ℕ) × (rest : List ℕ) × (v.stack ≡ j ∷ rest)
top w v e =
    let (i, lt, out) = free_index ffmax_custom_operators w.live e in
    stack_top v.stack i (ground (arith, v.once i, count-has i w.live, out, lt))

run-IsServed :
    (cs : List Call) (w : Users) → IsServed w → (u : Users) × (run cs w ≡ some u) × IsServed u
unfolding run
run-IsServed [] w v = (w, refl, v)
run-IsServed (add f c ∷ cs) w v = elim (Bool-cases (all_live ffmax_custom_operators w.live)) [
  | inl full ↦ let (u, done, good) = run-IsServed cs w v in (u, rw full done, good)
  | inr room ↦
      let (j, rest, e) = top w v room in
      let (t, made, free, good, under) = create-IsCustom f j c rest v e in
      let k : j + ffcustom - ffcustom ≡ j = omega arith in
      let (u, done, good') =
        run-IsServed cs (record { table = t; live = j ∷ w.live; fun = update w.fun j f }) good in
      (u, rw (room, made, k) done, good')
]
run-IsServed (remove i ∷ cs) w v = elim (Bool-cases (has i w.live)) [
  | inr out ↦ let (u, done, good) = run-IsServed cs w v in (u, rw out done, good)
  | inl m ↦
      let (t, gone, good, back) = delete-IsCustom i v m in
      let (u, done, good') = run-IsServed cs (record w { table = t; live = erase i w.live }) good in
      (u, rw (m, gone) done, good')
]

-- From well-formed tables on, no history in which the users create custom operators while one of
-- the 32 indices is free, and delete only those that exist, fails or accesses anything outside the
-- tables, and after it ffop_gcomp_operator_get at the handle of each operator that exists gives the
-- function it was created with.
pub run-functions :
    (cs : List Call) (w : Users)
    → IsServed w
    → (u : Users) × (run cs w ≡ some u)
      × ((i : ℕ)
          → has i u.live ≡ true
          → (d : Operator) × (get (pos (i + ffcustom)) u.table ≡ some (some d, ffsuccess))
            × (d.op_fun ≡ some (u.fun i)))
run-functions cs w v =
    let (u, done, good) = run-IsServed cs w v in (u, done, (λ i m. get-IsCustom i good m))
