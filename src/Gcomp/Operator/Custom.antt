-- ===== src/Gcomp/Operator/Custom.antt =====
-- The custom operators of src/components/gcomp/ffop_gcomp_operator.c and their handles.
use fflib.Base.{
  ℕ, ◌+◌, ◌-◌, ◌≡◌, refl, ◌∙◌, ap, subst, true, false, some, List, ◌∷◌, arith, ℤ, pos, ffsuccess,
  ltb, has, count, erase, if◌then◌else◌, update, ==→eq, ==-refl, length, count-erase, length-erase,
  count-has, has-count,
}
use fflib.Arman
use fflib.Arman.Stack.{Holds, get-cons, put-cons}
use fflib.Gcomp.Operator.{
  Operator, Operators, ffmax_custom_operators, ffcustom, ffnone, get, custom_create, custom_delete,
}

-- The custom operators `live` exist, each with the function that `fun` names.
pub record IsCustom (fun : ℕ → ℕ) (live : List ℕ) (s : Operators) : Type 0 where
  pub stack : List ℕ
  pub held : Holds s.custom_idx stack (length live)
  pub once :
      (a : ℕ) → count a stack + count a live ≡ (if ltb a ffmax_custom_operators then 1 else 0)
  pub filled :
      (a : ℕ)
      → has a live ≡ true
      → ((s.custom_operators a).op_fun ≡ some (fun a)) × ((s.custom_operators a).type ≡ ffcustom)

module _ {fun : ℕ → ℕ} {live : List ℕ} {s : Operators} where
  -- ffop_gcomp_operator_get at the handle of a custom operator that exists gives the descriptor
  -- with the function it was created with.
  pub get-IsCustom :
      (i : ℕ)
      → IsCustom fun live s
      → has i live ≡ true
      → (d : Operator) × (get (pos (i + ffcustom)) s ≡ some (some d, ffsuccess))
        × (d.op_fun ≡ some (fun i))
  unfolding get
  get-IsCustom i v m =
      let bound : ltb i ffmax_custom_operators ≡ true =
        ground (arith, v.once i, has-count i live) in
      let e : i + ffcustom - ffcustom ≡ i = omega arith in
      let lo : ltb (i + ffcustom) 5 ≡ false = ground arith in
      let hi : ltb (i + ffcustom) ffcustom ≡ false = ground arith in
      (s.custom_operators i, rw (lo, hi, e, bound) refl, (v.filled i m).0)

  -- With an index free, ffop_gcomp_operator_custom_create gives a handle that no existing custom
  -- operator has, and the others keep their functions.
  pub create-IsCustom :
      (f i : ℕ) (commutative : ℤ) (rest : List ℕ)
      → (v : IsCustom fun live s) → v.stack ≡ i ∷ rest
      → (t : Operators) × (custom_create f commutative s ≡ some (t, i + ffcustom, ffsuccess))
        × (has i live ≡ false)
        × (w : IsCustom (update fun i f) (i ∷ live) t) × (w.stack ≡ rest)
  unfolding custom_create
  create-IsCustom f i commutative rest v top =
      let (got, held) =
        get-cons (subst (λ (l : List ℕ). Holds s.custom_idx l (length live)) top v.held) in
      let tops = λ (a : ℕ). ap (count a) top in
      let bound : ltb i ffmax_custom_operators ≡ true =
        ground (arith, v.once i, tops i, ==-refl i) in
      let free : has i live ≡ false =
        ground (arith, v.once i, tops i, ==-refl i, has-count i live) in
      (
        record s {
          custom_operators =
              update s.custom_operators i
                (record { type = ffcustom; commutative = commutative; idx = i; op_fun = some f });
          custom_idx = (Arman.get s.custom_idx).1;
        },
        rw (got, bound) refl,
        free,
        record {
          stack = rest;
          held = held;
          once = λ a. ground (arith, v.once a, tops a);
          filled = λ a ma. ground (arith, v.filled a);
        },
        refl,
      )

  -- Deleting a custom operator that exists succeeds, makes its index free again, and leaves the
  -- other custom operators as they are.
  pub delete-IsCustom :
      (i : ℕ)
      → IsCustom fun live s
      → has i live ≡ true
      → (t : Operators) × (custom_delete (pos (i + ffcustom)) s ≡ some (t, ffsuccess))
        × (w : IsCustom fun (erase i live) t) × (has i w.stack ≡ true)
  unfolding custom_delete
  delete-IsCustom i v m =
      let fit = length-erase i live m in
      let c = λ (a : ℕ). count-erase a i live m in
      let (b, done, held) = put-cons i (rw fit at v.held) in
      let bound : ltb i ffmax_custom_operators ≡ true =
        ground (arith, v.once i, has-count i live) in
      let e : i + ffcustom - ffcustom ≡ i = omega arith in
      let hi : ltb (i + ffcustom) ffcustom ≡ false = ground arith in
      (
        record s {
          custom_operators =
              update s.custom_operators i (record (s.custom_operators i) { type = ffnone });
          custom_idx = b;
        },
        rw (hi, e, bound, (v.filled i m).1, done) refl,
        record {
          stack = i ∷ v.stack;
          held = held;
          once = λ a. ground (arith, v.once a, c a);
          filled = λ a ma. ground (
            arith,
            v.filled a,
            has-count a (erase i live) ma,
            count-has a live,
            c a,
            v.once a,
            ==→eq a i,
          );
        },
        rw (==-refl i) refl,
      )

-- With an index free, ffop_gcomp_operator_custom_create gives a handle at which
-- ffop_gcomp_operator_get finds the function, and ffop_gcomp_operator_custom_delete of it leaves
-- the operators that existed before, with their functions, and the index free.
pub get-custom_create :
    {fun : ℕ → ℕ} {live : List ℕ} {s : Operators} (f i : ℕ) (commutative : ℤ) (rest : List ℕ)
    → (v : IsCustom fun live s) → v.stack ≡ i ∷ rest
    → (t : Operators) × (custom_create f commutative s ≡ some (t, i + ffcustom, ffsuccess))
      × (d : Operator) × (get (pos (i + ffcustom)) t ≡ some (some d, ffsuccess))
      × (d.op_fun ≡ some f)
      × (u : Operators) × (custom_delete (pos (i + ffcustom)) t ≡ some (u, ffsuccess))
      × (w : IsCustom (update fun i f) live u) × (has i w.stack ≡ true)
unfolding erase
get-custom_create {fun} {live} f i commutative rest v top =
    let (t, made, free, w, under) = create-IsCustom f i commutative rest v top in
    let held : has i (i ∷ live) ≡ true = rw (==-refl i) refl in
    let last : erase i (i ∷ live) ≡ live = rw (==-refl i) refl in
    let (d, read, function) = get-IsCustom i w held in
    let (u, gone, back, again) = delete-IsCustom i w held in
    let back' : (x : IsCustom (update fun i f) live u) × (has i x.stack ≡ true) =
      subst (λ l. (x : IsCustom (update fun i f) l u) × (has i x.stack ≡ true)) last
        (back, again) in
    (t, made, d, read, function ∙ rw (==-refl i) refl, u, gone, back'.0, back'.1)
