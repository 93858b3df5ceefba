-- ===== src/Op/Trigger.antt =====
-- When `ffop_complete` of src/ffop.c posts a dependent: the options that it reads are those of the
-- completed operation.
use fflib.Base.{
  ℕ, ◌≡◌, ◌∙◌, ◌≢◌, refl, true, false, Option, some, List, [], ◌∷◌, arith, ℤ, ==→eq, ==-refl,
  ffsuccess,
}
use fflib.Op.{
  Op, State, completing, satisfy, finish, trigger, notify, complete_by, post, complete, is_opt_set,
  dependents, ffop_non_persistent, increment,
}

module _ {W : Type 0} (post_fn : ℕ → State W → Option (State W × ℤ)) (p : ℕ) where
  -- A non-persistent operation that has run.
  abbrev Spent : State W → Type 0
  Spent s = (is_opt_set (s.ops p) ffop_non_persistent ≡ true) × ((s.ops p).version ≢ 0)

  satisfy-Spent : (d : ℕ) (s : State W) → Spent s → Spent (satisfy d s)
  unfolding satisfy is_opt_set
  satisfy-Spent d s x = ground (arith, ==→eq p d)

  spent-trigger :
      (op : Op) (deps : ℕ)
      → is_opt_set op ffop_non_persistent ≡ true
      → op.version ≢ 0
      → trigger op deps ≡ false
  unfolding trigger
  spent-trigger op deps x y = ground arith

  finish-Spent :
      (s : State W)
      → is_opt_set (s.ops p) ffop_non_persistent ≡ true
      → increment (s.ops p).version ≢ 0
      → Spent (finish p s) × ((finish p s).log ≡ completing p ∷ s.log)
  unfolding finish is_opt_set
  finish-Spent s x y = (ground (arith, ==-refl p), refl)

  notify-Spent :
      (ds : List ℕ) (s : State W)
      → Spent s
      → (t : State W) × (notify post_fn p ds s ≡ some t) × (t.log ≡ s.log)
  unfolding notify
  notify-Spent [] s x = (s, refl, refl)
  notify-Spent (d ∷ ds) s x =
      let y = satisfy-Spent d s x in
      let (t, done, same) = notify-Spent ds (satisfy d s) y in
      (
        t,
        rw (spent-trigger ((satisfy d s).ops p) ((satisfy d s).ops d).dep_left y.0 y.1) done,
        same,
      )

-- The completion of a non-persistent operation posts none of its dependents, whatever they wait for
-- (unless its version wraps to 0): the log gains the completion alone.
pub complete_non_persistent :
    {W : Type 0} (impl_post : ℕ → ℕ → W → W × ℤ) (fuel p : ℕ) (s : State W)
    → is_opt_set (s.ops p) ffop_non_persistent ≡ true
    → increment (s.ops p).version ≢ 0
    → (t : State W) × (complete impl_post fuel p s ≡ some (t, ffsuccess))
      × (t.log ≡ completing p ∷ s.log)
unfolding complete complete_by
complete_non_persistent impl_post fuel p s x y =
    let (spent, logged) = finish-Spent (post impl_post fuel) p s x y in
    let (t, done, same) =
      notify-Spent (post impl_post fuel) p (dependents (s.ops p)) (finish p s) spent in
    (t, rw done, same ∙ logged)
