-- ===== src/Op/Run/Post.antt =====
-- `ffop_post` and `ffop_complete` of src/ffop.c in a round: they return, given as much fuel as the
-- graph is deep, and keep the invariant.
use fflib.Base.{
  ℕ, zero, suc, ◌+◌, ◌<◌, ◌≡◌, refl, true, false, Option, some, List, [], ◌∷◌, ◌++◌, arith, ℤ,
  int_eq, has, count, u32, Distinct, inl, inr, Bool-cases, ◌==◌, ==→eq, ==-refl, ◌∙◌, All, ◌>>=◌,
  ffcompleted, ffsuccess, if◌then◌else◌,
}
use fflib.Op.{
  Op, State, satisfy, start, finish, launch, trigger, notify, complete_by, post, complete,
  decrement, is_opt_set, is_reposted, ffop_dep_or, ffop_non_persistent,
}
use fflib.Op.Sums.{Edges, waiting}
use fflib.Op.Run.{IsRun, IsDue, posts}
use fflib.Op.Run.Step.{satisfy-IsRun, fire-IsDue, finish-IsRun}

-- Every edge of `e` leads down.
abbrev pub IsHeight : Edges → List ℕ → (ℕ → ℕ) → Type 0
IsHeight e all h = (a : ℕ) → has a all ≡ true → All (λ b. h b < h a) (e a)

All-lt :
    (h : ℕ → ℕ) {k n : ℕ} (xs : List ℕ) → All (λ b. h b < k) xs → k < suc n → All (λ b. h b < n) xs
All-lt h [] a lt = tt
All-lt h (x ∷ xs) a lt = (omega arith, All-lt h xs a.1 lt)

trigger-and :
    (op : Op) (deps : ℕ)
    → is_opt_set op ffop_dep_or ≡ false
    → is_opt_set op ffop_non_persistent ≡ false
    → trigger op deps ≡ (deps == 0)
unfolding trigger
trigger-and op deps p q = ground arith

module _ {W : Type 0} where
  satisfy_opt :
      (p d opt : ℕ) (s : State W) → is_opt_set ((satisfy d s).ops p) opt ≡ is_opt_set (s.ops p) opt
  unfolding satisfy is_opt_set
  satisfy_opt p d opt s = ground (arith, ==→eq p d)

  -- A round of the loop, for a persistent operation with an AND dependency.
  notify_cons :
      (post_fn : ℕ → State W → Option (State W × ℤ)) (p d : ℕ) (ds : List ℕ) (s : State W)
      → is_opt_set (s.ops p) ffop_dep_or ≡ false
      → is_opt_set (s.ops p) ffop_non_persistent ≡ false
      → notify post_fn p (d ∷ ds) s ≡ (
          (if decrement (s.ops d).dep_left == 0
            then post_fn d (satisfy d s)
            else some (satisfy d s, ffsuccess))
          >>= λ r. notify post_fn p ds r.0)
  unfolding notify satisfy
  notify_cons post_fn p d ds s x y = rw (
    ==-refl d,
    trigger-and ((satisfy d s).ops p) (decrement (s.ops d).dep_left)
        (satisfy_opt p d ffop_dep_or s ∙ x) (satisfy_opt p d ffop_non_persistent s ∙ y),
  )

module _ {W : Type 0} (e : Edges) (all : List ℕ) (v : ℕ) where
  abbrev pub Keeps : List ℕ → Option (State W × ℤ) → Type 0
  Keeps pending m = (r : State W × ℤ) × (m ≡ some r) × IsRun e all pending v r.0

  module _ (h : ℕ → ℕ) (fuel : ℕ) (post_fn : ℕ → State W → Option (State W × ℤ))
      (post_keeps : (d : ℕ) (pending : List ℕ) (s : State W)
        → h d < fuel
        → IsDue e all pending v s d
        → Keeps pending (post_fn d s)) where
    notify-IsRun :
        (p : ℕ) (ds pending : List ℕ) (s : State W)
        → has p all ≡ true
        → All (λ d. has d all ≡ true) ds
        → All (λ d. h d < fuel) ds
        → IsRun e all (ds ++ pending) v s
        → (s' : State W) × (notify post_fn p ds s ≡ some s') × IsRun e all pending v s'
    unfolding notify
    notify-IsRun p [] pending s m ins low r = (s, refl, r)
    notify-IsRun p (d ∷ ds) pending s m ins low r =
        elim (Bool-cases (decrement (s.ops d).dep_left == 0)) [
          | inl z ↦
              let (r1, done, run) =
                post_keeps d (ds ++ pending) (satisfy d s) low.0
                  (fire-IsDue s d (ds ++ pending) r ins.0 (==→eq _ 0 z)) in
              rw
                (notify_cons post_fn p d ds s (r.item p m).dep_and (r.item p m).persistent, z, done)
                (notify-IsRun p ds pending r1.0 m ins.1 low.1 run)
          | inr nz ↦
              rw (notify_cons post_fn p d ds s (r.item p m).dep_and (r.item p m).persistent, nz)
                (notify-IsRun p ds pending (satisfy d s) m ins.1 low.1
                  (satisfy-IsRun s d (ds ++ pending) r ins.0 (ground arith)))
        ]

    module _ (distinct : Distinct all) (height : IsHeight e all h) (fits : suc v < u32) where
      complete_by-IsRun :
          (p : ℕ) (pending : List ℕ) (s : State W) (r : IsRun e all pending v s)
          → h p < suc fuel
          → has p all ≡ true
          → r.ver p ≡ v
          → count p pending + waiting e r.ver v all p ≡ 0
          → posts p s.log ≡ suc v
          → Keeps pending (complete_by post_fn p s)
      unfolding complete_by
      complete_by-IsRun p pending s r low m fresh none_left once =
          let i = r.item p m in
          let (s', done, run) =
            notify-IsRun p (e p) pending (finish p s) m i.inside (All-lt h (e p) (height p m) low)
              (finish-IsRun s p pending r distinct m fresh none_left once fits) in
          ((s', ffsuccess), rw (i.edges, done), run)

module _ {W : Type 0} (impl_post : ℕ → ℕ → W → W × ℤ) where
  pub post-suc :
      (fuel d : ℕ) (s : State W)
      → is_reposted (s.ops d) ≡ false
      → post impl_post (suc fuel) d s ≡ (
          if int_eq (launch impl_post d s).1 ffcompleted
          then (complete_by (post impl_post fuel) d (launch impl_post d s).0
              >>= (λ r. some (r.0, (launch impl_post d s).1)))
          else some (launch impl_post d s))
  unfolding post
  post-suc fuel d s r = rw r

module _ {W : Type 0} (impl_post : ℕ → ℕ → W → W × ℤ) {e : Edges} {all : List ℕ} {v : ℕ} (h : ℕ → ℕ)
    (distinct : Distinct all) (height : IsHeight e all h) (fits : suc v < u32) where
  launch-IsRun :
      (d : ℕ) (pending : List ℕ) (s : State W)
      → (due : IsDue e all pending v s d)
      → (run : IsRun e all pending v (launch impl_post d s).0) × (run.ver d ≡ v)
        × (count d pending + waiting e run.ver v all d ≡ 0)
        × (posts d (launch impl_post d s).0.log ≡ suc v)
  unfolding launch
  launch-IsRun d pending s due = (
    record { ver = due.run.ver; item = due.run.item; ordered = due.run.ordered },
    due.fresh,
    due.none_left,
    due.once,
  )

  due-not_reposted :
      (d : ℕ) (pending : List ℕ) (s : State W)
      → IsDue e all pending v s d
      → is_reposted (s.ops d) ≡ false
  unfolding start is_opt_set
  due-not_reposted d pending s due =
      ground (arith, (due.run.item d due.member).persistent, ==-refl d)

  -- The posting of an operation that is due returns, and keeps the invariant.
  pub post-IsRun :
      (fuel d : ℕ) (pending : List ℕ) (s : State W)
      → h d < fuel
      → IsDue e all pending v s d
      → Keeps e all v pending (post impl_post fuel d s)
  post-IsRun zero d pending s low due = elim low [ ]
  post-IsRun (suc fuel) d pending s low due =
      let (run, fresh, none_left, once) = launch-IsRun d pending s due in
      rw (post-suc impl_post fuel d s (due-not_reposted d pending s due))
        (elim (Bool-cases (int_eq (launch impl_post d s).1 ffcompleted)) [
          | inl now ↦
              let (r, done, run') =
                complete_by-IsRun e all v h fuel (post impl_post fuel) (post-IsRun fuel) distinct
                  height fits d pending (launch impl_post d s).0 run low due.member fresh none_left
                  once in
              rw (now, done) ((r.0, (launch impl_post d s).1), refl, run')
          | inr later ↦ rw later (launch impl_post d s, refl, run)
        ])

  -- So does the completion of an operation that was posted earlier.
  pub complete-IsRun :
      (fuel p : ℕ) (s : State W) (r : IsRun e all [] v s)
      → h p < suc fuel
      → has p all ≡ true
      → r.ver p ≡ v
      → posts p s.log ≡ suc v
      → Keeps e all v [] (complete impl_post fuel p s)
  unfolding complete
  complete-IsRun fuel p s r low m fresh once =
      complete_by-IsRun e all v h fuel (post impl_post fuel) (post-IsRun fuel) distinct height fits
        p [] s r low m fresh (ground (arith, r.item p m)) once
