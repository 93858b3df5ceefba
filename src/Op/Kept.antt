-- ===== src/Op/Kept.antt =====
-- What ffop_post and ffop_complete of src/ffop.c leave alone: an operation changes its version only
-- when it is posted.
use fflib.Base.{
  ℕ, zero, suc, ◌≤◌, ◌<◌, ◌≡◌, ◌≢◌, refl, sym, ap, subst, ◌∙◌, Bool, true, false, Option, some,
  List, [], ◌∷◌, arith, ℤ, ffsuccess, ffcompleted, ffinvalid_arg, int_eq, if◌then◌else◌, ◌>>=◌,
  ◌==◌, ==→eq, Bool-cases, >>=-eq-some, some_eq, inl, inr,
}
use fflib.Op.{
  State, post, complete, complete_by, notify, finish, satisfy, launch, start, dependents,
  is_reposted, trigger,
}
use fflib.Op.Run.{posts}
use fflib.Op.Run.Post.{post-suc}

module _ {W : Type 0} where
  pub posts-finish : (p q : ℕ) (s : State W) → posts q (finish p s).log ≡ posts q s.log
  unfolding finish
  posts-finish p q s = refl

  -- Between the states `q` has been posted, or has kept its version.
  abbrev pub IsKept : ℕ → State W → State W → Type 0
  IsKept q s t =
      (posts q s.log ≤ posts q t.log)
      × (posts q t.log ≡ posts q s.log → (t.ops q).version ≡ (s.ops q).version)

  same : (q : ℕ) (s t : State W) → s ≡ t → IsKept q s t
  same q s t e = subst (λ (x : State W). IsKept q s x) e (omega arith, (λ _. refl))

  pub IsKept-trans : (q : ℕ) (s t u : State W) → IsKept q s t → IsKept q t u → IsKept q s u
  IsKept-trans q s t u a b = (
    omega (arith, a.0, b.0),
    (λ e. b.1 (omega (arith, a.0, b.0, e)) ∙ a.1 (omega (arith, a.0, b.0, e))),
  )

  satisfy-IsKept : (d : ℕ) (s : State W) (q : ℕ) → IsKept q s (satisfy d s)
  unfolding satisfy
  satisfy-IsKept d s q = ground (arith, ==→eq q d)

  finish-IsKept : (p : ℕ) (s : State W) (q : ℕ) → q ≢ p → IsKept q s (finish p s)
  unfolding finish
  finish-IsKept p s q ne = ground (arith, ==→eq q p)

  module _ (post_fn : ℕ → State W → Option (State W × ℤ))
      (keeps : (d : ℕ) (s : State W) (r : State W × ℤ)
        → post_fn d s ≡ some r
        → (q : ℕ) → IsKept q s r.0) where
    called :
        (d : ℕ) (b : Bool) (s : State W) (r : State W × ℤ)
        → (if b then post_fn d s else some (s, ffsuccess)) ≡ some r
        → (q : ℕ) → IsKept q s r.0
    called d true s r e q = keeps d s r e q
    called d false s r e q = same q s r.0 (ap (λ x. x.0) (some_eq e))

    notify-IsKept :
        (p : ℕ) (ds : List ℕ) (s t : State W)
        → notify post_fn p ds s ≡ some t
        → (q : ℕ) → IsKept q s t
    unfolding notify
    notify-IsKept p [] s t e q = same q s t (some_eq e)
    notify-IsKept p (d ∷ ds) s t e q =
        let s1 = satisfy d s in
        let (r, one, rest) =
          >>=-eq-some
            (if trigger (s1.ops p) (s1.ops d).dep_left then post_fn d s1 else some (s1, ffsuccess))
            (λ r. notify post_fn p ds r.0) e in
        IsKept-trans q s s1 t (satisfy-IsKept d s q)
          (IsKept-trans q s1 r.0 t (called d _ s1 r one q) (notify-IsKept p ds r.0 t rest q))

    -- After the completion of `p` itself has been noted.
    complete_by-finish :
        (p : ℕ) (s : State W) (r : State W × ℤ)
        → complete_by post_fn p s ≡ some r
        → (q : ℕ) → IsKept q (finish p s) r.0
    unfolding complete_by
    complete_by-finish p s r e q =
        let (t, one, rest) =
          >>=-eq-some (notify post_fn p (dependents (s.ops p)) (finish p s))
            (λ s'. some (s', ffsuccess)) e in
        IsKept-trans q (finish p s) t r.0
          (notify-IsKept p (dependents (s.ops p)) (finish p s) t one q)
          (same q t r.0 (ap (λ x. x.0) (some_eq rest)))

module _ {W : Type 0} (impl_post : ℕ → ℕ → W → W × ℤ) where
  launch-IsKept : (p : ℕ) (s : State W) (q : ℕ) → IsKept q s (launch impl_post p s).0
  unfolding launch start
  launch-IsKept p s q = ground (arith, ==→eq q p)

  posted : (p : ℕ) (s : State W) → posts p (launch impl_post p s).0.log ≡ suc (posts p s.log)
  unfolding launch start
  posted p s = ground arith

  -- The part of `ffop_post` behind the launch.
  settled :
      (post_fn : ℕ → State W → Option (State W × ℤ))
      → ((d : ℕ) (s : State W) (r : State W × ℤ) → post_fn d s ≡ some r → (q : ℕ) → IsKept q s r.0)
      → (b : Bool) (p : ℕ) (s : State W) (r : State W × ℤ)
      → (if b
          then (complete_by post_fn p (launch impl_post p s).0
              >>= (λ x. some (x.0, (launch impl_post p s).1)))
          else some (launch impl_post p s))
        ≡ some r
      → (q : ℕ) → IsKept q s r.0
  settled post_fn keeps false p s r e q =
      IsKept-trans q s (launch impl_post p s).0 r.0 (launch-IsKept p s q)
        (same q (launch impl_post p s).0 r.0 (ap (λ x. x.0) (some_eq e)))
  settled post_fn keeps true p s r e q =
      let s1 = (launch impl_post p s).0 in
      let (x, one, rest) =
        >>=-eq-some (complete_by post_fn p s1) (λ x. some (x.0, (launch impl_post p s).1)) e in
      let after =
        IsKept-trans q (finish p s1) x.0 r.0 (complete_by-finish post_fn keeps p s1 x one q)
          (same q x.0 r.0 (ap (λ y. y.0) (some_eq rest))) in
      elim (Bool-cases (q == p)) [
        | inl hit ↦
            let more : posts q s.log < posts q r.0.log = omega (
              arith,
              after.0,
              posts-finish p q s1,
              subst (λ (z : ℕ). posts z s1.log ≡ suc (posts z s.log)) (sym (==→eq q p hit))
                  (posted p s),
            ) in
            (omega (arith, more), (λ e'. absurd (omega (arith, more, e'))))
        | inr miss ↦
            IsKept-trans q s s1 r.0 (launch-IsKept p s q)
              (IsKept-trans q s1 (finish p s1) r.0 (finish-IsKept p s1 q (ground arith)) after)
      ]

  pub post_again :
      (fuel p : ℕ) (s : State W)
      → is_reposted (s.ops p) ≡ true
      → post impl_post (suc fuel) p s ≡ some (s, ffinvalid_arg)
  unfolding post
  post_again fuel p s h = rw h refl

  no_post :
      (p : ℕ) (s : State W) (r : State W × ℤ) (q : ℕ)
      → post impl_post 0 p s ≡ some r
      → IsKept q s r.0
  unfolding post
  no_post p s r q e = cc

  post-IsKept :
      (fuel p : ℕ) (s : State W) (r : State W × ℤ)
      → post impl_post fuel p s ≡ some r
      → (q : ℕ) → IsKept q s r.0
  post-IsKept zero p s r e q = no_post p s r q e
  post-IsKept (suc fuel) p s r e q = elim (Bool-cases (is_reposted (s.ops p))) [
    | inl again ↦ same q s r.0 (ap (λ x. x.0) (some_eq (sym (post_again fuel p s again) ∙ e)))
    | inr first ↦
        settled (post impl_post fuel) (post-IsKept fuel)
          (int_eq (launch impl_post p s).1 ffcompleted) p s r
          (sym (post-suc impl_post fuel p s first) ∙ e) q
  ]

  -- The completion of `p` keeps what is not posted in it, `p` itself included once it is noted.
  pub complete-IsKept :
      (fuel p : ℕ) (s : State W) (r : State W × ℤ)
      → complete impl_post fuel p s ≡ some r
      → (q : ℕ) → IsKept q (finish p s) r.0
  unfolding complete
  complete-IsKept fuel p s r e q =
      complete_by-finish (post impl_post fuel) (post-IsKept fuel) p s r e q
