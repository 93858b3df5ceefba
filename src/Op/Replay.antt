-- ===== src/Op/Replay.antt =====
-- The environment and the log of src/ffop.c: the calls of the binding are those of the log, in its
-- order.
use fflib.Base.{
  ℕ, zero, suc, ◌≡◌, sym, ap, subst, ◌∙◌, inl, inr, Bool, true, false, Option, some, List, [], ◌∷◌,
  arith, ℤ, int_eq, ffcompleted, ffsuccess, Bool-cases, ◌>>=◌, if◌then◌else◌, ==→eq, >>=-eq-some,
  some_eq,
}
use fflib.Op.{
  State, Event, posting, completing, start, finish, satisfy, launch, notify, complete_by, post,
  is_reposted, dependents, trigger,
}
use fflib.Op.Kept.{post_again}
use fflib.Op.Run.Post.{post-suc}

module _ {W : Type 0} (impl_post : ℕ → ℕ → W → W × ℤ) (types : ℕ → ℕ) (w : W) where
  -- The environment `w` behind the posts of a log, the oldest first.
  abbrev pub replay : List Event → W
  replay [] = w
  replay (posting p ∷ l) = (impl_post (types p) p (replay l)).0
  replay (completing p ∷ l) = replay l

  pub record IsReplayed (s : State W) : Type 0 where
    pub env : s.env ≡ replay s.log
    pub typed : (q : ℕ) → (s.ops q).type ≡ types q

  same-IsReplayed :
      (s t : State W)
      → t.env ≡ replay t.log
      → ((q : ℕ) → (t.ops q).type ≡ (s.ops q).type)
      → IsReplayed s
      → IsReplayed t
  same-IsReplayed s t e same i = record { env = e; typed = λ q. same q ∙ i.typed q }

  finish-IsReplayed : (p : ℕ) (s : State W) → IsReplayed s → IsReplayed (finish p s)
  unfolding finish
  finish-IsReplayed p s i = same-IsReplayed s (finish p s) i.env (λ q. ground (arith, ==→eq q p)) i

  satisfy-IsReplayed : (p : ℕ) (s : State W) → IsReplayed s → IsReplayed (satisfy p s)
  unfolding satisfy
  satisfy-IsReplayed p s i =
      same-IsReplayed s (satisfy p s) i.env (λ q. ground (arith, ==→eq q p)) i

  launch-IsReplayed : (p : ℕ) (s : State W) → IsReplayed s → IsReplayed (launch impl_post p s).0
  unfolding launch start
  launch-IsReplayed p s i =
      same-IsReplayed s (launch impl_post p s).0
        (ap (λ ty. (impl_post ty p s.env).0) (i.typed p)
          ∙ ap (λ v. (impl_post (types p) p v).0) i.env)
        (λ q. ground (arith, ==→eq q p)) i

  abbrev Keeps : (State W → Option (State W × ℤ)) → Type 0
  Keeps f = (s : State W) (r : State W × ℤ) → IsReplayed s → f s ≡ some r → IsReplayed r.0

  module _ (post_fn : ℕ → State W → Option (State W × ℤ))
      (keeps : (d : ℕ) → Keeps (post_fn d)) where
    branch : (c : Bool) (d : ℕ) → Keeps (λ s. if c then post_fn d s else some (s, ffsuccess))
    branch true d s r i q = keeps d s r i q
    branch false d s r i q = subst (λ (x : State W × ℤ). IsReplayed x.0) (some_eq q) i

    notify-IsReplayed :
        (p : ℕ) (ds : List ℕ) (s t : State W)
        → IsReplayed s
        → notify post_fn p ds s ≡ some t
        → IsReplayed t
    unfolding notify
    notify-IsReplayed p [] s t i q = subst IsReplayed (some_eq q) i
    notify-IsReplayed p (d ∷ ds) s t i q =
        let s1 = satisfy d s in
        let c = trigger (s1.ops p) (s1.ops d).dep_left in
        let (r, one, rest) =
          >>=-eq-some (if c then post_fn d s1 else some (s1, ffsuccess))
            (λ (r : State W × ℤ). notify post_fn p ds r.0) q in
        notify-IsReplayed p ds r.0 t (branch c d s1 r (satisfy-IsReplayed d s i) one) rest

    complete_by-IsReplayed : (p : ℕ) → Keeps (complete_by post_fn p)
    unfolding complete_by
    complete_by-IsReplayed p s r i q =
        let (t, loop, done) =
          >>=-eq-some (notify post_fn p (dependents (s.ops p)) (finish p s))
            (λ (t : State W). some (t, ffsuccess)) q in
        subst (λ (x : State W × ℤ). IsReplayed x.0) (some_eq done)
          (notify-IsReplayed p (dependents (s.ops p)) (finish p s) t (finish-IsReplayed p s i) loop)

    -- The part of `ffop_post` behind the launch.
    behind :
        (c : Bool) (p : ℕ) (l : State W × ℤ) (r : State W × ℤ)
        → IsReplayed l.0
        → (if c
            then (complete_by post_fn p l.0 >>= λ (r : State W × ℤ). some (r.0, l.1))
            else some l)
          ≡ some r
        → IsReplayed r.0
    behind false p l r i q = subst (λ (x : State W × ℤ). IsReplayed x.0) (some_eq q) i
    behind true p l r i q =
        let (r1, body, done) =
          >>=-eq-some (complete_by post_fn p l.0) (λ (r : State W × ℤ). some (r.0, l.1)) q in
        subst (λ (x : State W × ℤ). IsReplayed x.0) (some_eq done)
          (complete_by-IsReplayed p l.0 r1 i body)

  -- Whatever the functions of the binding answer, ffop_post, with all that it sets off, keeps the
  -- types of the operations, and the environment stays what the posts of the log, the oldest first,
  -- have made of it.
  pub post-IsReplayed :
      (fuel p : ℕ) (s : State W) (r : State W × ℤ)
      → IsReplayed s
      → post impl_post fuel p s ≡ some r
      → IsReplayed r.0
  unfolding post
  post-IsReplayed zero p s r i q = cc
  post-IsReplayed (suc fuel) p s r i q = elim (Bool-cases (is_reposted (s.ops p))) [
    | inl again ↦
        subst (λ (x : State W × ℤ). IsReplayed x.0)
          (some_eq (sym (post_again impl_post fuel p s again) ∙ q)) i
    | inr first ↦
        behind (post impl_post fuel) (post-IsReplayed fuel)
          (int_eq (launch impl_post p s).1 ffcompleted) p (launch impl_post p s) r
          (launch-IsReplayed p s i) (sym (post-suc impl_post fuel p s first) ∙ q)
  ]
