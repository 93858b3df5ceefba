-- ===== src/Op/Inside.antt =====
-- A graph whose operations complete when they are posted, as long as the environment is in order
-- (src/ffop.c): what ffop_post does is then what it would do with posts that always complete.
use fflib.Base.{
  ℕ, zero, suc, ◌≡◌, refl, sym, ◌∙◌, ap, subst, inl, inr, Bool, true, false, Option, some, List, [],
  ◌∷◌, arith, ℤ, has, All, int_eq, ffcompleted, ffsuccess, Bool-cases, ◌>>=◌, if◌then◌else◌, ==→eq,
  >>=-eq-some, some_eq,
}
use fflib.Op.{
  State, start, finish, satisfy, launch, notify, complete_by, post, is_reposted, dependents,
  trigger,
}
use fflib.Op.Kept.{post_again}
use fflib.Op.Run.Post.{post-suc}

module _ {W : Type 0} (impl_post : ℕ → ℕ → W → W × ℤ) where
  -- The same, with the answer FFCOMPLETED.
  abbrev pub forced : ℕ → ℕ → W → W × ℤ
  forced ty p w = ((impl_post ty p w).0, ffcompleted)

  module _ (all : List ℕ) (types : ℕ → ℕ) (Good : W → Type 0) where
    -- Posting an operation of the graph completes it, and leaves the environment in order.
    abbrev pub Immediate : Type 0
    Immediate =
        (p : ℕ)
        → has p all ≡ true
        → (w : W) → Good w
        → ((impl_post (types p) p w).1 ≡ ffcompleted) × Good (impl_post (types p) p w).0

    -- The environment is in order, the operations have their types, and no dependent lies outside.
    pub record IsInside (s : State W) : Type 0 where
      pub good : Good s.env
      pub typed : (p : ℕ) → has p all ≡ true → (s.ops p).type ≡ types p
      pub closed : (p : ℕ) → has p all ≡ true → All (λ d. has d all ≡ true) (dependents (s.ops p))

    same-IsInside :
        (s t : State W)
        → Good t.env
        → ((q : ℕ) → (t.ops q).type ≡ (s.ops q).type)
        → ((q : ℕ) → dependents (t.ops q) ≡ dependents (s.ops q))
        → IsInside s
        → IsInside t
    same-IsInside s t good types deps i = record {
      good = good;
      typed = λ q m. types q ∙ i.typed q m;
      closed = λ q m. subst (λ ds. All (λ d. has d all ≡ true) ds) (sym (deps q)) (i.closed q m);
    }

    finish-IsInside : (p : ℕ) (s : State W) → IsInside s → IsInside (finish p s)
    unfolding finish
    finish-IsInside p s i =
        same-IsInside s (finish p s) i.good (λ q. ground (arith, ==→eq q p))
          (λ q. ground (arith, ==→eq q p)) i

    satisfy-IsInside : (p : ℕ) (s : State W) → IsInside s → IsInside (satisfy p s)
    unfolding satisfy
    satisfy-IsInside p s i =
        same-IsInside s (satisfy p s) i.good (λ q. ground (arith, ==→eq q p))
          (λ q. ground (arith, ==→eq q p)) i

    -- What a call of the one post does, the other does too.
    abbrev Follows :
        (ℕ → State W → Option (State W × ℤ)) → (ℕ → State W → Option (State W × ℤ)) → Type 0
    Follows post_fn other =
        (d : ℕ) (s : State W) (r : State W × ℤ)
        → has d all ≡ true
        → IsInside s
        → post_fn d s ≡ some r
        → (other d s ≡ some r) × IsInside r.0

    module _ (post_fn other : ℕ → State W → Option (State W × ℤ))
        (follows : Follows post_fn other) where
      branch :
          (c : Bool) (d : ℕ) (s : State W) (r : State W × ℤ)
          → has d all ≡ true
          → IsInside s
          → (if c then post_fn d s else some (s, ffsuccess)) ≡ some r
          → ((if c then other d s else some (s, ffsuccess)) ≡ some r) × IsInside r.0
      branch true d s r m i q = follows d s r m i q
      branch false d s r m i q = (q, subst (λ (x : State W × ℤ). IsInside x.0) (some_eq q) i)

      notify-Follows :
          (p : ℕ) (ds : List ℕ) (s t : State W)
          → All (λ d. has d all ≡ true) ds
          → IsInside s
          → notify post_fn p ds s ≡ some t
          → (notify other p ds s ≡ some t) × IsInside t
      unfolding notify
      notify-Follows p [] s t m i q = (q, subst IsInside (some_eq q) i)
      notify-Follows p (d ∷ ds) s t m i q =
          let s1 = satisfy d s in
          let c = trigger (s1.ops p) (s1.ops d).dep_left in
          let (r, one, rest) =
            >>=-eq-some (if c then post_fn d s1 else some (s1, ffsuccess))
              (λ (r : State W × ℤ). notify post_fn p ds r.0) q in
          let (one', i1) = branch c d s1 r m.0 (satisfy-IsInside d s i) one in
          let (rest', i2) = notify-Follows p ds r.0 t m.1 i1 rest in
          (ap (λ o. o >>= λ (r : State W × ℤ). notify other p ds r.0) one' ∙ rest', i2)

      complete_by-Follows :
          (p : ℕ) (s : State W) (r : State W × ℤ)
          → has p all ≡ true
          → IsInside s
          → complete_by post_fn p s ≡ some r
          → (complete_by other p s ≡ some r) × IsInside r.0
      unfolding complete_by
      complete_by-Follows p s r m i q =
          let (t, loop, done) =
            >>=-eq-some (notify post_fn p (dependents (s.ops p)) (finish p s))
              (λ (t : State W). some (t, ffsuccess)) q in
          let (loop', i1) =
            notify-Follows p (dependents (s.ops p)) (finish p s) t (i.closed p m)
              (finish-IsInside p s i) loop in
          (
            ap (λ o. o >>= λ (t : State W). some (t, ffsuccess)) loop' ∙ done,
            subst (λ (x : State W × ℤ). IsInside x.0) (some_eq done) i1,
          )

    module _ (immediate : Immediate) where
      launched :
          (p : ℕ) (s : State W)
          → has p all ≡ true
          → IsInside s
          → ((impl_post (s.ops p).type p s.env).1 ≡ ffcompleted)
            × Good (impl_post (s.ops p).type p s.env).0
      launched p s m i =
          subst (λ ty. ((impl_post ty p s.env).1 ≡ ffcompleted) × Good (impl_post ty p s.env).0)
            (sym (i.typed p m)) (immediate p m s.env i.good)

      launch_same :
          (p : ℕ) (s : State W)
          → has p all ≡ true
          → IsInside s
          → launch impl_post p s ≡ launch forced p s
      unfolding launch
      launch_same p s m i = ap (λ c. ((launch forced p s).0, c)) (launched p s m i).0

      launch-IsInside :
          (p : ℕ) (s : State W) → has p all ≡ true → IsInside s → IsInside (launch forced p s).0
      unfolding launch start
      launch-IsInside p s m i =
          same-IsInside s (launch forced p s).0 (launched p s m i).1
            (λ q. ground (arith, ==→eq q p)) (λ q. ground (arith, ==→eq q p)) i

      launch_code : (p : ℕ) (s : State W) → (launch forced p s).1 ≡ ffcompleted
      unfolding launch
      launch_code p s = refl

      -- The part of `ffop_post` behind the launch.
      abbrev behind : (ℕ → State W → Option (State W × ℤ)) → ℕ → State W × ℤ → Option (State W × ℤ)
      behind post_fn p l =
          if int_eq l.1 ffcompleted
          then (complete_by post_fn p l.0 >>= λ (r : State W × ℤ). some (r.0, l.1))
          else some l

      behind-Follows :
          (fuel p : ℕ) (s : State W) (r : State W × ℤ)
          → Follows (post forced fuel) (post impl_post fuel)
          → has p all ≡ true
          → IsInside s
          → behind (post forced fuel) p (launch forced p s) ≡ some r
          → (behind (post impl_post fuel) p (launch forced p s) ≡ some r) × IsInside r.0
      unfolding launch
      behind-Follows fuel p s r follows m i q =
          let s1 = (launch forced p s).0 in
          let (r1, body, done) =
            >>=-eq-some (complete_by (post forced fuel) p s1)
              (λ (r : State W × ℤ). some (r.0, ffcompleted)) q in
          let (body', i1) =
            complete_by-Follows (post forced fuel) (post impl_post fuel) follows p s1 r1 m
              (launch-IsInside p s m i) body in
          (
            ap (λ o. o >>= λ (r : State W × ℤ). some (r.0, ffcompleted)) body' ∙ done,
            subst (λ (x : State W × ℤ). IsInside x.0) (some_eq done) i1,
          )

      -- Within the graph ffop_post does what it does when all posts complete.
      pub post-Follows : (fuel : ℕ) → Follows (post forced fuel) (post impl_post fuel)
      unfolding post
      post-Follows zero d s r m i q = cc
      post-Follows (suc fuel) d s r m i q = elim (Bool-cases (is_reposted (s.ops d))) [
        | inl again ↦
            let e = sym (post_again forced fuel d s again) ∙ q in
            (
              post_again impl_post fuel d s again ∙ e,
              subst (λ (x : State W × ℤ). IsInside x.0) (some_eq e) i,
            )
        | inr first ↦
            let (same, inside) =
              behind-Follows fuel d s r (post-Follows fuel) m i
                (sym (post-suc forced fuel d s first) ∙ q) in
            (
              post-suc impl_post fuel d s first
                  ∙ ap (behind (post impl_post fuel) d) (launch_same d s m i)
                  ∙ same,
              inside,
            )
      ]
