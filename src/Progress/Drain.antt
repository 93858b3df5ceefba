-- ===== src/Progress/Drain.antt =====
-- The loop of `progress_thread` of src/ffprogress.c over the completed operations.
use fflib.Base.{
  ℕ, zero, suc, ◌<◌, ◌≡◌, refl, sym, ap, ◌∙◌, Bool, true, false, Option, some, List, [], ◌∷◌, arith,
  ℤ, ffsuccess, ffcompleted, ffinvalid_arg, int_eq, length, Follows, Follows-same, if◌then◌else◌,
  ◌>>=◌, Bool-cases, Option-cases, >>=-eq-some, some_eq, inl, inr,
}
use fflib.Op.{
  State, post, complete, complete_by, notify, finish, satisfy, launch, start, dependents,
  is_reposted, trigger,
}
use fflib.Op.Run.Post.{post-suc}
use fflib.Progress.{drain}

module _ {W : Type 0} where
  -- The ready list leads through the operations of both states alike.
  abbrev pub IsLinkedAs : State W → State W → Type 0
  IsLinkedAs s t = (q : ℕ) → (t.ops q).next ≡ (s.ops q).next

  module _ (post_fn : ℕ → State W → Option (State W × ℤ))
      (keeps : (d : ℕ) (s : State W) (r : State W × ℤ)
        → post_fn d s ≡ some r
        → IsLinkedAs s r.0) where
    called :
        (d : ℕ) (b : Bool) (s : State W) (r : State W × ℤ)
        → (if b then post_fn d s else some (s, ffsuccess)) ≡ some r
        → IsLinkedAs s r.0
    called d true s r e = keeps d s r e
    called d false s r e = λ q. ap (λ x. (x.0.ops q).next) (sym (some_eq e))

    notify-IsLinkedAs :
        (p : ℕ) (ds : List ℕ) (s t : State W) → notify post_fn p ds s ≡ some t → IsLinkedAs s t
    unfolding notify satisfy
    notify-IsLinkedAs p [] s t e = λ q. ap (λ x. (x.ops q).next) (sym (some_eq e))
    notify-IsLinkedAs p (d ∷ ds) s t e =
        let s1 = satisfy d s in
        let (r, one, rest) =
          >>=-eq-some
            (if trigger (s1.ops p) (s1.ops d).dep_left then post_fn d s1 else some (s1, ffsuccess))
            (λ r. notify post_fn p ds r.0) e in
        λ q. notify-IsLinkedAs p ds r.0 t rest q ∙ called d _ s1 r one q ∙ ground arith

    complete_by-IsLinkedAs :
        (p : ℕ) (s : State W) (r : State W × ℤ)
        → complete_by post_fn p s ≡ some r
        → IsLinkedAs s r.0
    unfolding complete_by finish
    complete_by-IsLinkedAs p s r e =
        let (t, one, rest) =
          >>=-eq-some (notify post_fn p (dependents (s.ops p)) (finish p s))
            (λ s'. some (s', ffsuccess)) e in
        λ q.
          ap (λ x. (x.0.ops q).next) (sym (some_eq rest))
          ∙ notify-IsLinkedAs p (dependents (s.ops p)) (finish p s) t one q
          ∙ ground arith

    settled :
        (b : Bool) (p : ℕ) (s : State W) (code : ℤ) (r : State W × ℤ)
        → (if b then (complete_by post_fn p s >>= λ x. some (x.0, code)) else some (s, code))
          ≡ some r
        → IsLinkedAs s r.0
    settled true p s code r e =
        let (x, one, rest) = >>=-eq-some (complete_by post_fn p s) (λ x. some (x.0, code)) e in
        λ q. ap (λ y. (y.0.ops q).next) (sym (some_eq rest)) ∙ complete_by-IsLinkedAs p s x one q
    settled false p s code r e = λ q. ap (λ x. (x.0.ops q).next) (sym (some_eq e))

module _ {W : Type 0} (impl_post : ℕ → ℕ → W → W × ℤ) where
  launch-IsLinkedAs : (p : ℕ) (s : State W) → IsLinkedAs s (launch impl_post p s).0
  unfolding launch start
  launch-IsLinkedAs p s = λ q. ground arith

  post_again :
      (fuel p : ℕ) (s : State W)
      → is_reposted (s.ops p) ≡ true
      → post impl_post (suc fuel) p s ≡ some (s, ffinvalid_arg)
  unfolding post
  post_again fuel p s h = rw h refl

  no_post :
      (p : ℕ) (s : State W) (r : State W × ℤ) → post impl_post 0 p s ≡ some r → IsLinkedAs s r.0
  unfolding post
  no_post p s r e = cc

  post-IsLinkedAs :
      (fuel p : ℕ) (s : State W) (r : State W × ℤ)
      → post impl_post fuel p s ≡ some r
      → IsLinkedAs s r.0
  post-IsLinkedAs zero p s r e = no_post p s r e
  post-IsLinkedAs (suc fuel) p s r e =
      let l = launch impl_post p s in
      elim (Bool-cases (is_reposted (s.ops p))) [
        | inl again ↦ λ q. ap (λ x. (x.0.ops q).next) (some_eq (sym e ∙ post_again fuel p s again))
        | inr first ↦ λ q.
            settled (post impl_post fuel) (post-IsLinkedAs fuel) (int_eq l.1 ffcompleted) p l.0 l.1
              r (sym (post-suc impl_post fuel p s first) ∙ e) q
            ∙ launch-IsLinkedAs p s q
      ]

  -- The operations `p` of a list completed one after the other.
  abbrev pub complete_all : ℕ → List ℕ → State W → Option (State W)
  complete_all fuel [] s = some s
  complete_all fuel (p ∷ ps) s = complete impl_post fuel p s >>= λ r. complete_all fuel ps r.0

  complete-IsLinkedAs :
      (fuel p : ℕ) (s : State W) (r : State W × ℤ)
      → complete impl_post fuel p s ≡ some r
      → IsLinkedAs s r.0
  unfolding complete
  complete-IsLinkedAs fuel p s r e =
      complete_by-IsLinkedAs (post impl_post fuel) (post-IsLinkedAs fuel) p s r e

  -- The loop of the progress thread over a ready list of n operations completes each of them once,
  -- in the order of the list, although it reads the link of an operation after its completion, and
  -- ends within n + 1 rounds unless a completion runs out of fuel.
  pub drain-complete_all :
      (rounds fuel : ℕ) (ps : List ℕ) (head : Option ℕ) (s : State W)
      → Follows (λ q. (s.ops q).next) head ps
      → length ps < rounds
      → drain impl_post rounds fuel head s ≡ complete_all fuel ps s
  unfolding drain
  drain-complete_all zero fuel ps head s f lt = absurd (omega arith)
  drain-complete_all (suc rounds) fuel [] head s f lt = rw f refl
  drain-complete_all (suc rounds) fuel (p ∷ ps) head s f lt =
      rw f.0 (elim (Option-cases (complete impl_post fuel p s)) [
        | inl e ↦ rw e refl
        | inr (r, e) ↦
            let same = complete-IsLinkedAs fuel p s r e in
            rw (e, same p)
              (drain-complete_all rounds fuel ps (s.ops p).next r.0
                (Follows-same (λ q. (s.ops q).next) (λ q. (r.0.ops q).next) (s.ops p).next ps
                  (λ x h. same x) f.1)
                (omega arith))
      ])
