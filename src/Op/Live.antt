-- ===== src/Op/Live.antt =====
-- Schedules of operations that complete when they are posted (src/ffop.c): FFNOP and FFCOMP.
use fflib.Base.{
  ℕ, zero, suc, ◌+◌, ◌≤◌, ◌<◌, ◌≡◌, inl, inr, sym, ◌∙◌, subst, Bool, true, false, Option, some,
  List, [], ◌∷◌, arith, ℤ, has, u32, Distinct, int_eq, ffcompleted, ffsuccess, Bool-cases, ◌>>=◌,
  if◌then◌else◌, ==-refl, >>=-eq-some, some_eq,
}
use fflib.Op.{
  State, start, finish, satisfy, launch, notify, complete_by, post, is_reposted, dependents,
}
use fflib.Op.Sums.{Edges, degree}
use fflib.Op.Run.{IsRun, posts, completes}
use fflib.Op.Run.Step.{root-IsDue}
use fflib.Op.Run.Post.{IsHeight, post-IsRun, post-suc}
use fflib.Op.Quiet.{settled-done}
use fflib.Op.Round.{IsReady, IsReady-IsRun, IsRun-IsReady}

module _ {W : Type 0} (b : ℕ) where
  -- From `s` to `t` the operation `b` completed as often as it was posted, and its completion flag
  -- is up if it was posted at all.
  pub record Settles (s t : State W) : Type 0 where
    pub more : posts b s.log ≤ posts b t.log
    pub balance : posts b t.log + completes b s.log ≡ completes b t.log + posts b s.log
    pub raised : posts b s.log < posts b t.log → (t.ops b).completed ≡ 1
    pub same : posts b s.log ≡ posts b t.log → (t.ops b).completed ≡ (s.ops b).completed

  Settles-trans : (s t u : State W) → Settles s t → Settles t u → Settles s u
  Settles-trans s t u x y = ground arith

  Settles-refl : (s : State W) → Settles s s
  Settles-refl s = ground arith

  satisfy-Settles : (d : ℕ) (s : State W) → Settles s (satisfy d s)
  unfolding satisfy
  satisfy-Settles d s = ground arith

  launch-finish-Settles :
      (impl_post : ℕ → ℕ → W → W × ℤ) (p : ℕ) (s : State W)
      → Settles s (finish p (launch impl_post p s).0)
  unfolding launch finish start
  launch-finish-Settles impl_post p s = ground (arith, ==-refl p)

  module _ (post_fn : ℕ → State W → Option (State W × ℤ))
      (settles : (d : ℕ) (s : State W) (r : State W × ℤ)
        → post_fn d s ≡ some r
        → Settles s r.0) where
    branch-Settles :
        (c : Bool) (d : ℕ) (s : State W) (r : State W × ℤ)
        → (if c then post_fn d s else some (s, ffsuccess)) ≡ some r
        → Settles s r.0
    branch-Settles true d s r q = settles d s r q
    branch-Settles false d s r q =
        subst (λ (x : State W × ℤ). Settles s x.0) (some_eq q) (Settles-refl s)

    notify-Settles :
        (p : ℕ) (ds : List ℕ) (s t : State W) → notify post_fn p ds s ≡ some t → Settles s t
    unfolding notify
    notify-Settles p [] s t q = subst (Settles s) (some_eq q) (Settles-refl s)
    notify-Settles p (d ∷ ds) s t q =
        let (r, step, rest) = >>=-eq-some _ (λ (r : State W × ℤ). notify post_fn p ds r.0) q in
        Settles-trans s (satisfy d s) t (satisfy-Settles d s) (
          Settles-trans (satisfy d s) r.0 t (branch-Settles _ d (satisfy d s) r step)
            (notify-Settles p ds r.0 t rest))

    complete_by-Settles :
        (p : ℕ) (s : State W) (r : State W × ℤ)
        → complete_by post_fn p s ≡ some r
        → Settles (finish p s) r.0
    unfolding complete_by
    complete_by-Settles p s r q =
        let (t, loop, done) =
          >>=-eq-some (notify post_fn p (dependents (s.ops p)) (finish p s))
            (λ (t : State W). some (t, ffsuccess)) q in
        subst (λ (x : State W × ℤ). Settles (finish p s) x.0) (some_eq done)
          (notify-Settles p (dependents (s.ops p)) (finish p s) t loop)

module _ {W : Type 0} (impl_post : ℕ → ℕ → W → W × ℤ)
    (at_once : (ty p : ℕ) (w : W) → (impl_post ty p w).1 ≡ ffcompleted) where
  launch_code : (p : ℕ) (s : State W) → int_eq (launch impl_post p s).1 ffcompleted ≡ true
  unfolding launch
  launch_code p s = rw (at_once (s.ops p).type p s.env)

  post_first :
      (fuel p : ℕ) (s : State W)
      → is_reposted (s.ops p) ≡ false
      → post impl_post (suc fuel) p s ≡ (
          complete_by (post impl_post fuel) p (launch impl_post p s).0 >>= λ r.
          some (r.0, (launch impl_post p s).1))
  post_first fuel p s first = post-suc impl_post fuel p s first ∙ rw (launch_code p s)

  post-after :
      (b fuel p : ℕ) (s : State W) (r : State W × ℤ)
      → ((d : ℕ) (s : State W) (r : State W × ℤ)
          → post impl_post fuel d s ≡ some r
          → Settles b s r.0)
      → is_reposted (s.ops p) ≡ false
      → post impl_post (suc fuel) p s ≡ some r
      → Settles b (finish p (launch impl_post p s).0) r.0
  post-after b fuel p s r settles first q =
      let s1 = (launch impl_post p s).0 in
      let (r1, body, done) =
        >>=-eq-some (complete_by (post impl_post fuel) p s1)
          (λ (r : State W × ℤ). some (r.0, (launch impl_post p s).1))
          (sym (post_first fuel p s first) ∙ q) in
      subst (λ (x : State W × ℤ). Settles b (finish p s1) x.0) (some_eq done)
        (complete_by-Settles b (post impl_post fuel) settles p s1 r1 body)

  post-Settles :
      (b fuel p : ℕ) (s : State W) (r : State W × ℤ)
      → post impl_post fuel p s ≡ some r
      → Settles b s r.0
  unfolding post
  post-Settles b zero p s r q = cc
  post-Settles b (suc fuel) p s r q = elim (Bool-cases (is_reposted (s.ops p))) [
    | inl again ↦
        subst (λ (x : State W × ℤ). Settles b s x.0) (some_eq (rw again at q)) (Settles-refl b s)
    | inr first ↦
        Settles-trans b s (finish p (launch impl_post p s).0) r.0
          (launch-finish-Settles b impl_post p s)
          (post-after b fuel p s r (post-Settles b fuel) first q)
  ]

  launch-finish-posts :
      (p : ℕ) (s : State W) → posts p (finish p (launch impl_post p s).0).log ≡ suc (posts p s.log)
  unfolding launch finish start
  launch-finish-posts p s = ground (arith, ==-refl p)

  post-posts :
      (fuel p : ℕ) (s : State W) (r : State W × ℤ)
      → is_reposted (s.ops p) ≡ false
      → post impl_post fuel p s ≡ some r
      → posts p s.log < posts p r.0.log
  unfolding post
  post-posts zero p s r first q = cc
  post-posts (suc fuel) p s r first q =
      let after = post-after p fuel p s r (post-Settles p fuel) first q in
      omega (arith, launch-finish-posts p s, after.more)

-- What a posted schedule leaves behind: each operation has run, and the next round may begin.
abbrev pub Done : {W : Type 0} → Edges → List ℕ → ℕ → State W → Type 0
Done e all v t =
    ((b : ℕ) → has b all ≡ true → ((t.ops b).version ≡ suc v) × ((t.ops b).completed ≡ 1))
    × IsReady e all (suc v) t

module _ {W : Type 0} (impl_post : ℕ → ℕ → W → W × ℤ)
    (at_once : (ty p : ℕ) (w : W) → (impl_post ty p w).1 ≡ ffcompleted) {e : Edges} {all : List ℕ}
    {v : ℕ} (h : ℕ → ℕ) (distinct : Distinct all) (height : IsHeight e all h) (fits : suc v < u32)
    (fuel : ℕ) (deep : (p : ℕ) → has p all ≡ true → h p < fuel) where
  module _ (root : ℕ) (s : State W) (ready : IsReady e all v s) (m : has root all ≡ true)
      (z : (s.ops root).in_dep_count ≡ 0)
      (only : (b : ℕ) → has b all ≡ true → degree e all b ≡ 0 → b ≡ root) where
    root-first : is_reposted (s.ops root) ≡ false
    root-first = ground (arith, (ready.idle root m).persistent)

    root-posted :
        (r : State W × ℤ)
        → post impl_post fuel root s ≡ some r
        → IsRun e all [] v r.0
        → (b : ℕ) → has b all ≡ true
        → (r.0.ops b).in_dep_count ≡ 0
        → posts b r.0.log ≡ suc v
    root-posted r done run b mb none_in =
        let same : b ≡ root = only b mb (omega (arith, (run.item b mb).in_deps)) in
        let i = run.item root m in
        let d = post-posts impl_post at_once fuel root s r root-first done in
        subst (λ x. posts x r.0.log ≡ suc v) (sym same)
          (ground (
            arith,
            (ready.idle root m).posted,
            i,
            d,
            subst (λ x. (r.0.ops x).in_dep_count ≡ 0) same none_in,
          ))

    finished-Done :
        (r : State W × ℤ)
        → post impl_post fuel root s ≡ some r
        → IsRun e all [] v r.0
        → Done e all v r.0
    finished-Done r done run =
        let settled = λ (b : ℕ). post-Settles impl_post at_once b fuel root s r done in
        let moved = λ (b : ℕ) (mb : has b all ≡ true).
          settled-done h height fuel deep r.0 run
            (λ c mc.
              omega (
                arith,
                (settled c).balance,
                (ready.idle c mc).posted,
                (ready.idle c mc).completions,
              ))
            (root-posted r done run) fuel b mb (omega arith) in
        let versions = λ (b : ℕ) (mb : has b all ≡ true). (run.item b mb).version ∙ moved b mb in
        (
          λ b mb. (
            versions b mb,
            (settled b).raised
                (ground (arith, (ready.idle b mb).posted, run.item b mb, moved b mb, settled b)),
          ),
          IsRun-IsReady run versions,
        )

    -- A graph without cycles of persistent operations with AND dependencies, ready for a round,
    -- with one root, all of whose operations complete when they are posted: with fuel above its
    -- height, posting the root returns, each operation has then run once more and has its
    -- completion flag up, and the graph is ready for the next round.
    pub post_runs_all : (r : State W × ℤ) × (post impl_post fuel root s ≡ some r) × Done e all v r.0
    post_runs_all =
        let (r, done, run) =
          post-IsRun impl_post h distinct height fits fuel root [] s (deep root m)
            (root-IsDue s root (IsReady-IsRun ready) m z (ready.idle root m).posted) in
        (r, done, finished-Done r done run)
