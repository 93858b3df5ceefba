-- ===== src/Op/Round.antt =====
-- Rounds of a schedule (src/ffop.c): what the user and the progress thread do to it, one call of
-- `ffop_post` or `ffop_complete` after another, and what holds after any number of such moves.
use fflib.Base.{
  ℕ, suc, ◌<◌, ◌≡◌, ◌⊎◌, ◌↔◌, refl, subst, sym, ◌∙◌, some_eq, true, false, Option, some, List, [],
  arith, ℤ, has, count, u32, Distinct, All,
}
use fflib.Op.Run.Step.{root-IsDue, clear-IsRun}
use fflib.Op.{
  State, post, complete, is_opt_set, dependents, ffop_dep_or, ffop_non_persistent, clear,
}
use fflib.Op.Sums.{Edges, degree, waiting-degree, waiting_none, waiting_zero}
use fflib.Op.Run.{IsRun, posts, completes, Ordered}
use fflib.Op.Run.Post.{IsHeight, Keeps, post-IsRun, complete-IsRun}

-- The operation `b` has run `v` times, and waits for all of its dependencies.
pub record IsIdle (e : Edges) (all : List ℕ) (v : ℕ) {W : Type 0} (s : State W) (b : ℕ)
    : Type 0 where
  pub version : (s.ops b).version ≡ v
  pub posted : posts b s.log ≡ v
  pub completions : completes b s.log ≡ v
  pub dep_left : (s.ops b).dep_left ≡ (s.ops b).in_dep_count
  pub in_deps : (s.ops b).in_dep_count ≡ degree e all b
  pub small : (s.ops b).in_dep_count < u32
  pub dep_and : is_opt_set (s.ops b) ffop_dep_or ≡ false
  pub persistent : is_opt_set (s.ops b) ffop_non_persistent ≡ false
  pub edges : dependents (s.ops b) ≡ e b
  pub inside : All (λ d. has d all ≡ true) (e b)

-- Between two rounds: each operation is idle.
pub record IsReady {W : Type 0} (e : Edges) (all : List ℕ) (v : ℕ) (s : State W) : Type 0 where
  pub idle : (b : ℕ) → has b all ≡ true → IsIdle e all v s b
  pub ordered : Ordered e all s.log

module _ {W : Type 0} (impl_post : ℕ → ℕ → W → W × ℤ) (e : Edges) (all : List ℕ) (fuel v : ℕ) where
  -- One move in the round `v`: the user posts a root that it has not posted in this round; the
  -- progress thread completes an operation in flight; somebody waits; the environment changes.
  pub data Move : State W → State W → Type 0 where
    posted :
        (p : ℕ) (s : State W) (r : State W × ℤ)
        → has p all ≡ true
        → (s.ops p).in_dep_count ≡ 0
        → posts p s.log ≡ v
        → post impl_post fuel p s ≡ some r
        → Move s r.0
    completed :
        (p : ℕ) (s : State W) (r : State W × ℤ)
        → has p all ≡ true
        → posts p s.log ≡ suc v
        → (s.ops p).version ≡ v
        → complete impl_post fuel p s ≡ some r
        → Move s r.0
    waited : (p : ℕ) (s : State W) → Move s (clear p s)
    changed : (w : W) (s : State W) → Move s (record s { env = w })

  pub data Reach (s : State W) : State W → Type 0 where
    here : Reach s s
    next : {t u : State W} → Reach s t → Move t u → Reach s u

module _ {W : Type 0} {e : Edges} {all : List ℕ} {v : ℕ} where
  pub IsReady-IsRun : {s : State W} → IsReady e all v s → IsRun e all [] v s
  IsReady-IsRun {s} y = record {
    ver = λ _. v;
    ordered = y.ordered;
    item = λ b m. ground (arith, y.idle b m, waiting-degree e (λ _. v) v all b (λ a _. refl));
  }

  -- When all have completed, the next round may begin.
  pub IsRun-IsReady :
      {s : State W}
      → IsRun e all [] v s
      → ((b : ℕ) → has b all ≡ true → (s.ops b).version ≡ suc v)
      → IsReady e all (suc v) s
  IsRun-IsReady {s} r done = record {
    ordered = r.ordered;
    idle = λ b m. ground (arith, r.item b m, done b m);
  }

module _ {W : Type 0} {e : Edges} {all : List ℕ} {v : ℕ} where
  Keeps-result :
      {pending : List ℕ} {m : Option (State W × ℤ)} {r : State W × ℤ}
      → Keeps e all v pending m
      → m ≡ some r
      → IsRun e all pending v r.0
  Keeps-result {pending} (r', done, run) q =
      subst (λ (x : State W × ℤ). IsRun e all pending v x.0) (some_eq (sym done ∙ q)) run

module _ {W : Type 0} {impl_post : ℕ → ℕ → W → W × ℤ} {e : Edges} {all : List ℕ} {fuel v : ℕ}
    (h : ℕ → ℕ) (distinct : Distinct all) (height : IsHeight e all h)
    (deep : (p : ℕ) → has p all ≡ true → h p < fuel) (fits : suc v < u32) where
  Move-IsRun :
      {s t : State W} → Move impl_post e all fuel v s t → IsRun e all [] v s → IsRun e all [] v t
  Move-IsRun (posted p s r m z once q) run =
      Keeps-result
        (post-IsRun impl_post h distinct height fits fuel p [] s (deep p m)
          (root-IsDue s p run m z once))
        q
  Move-IsRun (completed p s r m once fresh q) run =
      Keeps-result
        (complete-IsRun impl_post h distinct height fits fuel p s run (omega (arith, deep p m)) m
          (ground (arith, run.item p m)) once)
        q
  Move-IsRun (waited p s) run = clear-IsRun s p [] run
  Move-IsRun (changed w s) run = record { ver = run.ver; item = run.item; ordered = run.ordered }

  pub Reach-IsRun :
      {s t : State W} → Reach impl_post e all fuel v s t → IsReady e all v s → IsRun e all [] v t
  Reach-IsRun here y = IsReady-IsRun y
  Reach-IsRun (next r move) y = Move-IsRun move (Reach-IsRun r y)

  module _ {s t : State W} (ready : IsReady e all v s)
      (reach : Reach impl_post e all fuel v s t) where
    -- In a round of a graph of persistent operations with AND dependencies, after any moves of the
    -- user and the progress thread, an operation with dependencies has been posted once in the
    -- round if each of its predecessors has completed in it, and not at all otherwise.
    pub posted_iff :
        (b : ℕ)
        → has b all ≡ true
        → 0 < (t.ops b).in_dep_count
        → ((posts b t.log ≡ v) ⊎ (posts b t.log ≡ suc v))
          × ((posts b t.log ≡ suc v)
              ↔ ((a : ℕ) → has a all ≡ true → 0 < count b (e a) → (t.ops a).version ≡ suc v))
    posted_iff b m pos =
        let run = Reach-IsRun reach ready in
        let i = run.item b m in
        (
          ground (arith, i),
          (
            (λ once a ma edge. ground (arith, run.item a ma, waiting_zero e run.ver v all b a, i)),
            (λ done. ground (
              arith,
              i,
              waiting_none e run.ver v all b
                  (λ a ma edge. ground (arith, done a ma edge, run.item a ma)),
            )),
          ),
        )

    -- Happens-before: over all rounds of a graph of persistent operations with AND dependencies, at
    -- the k-th posting of an operation each of its predecessors has completed exactly k times, at
    -- every place of the log.
    pub log-Ordered : Ordered e all t.log
    log-Ordered = (Reach-IsRun reach ready).ordered

    -- Persistence: when all operations of a graph of persistent operations with AND dependencies
    -- have completed in a round, all counters of dependencies are reset and the graph is ready for
    -- the next round.
    pub round-IsReady :
        ((b : ℕ) → has b all ≡ true → (t.ops b).version ≡ suc v) → IsReady e all (suc v) t
    round-IsReady done = IsRun-IsReady (Reach-IsRun reach ready) done
