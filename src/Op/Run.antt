-- ===== src/Op/Run.antt =====
-- One round of a graph of persistent operations with AND dependencies: between the posting of
-- its roots and the completion of all (src/ffop.c, `ffop_complete` and `ffop_post`).
pub mod Step
pub mod Post
use fflib.Base.{
  ℕ, suc, ◌+◌, ◌≤◌, ◌<◌, ◌≡◌, ◌⊎◌, true, false, List, [], ◌∷◌, ◌==◌, if◌then◌else◌, has, count, u32,
  All,
}
use fflib.Op.{
  Op, Event, posting, completing, State, dependents, is_opt_set, start, ffop_dep_or,
  ffop_non_persistent,
}
use fflib.Op.Sums.{Edges, degree, waiting}

abbrev pub posts : ℕ → List Event → ℕ
posts b [] = 0
posts b (posting a ∷ l) = (if a == b then 1 else 0) + posts b l
posts b (completing a ∷ l) = posts b l

abbrev pub completes : ℕ → List Event → ℕ
completes b [] = 0
completes b (posting a ∷ l) = completes b l
completes b (completing a ∷ l) = (if a == b then 1 else 0) + completes b l

-- At the k-th posting of an operation each of its predecessors has completed k times.
abbrev pub Ordered : Edges → List ℕ → List Event → Type 0
Ordered e all [] = Unit {0}
Ordered e all (posting b ∷ l) =
    ((a : ℕ) → has a all ≡ true → 0 < count b (e a) → completes a l ≡ suc (posts b l))
    × Ordered e all l
Ordered e all (completing b ∷ l) = Ordered e all l

-- `ver` is the version of each operation: `v` before its completion in this round, `v + 1` after.
-- `pending` holds the dependents whose counter a running `ffop_complete` has yet to decrement.
pub record Item (e : Edges) (all pending : List ℕ) (v : ℕ) (ver : ℕ → ℕ) (log : List Event)
    (op : Op) (b : ℕ) : Type 0 where
  pub round : (ver b ≡ v) ⊎ (ver b ≡ suc v)
  pub version : op.version ≡ ver b
  pub completions : completes b log ≡ ver b
  pub open_deps : ver b ≡ v → op.dep_left ≡ count b pending + waiting e ver v all b
  pub reset_deps : ver b ≡ suc v → op.dep_left ≡ op.in_dep_count
  pub none_left : ver b ≡ suc v → count b pending + waiting e ver v all b ≡ 0
  pub in_deps : op.in_dep_count ≡ degree e all b
  pub bounded : count b pending + waiting e ver v all b ≤ op.in_dep_count
  pub small : op.in_dep_count < u32
  pub dep_and : is_opt_set op ffop_dep_or ≡ false
  pub persistent : is_opt_set op ffop_non_persistent ≡ false
  pub postings :
      0 < op.in_dep_count
      → posts b log ≡ v + (if count b pending + waiting e ver v all b == 0 then 1 else 0)
  pub root : op.in_dep_count ≡ 0 → ((posts b log ≡ v) × (ver b ≡ v)) ⊎ (posts b log ≡ suc v)
  pub edges : dependents op ≡ e b
  pub inside : All (λ d. has d all ≡ true) (e b)

pub record IsRun {W : Type 0} (e : Edges) (all pending : List ℕ) (v : ℕ) (s : State W)
    : Type 0 where
  pub ver : ℕ → ℕ
  pub item : (b : ℕ) → has b all ≡ true → Item e all pending v ver s.log (s.ops b) b
  pub ordered : Ordered e all s.log

-- The operation `d` has no dependency left and has not run in this round: it may be posted.
pub record IsDue {W : Type 0} (e : Edges) (all pending : List ℕ) (v : ℕ) (s : State W) (d : ℕ)
    : Type 0 where
  pub run : IsRun e all pending v (start d s)
  pub member : has d all ≡ true
  pub fresh : run.ver d ≡ v
  pub none_left : count d pending + waiting e run.ver v all d ≡ 0
  pub once : posts d (start d s).log ≡ suc v
