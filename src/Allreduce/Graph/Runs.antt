-- ===== src/Allreduce/Graph/Runs.antt =====
-- Rounds of the schedule that `ffallreduce` in src/colls/ffallreduce.c builds.
use fflib.Base.{ℕ, suc, ◌+◌, ◌*◌, ◌<◌, ◌≡◌, ◌∙◌, sym, subst, true, List, [], arith, ℤ, has}
use fflib.Base.{◌^◌, ◌≤◌, Option, some, some_eq}
use fflib.Gcomp.Operator.{Operator, Operators, get}
use fflib.Op.{State, max_deps}
use fflib.Op.Run.{Ordered, posts, completes}
use fflib.Op.Round.{IsReady, Reach, Reach-IsRun, log-Ordered}
use fflib.Op.Quiet.{quiet-IsReady}
use fflib.Allreduce.{Blocks, Site, allreduce, ceil_log2}
use fflib.Allreduce.Graph.Built.{all_ops}
use fflib.Allreduce.Graph.Begin.{three_ops, IsFresh}
use fflib.Allreduce.Graph.Whole.{peer_count, planned, IsPlanned}
use fflib.Allreduce.Graph.Prepared.{scheduled, find_all}
use fflib.Allreduce.Graph.Ready.{allreduce-IsPlanned}

abbrev pub scheduled_ops : Blocks → ℕ → List ℕ
scheduled_ops b n = all_ops b n 0 (three_ops b)

-- More than the longest path of the schedule.
abbrev pub depth : ℕ → ℕ
depth n = 2 * n + 3

module _ {W : Type 0} (impl_post : ℕ → ℕ → W → W × ℤ) (b : Blocks) (n : ℕ) (s t : State W)
    (plan : IsPlanned b n s)
    (reach : Reach impl_post (planned b n) (scheduled_ops b n) (depth n) 0 s t) where
  deep : (p : ℕ) → has p (scheduled_ops b n) ≡ true → plan.height p < depth n
  deep p m = omega (arith, plan.bounded p)

  planned-Ordered : Ordered (planned b n) (scheduled_ops b n) t.log
  planned-Ordered =
      log-Ordered plan.height plan.distinct plan.falls deep (omega arith) plan.ready reach

  roots :
      posts b.begin_op t.log ≡ 1
      → (q : ℕ) → has q (scheduled_ops b n) ≡ true
      → (t.ops q).in_dep_count ≡ 0
      → posts q t.log ≡ 1
  roots once q m none_in =
      let run =
        Reach-IsRun plan.height plan.distinct plan.falls deep (omega arith) reach plan.ready in
      subst (λ x. posts x t.log ≡ 1) (sym (plan.only q m (sym (run.item q m).in_deps ∙ none_in)))
        once

  planned-completes :
      posts b.begin_op t.log ≡ 1
      → ((q : ℕ) → has q (scheduled_ops b n) ≡ true → posts q t.log ≡ completes q t.log)
      → ((q : ℕ) → has q (scheduled_ops b n) ≡ true → posts q t.log ≡ 1)
        × IsReady (planned b n) (scheduled_ops b n) 1 t
  planned-completes once balanced =
      quiet-IsReady plan.height plan.falls (depth n) deep impl_post s t plan.distinct (omega arith)
        plan.ready reach (roots once) balanced

module _ {W : Type 0} (b : Blocks) (operators : Operators) (handle : ℕ → ℕ) (csize rank k : ℕ)
    (sndbuff rcvbuff : ℕ) (count tag operator datatype : ℤ) (options : ℕ) (y y3 : Site W)
    (buffers : find_all b handle sndbuff rcvbuff count datatype options
        (ceil_log2 (suc k) csize 1 0)
        (scheduled b y)
      ≡ some y3)
    (known : Option Operator × ℤ) (found : get operator operators ≡ some known)
    (fits : csize ≤ 2 ^ k) (fresh : IsFresh b (peer_count csize rank k))
    (quiet : y.system.state.log ≡ []) (some_peers : 0 < peer_count csize rank k)
    (few : peer_count csize rank k < max_deps) where
  returned-IsPlanned :
      (r : Site W × ℕ × ℤ)
      → allreduce b operators handle csize rank
          (suc k)
          sndbuff
          rcvbuff
          count
          tag
          operator
          datatype
          options
          y
        ≡ some r
      → IsPlanned b (peer_count csize rank k) r.0.system.state
  returned-IsPlanned r returns =
      let (z, done, plan) =
        allreduce-IsPlanned b operators handle csize rank k sndbuff rcvbuff count tag operator
          datatype options y y3 buffers known found fits fresh quiet some_peers few in
      subst (λ (r : Site W × ℕ × ℤ). IsPlanned b (peer_count csize rank k) r.0.system.state)
        (some_eq (sym done ∙ returns)) plan

  module _ (impl_post : ℕ → ℕ → W → W × ℤ) (r : Site W × ℕ × ℤ) (t : State W)
      (returns : allreduce b operators handle csize rank
          (suc k)
          sndbuff
          rcvbuff
          count
          tag
          operator
          datatype
          options
          y
        ≡ some r)
      (reach : Reach impl_post
        (planned b (peer_count csize rank k))
        (scheduled_ops b (peer_count csize rank k))
        (depth (peer_count csize rank k))
        0
        r.0.system.state
        t) where
    pub allreduce-Ordered :
        Ordered
          (planned b (peer_count csize rank k))
          (scheduled_ops b (peer_count csize rank k))
          t.log
    allreduce-Ordered =
        planned-Ordered impl_post b (peer_count csize rank k) r.0.system.state t
          (returned-IsPlanned r returns) reach

    -- ffallreduce, called when nothing is posted yet, with buffers that can be made or found, fresh
    -- blocks, an operator that ffop_gcomp_operator_get answers for, and at most 2^k ranks of which
    -- between one and nine are peers of this rank, has returned with fuel for k+1 masks, and the
    -- first round of its schedule has begun, with fuel for paths of twice the number of peers and
    -- two. Whatever the functions of the binding answer, and in any order in which the posted
    -- operations complete: once the begin of the schedule has been posted and nothing is in flight
    -- any more, each operation of the schedule has been posted exactly once, at its posting all
    -- those that the plan puts before it had completed, and the schedule is ready for its next
    -- round.
    pub allreduce-completes :
        posts b.begin_op t.log ≡ 1
        → ((q : ℕ)
            → has q (scheduled_ops b (peer_count csize rank k)) ≡ true
            → posts q t.log ≡ completes q t.log)
        → ((q : ℕ) → has q (scheduled_ops b (peer_count csize rank k)) ≡ true → posts q t.log ≡ 1)
          × Ordered
              (planned b (peer_count csize rank k))
              (scheduled_ops b (peer_count csize rank k))
              t.log
          × IsReady
              (planned b (peer_count csize rank k))
              (scheduled_ops b (peer_count csize rank k))
              1
              t
    allreduce-completes once balanced =
        let (posted, ready) =
          planned-completes impl_post b (peer_count csize rank k) r.0.system.state t
            (returned-IsPlanned r returns) reach once balanced in
        (posted, allreduce-Ordered, ready)
