-- ===== src/Examples/Graphs.antt =====
-- src/ffop.c: three operations, 0 before 1 and 2, and 1 before 2.
use fflib.Base.{
  ℕ, ◌+◌, ◌<◌, ◌≡◌, ◌∙◌, sym, refl, true, none, some, List, [], ◌∷◌, arith, ℤ, ffcompleted,
  ffsuccess, if◌then◌else◌, ◌==◌, has, Distinct, ◌⊎◌, All, count, ◌↔◌,
}
use mathlib.Core.Option
use fflib.Op.{Op, launch, State, Event, hb, post, complete, is_opt_set, completing, entries}
use fflib.Op.Sums.{Edges, degree}
use fflib.Op.Run.{posts, Ordered}
use fflib.Op.Round.{
  IsIdle, IsReady, Reach, here, next, posted, posted_iff, log-Ordered, round-IsReady,
}
use fflib.Op.Quiet.{quiet-IsReady}
use fflib.Op.Live.{Done, post_runs_all}
use fflib.Op.Build.{add_edge, hb-IsReady, hb_overflow}
use fflib.Progress.{drain}
use fflib.Progress.Thread.{IsDone, drain-Reach}
use fflib.Op.Trigger.{complete_non_persistent}

abbrev op : (out ins : ℕ) → (ℕ → ℕ) → Op
op out ins d = record {
  type = 3;
  id = 0;
  dependent = d;
  out_dep_count = out;
  in_dep_count = ins;
  options = 2;
  sched_next = none;
  version = 0;
  dep_left = ins;
  next = none;
  completed = 0;
}

abbrev edges : Edges
edges a = if a == 0 then 1 ∷ 2 ∷ [] else if a == 1 then 2 ∷ [] else []

abbrev all : List ℕ
all = 0 ∷ 1 ∷ 2 ∷ []

abbrev diamond : State ℕ
diamond = record {
  ops = λ a.
      if a == 0
      then op 2 0 (λ i. if i == 0 then 1 else 2)
      else if a == 1
      then op 1 1 (λ _. 2)
      else op 0 2 (λ _. 0);
  opid = 3;
  env = 0;
  log = [];
}

abbrev immediate : ℕ → ℕ → ℕ → ℕ × ℤ
immediate _ _ w = (w + 1, ffcompleted)

abbrev depth : ℕ → ℕ
depth a = if a == 0 then 2 else if a == 1 then 1 else 0

diamond-IsIdle : (b : ℕ) → has b all ≡ true → IsIdle edges all 0 diamond b
unfolding is_opt_set degree entries
diamond-IsIdle b m = ground arith

diamond-IsReady : IsReady edges all 0 diamond
diamond-IsReady = record { idle = diamond-IsIdle; ordered = tt }

edges-IsHeight : (a : ℕ) → has a all ≡ true → All (λ b. depth b < depth a) (edges a)
edges-IsHeight a m = ground arith

depth-lt : (p : ℕ) → has p all ≡ true → depth p < 3
depth-lt p m = ground arith

only_root : (b : ℕ) → has b all ≡ true → degree edges all b ≡ 0 → b ≡ 0
unfolding degree
only_root b m z = ground arith

all-Distinct : Distinct all
all-Distinct = (refl, (refl, (refl, tt)))

post_runs_all_example :
    (r : State ℕ × ℤ) × (post immediate 3 0 diamond ≡ some r) × Done edges all 0 r.0
post_runs_all_example =
    post_runs_all immediate (λ ty p w. refl) depth all-Distinct edges-IsHeight (omega arith) 3
      depth-lt 0 diamond diamond-IsReady refl refl only_root

-- A binding whose operations complete later.
abbrev delayed : ℕ → ℕ → ℕ → ℕ × ℤ
delayed _ _ w = (w, ffsuccess)

root_posted : Reach delayed edges all 3 0 diamond (launch delayed 0 diamond).0
unfolding post launch is_opt_set
root_posted = next here (posted 0 diamond (launch delayed 0 diamond) refl refl refl refl)

posted_iff_example :
    let t = (launch delayed 0 diamond).0 in
    ((posts 2 t.log ≡ 0) ⊎ (posts 2 t.log ≡ 1))
    × ((posts 2 t.log ≡ 1)
        ↔ ((a : ℕ) → has a all ≡ true → 0 < count 2 (edges a) → (t.ops a).version ≡ 1))
unfolding launch
posted_iff_example =
    posted_iff depth all-Distinct edges-IsHeight depth-lt (omega arith) diamond-IsReady root_posted
      2 refl (omega arith)

log-Ordered_example : Ordered edges all (launch delayed 0 diamond).0.log
log-Ordered_example =
    log-Ordered depth all-Distinct edges-IsHeight depth-lt (omega arith) diamond-IsReady root_posted

-- The thread finds operation 0 on the ready list.
drain-Reach_example :
    (u : State ℕ) × (drain delayed 2 3 (some 0) (launch delayed 0 diamond).0 ≡ some u)
    × Reach delayed edges all 3 0 diamond u
    × All (IsDone all 0 u) (0 ∷ [])
unfolding launch
drain-Reach_example =
    drain-Reach delayed depth all-Distinct edges-IsHeight depth-lt (omega arith) diamond-IsReady 2
      (0 ∷ []) (some 0) (launch delayed 0 diamond).0 root_posted (refl, tt) ((refl, refl, refl), tt)
      (refl, refl) (omega arith)

-- The schedule after one round.
all_ran : (r : State ℕ × ℤ) × (post immediate 3 0 diamond ≡ some r) × Done edges all 0 r.0
all_ran =
    post_runs_all immediate (λ ty p w. refl) depth all-Distinct edges-IsHeight (omega arith) 3
      depth-lt 0 diamond diamond-IsReady refl refl only_root

round_done : Reach immediate edges all 3 0 diamond all_ran.0.0
round_done = next here (posted 0 diamond all_ran.0 refl refl refl all_ran.1)

round-IsReady_example : IsReady edges all 1 all_ran.0.0
round-IsReady_example =
    round-IsReady depth all-Distinct edges-IsHeight depth-lt (omega arith) diamond-IsReady
      round_done λ b m. (all_ran.2.0 b m).0

quiet-IsReady_example :
    ((b : ℕ) → has b all ≡ true → posts b all_ran.0.0.log ≡ 1) × IsReady edges all 1 all_ran.0.0
quiet-IsReady_example =
    quiet-IsReady depth edges-IsHeight 3 depth-lt immediate diamond all_ran.0.0 all-Distinct
      (omega arith) diamond-IsReady round_done (λ b m _. (all_ran.2.1.idle b m).posted)
      (λ b m. (all_ran.2.1.idle b m).posted ∙ sym (all_ran.2.1.idle b m).completions)

hb-IsReady_example :
    (t : State ℕ) × (hb 1 2 diamond ≡ some (t, ffsuccess))
    × (t.log ≡ [])
    × IsReady (add_edge edges 1 2) all 0 t
hb-IsReady_example =
    hb-IsReady 1 2 diamond all-Distinct refl refl diamond-IsReady refl (omega arith) (omega arith)

-- An operation with all ten places for dependents taken.
abbrev full : State ℕ
full = record diamond { ops = λ _. op 10 0 (λ i. i) }

hb_overflow_example : hb 0 1 full ≡ none
hb_overflow_example = hb_overflow 0 1 full (omega arith)

abbrev one_shot : State ℕ
one_shot = record diamond { ops = λ _. record (op 1 0 (λ _. 1)) { options = 10 } }

complete_non_persistent_example :
    (t : State ℕ) × (complete immediate 3 0 one_shot ≡ some (t, ffsuccess))
    × (t.log ≡ completing 0 ∷ [])
unfolding is_opt_set
complete_non_persistent_example = complete_non_persistent immediate 3 0 one_shot refl (omega arith)

-- The log of a round, oldest last: each operation is posted behind its predecessors.
round_log :
    Option.map (λ (r : State ℕ × ℤ). r.0.log) (post immediate 3 0 diamond)
    ≡ some (
        completing 2
        ∷ Event.posting 2
        ∷ completing 1
        ∷ Event.posting 1
        ∷ completing 0
        ∷ Event.posting 0
        ∷ [])
unfolding post
round_log = refl
