-- ===== src/Examples/Plans.antt =====
-- src/colls/ffallreduce.c: the graphs of the schedules of two ranks, and of more ranks than a begin
-- has dependents.
use fflib.Base.{ℕ, ◌≡◌, refl, Option, none, some, arith, pos, ffsuccess}
use fflib.Op.Round.{IsReady, Reach, here, next, posted}
use fflib.Gcomp.Operator.{get}
use fflib.Buffer.{ffint32}
use fflib.Schedule.{add_op}
use fflib.Allreduce.{Site, allreduce, make_tmpbuffs, find_buffers, ceil_log2}
use fflib.Allreduce.Rounds.{peers}
use fflib.Allreduce.Graph.Begin.{IsFresh}
use fflib.Allreduce.Graph.Whole.{peer_count, planned, IsPlanned}
use fflib.Allreduce.Graph.Ready.{opening, loop, allreduce-IsPlanned, allreduce_overflow}
use fflib.Allreduce.Graph.Prepared.{scheduled, find_all}
use fflib.Allreduce.Graph.Runs.{depth, scheduled_ops, allreduce-completes}
use fflib.Base.{[], ◌∷◌, ◌+◌, sym, ◌∙◌, ℤ, has, true, ffcompleted}
use fflib.Op.{State, post}
use fflib.Op.Live.{Done, post_runs_all}
use fflib.Op.Run.{Ordered, posts}
use fflib.Examples.Reductions.{blocks, operators, no_operator, site}

-- The buffers: of the user, or of the call.
abbrev pick : Option (Site ℕ) → Site ℕ
pick none = site
pick (some y) = y

abbrev provided : Site ℕ
provided = pick (
    find_all blocks (λ p. p) 800 900 (pos 10) ffint32 128 (ceil_log2 2 2 1 0)
      (scheduled blocks site))

provided_lem :
    find_all blocks
      (λ p. p)
      800
      900
      (pos 10)
      ffint32
      128
      (ceil_log2 2 2 1 0)
      (scheduled blocks site)
    ≡ some provided
unfolding make_tmpbuffs find_buffers ceil_log2 fflib.Buffer.create fflib.Schedule.schedule_create
provided_lem = refl

abbrev made : Site ℕ
made = pick (
    find_all blocks (λ p. p) 800 900 (pos 10) ffint32 0 (ceil_log2 11 1024 1 0)
      (scheduled blocks site))

made_lem :
    find_all blocks
      (λ p. p)
      800
      900
      (pos 10)
      ffint32
      0
      (ceil_log2 11 1024 1 0)
      (scheduled blocks site)
    ≡ some made
unfolding make_tmpbuffs find_buffers ceil_log2 fflib.Buffer.create fflib.Schedule.schedule_create
made_lem = refl

known : get (pos 0) operators ≡ some (some no_operator, ffsuccess)
unfolding get
known = refl

count_two : peer_count 2 1 1 ≡ 1
unfolding peers
count_two = refl

blocks-IsFresh_few : (n : ℕ) → n ≡ 1 → IsFresh blocks n
blocks-IsFresh_few n e = rw e (λ a. ground arith)

planned_two :
    (z : Site ℕ) × (allreduce blocks operators
        (λ p. p)
        2
        1
        2
        800
        900
        (pos 10)
        (pos 7)
        (pos 0)
        ffint32
        128
        site
      ≡ some (z, 1, ffsuccess))
    × IsPlanned blocks (peer_count 2 1 1) z.system.state
planned_two =
    allreduce-IsPlanned blocks operators (λ p. p) 2 1 1 800 900 (pos 10) (pos 7) (pos 0) ffint32 128
      site provided provided_lem (some no_operator, ffsuccess) known (omega arith)
      (blocks-IsFresh_few (peer_count 2 1 1) count_two) refl (omega (arith, count_two))
      (omega (arith, count_two))

allreduce-IsPlanned_example :
    (z : Site ℕ) × (allreduce blocks operators
        (λ p. p)
        2
        1
        2
        800
        900
        (pos 10)
        (pos 7)
        (pos 0)
        ffint32
        128
        site
      ≡ some (z, 1, ffsuccess))
    × IsPlanned blocks (peer_count 2 1 1) z.system.state
allreduce-IsPlanned_example =
    allreduce-IsPlanned blocks operators (λ p. p) 2 1 1 800 900 (pos 10) (pos 7) (pos 0) ffint32 128
      site provided provided_lem (some no_operator, ffsuccess) known (omega arith)
      (blocks-IsFresh_few (peer_count 2 1 1) count_two) refl (omega (arith, count_two))
      (omega (arith, count_two))

abbrev immediate : ℕ → ℕ → ℕ → ℕ × ℤ
immediate _ _ w = (w + 1, ffcompleted)

-- The schedule in a round whose operations complete when they are posted.
ran :
    (r : State ℕ × ℤ) × (post immediate (depth (peer_count 2 1 1)) 2 planned_two.0.system.state
      ≡ some r)
    × Done (planned blocks (peer_count 2 1 1)) (scheduled_ops blocks (peer_count 2 1 1)) 0 r.0
ran =
    let (z, _, plan) = planned_two in
    post_runs_all immediate (λ ty p w. refl) plan.height plan.distinct plan.falls (omega arith)
      (depth (peer_count 2 1 1)) (λ p m. omega (arith, plan.bounded p)) 2 z.system.state plan.ready
      plan.has_begin ((plan.ready.idle 2 plan.has_begin).in_deps ∙ plan.source) plan.only

ran-Reach :
    Reach immediate
      (planned blocks (peer_count 2 1 1))
      (scheduled_ops blocks (peer_count 2 1 1))
      (depth (peer_count 2 1 1))
      0
      planned_two.0.system.state
      ran.0.0
ran-Reach =
    let (z, _, plan) = planned_two in
    next here (
      posted 2 z.system.state ran.0 plan.has_begin
        ((plan.ready.idle 2 plan.has_begin).in_deps ∙ plan.source)
        (plan.ready.idle 2 plan.has_begin).posted ran.1)

allreduce-completes_example :
    ((q : ℕ) → has q (scheduled_ops blocks (peer_count 2 1 1)) ≡ true → posts q ran.0.0.log ≡ 1)
    × Ordered
        (planned blocks (peer_count 2 1 1))
        (scheduled_ops blocks (peer_count 2 1 1))
        ran.0.0.log
    × IsReady
        (planned blocks (peer_count 2 1 1))
        (scheduled_ops blocks (peer_count 2 1 1))
        1
        ran.0.0
allreduce-completes_example =
    allreduce-completes blocks operators (λ p. p) 2 1 1 800 900 (pos 10) (pos 7) (pos 0) ffint32 128
      site provided provided_lem (some no_operator, ffsuccess) known (omega arith)
      (blocks-IsFresh_few (peer_count 2 1 1) count_two) refl (omega (arith, count_two))
      (omega (arith, count_two)) immediate (planned_two.0, 1, ffsuccess) ran.0.0 planned_two.1
      ran-Reach (ran.2.1.idle 2 planned_two.2.has_begin).posted
      (λ q m. (ran.2.1.idle q m).posted ∙ sym (ran.2.1.idle q m).completions)

count_many : peer_count 1024 0 10 ≡ 10
unfolding peers
count_many = refl

blocks-IsFresh_many : (n : ℕ) → n ≡ 10 → IsFresh blocks n
blocks-IsFresh_many n e = rw e (λ a. ground arith)

allreduce_overflow_example :
    (z : Site ℕ) × (opening blocks operators
        (λ p. p)
        1024
        0
        10
        800
        900
        (pos 10)
        (pos 7)
        (pos 0)
        ffint32
        0
        site
        (loop blocks operators (λ p. p) 1024 0 10 800 900 (pos 10) (pos 7) (pos 0) ffint32 0 site
          ∷ [])
        site
      ≡ some z)
    × ((z.system.state.ops 2).out_dep_count ≡ 10)
    × ((z.system.state.ops 5).in_dep_count ≡ 0)
    × (add_op 1 5 z.system ≡ none)
    × (allreduce blocks operators (λ p. p) 1024 0 11 800 900 (pos 10) (pos 7) (pos 0) ffint32 0 site
        ≡ none)
allreduce_overflow_example =
    allreduce_overflow blocks operators (λ p. p) 1024 0 10 800 900 (pos 10) (pos 7) (pos 0) ffint32
      0 site made made_lem (some no_operator, ffsuccess) known (omega arith)
      (blocks-IsFresh_many (peer_count 1024 0 10) count_many) refl count_many
