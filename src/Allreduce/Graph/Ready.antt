-- ===== src/Allreduce/Graph/Ready.antt =====
-- The whole call of `ffallreduce` in src/colls/ffallreduce.c, from its schedule to its return.
use fflib.Base.{
  List, ℕ, suc, ◌^◌, ◌≤◌, ◌<◌, ◌≡◌, refl, ap, ◌∙◌, Option, none, some, [], ◌∷◌, ℤ, ◌>>=◌, ffsuccess,
  if◌then◌else◌, >>=-eq-some,
}
use fflib.Op.{max_deps}
use fflib.Gcomp.Operator.{Operator, Operators, get}
use fflib.Schedule.{System, schedule_create, set_state, set_delete_callback, add_op}
use fflib.Allreduce.{
  Blocks, Site, Step, in_order, on_system, make_tmpbuffs, find_buffers, in_place, buffers_provided,
  exchanges, ceil_log2, allreduce, free_callback,
}
use fflib.Allreduce.Graph.{step-in_order}
use fflib.Allreduce.Graph.Begin.{IsFresh}
use fflib.Allreduce.Graph.Whole.{
  peer_count, IsPlanned, whole, exchanges-IsPlanned, exchanges_overflow,
}
use fflib.Allreduce.Graph.Call.{IsKept, in_order-Keeps, make_tmpbuffs-Keeps, find_buffers-Keeps}
use fflib.Allreduce.Graph.Prepared.{
  scheduled, find_all, marked, Moves, move_step, moved, ready-IsBegun, ended,
}

module _ {W : Type 0} (b : Blocks) (operators : Operators) (handle : ℕ → ℕ) (csize rank k : ℕ)
    (sndbuff rcvbuff : ℕ) (count tag operator datatype : ℤ) (options : ℕ) (y : Site W) where
  abbrev maxr : ℕ
  maxr = ceil_log2 (suc k) csize 1 0

  abbrev given : ℕ → ℕ → ℕ
  given buff own = if buffers_provided options then handle buff else own

  -- The body of `ffallreduce` in front of its loop, and `fs`.
  abbrev pub opening : List (Step W) → Step W
  opening fs = in_order (
      on_system (λ x. some (schedule_create b.sched b.begin_op b.end_op x))
      ∷ make_tmpbuffs b.tmp count datatype 0 maxr
      ∷ find_buffers b handle sndbuff rcvbuff count datatype options maxr
      ∷ move_step b operators (given sndbuff b.snd.block) (given rcvbuff b.rcv.block)
          (in_place sndbuff)
      ∷ on_system (λ x. some (set_state b.sched (some b.state) x))
      ∷ on_system (λ x. some (set_delete_callback b.sched (some free_callback) x))
      ∷ fs)

  abbrev pub loop : Step W
  loop =
      exchanges b operators csize rank maxr tag operator (given rcvbuff b.rcv.block) (suc k) 1 0
        b.move

  module _ (y3 : Site W)
      (buffers : find_all b handle sndbuff rcvbuff count datatype options maxr (scheduled b y)
        ≡ some y3) where
    moved_here :
        (z : Site W) × (move_step b operators
            (given sndbuff b.snd.block)
            (given rcvbuff b.rcv.block)
            (in_place sndbuff)
            y3
          ≡ some z)
        × Moves b y3 z
    moved_here =
        moved b operators (given sndbuff b.snd.block) (given rcvbuff b.rcv.block) (in_place sndbuff)
          y3

    found-IsKept : IsKept b (scheduled b y) y3
    found-IsKept =
        in_order-Keeps b _ _ (make_tmpbuffs-Keeps b b.tmp count datatype 0 maxr)
          (find_buffers-Keeps b handle sndbuff rcvbuff count datatype options maxr) (scheduled b y)
          y3 buffers

    abbrev returned : Site W → Option (Site W × ℕ × ℤ)
    returned z = some (z, b.sched, ffsuccess)

    -- The first six steps succeed.
    opening_steps :
        (fs : List (Step W)) (y4 : Site W)
        → move_step b operators
            (given sndbuff b.snd.block)
            (given rcvbuff b.rcv.block)
            (in_place sndbuff)
            y3
          ≡ some y4
        → opening fs y ≡ in_order fs (marked b y4)
    opening_steps fs y4 move =
        let f2 = make_tmpbuffs b.tmp count datatype 0 maxr in
        let f3 = find_buffers b handle sndbuff rcvbuff count datatype options maxr in
        let f4 =
          move_step b operators (given sndbuff b.snd.block) (given rcvbuff b.rcv.block)
            (in_place sndbuff) in
        let f5 : Step W = on_system (λ x. some (set_state b.sched (some b.state) x)) in
        let f6 : Step W =
          on_system (λ x. some (set_delete_callback b.sched (some free_callback) x)) in
        let (y2, made, then_found) =
          >>=-eq-some (f2 (scheduled b y)) (in_order (f3 ∷ [])) buffers in
        let (y3', found, last) = >>=-eq-some (f3 y2) (in_order []) then_found in
        step-in_order b f2 (f3 ∷ f4 ∷ f5 ∷ f6 ∷ fs) (scheduled b y) y2 made
        ∙ step-in_order b f3 (f4 ∷ f5 ∷ f6 ∷ fs) y2 y3 (found ∙ last)
        ∙ step-in_order b f4 (f5 ∷ f6 ∷ fs) y3 y4 move

    allreduce_steps :
        (y4 : Site W)
        → move_step b operators
            (given sndbuff b.snd.block)
            (given rcvbuff b.rcv.block)
            (in_place sndbuff)
            y3
          ≡ some y4
        → allreduce b operators handle csize rank
            (suc k)
            sndbuff
            rcvbuff
            count
            tag
            operator
            datatype
            options
            y
          ≡ (whole b operators csize rank maxr tag operator
                (given rcvbuff b.rcv.block)
                k
                (marked b y4)
              >>= returned)
    unfolding allreduce
    allreduce_steps y4 move =
        let f8 : Step W = on_system (add_op b.sched b.move) in
        ap (λ (o : Option (Site W)). o >>= returned)
          (opening_steps (loop ∷ f8 ∷ []) y4 move ∙ ended b (loop (marked b y4)) f8)

    module _ (known : Option Operator × ℤ) (found : get operator operators ≡ some known)
        (fits : csize ≤ 2 ^ k) (fresh : IsFresh b (peer_count csize rank k))
        (quiet : y.system.state.log ≡ []) where
      -- When nothing is posted yet, the buffers of the call can be made or found, its blocks are
      -- fresh, ffop_gcomp_operator_get answers for the operator, and there are at most 2^k ranks,
      -- of which between one and nine are peers of this rank: with fuel for k+1 masks, ffallreduce
      -- returns FFSUCCESS and its schedule, nothing is posted, and the schedule is ready to run:
      -- its graph has no cycles and a height of at most twice the number of peers and two, only the
      -- begin has no dependencies, and its edges are those of the plan: the begin before the move
      -- and each receive, each send after the move or the computation before it, each computation
      -- after its send and its receive, and the end after each computation.
      pub allreduce-IsPlanned :
          0 < peer_count csize rank k
          → peer_count csize rank k < max_deps
          → (z : Site W) × (allreduce b operators handle csize rank
                (suc k)
                sndbuff
                rcvbuff
                count
                tag
                operator
                datatype
                options
                y
              ≡ some (z, b.sched, ffsuccess))
            × IsPlanned b (peer_count csize rank k) z.system.state
      allreduce-IsPlanned some_peers few =
          let (y4, move, m) = moved_here in
          let begun = ready-IsBegun b y y3 y4 found-IsKept m quiet in
          let (z, done, plan) =
            exchanges-IsPlanned b operators csize rank maxr tag operator (given rcvbuff b.rcv.block)
              known found k fits refl fresh y.system (marked b y4) begun some_peers few in
          (z, allreduce_steps y4 move ∙ ap (λ o. o >>= returned) done, plan)

      -- When nothing is posted yet, the buffers of the call can be made or found, its blocks are
      -- fresh, ffop_gcomp_operator_get answers for the operator, and there are at most 2^k ranks,
      -- of which ten are peers of this rank, as 1024 ranks give, with fuel for k+1 masks: the body
      -- of ffallreduce up to the end of its loop succeeds, and then the begin of the schedule has
      -- ten dependents and the move no dependency, so that the ffschedule_add_op of the move, which
      -- adds it as the eleventh dependent of the begin, writes behind the array of MAX_DEPS, and
      -- the call has no result.
      pub allreduce_overflow :
          peer_count csize rank k ≡ max_deps
          → (z : Site W) × (opening (loop ∷ []) y ≡ some z)
            × ((z.system.state.ops b.begin_op).out_dep_count ≡ max_deps)
            × ((z.system.state.ops b.move).in_dep_count ≡ 0)
            × (add_op b.sched b.move z.system ≡ none)
            × (allreduce b operators handle csize rank
                  (suc k)
                  sndbuff
                  rcvbuff
                  count
                  tag
                  operator
                  datatype
                  options
                  y
                ≡ none)
      allreduce_overflow many =
          let (y4, move, m) = moved_here in
          let begun = ready-IsBegun b y y3 y4 found-IsKept m quiet in
          let (z, looped, full, source, over) =
            exchanges_overflow b operators csize rank maxr tag operator (given rcvbuff b.rcv.block)
              known found k fits refl fresh y.system (marked b y4) begun many in
          (
            z,
            opening_steps (loop ∷ []) y4 move ∙ step-in_order b loop [] (marked b y4) z looped,
            full,
            source,
            over,
            allreduce_steps y4 move
                ∙ ap (λ (o : Option (Site W)). o >>= on_system (add_op b.sched b.move) >>= returned)
                    looped
                ∙ ap
                    (λ (o : Option (System W × ℤ)).
                      o >>= (λ (r : System W × ℤ). some (record z { system = r.0 })) >>= returned)
                    over,
          )
