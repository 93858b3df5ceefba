-- ===== src/Allreduce/Graph/Prepared.antt =====
-- The steps of `ffallreduce` in src/colls/ffallreduce.c around its loop: the schedule, the buffers,
-- the move and the marks of the schedule.
use fflib.Base.{
  ℕ, ◌≡◌, ◌⊎◌, refl, ap, ◌∙◌, Option, none, some, [], ◌∷◌, arith, ℤ, pos, ◌>>=◌, true, false,
  ffsuccess, Bool, if◌then◌else◌, inl, inr, update, ==-refl,
}
use fflib.Calls.{Payload, comp_b, typed, type_comp}
use fflib.Gcomp.Operator.{Operators, get}
use fflib.Schedule.{nop, schedule_create, set_state, set_delete_callback}
use fflib.Schedule.Open.Add.{Within}
use fflib.Allreduce.{
  Blocks, Site, Step, in_order, on_state, on_world, make_tmpbuffs, find_buffers, ffcomp_dest_atomic,
  free_callback,
}
use fflib.Allreduce.Graph.{comp_b_lem}
use fflib.Allreduce.Graph.Begin.{IsBegun}
use fflib.Allreduce.Graph.Call.{IsKept}

module _ {W : Type 0} (b : Blocks) where
  -- The site with the new schedule.
  abbrev pub scheduled : Site W → Site W
  scheduled y = record y { system = (schedule_create b.sched b.begin_op b.end_op y.system).0 }

  -- The buffers that the call makes or finds.
  abbrev pub find_all :
      (handle : ℕ → ℕ) (sndbuff rcvbuff : ℕ) (count datatype : ℤ) (options maxr : ℕ) → Step W
  find_all handle sndbuff rcvbuff count datatype options maxr = in_order (
      make_tmpbuffs b.tmp count datatype 0 maxr
      ∷ find_buffers b handle sndbuff rcvbuff count datatype options maxr
      ∷ [])

  abbrev pub marked : Site W → Site W
  marked y = record y {
    system =
        (set_delete_callback b.sched (some free_callback)
          (set_state b.sched (some b.state) y.system).0).0;
  }

  pub scheduled-Within : (y : Site W) → Within b.begin_op b.end_op b.sched (scheduled y).system
  unfolding schedule_create
  scheduled-Within y = (rw (==-refl b.sched) refl, rw (==-refl b.sched) refl)

  pub marked-IsKept : (y : Site W) → IsKept b y (marked y)
  unfolding set_state set_delete_callback
  marked-IsKept y = record {
    state = refl;
    begins = ground (arith, ==-refl b.sched);
    ends = ground (arith, ==-refl b.sched);
  }

  -- The move at a state is the new operation of `ffnop` or of `ffcomp_b`.
  abbrev pub Moves : (y z : Site W) → Type 0
  Moves y z =
      ((z.system.state ≡ nop 0 b.move y.system.state)
        ⊎ (z.system.state ≡ typed b.move type_comp ffcomp_dest_atomic y.system.state))
      × (z.system.schedules ≡ y.system.schedules)

  abbrev pub move_step : Operators → (sb rb : ℕ) → Bool → Step W
  move_step operators sb rb c =
      if c
      then on_state (λ s. some (nop 0 b.move s, ffsuccess))
      else on_world (comp_b operators b.old b.move sb 0 (pos 4) ffcomp_dest_atomic rb)

  pub moved :
      (operators : Operators) (sb rb : ℕ) (c : Bool) (y : Site W)
      → (z : Site W) × (move_step operators sb rb c y ≡ some z) × Moves y z
  unfolding get
  moved operators sb rb true y = (_, refl, (inl refl, refl))
  moved operators sb rb false y =
      let (d, done) =
        comp_b_lem operators b.old b.move sb 0 (pos 4) rb (some (operators.operators 4), ffsuccess)
          refl (record { state = y.system.state; payloads = y.payloads; memory = y.memory }) in
      (
        record y {
          system = record y.system {
            state = typed b.move type_comp ffcomp_dest_atomic y.system.state;
          };
          payloads = update y.payloads b.move (Payload.comp d);
        },
        rw done refl,
        (inr refl, refl),
      )

  -- Before the loop.
  pub ready-IsBegun :
      (y y3 y4 : Site W)
      → IsKept b (scheduled y) y3
      → Moves y3 y4
      → y.system.state.log ≡ []
      → IsBegun b y.system (marked y4)
  ready-IsBegun y y3 y4 k (m, same) quiet =
      let n = marked-IsKept y4 in
      let w = scheduled-Within y in
      record {
        quiet = quiet;
        move = elim m [
          | inl x ↦ inl (n.state ∙ x ∙ ap (λ s. nop 0 b.move s) k.state)
          | inr x ↦
              inr (n.state ∙ x ∙ ap (λ s. typed b.move type_comp ffcomp_dest_atomic s) k.state)
        ];
        within = (
          n.begins ∙ ap (λ f. (f b.sched).begin_op) same ∙ k.begins ∙ w.0,
          n.ends ∙ ap (λ f. (f b.sched).end_op) same ∙ k.ends ∙ w.1,
        );
      }

  answered : (m : Option (Site W)) → (m ≡ none) ⊎ ((v : Site W) × (m ≡ some v))
  answered none = inl refl
  answered (some v) = inr (v, refl)

  pub ended : (m : Option (Site W)) (g : Step W) → (m >>= in_order (g ∷ [])) ≡ (m >>= g)
  ended none g = refl
  ended (some u) g = elim (answered (g u)) [ inl stop ↦ rw stop refl | inr (v, go) ↦ rw go refl ]
