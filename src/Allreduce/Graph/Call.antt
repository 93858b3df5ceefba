-- ===== src/Allreduce/Graph/Call.antt =====
-- The whole call of `ffallreduce` in src/colls/ffallreduce.c.
use fflib.Base.{
  ℕ, zero, suc, ◌+◌, ◌≡◌, refl, ◌∙◌, subst, some, [], ◌∷◌, arith, ℤ, true, false, Bool,
  if◌then◌else◌, >>=-eq-some, some_eq, ==-refl, not,
}
use fflib.Calls.{Alloc}
use fflib.Buffer.{Memory}
use fflib.Schedule.{set_post_callback}
use fflib.Allreduce.{
  Blocks, Site, Step, Reduction, in_order, on_system, make_buffer, make_tmpbuffs, find_buffers,
  set_reduction, skip, in_place, buffers_provided, post_check_callback,
}

module _ {W : Type 0} (b : Blocks) where
  -- The operations, and the ends of the schedule.
  pub record IsKept (y z : Site W) : Type 0 where
    pub state : z.system.state ≡ y.system.state
    pub begins : (z.system.schedules b.sched).begin_op ≡ (y.system.schedules b.sched).begin_op
    pub ends : (z.system.schedules b.sched).end_op ≡ (y.system.schedules b.sched).end_op

  IsKept-refl : (y : Site W) → IsKept y y
  IsKept-refl y = record { state = refl; begins = refl; ends = refl }

  IsKept-trans : (x y z : Site W) → IsKept x y → IsKept y z → IsKept x z
  IsKept-trans x y z p q = record {
    state = q.state ∙ p.state;
    begins = q.begins ∙ p.begins;
    ends = q.ends ∙ p.ends;
  }

  abbrev pub Keeps : Step W → Type 0
  Keeps f = (y z : Site W) → f y ≡ some z → IsKept y z

  pub in_order-Keeps : (f g : Step W) → Keeps f → Keeps g → Keeps (in_order (f ∷ g ∷ []))
  in_order-Keeps f g kf kg y z q =
      let (u, one, rest) = >>=-eq-some (f y) (in_order (g ∷ [])) q in
      let (v, two, done) = >>=-eq-some (g u) (in_order []) rest in
      IsKept-trans y u z (kf y u one) (subst (IsKept u) (some_eq done) (kg u v two))

  skip-Keeps : Keeps skip
  skip-Keeps y z q = subst (IsKept y) (some_eq q) (IsKept-refl y)

  make_buffer-Keeps :
      (a : Alloc) (addr : ℕ) (count datatype : ℤ) → Keeps (make_buffer a addr count datatype)
  make_buffer-Keeps a addr count datatype y z q =
      let (r, one, done) = >>=-eq-some _ (λ (r : Memory × ℤ). some (record y { memory = r.0 })) q in
      subst (IsKept y) (some_eq done) (record { state = refl; begins = refl; ends = refl })

  pub make_tmpbuffs-Keeps :
      (tmp : ℕ → Alloc) (count datatype : ℤ) (i k : ℕ)
      → Keeps (make_tmpbuffs tmp count datatype i k)
  unfolding make_tmpbuffs
  make_tmpbuffs-Keeps tmp count datatype i zero y z q = skip-Keeps y z q
  make_tmpbuffs-Keeps tmp count datatype i (suc k) y z q =
      let (u, one, rest) =
        >>=-eq-some (make_buffer (tmp i) 0 count datatype y)
          (λ (u : Site W). make_tmpbuffs tmp count datatype (i + 1) k u) q in
      IsKept-trans y u z (make_buffer-Keeps (tmp i) 0 count datatype y u one)
        (make_tmpbuffs-Keeps tmp count datatype (i + 1) k u z rest)

  callback-Keeps :
      Keeps (on_system (λ y. some (set_post_callback b.sched (some post_check_callback) y)))
  unfolding set_post_callback
  callback-Keeps y z q = subst (IsKept y) (some_eq q) (record {
    state = refl;
    begins = ground (arith, ==-refl b.sched);
    ends = ground (arith, ==-refl b.sched);
  })

  choice-Keeps : (c : Bool) (f g : Step W) → Keeps f → Keeps g → Keeps (if c then f else g)
  choice-Keeps true f g kf kg = kf
  choice-Keeps false f g kf kg = kg

  reduction-Keeps : (p : ℕ) (x : Reduction) → Keeps (set_reduction p x)
  reduction-Keeps p x y z q =
      subst (IsKept y) (some_eq q) (record { state = refl; begins = refl; ends = refl })

  pub find_buffers-Keeps :
      (handle : ℕ → ℕ) (sndbuff rcvbuff : ℕ) (count datatype : ℤ) (options maxr : ℕ)
      → Keeps (find_buffers b handle sndbuff rcvbuff count datatype options maxr)
  unfolding find_buffers
  find_buffers-Keeps handle sndbuff rcvbuff count datatype options maxr =
      in_order-Keeps _ _
        (choice-Keeps (not (buffers_provided options)) _ _
          (in_order-Keeps _ _
            (choice-Keeps (in_place sndbuff) skip (make_buffer b.snd sndbuff count datatype)
              skip-Keeps (make_buffer-Keeps b.snd sndbuff count datatype))
            (make_buffer-Keeps b.rcv rcvbuff count datatype))
          callback-Keeps)
        (reduction-Keeps b.state _)
