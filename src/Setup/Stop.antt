-- ===== src/Setup/Stop.antt =====
-- What fffinalize of src/ff.c gives back.
use fflib.Base.{
  ◌≡◌, ◌<◌, arith, refl, ap, ◌∙◌, Option, none, some, List, ◌∷◌, range, ℤ, ffsuccess, fferror, true,
  false, Bool, ◌>>=◌, if◌then◌else◌,
}
use fflib.Arman.Stack.{Holds}
use fflib.Storage.{Storage, allocated, freed, max_pools, pool_destroy}
use fflib.Storage.Destroy.{pool_destroy_lem}
use fflib.Binding.{ImplFunction, ffmpi_finalize}
use fflib.Setup.{
  Host, Library, MpiCall, finalized, mpi_stop, call_impl, op_finalize, buffer_finalize, fffinalize,
}
use fflib.Setup.Start.{Started}

pick :
    (b : Bool) (l : Library)
    → (if b then record l { mpi_calls = finalized ∷ l.mpi_calls } else l)
      ≡ record l { mpi_calls = if b then finalized ∷ l.mpi_calls else l.mpi_calls }
pick true l = refl
pick false l = refl

module _ (host : Host) where
  -- The calls to MPI that `ffmpi_finalize` leaves.
  abbrev pub calls_after : Library → List MpiCall
  calls_after l = if l.init_by_me then finalized ∷ l.mpi_calls else l.mpi_calls

  abbrev stopped : Library → Library
  stopped l = record l { mpi_calls = calls_after l }

  pub mpi_stop_lem : (l : Library) → mpi_stop host l ≡ some (stopped l, ffsuccess)
  unfolding mpi_stop
  mpi_stop_lem l = ap (λ (x : Library). some (x, ffsuccess)) (pick l.init_by_me l)

  op_lem :
      (l : Library) (s : Storage)
      → pool_destroy l.op_pool l.storage ≡ some (s, ffsuccess)
      → op_finalize host l ≡ some (record l { storage = s }, ffsuccess)
  unfolding op_finalize
  op_lem l s e =
      ap
        (λ (o : Option (Storage × ℤ)).
          o >>= λ (r : Storage × ℤ). some (record l { storage = r.0 }, r.1))
        e

  pub buffer_lem :
      (l : Library) (s : Storage)
      → pool_destroy l.buff_pool l.storage ≡ some (s, ffsuccess)
      → buffer_finalize host l ≡ some (record l { storage = s }, ffsuccess)
  unfolding buffer_finalize
  buffer_lem l s e =
      ap
        (λ (o : Option (Storage × ℤ)).
          o >>= λ (r : Storage × ℤ). some (record l { storage = r.0 }, r.1))
        e

  pub buffer_fault :
      (l : Library) → pool_destroy l.buff_pool l.storage ≡ none → buffer_finalize host l ≡ none
  unfolding buffer_finalize
  buffer_fault l e =
      ap
        (λ (o : Option (Storage × ℤ)).
          o >>= λ (r : Storage × ℤ). some (record l { storage = r.0 }, r.1))
        e

  call_finalizer :
      (l : Library)
      → l.impl.finalize ≡ some ffmpi_finalize
      → call_impl host l.impl.finalize l ≡ mpi_stop host l
  unfolding call_impl
  call_finalizer l e = ap (λ (f : Option ImplFunction). call_impl host f l) e

  fffinalize_lem :
      (l a b c : Library)
      → call_impl host l.impl.finalize (record l { terminate = true }) ≡ some (a, ffsuccess)
      → op_finalize host a ≡ some (b, ffsuccess)
      → buffer_finalize host b ≡ some (c, ffsuccess)
      → host.joined ≡ true
      → fffinalize host l ≡ some (c, ffsuccess)
  unfolding fffinalize
  fffinalize_lem l a b c p q r joined =
      ap
        (λ k.
          if k
          then (call_impl host l.impl.finalize (record l { terminate = true })
              >>= λ (a : Library × ℤ). op_finalize host a.0 >>= λ (b : Library × ℤ).
                  buffer_finalize host b.0 >>= λ (c : Library × ℤ). some (c.0, ffsuccess))
          else some (record l { terminate = true }, fferror))
        joined
      ∙ rw (p, q, r) refl

  -- After ffinit, when the thread can be joined, fffinalize succeeds, calls MPI_Finalize only if
  -- ffmpi_init has initialised MPI, frees the pools of operations and buffers and gives their
  -- indices back to the manager, but does neither for the pool of schedules.
  pub fffinalize-Started :
      (l : Library)
      → Started l
      → host.joined ≡ true
      → (t : Library) × (fffinalize host l ≡ some (t, ffsuccess))
        × Holds t.storage.index_manager (0 ∷ 1 ∷ range 3 125) 1
        × (t.mpi_calls ≡ calls_after l)
        × (t.terminate ≡ true)
        × ((t.storage.pools 0).pointer ≡ freed)
        × ((t.storage.pools 1).pointer ≡ freed)
        × ((t.storage.pools 2).pointer ≡ allocated)
        × (t.storage.next_free_pool < max_pools)
  fffinalize-Started l v joined =
      let m = record l { terminate = true } in
      let (s, gone, one) = pool_destroy_lem 1 l.storage v.pooled.ops.given v.pooled.held in
      let b = record (stopped m) { storage = s } in
      let (u, gone', two) =
        pool_destroy_lem 0 s
          (ap (λ p. p.pointer) (one.others 0 (omega arith)) ∙ v.pooled.buffers.given) one.held in
      (
        record b { storage = u },
        fffinalize_lem l (stopped m) b _ (call_finalizer m v.finalizer ∙ mpi_stop_lem m)
            (op_lem (stopped m) s (ap (λ i. pool_destroy i l.storage) v.op_pool ∙ gone))
            (buffer_lem b u (ap (λ i. pool_destroy i s) v.buff_pool ∙ gone')) joined,
        two.held,
        refl,
        refl,
        two.gone,
        ap (λ p. p.pointer) (two.others 1 (omega arith)) ∙ one.gone,
        ap (λ p. p.pointer) (two.others 2 (omega arith) ∙ one.others 2 (omega arith))
            ∙ v.pooled.schedules.given,
        omega (arith, two.slots, one.slots, v.pooled.open_slots),
      )
