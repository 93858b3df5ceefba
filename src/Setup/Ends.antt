-- ===== src/Setup/Ends.antt =====
-- The functions of src/ffsend.c, src/ffrecv.c and src/ffcomp.c that go through the table or to the
-- pool of buffers: the custom operators, and the functions `finalize` of the operations, which
-- nothing calls.
use fflib.Base.{ℕ, ◌≡◌, refl, ap, ◌∙◌, Option, none, some, ℤ, ◌>>=◌}
use fflib.Gcomp.Operator.{custom_create, custom_delete}
use fflib.Binding.{
  ffmpi_init, ffmpi_finalize, ffmpi_get_rank, ffmpi_get_size, ffop_gcomp_operator_custom_create,
  ffop_gcomp_operator_custom_delete,
}
use fflib.Storage.{pool_destroy}
use fflib.Setup.{Host, Library, as_success, buffer_finalize}
use fflib.Setup.Start.{Started}
use fflib.Storage.Destroy.{pool_destroy_lem, pool_destroy_twice}
use fflib.Setup.Stop.{buffer_lem, buffer_fault}

-- `ffcomp_operator_create`: the handle and the code. `none`: NULL, or a function of another type.
unfoldable pub comp_operator_create : ℕ → ℤ → Library → Option (Library × ℕ × ℤ)
comp_operator_create f commutative l = l.impl.operator_create >>= λ g. elim g [
  | ffop_gcomp_operator_custom_create ↦
      (custom_create f commutative l.operators
        >>= (λ r. some (record l { operators = r.0 }, r.1, r.2)))
  | ffop_gcomp_operator_custom_delete ↦ none
  | ffmpi_init ↦ none
  | ffmpi_finalize ↦ none
  | ffmpi_get_rank ↦ none
  | ffmpi_get_size ↦ none
]

-- `ffcomp_operator_delete`
unfoldable pub comp_operator_delete : ℤ → Library → Option (Library × ℤ)
comp_operator_delete handle l = l.impl.operator_delete >>= λ g. elim g [
  | ffop_gcomp_operator_custom_delete ↦
      (custom_delete handle l.operators >>= (λ r. some (record l { operators = r.0 }, r.1)))
  | ffop_gcomp_operator_custom_create ↦ none
  | ffmpi_init ↦ none
  | ffmpi_finalize ↦ none
  | ffmpi_get_rank ↦ none
  | ffmpi_get_size ↦ none
]

module _ (host : Host) where
  -- `ffsend_finalize` and `ffrecv_finalize`; `ffbuffer_finalize` takes no argument.
  unfoldable pub send_finalize : Library → Option (Library × ℤ)
  send_finalize l = buffer_finalize host l >>= as_success

  unfoldable pub recv_finalize : Library → Option (Library × ℤ)
  recv_finalize l = buffer_finalize host l >>= as_success

  -- `ffcomp_finalize`
  unfoldable pub comp_finalize : Library → Option (Library × ℤ)
  comp_finalize l = buffer_finalize host l >>= λ a.
      buffer_finalize host a.0 >>= λ b. buffer_finalize host b.0 >>= as_success

  -- Its second call of ffbuffer_finalize frees the memory of the pool of buffers a second time.
  pub comp_finalize_faults : (l : Library) → Started l → comp_finalize l ≡ none
  unfolding comp_finalize
  comp_finalize_faults l v =
      let (s, one, d) = pool_destroy_lem 0 l.storage v.pooled.buffers.given v.pooled.held in
      let l1 = record l { storage = s } in
      let p1 = buffer_lem host l s (ap (λ i. pool_destroy i l.storage) v.buff_pool ∙ one) in
      let p2 =
        buffer_fault host l1
          (ap (λ i. pool_destroy i s) v.buff_pool ∙ pool_destroy_twice 0 s d.gone) in
      rw (p1, p2) refl
