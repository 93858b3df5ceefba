-- ===== src/Binding/Local.antt =====
-- FFNOP and FFCOMP through the tables of src/bindings/mpi_binding.c: they are done when they are
-- posted, and only the memory changes.
use fflib.Base.{
  ℕ, ◌≡◌, ◌⊎◌, refl, sym, ap, ◌∙◌, subst, inl, inr, true, Option, none, some, List, ℤ, has,
  ffcompleted,
}
use fflib.Calls.{comp, type_send, type_recv, type_comp}
use fflib.Gcomp.Post.{Comp, gcomp_post}
use fflib.Mpi.Transfer.{Issue}
use fflib.Op.Inside.{Immediate}
use fflib.Schedule.{type_nop}
use fflib.Binding.{
  Impl, Env, impl_post, call_post, comp_post, nop_post, ffop_mpi_send_post, ffop_mpi_recv_post,
  ffop_gcomp_post, ffnop_post,
}

-- What ffinit leaves in the table: each type of operation has its function.
pub record IsBound (impl : Impl) : Type 0 where
  pub sends : (impl.ops type_send).post ≡ some ffop_mpi_send_post
  pub recvs : (impl.ops type_recv).post ≡ some ffop_mpi_recv_post
  pub comps : (impl.ops type_comp).post ≡ some ffop_gcomp_post
  pub nops : (impl.ops type_nop).post ≡ some ffnop_post

module _ {V : Type 0} (isend irecv : List Issue → Issue → Option ℕ)
    (call : ℕ → (a b c size : ℕ) → ℤ → (ℕ → V) → Option ((ℕ → V) × ℤ)) (impl : Impl)
    (w0 : Env V) where
  -- All but the memory is as in `w0`.
  pub record OnlyMemory (w : Env V) : Type 0 where
    pub payloads : w.payloads ≡ w0.payloads
    pub buffers : w.buffers ≡ w0.buffers
    pub table : w.table ≡ w0.table
    pub issued : w.issued ≡ w0.issued
    pub fault : w.fault ≡ w0.fault

  -- A computation that ends well, whatever the memory holds.
  abbrev pub IsTotal : Comp → Type 0
  IsTotal c =
      (m : ℕ → V) → (t : ℕ → V) × (gcomp_post call w0.buffers none c m ≡ some (t, ffcompleted))

  -- An operation of the type FFNOP, or such a computation.
  abbrev pub IsTask : (ty p : ℕ) → Type 0
  IsTask ty p =
      (ty ≡ type_nop) ⊎ ((c : Comp) × (ty ≡ type_comp) × (w0.payloads p ≡ comp c) × IsTotal c)

  nop_done :
      (p : ℕ) (w : Env V)
      → IsBound impl
      → impl_post isend irecv call impl type_nop p w ≡ (w, ffcompleted)
  unfolding impl_post call_post nop_post
  nop_done p w bound = rw bound.nops refl

  pub comp_done :
      (p : ℕ) (w : Env V) (c : Comp) (t : ℕ → V)
      → IsBound impl
      → w.payloads p ≡ comp c
      → gcomp_post call w.buffers none c w.values ≡ some (t, ffcompleted)
      → impl_post isend irecv call impl type_comp p w ≡ (record w { values = t }, ffcompleted)
  unfolding impl_post call_post comp_post
  comp_done p w c t bound e done = rw (bound.comps, e, done) refl

  same-OnlyMemory : (w : Env V) → OnlyMemory w → (t : ℕ → V) → OnlyMemory (record w { values = t })
  same-OnlyMemory w o t = record {
    payloads = o.payloads;
    buffers = o.buffers;
    table = o.table;
    issued = o.issued;
    fault = o.fault;
  }

  -- Through the tables that ffbind and ffinit fill, posting an operation of the type FFNOP, or one
  -- of the type FFCOMP whose union holds a computation that ends well on any memory, calls the
  -- function for this type, which returns FFCOMPLETED and changes nothing but the memory.
  pub task-OnlyMemory :
      (ty p : ℕ) (w : Env V)
      → IsBound impl
      → IsTask ty p
      → OnlyMemory w
      → ((impl_post isend irecv call impl ty p w).1 ≡ ffcompleted)
        × OnlyMemory (impl_post isend irecv call impl ty p w).0
  task-OnlyMemory ty p w bound (inl nop) o =
      let e = ap (λ ty. impl_post isend irecv call impl ty p w) nop ∙ nop_done p w bound in
      (ap (λ (x : Env V × ℤ). x.1) e, subst (λ (x : Env V × ℤ). OnlyMemory x.0) (sym e) o)
  task-OnlyMemory ty p w bound (inr (c, comps, payload, total)) o =
      let (t, done) = total w.values in
      let e =
        ap (λ ty. impl_post isend irecv call impl ty p w) comps
        ∙ comp_done p w c t bound (ap (λ f. f p) o.payloads ∙ payload) (rw o.buffers done) in
      (
        ap (λ (x : Env V × ℤ). x.1) e,
        subst (λ (x : Env V × ℤ). OnlyMemory x.0) (sym e) (same-OnlyMemory w o t),
      )

  pub bound-Immediate :
      (all : List ℕ) (types : ℕ → ℕ)
      → IsBound impl
      → ((p : ℕ) → has p all ≡ true → IsTask (types p) p)
      → Immediate (impl_post isend irecv call impl) all types OnlyMemory
  bound-Immediate all types bound tasks p m w o = task-OnlyMemory (types p) p w bound (tasks p m) o
