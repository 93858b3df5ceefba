-- ===== src/Setup/Again.antt =====
-- A second ffinit of src/ff.c, behind fffinalize.
use fflib.Base.{ℕ, ◌≡◌, refl, ap, ◌∙◌, none, some, true, arith, Option, ◌>>=◌, ffsuccess}
use fflib.Arman
use fflib.Arman.{Entry}
use fflib.Arman.Stack.{get-cons}
use fflib.Storage
use fflib.Storage.{Storage, Pool, freed, max_pools, pool_create}
use fflib.Storage.Destroy.{pool_create_freed}
use fflib.Setup.{Host, Library, initial_pool_count, buffer_init, fffinalize, ffinit}
use fflib.Setup.Parts.{bound}
use fflib.Setup.Pools.{init-Holds}
use fflib.Setup.Start.{Started}
use fflib.Setup.Stop.{fffinalize-Started}

module _ (host : Host) where
  buffer_init_lem :
      (l : Library)
      → pool_create host.buffer_size initial_pool_count host.buffer_blocks l.storage ≡ none
      → buffer_init host l ≡ none
  unfolding buffer_init
  buffer_init_lem l e =
      ap
        (λ (o : Option (ℕ × Storage)).
          o >>= λ (r : ℕ × Storage). some (record l { buff_pool = r.0; storage = r.1 }, ffsuccess))
        e

  ffinit_lem :
      (l : Library) (s : Storage)
      → Storage.init host.pool_entries l.storage ≡ some (s, ffsuccess)
      → buffer_init host (bound l s) ≡ none
      → ffinit host l ≡ none
  unfolding ffinit
  ffinit_lem l s p q = rw (p, q) refl

  -- After ffinit, when the thread can be joined and memory is given for the manager of the pools,
  -- fffinalize succeeds; in a second ffinit behind it, ffstorage_init makes a manager whose first
  -- index is 0 again, the memory of the pool 0 is freed already, and ffbuffer_init gives it to
  -- realloc, so that neither ffbuffer_init nor ffinit has a result.
  pub ffinit-fffinalize :
      (entries : ℕ → Entry) (l : Library)
      → host.pool_entries ≡ some entries
      → host.joined ≡ true
      → Started l
      → (t : Library) × (fffinalize host l ≡ some (t, ffsuccess))
        × (s : Storage) × (Storage.init host.pool_entries t.storage ≡ some (s, ffsuccess))
        × ((Arman.get s.index_manager).0 ≡ 0)
        × ((s.pools 0).pointer ≡ freed)
        × (buffer_init host (bound t s) ≡ none)
        × (ffinit host t ≡ none)
  ffinit-fffinalize entries l given joined v =
      let (t, ended, held, calls, up, gone, gone', kept, slots) =
        fffinalize-Started host l v joined in
      let (s, made, held', same, pools) = init-Holds entries t.storage in
      let init = ap (λ (m : Option (ℕ → Entry)). Storage.init m t.storage) given ∙ made in
      let dangling = ap (λ (f : ℕ → Pool). (f 0).pointer) pools ∙ gone in
      let fault = buffer_init_lem (bound t s) (
        pool_create_freed host.buffer_size initial_pool_count host.buffer_blocks s
          (omega (arith, slots, same)) held' (omega arith) dangling) in
      (t, ended, s, init, (get-cons held').0, dangling, fault, ffinit_lem t s init fault)
