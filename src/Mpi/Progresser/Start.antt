-- ===== src/Mpi/Progresser/Start.antt =====
-- `ffop_mpi_progresser_init` of src/components/mpi/ffop_mpi_progresser.c.
use fflib.Base.{
  ℕ, zero, suc, ◌+◌, ◌<◌, ◌≡◌, refl, none, some, [], arith, ffsuccess, ltb, leb, count, range,
  count-range, if◌then◌else◌, update, ◌&&◌, sym,
}
use fflib.Arman.{Entry}
use fflib.Arman.Stack.{Holds, create-Holds}
use fflib.Mpi.Progresser.{Table, ffmpi_max_req, blank, init}
use fflib.Mpi.Progresser.Slots.{IsTable}

blank-none :
    (k i : ℕ) (t : Table) (a : ℕ)
    → ((blank k i t).posted_ops a ≡ (if leb i a && ltb a (i + k) then none else t.posted_ops a))
      × ((blank k i t).requests a ≡ (if leb i a && ltb a (i + k) then none else t.requests a))
unfolding blank
blank-none zero i t a = ground arith
blank-none (suc k) i t a =
    let u : Table = record t {
      requests = update t.requests i none;
      posted_ops = update t.posted_ops i none;
    } in
    ground (arith, blank-none k (i + 1) u a)

blank-index_manager : (k i : ℕ) (t : Table) → (blank k i t).index_manager ≡ t.index_manager
unfolding blank
blank-index_manager zero i t = refl
blank-index_manager (suc k) i t = blank-index_manager k (i + 1) _

fresh : (n a : ℕ) → count a (range 0 n) + 0 ≡ (if ltb a n then 1 else 0)
fresh n a = ground (arith, count-range a 0 n)

cleared :
    (n : ℕ) (t : Table) (a : ℕ)
    → a < n
    → ((blank n 0 t).posted_ops a ≡ none) × ((blank n 0 t).requests a ≡ none)
cleared n t a lt = ground (arith, blank-none n 0 t a)

IsTable-blank :
    (who : ℕ → ℕ) (n : ℕ) (t : Table)
    → n ≡ ffmpi_max_req
    → Holds t.index_manager (range 0 n) 0
    → (v : IsTable who [] (blank n 0 t)) × (v.stack ≡ range 0 n)
IsTable-blank who n t e held = (
  record {
    stack = range 0 n;
    held = rw (blank-index_manager n 0 t) held;
    once = λ a. rw (sym e) (fresh n a);
    filled = λ a h. cc;
    blank = λ a lt h. cleared n t a (rw e lt);
  },
  refl,
)

-- After ffop_mpi_progresser_init, when malloc succeeds, the table is well formed and empty, and the
-- 256 indices are free in ascending order, whatever was there before.
pub init-IsTable :
    (who : ℕ → ℕ) (m : ℕ → Entry) (t : Table)
    → (u : Table) × (init (some m) t ≡ some (u, ffsuccess))
      × (v : IsTable who [] u) × (v.stack ≡ range 0 ffmpi_max_req)
unfolding init
init-IsTable who m t =
    let (a, done, held) =
      create-Holds ffmpi_max_req m t.index_manager (omega arith) (omega arith) in
    let w : Table = record t { index_manager = a } in
    let (v, top) = IsTable-blank who ffmpi_max_req w refl held in
    (blank ffmpi_max_req 0 w, rw done refl, v, top)
