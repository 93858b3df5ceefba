-- ===== src/Examples/Buffers.antt =====
-- src/ffbuffer.c: one buffer of the library, with the handle 3.
use fflib.Base.{
  ℕ, ◌≡◌, refl, Option, none, some, [], ◌∷◌, arith, pos, ffsuccess, false, if◌then◌else◌, ◌==◌,
}
use fflib.Buffer.{Memory, create, resize, delete, get_size, ffint32, ffint64, ffdouble}
use fflib.Buffer.Own.{IsOwn}
use fflib.Buffer.Life.{
  Request, run, IsGranted, create-IsOwn, create_resize_delete, delete_frees_user,
}

abbrev heap : ℕ → Option ℕ
heap a = if a == 700 then some 80 else none

abbrev memory : Memory
memory = record {
  buffers = λ h. record {
    type = 0;
    selfalloc = false;
    word = 0;
    count = 0;
    datatype = pos 0;
    options = 0;
  };
  heap = heap;
}

abbrev small : Request
small = record { answer = 100; count = 10; datatype = ffint32 }

abbrev large : Request
large = record { answer = 200; count = 30; datatype = ffdouble }

abbrev medium : Request
medium = record { answer = 300; count = 20; datatype = ffint64 }

small-IsGranted : IsGranted heap small
small-IsGranted = ((λ e. omega arith), refl, omega arith, 4, refl)

create_resize_delete_example :
    (t u w : Memory) × (create (λ p. 0) 9 9 100 3 0 10 ffint32 0 memory ≡ some (t, ffsuccess))
    × (run 9 9 3 (large ∷ medium ∷ []) t ≡ some u)
    × (get_size 3 u ≡ (20, ffint64, ffsuccess))
    × IsOwn heap 3 u
    × (delete 3 u ≡ some w)
    × ((x : ℕ) → w.heap x ≡ heap x)
create_resize_delete_example =
    create_resize_delete heap 9 9 3 (λ p. 0) small (large ∷ medium ∷ []) 0 memory (λ x. refl)
      (
        small-IsGranted,
        (
          ((λ e. omega arith), refl, omega arith, 8, refl),
          (((λ e. omega arith), refl, omega arith, 8, refl), tt),
        ),
      )
      refl

abbrev made :
    (t : Memory) × (create (λ p. 0) 9 9 100 3 0 10 ffint32 0 memory ≡ some (t, ffsuccess))
    × IsOwn heap 3 t
    × (get_size 3 t ≡ (10, ffint32, ffsuccess))
made = create-IsOwn heap 9 9 3 (λ p. 0) small 0 memory (λ x. refl) small-IsGranted refl

delete_frees_user_example :
    (u w : Memory) × (resize 9 9 0 3 700 10 ffint64 made.0 ≡ some (u, ffsuccess))
    × (u.heap 700 ≡ some 80)
    × (delete 3 u ≡ some w)
    × (w.heap 700 ≡ none)
delete_frees_user_example =
    delete_frees_user heap 9 9 0 3 700 10 80 ffint64 made.0 made.2 (λ e. omega arith) refl
