-- ===== src/Buffer/Life.antt =====
-- The life of a buffer of src/ffbuffer.c: its creation, its resizes and its deletion.
use fflib.Base.{
  ℕ, ◌*◌, ◌<◌, ◌≡◌, ◌≢◌, ◌⊎◌, inl, inr, refl, true, false, Option, none, some, List, [], ◌∷◌, ℤ,
  ffsuccess, int_eq, u32, ◌==◌, ==→eq, ==-refl, ==-ne, update, if◌then◌else◌, ◌>>=◌, bit_and, arith,
  Bool-cases, All, sym, ap, ◌∙◌,
}
use fflib.Buffer.{
  set_buffer, Buffer, Memory, unitsize, free, realloc, resize, create, delete, get_size,
  ffbuffer_idx, ffbuffer_ptr, ffdatatype_none,
}
use fflib.Buffer.Own.{IsOwn, resize-IsOwn, size-unitsize, no_overflow, unitsize_le}

-- A call of `ffbuffer_resize` without an address, and what `realloc` answers in it, if it is called.
pub record Request : Type 0 where
  pub answer : ℕ
  pub count : ℕ
  pub datatype : ℤ

-- The datatype has a size, and the answer is not NULL and no block of others.
abbrev pub IsGranted : (ℕ → Option ℕ) → Request → Type 0
IsGranted before r =
    (r.answer ≢ 0)
    × (before r.answer ≡ none)
    × (r.count < u32)
    × (u : ℕ) × (unitsize r.datatype ≡ some u)

unfoldable pub run : (junk junk' h : ℕ) → List Request → Memory → Option Memory
run junk junk' h [] m = some m
run junk junk' h (r ∷ rs) m = resize junk junk' r.answer h 0 r.count r.datatype m >>= λ q.
    if int_eq q.1 ffsuccess then run junk junk' h rs q.0 else none

-- What `ffbuffer_get_size` has to say after the requests.
abbrev pub last : Request → List Request → Request
last r [] = r
last r (s ∷ rs) = last s rs

reply :
    {before : ℕ → Option ℕ} (h a : ℕ) (m : Memory)
    → IsOwn before h m
    → before a ≡ none
    → (a ≡ (m.buffers h).word) ⊎ (m.heap a ≡ none)
reply h a m v new = elim (Bool-cases (a == (m.buffers h).word)) [
  | inl hit ↦ inl (==→eq a (m.buffers h).word hit)
  | inr miss ↦ inr (v.rest a (ground arith) ∙ new)
]

none-some : {k : ℕ} → none ≡ some k → ⊥
none-some e = cc

-- When a buffer that was created without an address is resized to an address of the user that is a
-- block of the heap, ffbuffer_delete frees that block of the user.
pub delete_frees_user :
    (before : ℕ → Option ℕ) (junk junk' a h addr n k : ℕ) (d : ℤ) (m : Memory)
    → IsOwn before h m
    → addr ≢ 0
    → before addr ≡ some k
    → (u w : Memory) × (resize junk junk' a h addr n d m ≡ some (u, ffsuccess))
      × (u.heap addr ≡ some k)
      × (delete h u ≡ some w)
      × (w.heap addr ≡ none)
unfolding resize delete free
delete_frees_user before junk junk' a h addr n k d m v is user =
    let b = m.buffers h in
    let apart : addr ≢ b.word = λ e. none-some (sym v.new ∙ ap before (sym e) ∙ user) in
    let u : Memory =
      set_buffer h (record b { word = addr; count = n; datatype = d }) (update m.heap b.word none)
        m in
    let still : u.heap addr ≡ some k = rw (==-ne addr b.word apart) (v.rest addr apart ∙ user) in
    (
      u,
      record u { heap = update u.heap addr none },
      rw (==-ne addr 0 is, v.own, ==-ne b.word 0 v.there, v.block) refl,
      still,
      rw (==-refl h, v.own, ==-ne addr 0 is, still) refl,
      rw (==-refl addr) refl,
    )

module _ (before : ℕ → Option ℕ) (junk junk' h : ℕ) where
  pub create-IsOwn :
      (read : ℕ → ℕ) (r : Request) (options : ℕ) (m : Memory)
      → ((x : ℕ) → m.heap x ≡ before x)
      → IsGranted before r
      → (bit_and options ffbuffer_idx == ffbuffer_idx) ≡ false
      → (t : Memory) × (create read junk junk' r.answer h 0 r.count r.datatype options m
          ≡ some (t, ffsuccess))
        × IsOwn before h t
        × (get_size h t ≡ (r.count, r.datatype, ffsuccess))
  unfolding create resize realloc free get_size
  create-IsOwn read r options m same (got, new, small, u, valid) plain =
      let b : Buffer = record {
        type = ffbuffer_ptr;
        selfalloc = true;
        word = r.answer;
        count = r.count;
        datatype = r.datatype;
        options = options;
      } in
      let e = size-unitsize r.datatype u junk valid in
      let fits = no_overflow r.count u small (unitsize_le r.datatype u valid) in
      (
        record {
          buffers =
              update (update m.buffers h (record b { datatype = ffdatatype_none; word = 0 })) h b;
          heap = update m.heap r.answer (some (r.count * u));
        },
        rw (plain, ==-refl h, e, fits, ==-ne r.answer 0 got) refl,
        record {
          unit = u;
          bytes = r.count * u;
          own = rw (==-refl h) refl;
          there = rw (==-refl h) got;
          small = rw (==-refl h) small;
          sized = rw (==-refl h) valid;
          block = rw (==-refl h, ==-refl r.answer) refl;
          fits = rw (==-refl h) (omega arith);
          new = rw (==-refl h) new;
          rest = rw (==-refl h) (λ x ne. rw (==-ne x r.answer ne) (same x));
        },
        rw (==-refl h) refl,
      )

  run-IsOwn :
      (r : Request) (rs : List Request) (m : Memory)
      → IsOwn before h m
      → get_size h m ≡ (r.count, r.datatype, ffsuccess)
      → All (IsGranted before) rs
      → (t : Memory) × (run junk junk' h rs m ≡ some t)
        × IsOwn before h t
        × (get_size h t ≡ ((last r rs).count, (last r rs).datatype, ffsuccess))
  unfolding run get_size
  run-IsOwn r [] m v is granted = (m, refl, v, is)
  run-IsOwn r (s ∷ rs) m v is ((got, new, small, u, valid), granted) =
      let (t, done, w, n, d) =
        resize-IsOwn before h junk junk' s.answer s.count s.datatype u m small valid got v
          (reply h s.answer m v new) in
      let (x, all, good, size) = run-IsOwn s rs t w (rw (n, d) refl) granted in
      (x, rw done all, good, size)

  delete-IsOwn :
      (m : Memory)
      → IsOwn before h m
      → (t : Memory) × (delete h m ≡ some t) × ((x : ℕ) → t.heap x ≡ before x)
  unfolding delete free
  delete-IsOwn m v =
      let w = (m.buffers h).word in
      (
        record m { heap = update m.heap w none },
        rw (v.own, ==-ne w 0 v.there, v.block) refl,
        λ x. elim (Bool-cases (x == w)) [
          | inl hit ↦ rw (hit, ==→eq x w hit) (sym v.new)
          | inr miss ↦ rw miss (v.rest x (ground arith))
        ],
      )

  -- A buffer that is created without an address and without FFBUFFER_IDX, resized without an
  -- address any number of times, to datatypes that have a size, with allocations that succeed, and
  -- deleted: no call fails or has undefined behaviour, after the last resize the buffer has the
  -- count and the datatype that were asked for last and one block of the heap with room for them,
  -- and after the deletion the heap is as it was before.
  pub create_resize_delete :
      (read : ℕ → ℕ) (r : Request) (rs : List Request) (options : ℕ) (m : Memory)
      → ((x : ℕ) → m.heap x ≡ before x)
      → All (IsGranted before) (r ∷ rs)
      → (bit_and options ffbuffer_idx == ffbuffer_idx) ≡ false
      → (t u w : Memory) × (create read junk junk' r.answer h 0 r.count r.datatype options m
          ≡ some (t, ffsuccess))
        × (run junk junk' h rs t ≡ some u)
        × (get_size h u ≡ ((last r rs).count, (last r rs).datatype, ffsuccess))
        × IsOwn before h u
        × (delete h u ≡ some w)
        × ((x : ℕ) → w.heap x ≡ before x)
  create_resize_delete read r rs options m same granted plain =
      let (t, made, v, is) = create-IsOwn read r options m same granted.0 plain in
      let (u, ran, good, size) = run-IsOwn r rs t v is granted.1 in
      let (w, gone, back) = delete-IsOwn u good in (t, u, w, made, ran, size, good, gone, back)
