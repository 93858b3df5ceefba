-- ===== src/Buffer/Own.antt =====
-- The memory of a buffer that src/ffbuffer.c allocates itself.
use fflib.Base.{
  sym, ◌∙◌, ℕ, ◌*◌, ◌%◌, ◌^◌, ◌≤◌, ◌<◌, ◌≡◌, ◌≢◌, ◌⊎◌, inl, inr, refl, true, Option, none, some, ℤ,
  ffsuccess, u32, ltb, ◌==◌, ==→eq, ==-refl, ==-ne, update, arith, Bool-cases,
}
use fflib.Buffer.{set_buffer, Memory, unitsize, datatype_size, resize}

-- The buffer `h` owns one block, large enough for what it says, that the heap `before` had not.
pub record IsOwn (before : ℕ → Option ℕ) (h : ℕ) (m : Memory) : Type 0 where
  pub unit : ℕ
  pub bytes : ℕ
  pub own : (m.buffers h).selfalloc ≡ true
  pub there : (m.buffers h).word ≢ 0
  pub small : (m.buffers h).count < u32
  pub sized : unitsize (m.buffers h).datatype ≡ some unit
  pub block : m.heap (m.buffers h).word ≡ some bytes
  pub fits : (m.buffers h).count * unit ≤ bytes
  pub new : before (m.buffers h).word ≡ none
  pub rest : (x : ℕ) → x ≢ (m.buffers h).word → m.heap x ≡ before x

pub unitsize_le : (d : ℤ) (u : ℕ) → unitsize d ≡ some u → u ≤ 8
unitsize_le d u e = ground arith

pub no_overflow : (n u : ℕ) → n < u32 → u ≤ 8 → n * u % 2 ^ 64 ≡ n * u
no_overflow n u lt le = grind arith

pub size-unitsize : (d : ℤ) (u junk : ℕ) → unitsize d ≡ some u → (datatype_size d junk).0 ≡ u
unfolding datatype_size
size-unitsize d u junk e = rw (datatype_size, e) refl

new_block :
    (before heap : ℕ → Option ℕ) (a w k : ℕ)
    → ((x : ℕ) → x ≢ w → heap x ≡ before x)
    → before w ≡ none
    → (a ≡ w) ⊎ (heap a ≡ none)
    → heap w ≡ some k
    → before a ≡ none
new_block before heap a w k rest new (inl e) block = rw e new
new_block before heap a w k rest new (inr e) block = elim (Bool-cases (a == w)) [
  | inl hit ↦ rw (==→eq a w hit) new
  | inr miss ↦ sym (rest a (ground arith)) ∙ e
]

module _ (before : ℕ → Option ℕ) (h : ℕ) (junk junk' a n : ℕ) (d : ℤ) (u : ℕ) (m : Memory)
    (small : n < u32) (valid : unitsize d ≡ some u) (got : a ≢ 0) where
  -- `realloc` answers with the old block or with a new one: the buffer holds what it says.
  pub resize-IsOwn :
      IsOwn before h m
      → (a ≡ (m.buffers h).word) ⊎ (m.heap a ≡ none)
      → (t : Memory) × (resize junk junk' a h 0 n d m ≡ some (t, ffsuccess))
        × IsOwn before h t
        × ((t.buffers h).count ≡ n)
        × ((t.buffers h).datatype ≡ d)
  unfolding resize
  resize-IsOwn v answer =
      let b = m.buffers h in
      let w0 = ==-ne b.word 0 v.there in
      let new = no_overflow n u small (unitsize_le d u valid) in
      let old = no_overflow b.count v.unit v.small (unitsize_le b.datatype v.unit v.sized) in
      let e = size-unitsize d u junk valid in
      let f = size-unitsize b.datatype v.unit junk' v.sized in
      elim (Bool-cases (ltb (b.count * v.unit) (n * u))) [
        | inl grow ↦ (
          set_buffer h (record b { word = a; count = n; datatype = d })
              (update (update m.heap b.word none) a (some (n * u))) m,
          rw (w0, e, f, new, old, grow, ==-ne a 0 got, v.block) refl,
          record {
            unit = u;
            bytes = n * u;
            own = rw (==-refl h) v.own;
            there = rw (==-refl h) got;
            small = rw (==-refl h) small;
            sized = rw (==-refl h) valid;
            block = rw (==-refl h, ==-refl a) refl;
            fits = rw (==-refl h) (omega arith);
            new =
                rw (==-refl h)
                  (new_block before m.heap a b.word v.bytes v.rest v.new answer v.block);
            rest = rw (==-refl h) (λ x ne. ground (arith, v.rest x, v.new, ==→eq x b.word));
          },
          rw (==-refl h) refl,
          rw (==-refl h) refl,
        )
        | inr keep ↦ (
          set_buffer h (record b { count = n; datatype = d }) m.heap m,
          rw (w0, e, f, new, old, keep) refl,
          record {
            unit = u;
            bytes = v.bytes;
            own = rw (==-refl h) v.own;
            there = rw (==-refl h) v.there;
            small = rw (==-refl h) small;
            sized = rw (==-refl h) valid;
            block = rw (==-refl h) v.block;
            fits = rw (==-refl h) (ground (arith, keep, v.fits));
            new = rw (==-refl h) v.new;
            rest = rw (==-refl h) v.rest;
          },
          rw (==-refl h) refl,
          rw (==-refl h) refl,
        )
      ]
