-- ===== src/Arman.antt =====
-- src/utils/ffarman.c, ffarman.h: the index manager, two linked lists in one array of entries.
-- A pointer to an entry is its position in the array; `none` is NULL.
-- The spin lock makes each call atomic: a call is one function.
pub mod Chain
pub mod Stack
pub mod Client
use fflib.Base.{
  ℕ, zero, suc, ◌+◌, ◌-◌, ◌%◌, Option, none, some, ℤ, ffsuccess, ffenomem, u32, ltb, update,
  if◌then◌else◌,
}

pub record Entry : Type 0 where
  pub idx : ℕ
  pub next : Option ℕ

pub record Arman : Type 0 where
  pub entries : ℕ → Entry
  pub free_entries : Option ℕ
  pub free_free_entries : Option ℕ
  pub tofree : Option ℕ

abbrev pub set_next : (ℕ → Entry) → ℕ → Option ℕ → ℕ → Entry
set_next m i p = update m i (record (m i) { next = p })

-- The loop of `ffarman_create`, from entry `i` on, with `k` rounds left.
unfoldable pub link : ℕ → ℕ → (ℕ → Entry) → ℕ → Entry
link zero i m = m
link (suc k) i m = link k (i + 1) (update m i (record { idx = i; next = some (i + 1) }))

-- `memory` is what `malloc` returns: NULL, or `count + 1` entries with any contents.
-- `none`: the write behind the loop, to entry `count - 1`, is out of bounds.
unfoldable pub create : ℕ → Option (ℕ → Entry) → Arman → Option (Arman × ℤ)
create count memory array = elim memory [
  | none ↦ some (record array { free_entries = none; tofree = none }, ffenomem)
  | some m ↦
      let last = (count + u32 - 1) % u32 in
      if ltb count last
      then none
      else some (
        record {
          entries = set_next (link count 0 m) last none;
          free_entries = some 0;
          free_free_entries = none;
          tofree = some 0;
        },
        ffsuccess,
      )
]

-- `(uint32_t) -1`, the answer when no index is left.
abbrev pub no_index : ℕ
no_index = 4294967295

unfoldable pub get : Arman → ℕ × Arman
get array = elim array.free_entries [
  | none ↦ (no_index, array)
  | some e ↦ (
    (array.entries e).idx,
    record array {
      free_entries = (array.entries e).next;
      entries = set_next array.entries e array.free_free_entries;
      free_free_entries = some e;
    },
  )
]

-- `none`: the assertion that an entry is left to hold the index fails.
unfoldable pub put : Arman → ℕ → Option Arman
put array i = elim array.free_free_entries [
  | none ↦ none
  | some e ↦ some (record array {
    free_free_entries = (array.entries e).next;
    entries = update array.entries e (record { idx = i; next = array.free_entries });
    free_entries = some e;
  })
]
