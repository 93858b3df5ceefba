-- ===== src/Progress.antt =====
-- src/ffprogress.c: the progress thread. The initialisation and the end of the progressers are
-- calls of theirs; a progresser is a number, and `progress` says what its function does.
pub mod Drain
pub mod Thread
use fflib.Base.{
  ℕ, zero, suc, ◌+◌, Bool, true, false, Option, none, some, ℤ, ffsuccess, ffenomem, int_eq, leb,
  update, if◌then◌else◌, ◌>>=◌,
}
use fflib.Op.{State, complete}

abbrev pub max_progressers : ℕ
max_progressers = 16

-- The static variables.
pub record Progressers : Type 0 where
  pub progressers : ℕ → ℕ
  pub progressers_count : ℕ

-- `ffprogresser_register`
unfoldable pub register : ℕ → Progressers → Progressers × ℤ
register p t = if leb max_progressers t.progressers_count then (t, ffenomem) else (
  record {
    progressers = update t.progressers t.progressers_count p;
    progressers_count = t.progressers_count + 1;
  },
  ffsuccess,
)

-- The operations, and the pointer `completed`.
pub record Pass (W : Type 0) : Type 0 where
  pub state : State W
  pub completed : Option ℕ

module _ {W : Type 0} (progress : ℕ → Pass W → Option (Pass W × ℤ)) where
  -- The calls of the progressers from the number `i` on, `k` of them. `false`: one has failed, and
  -- the thread ends.
  unfoldable pub poll : Progressers → (i k : ℕ) → Pass W → Option (Pass W × Bool)
  poll t i zero v = some (v, true)
  poll t i (suc k) v = progress (t.progressers i) v >>= λ r.
      if int_eq r.1 ffsuccess then poll t (i + 1) k r.0 else some (r.0, false)

module _ {W : Type 0} (impl_post : ℕ → ℕ → W → W × ℤ) where
  -- The loop over the completed operations; `next` is read after the completion. `none`: the fuel
  -- is used up.
  unfoldable pub drain : (rounds fuel : ℕ) → Option ℕ → State W → Option (State W)
  drain zero fuel p s = none
  drain (suc rounds) fuel none s = some s
  drain (suc rounds) fuel (some p) s =
      complete impl_post fuel p s >>= λ r. drain rounds fuel (r.0.ops p).next r.0

module _ {W : Type 0} (impl_post : ℕ → ℕ → W → W × ℤ)
    (progress : ℕ → Pass W → Option (Pass W × ℤ)) where
  -- One round of the loop of `progress_thread`.
  unfoldable pub iterate : Progressers → (rounds fuel : ℕ) → State W → Option (State W × Bool)
  unfolding poll drain
  iterate t rounds fuel s =
      poll progress t 0 t.progressers_count (record { state = s; completed = none }) >>= λ r.
      let rest = drain impl_post rounds fuel r.0.completed r.0.state >>= λ u. some (u, true) in
      if r.1 then rest else some (r.0.state, false)
