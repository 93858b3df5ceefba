-- ===== src/Examples/Managers.antt =====
-- src/utils/ffarman.c: a manager of three indices.
use fflib.Base.{ℕ, ◌≡◌, refl, none, some, List, [], ◌∷◌, arith, ◌>>=◌, count}
use fflib.Arman.{Entry, Arman, create, get}
use fflib.Arman.Client.{World, Call, take, give, run, IsSound, create-run, get-no_index}

abbrev garbage : ℕ → Entry
garbage _ = record { idx = 77; next = some 5 }

abbrev unset : Arman
unset = record { entries = garbage; free_entries = none; free_free_entries = some 9; tofree = none }

abbrev calls : List Call
calls = take ∷ take ∷ give 0 ∷ take ∷ []

create-run_example :
    (w : World) × ((create 3 (some garbage) unset >>= λ r.
    run (record { manager = r.0; live = [] }) calls)
      ≡ some w)
    × IsSound 3 w
create-run_example = create-run 3 garbage unset calls (omega arith) (omega arith)

-- A manager of one index that is handed out.
abbrev drained : World
drained = record {
  manager = record {
    entries = λ _. record { idx = 0; next = none };
    free_entries = none;
    free_free_entries = some 0;
    tofree = some 0;
  };
  live = 0 ∷ [];
}

drained-IsSound : IsSound 1 drained
drained-IsSound = record {
  stack = [];
  held = record {
    free_nodes = [];
    spare_nodes = 0 ∷ [];
    free = refl;
    spares = (refl, refl);
    carried = refl;
    room = refl;
    distinct = (refl, tt);
  };
  once = λ a. ground arith;
}

get-no_index_example : count 0 drained.live ≡ 1
unfolding get
get-no_index_example =
    get-no_index {n = 1} {w = drained} (omega arith) drained-IsSound refl 0 (omega arith)
