-- ===== src/Setup/Tables.antt =====
-- The steps of ffinit of src/ff.c that fill the table of requests and those of operators.
use fflib.Base.{
  leb, none, if◌then◌else◌, ℕ, zero, suc, ◌+◌, ◌<◌, ◌≡◌, refl, sym, ap, ◌∙◌, subst, Option, some,
  List, [], ◌∷◌, arith, ℤ, ffsuccess, fferror, false, true, Bool, ◌>>=◌, ◌||◌, Bool-cases, inl, inr,
  some_eq,
}
use fflib.Arman.{Entry}
use fflib.Gcomp.Operator
use fflib.Gcomp.Operator.{Operators, built_in, ffsum, ffidentity}
use fflib.Gcomp.Operator.Custom.{IsCustom}
use fflib.Gcomp.Operator.Start.{init-IsCustom}
use fflib.Mpi.Progresser
use fflib.Mpi.Progresser.{Table, ffmpi_max_req}
use fflib.Mpi.Progresser.Slots.{IsTable}
use fflib.Mpi.Progresser.Start.{init-IsTable}
use fflib.Binding.{mpi_progresser}
use fflib.Setup.{
  Host, Library, as_success, MpiCall, init_thread, sum_function, copy_function, gcomp_start,
  mpi_start, progresser_init, init_progressers, thread_start,
}
use fflib.Setup.Parts.{OnlyMpi, mine}

table_init :
    (m : ℕ → Entry) (t : Table)
    → (u : Table) × (Progresser.init (some m) t ≡ some (u, ffsuccess))
      × ((who : ℕ → ℕ) → IsTable who [] u)
table_init m t =
    let (u, done, v, top) = init-IsTable (λ a. a) m t in
    (
      u,
      done,
      λ who.
          let (u', done', v', top') = init-IsTable who m t in
          subst (IsTable who []) (ap (λ (r : Table × ℤ). r.0) (some_eq (sym done' ∙ done))) v',
    )

operators_init :
    (m : ℕ → Entry) (s : Operators)
    → (t : Operators) × (Operator.init sum_function copy_function (some m) s ≡ some (t, ffsuccess))
      × ((fun : ℕ → ℕ) → IsCustom fun [] t)
      × (t.operators ffsum ≡ built_in ffsum sum_function)
      × (t.operators ffidentity ≡ built_in ffidentity copy_function)
operators_init m s =
    let (t, done, (v, top), sum, identity) =
      init-IsCustom (λ a. a) sum_function copy_function m s in
    (
      t,
      done,
      (λ fun.
          let (t', done', (v', top'), sum', identity') =
            init-IsCustom fun sum_function copy_function m s in
          subst (IsCustom fun []) (ap (λ (r : Operators × ℤ). r.0) (some_eq (sym done' ∙ done)))
            v'),
      sum,
      identity,
    )

succeeds :
    {m : Option (Library × ℤ)} {l : Library} {code : ℤ}
    → m ≡ some (l, code)
    → (m >>= as_success) ≡ some (l, ffsuccess)
succeeds e = ap (λ (o : Option (Library × ℤ)). o >>= as_success) e

module _ (host : Host) where
  one_progresser :
      (m : ℕ → Entry)
      → host.request_entries ≡ some m
      → (l : Library)
      → (t : Table) × (progresser_init host mpi_progresser l
          ≡ some (record l { table = t }, ffsuccess))
        × ((who : ℕ → ℕ) → IsTable who [] t)
  unfolding progresser_init
  one_progresser m e l =
      let (t, done, v) = table_init m l.table in
      (
        t,
        rw e (
            ap
              (λ (o : Option (Table × ℤ)).
                o >>= λ (r : Table × ℤ). some (record l { table = r.0 }, r.1))
              done),
        v,
      )

  -- Each round of the loop initialises the table again.
  progressers_lem :
      (m : ℕ → Entry)
      → host.request_entries ≡ some m
      → (k i : ℕ) (l : Library)
      → ((j : ℕ) → j < i + suc k → l.progressers.progressers j ≡ mpi_progresser)
      → (t : Table) × (init_progressers host i (suc k) l ≡ some (record l { table = t }, true))
        × ((who : ℕ → ℕ) → IsTable who [] t)
  unfolding init_progressers
  progressers_lem m e zero i l only =
      let (t, done, v) = one_progresser m e l in (t, rw (only i (omega arith), done) refl, v)
  progressers_lem m e (suc k) i l only =
      let (t, done, v) = one_progresser m e l in
      let (u, rest, w) =
        progressers_lem m e k (i + 1) (record l { table = t }) (λ j h. only j (omega (arith, h))) in
      (u, rw (only i (omega arith), done) rest, w)

  -- Nobody has set the flag before.
  awaited :
      (l : Library)
      → l.progresser_ready ≡ false
      → thread_start host l ≡ (
          init_progressers host 0 l.progressers.progressers_count l >>= λ (r : Library × Bool).
          if r.1 then some (record r.0 { progresser_ready = true }, ffsuccess) else none)
  unfolding thread_start
  awaited l fresh =
      ap
        (λ (c : Bool).
          if c
          then (init_progressers host 0
                (if leb host.ahead l.progressers.progressers_count
                  then host.ahead
                  else l.progressers.progressers_count)
                l
              >>= λ (r : Library × Bool). some (r.0, ffsuccess))
          else (init_progressers host 0 l.progressers.progressers_count l
              >>= λ (r : Library × Bool).
                  if r.1 then some (record r.0 { progresser_ready = true }, ffsuccess) else none))
        fresh

  pub thread_lem :
      (m : ℕ → Entry)
      → host.request_entries ≡ some m
      → (k : ℕ) (l : Library) → l.progressers.progressers_count ≡ suc k
      → l.progresser_ready ≡ false
      → OnlyMpi l.progressers
      → (t : Table) × (thread_start host l
          ≡ some (record l { table = t; progresser_ready = true }, ffsuccess))
        × ((who : ℕ → ℕ) → IsTable who [] t)
  thread_lem m e k l count fresh only =
      let (t, done, v) = progressers_lem m e k 0 l (λ j h. only j (omega (arith, count, h))) in
      let all = ap (λ c. init_progressers host 0 c l) count ∙ done in
      (t, awaited l fresh ∙ rw all refl, v)

  gcomp_lem :
      (m : ℕ → Entry)
      → host.operator_entries ≡ some m
      → (l : Library)
      → (t : Operators) × (gcomp_start host l ≡ some (record l { operators = t }, ffsuccess))
        × ((fun : ℕ → ℕ) → IsCustom fun [] t)
        × (t.operators ffsum ≡ built_in ffsum sum_function)
        × (t.operators ffidentity ≡ built_in ffidentity copy_function)
  unfolding gcomp_start
  gcomp_lem m e l =
      let (t, done, v, sum, identity) = operators_init m l.operators in
      (
        t,
        rw e (
            ap
              (λ (o : Option (Operators × ℤ)).
                o >>= λ (r : Operators × ℤ). some (record l { operators = r.0 }, r.1))
              done),
        v,
        sum,
        identity,
      )

  mpi_found :
      (l : Library)
      → host.initialized ≡ true
      → mpi_start host l ≡ (gcomp_start host l >>= as_success)
  unfolding mpi_start
  mpi_found l found = rw found refl

  mpi_fresh :
      (l : Library)
      → host.initialized ≡ false
      → host.thread_multiple ≡ true
      → mpi_start host l ≡ (gcomp_start host (mine l) >>= as_success)
  unfolding mpi_start
  mpi_fresh l fresh serves = rw (fresh, serves) refl

  pub mpi_single :
      (l : Library)
      → host.initialized ≡ false
      → host.thread_multiple ≡ false
      → mpi_start host l ≡ some (mine l, fferror)
  unfolding mpi_start
  mpi_single l fresh single = rw (fresh, single) refl

  -- With MPI_THREAD_MULTIPLE, `ffmpi_init` ends with the tables of operators.
  pub mpi_lem :
      (m : ℕ → Entry)
      → host.operator_entries ≡ some m
      → (host.initialized || host.thread_multiple) ≡ true
      → (l : Library)
      → (b : Bool) × (c : List MpiCall) × (t : Operators) × (mpi_start host l
          ≡ some (record l { operators = t; init_by_me = b; mpi_calls = c }, ffsuccess))
        × ((fun : ℕ → ℕ) → IsCustom fun [] t)
        × (t.operators ffsum ≡ built_in ffsum sum_function)
        × (t.operators ffidentity ≡ built_in ffidentity copy_function)
  mpi_lem m e threads l = elim (Bool-cases host.initialized) [
    | inl found ↦
        let (t, done, v, sum, identity) = gcomp_lem m e l in
        (l.init_by_me, l.mpi_calls, t, mpi_found l found ∙ succeeds done, v, sum, identity)
    | inr fresh ↦
        let serves : host.thread_multiple ≡ true = rw fresh at threads in
        let (t, done, v, sum, identity) = gcomp_lem m e (mine l) in
        (
          true,
          init_thread ∷ l.mpi_calls,
          t,
          mpi_fresh l fresh serves ∙ succeeds done,
          v,
          sum,
          identity,
        )
  ]
