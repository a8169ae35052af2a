-- ===== src/Server/Store/Operations/Ended.antt =====
-- `finish_run` of crates/server/src/store/postgres.rs on a run that was started.
use soro_fuzz.Base.{
  ℕ, ◌≡◌, refl, ap, sym, ◌∙◌, Bool, true, false, some, List, [], ◌∷◌, inl, inr, Option-cases, arith,
  Eq, ◌||◌,
}
use soro_fuzz.Server.Store.{RunStatus, RunFinishStatus, run_status, RunFinish}
use soro_fuzz.Server.Store.Tables.{RunRow, Tables, select_where, first_row}
use soro_fuzz.Server.Store.Operations.{
  is_pending, is_running, is_run_running, finish_rows, finish_run, run_finished, is_empty,
  run_exists,
}
use soro_fuzz.Server.Store.Operations.Lists.{IsIn, none_selected}
use soro_fuzz.Server.Store.Operations.Outcomes.{IsOver}
use soro_fuzz.Server.Store.Operations.Runs.{IsStarted, IsEnded, updated_has, updated_all}

pub finish-IsOver : (s : RunFinishStatus) → IsOver (run_status s)
unfolding run_status
finish-IsOver RunFinishStatus.completed = tt
finish-IsOver _ = tt

IsOver-of_neither : (s : RunStatus) → is_pending s ≡ false → is_running s ≡ false → IsOver s
unfolding is_pending is_running
IsOver-of_neither RunStatus.pending h k = absurd (ground (arith, h))
IsOver-of_neither RunStatus.running h k = absurd (ground (arith, k))
IsOver-of_neither _ h k = tt

module _ {Uuid : Type 0} ⦃e : Eq Uuid⦄ where
  run_exists_of :
      (run_id : Uuid) (r : RunRow Uuid) (l : List (RunRow Uuid))
      → IsIn r l
      → r.id ≡ run_id
      → run_exists run_id l ≡ true
  unfolding run_exists
  run_exists_of run_id r [] h named = absurd h
  run_exists_of run_id r (x ∷ l) (inl same) named =
      ground (arith, (e.beq_iff x.id run_id).1 (ap (λ (z : RunRow Uuid). z.id) (sym same) ∙ named))
  run_exists_of run_id r (x ∷ l) (inr later) named =
      ground (arith, run_exists_of run_id r l later named)

  finish_rows-IsEnded :
      (now : ℕ) (run_id : Uuid) (ids : List Uuid) (finish : RunFinish) (t : Tables Uuid)
      → IsStarted run_id t.runs
      → IsEnded run_id (finish_rows now run_id ids finish t).runs
  unfolding finish_rows
  finish_rows-IsEnded now run_id ids finish t ((r, ir, named), all) =
      elim (Option-cases (first_row (select_where (is_run_running run_id) t.runs))) [
        | inl absent ↦
            rw (absent, finish_rows)
              (
                (r, ir, named),
                λ x ix is. IsOver-of_neither x.status (all x ix is) (
                    ground (
                      arith,
                      none_selected (is_run_running run_id) x t.runs absent ix,
                      (e.beq_iff x.id run_id).1 is,
                    )),
              )
        | inr (run, found) ↦
            rw (found, finish_rows)
              (
                updated_has (is_run_running run_id) (run_finished now finish) (λ z. refl) run_id
                    t.runs r ir named,
                updated_all (is_run_running run_id) (run_finished now finish) (λ z. refl) run_id
                    t.runs IsOver (λ z iz nz yes_. finish-IsOver finish.status)
                    (λ z iz nz no_.
                      IsOver-of_neither z.status (all z iz nz)
                        (ground (arith, no_, (e.beq_iff z.id run_id).1 nz))),
              )
      ]

  -- Finishing a run that was started succeeds, and ends it.
  pub finish_run-IsEnded :
      (now : ℕ) (run_id : Uuid) (ids : List Uuid) (finish : RunFinish) (t : Tables Uuid)
      → IsStarted run_id t.runs
      → (t' : Tables Uuid) × (finish_run now run_id ids finish t ≡ some t') × IsEnded run_id t'.runs
  unfolding finish_run
  finish_run-IsEnded now run_id ids finish t ((r, ir, named), all) = (
    finish_rows now run_id ids finish t,
    rw (run_exists_of run_id r t.runs ir named, or_true (is_empty finish.findings)),
    finish_rows-IsEnded now run_id ids finish t ((r, ir, named), all),
  )
    where
      or_true : (b : Bool) → (b || true) ≡ true
      or_true b = ground arith
