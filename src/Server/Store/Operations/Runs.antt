-- ===== src/Server/Store/Operations/Runs.antt =====
-- How far a run has come in crates/server/src/store/postgres.rs, whatever transactions follow.
use soro_fuzz.Base.{
  ℕ, ◌≡◌, refl, ap, sym, subst, ◌∙◌, Bool, true, false, List, [], ◌∷◌, inl, inr, Bool-cases,
  Option-cases, arith, String, Eq, ◌==◌, eq_of_beq, if◌then◌else◌,
}
use soro_fuzz.Server.Store.{is_terminal, RunStatus, RunFinishStatus, run_status, RunFinish}
use soro_fuzz.Server.Store.Tables.{RunRow, Tables, select_where, first_row, update_where}
use soro_fuzz.Server.Store.Operations.{
  is_pending, is_run_pending, is_run_running, get_campaign, insert_rows, new_run_row, sync_targets,
  cancel_rows, run_cancelled, cancel_campaign, start_run, run_started, finish_rows, run_finished,
}
use soro_fuzz.Server.Store.Operations.Lists.{
  IsIn, IsIn-append_left, IsIn-append_split, IsIn-updated, IsIn-update_where, first_selected,
}
use soro_fuzz.Server.Store.Operations.Reachable.{
  Does, syncs, creates, cancels, claims, starts, finishes, create_campaign-insert_rows,
}
use soro_fuzz.Server.Store.Operations.Outcomes.{IsOver, claim_runs, finish_run-rows}

abbrev NotPending : RunStatus → Type 0
NotPending s = is_pending s ≡ false

pub finish_not_pending : (s : RunFinishStatus) → is_pending (run_status s) ≡ false
unfolding is_pending run_status
finish_not_pending RunFinishStatus.completed = refl
finish_not_pending _ = refl

module _ {Uuid : Type 0} ⦃e : Eq Uuid⦄ where
  abbrev pub HasRun : Uuid → List (RunRow Uuid) → Type 0
  HasRun run_id runs = (r : RunRow Uuid) × IsIn r runs × (r.id ≡ run_id)

  -- The run is there, and pending no longer.
  abbrev pub IsStarted : Uuid → List (RunRow Uuid) → Type 0
  IsStarted run_id runs =
      HasRun run_id runs
      × ((r : RunRow Uuid) → IsIn r runs → r.id ≡ run_id → is_pending r.status ≡ false)

  -- The run is there, and completed, cancelled or failed.
  abbrev pub IsEnded : Uuid → List (RunRow Uuid) → Type 0
  IsEnded run_id runs =
      HasRun run_id runs × ((r : RunRow Uuid) → IsIn r runs → r.id ≡ run_id → IsOver r.status)

  module _ (p : RunRow Uuid → Bool) (f : RunRow Uuid → RunRow Uuid)
      (same_id : (r : RunRow Uuid) → (f r).id ≡ r.id) (run_id : Uuid) (l : List (RunRow Uuid)) where
    pub updated_has :
        (r : RunRow Uuid)
        → IsIn r l
        → r.id ≡ run_id
        → (x : RunRow Uuid) × IsIn x (update_where p f l) × (x.id ≡ run_id)
    updated_has r h named = (
      if p r then f r else r,
      IsIn-updated p f r l h,
      elim (Bool-cases (p r)) [ inl yes_ ↦ rw yes_ (same_id r ∙ named) | inr no_ ↦ rw no_ named ],
    )

    -- What holds of the status of every row that is selected, after the update, and of every other
    -- row before it, holds of all rows after it.
    pub updated_all :
        (P : RunStatus → Type 0)
        → ((r : RunRow Uuid) → IsIn r l → r.id ≡ run_id → p r ≡ true → P (f r).status)
        → ((r : RunRow Uuid) → IsIn r l → r.id ≡ run_id → p r ≡ false → P r.status)
        → (x : RunRow Uuid) → IsIn x (update_where p f l)
        → x.id ≡ run_id
        → P x.status
    updated_all P selected other x h named =
        let (y, here, is) = IsIn-update_where p f x l h in
        elim (Bool-cases (p y)) [
          | inl yes_ ↦
              let x_is : x ≡ f y = rw yes_ at is in
              subst (λ z. P z.status) (sym x_is)
                (selected y here (sym (same_id y) ∙ ap (λ z. z.id) (sym x_is) ∙ named) yes_)
          | inr no_ ↦
              let x_is : x ≡ y = rw no_ at is in
              subst (λ z. P z.status) (sym x_is)
                (other y here (ap (λ z. z.id) (sym x_is) ∙ named) no_)
        ]

  -- An update after which no selected row is pending.
  update-IsStarted :
      (p : RunRow Uuid → Bool) (f : RunRow Uuid → RunRow Uuid)
      → ((r : RunRow Uuid) → (f r).id ≡ r.id)
      → ((r : RunRow Uuid) → is_pending (f r).status ≡ false)
      → (run_id : Uuid) (l : List (RunRow Uuid)) → IsStarted run_id l
      → IsStarted run_id (update_where p f l)
  update-IsStarted p f same_id done run_id l ((r, ir, named), all) = (
    updated_has p f same_id run_id l r ir named,
    updated_all p f same_id run_id l NotPending (λ z iz nz yes_. done z)
        (λ z iz nz no_. all z iz nz),
  )

  start-IsStarted :
      (now : ℕ) (run_id other : Uuid) (worker : String) (t : Tables Uuid)
      → IsStarted run_id t.runs
      → IsStarted run_id (start_run now other worker t).1.runs
  unfolding start_run is_pending
  start-IsStarted now run_id other worker t h =
      elim (Option-cases (first_row (select_where (is_run_pending other) t.runs))) [
        | inl absent ↦ rw (absent, start_run) h
        | inr (run, found) ↦
            rw (found, start_run)
              (update-IsStarted (is_run_pending other) (run_started now worker) (λ r. refl)
                (λ r. refl) run_id t.runs h)
      ]

  finish-IsStarted :
      (now : ℕ) (run_id other : Uuid) (ids : List Uuid) (finish : RunFinish) (t : Tables Uuid)
      → IsStarted run_id t.runs
      → IsStarted run_id (finish_rows now other ids finish t).runs
  unfolding finish_rows
  finish-IsStarted now run_id other ids finish t h =
      elim (Option-cases (first_row (select_where (is_run_running other) t.runs))) [
        | inl absent ↦ rw (absent, finish_rows) h
        | inr (run, found) ↦
            rw (found, finish_rows)
              (update-IsStarted (is_run_running other) (run_finished now finish) (λ r. refl)
                (λ r. finish_not_pending finish.status) run_id t.runs h)
      ]

  cancel-IsStarted :
      (now : ℕ) (run_id id : Uuid) (t : Tables Uuid)
      → IsStarted run_id t.runs
      → IsStarted run_id (cancel_campaign now id t).1.runs
  unfolding cancel_campaign cancel_rows is_pending
  cancel-IsStarted now run_id id t h = elim (Option-cases (get_campaign id t)) [
    | inl absent ↦ rw (absent, cancel_campaign) h
    | inr (current, found) ↦ elim (Bool-cases (is_terminal current.status)) [
      | inl ended ↦ rw (found, cancel_campaign) (rw ended h)
      | inr open_ ↦
          rw (found, cancel_campaign)
            (rw open_ (
              update-IsStarted (λ r. r.campaign_id == id) (run_cancelled now) (λ r. refl)
                (λ r. refl) run_id t.runs h))
    ]
  ]

  -- A run that was started stays so: no transaction makes it pending again.
  pub Does-IsStarted :
      {t t' : Tables Uuid} (run_id : Uuid)
      → Does t t'
      → IsStarted run_id t.runs
      → IsStarted run_id t'.runs
  unfolding insert_rows sync_targets
  Does-IsStarted {t} run_id (syncs targets) h = h
  Does-IsStarted {t} run_id (cancels now id) h = cancel-IsStarted now run_id id t h
  Does-IsStarted {t} run_id (claims now worker) h = rw (claim_runs now worker t) h
  Does-IsStarted {t} run_id (starts now other worker) h =
      start-IsStarted now run_id other worker t h
  Does-IsStarted {t} {t'} run_id (finishes now other ids finish made) h =
      subst (λ x. IsStarted run_id x.runs) (finish_run-rows now other ids finish t t' made)
        (finish-IsStarted now run_id other ids finish t h)
  Does-IsStarted {t} {t'} run_id (creates now c r0 j input row (fresh_c, fresh_r) made)
        ((r, ir, named), all) =
      subst (λ x. IsStarted run_id x.runs)
        (create_campaign-insert_rows now c r0 j input t row t' made)
        (
          (r, IsIn-append_left r t.runs (new_run_row c r0 ∷ []) ir, named),
          λ x ix is. elim (IsIn-append_split x t.runs (new_run_row c r0 ∷ []) ix) [
            | inl old ↦ all x old is
            | inr new ↦ elim new [
              | inr none_ ↦ absurd none_
              | inl same ↦
                  absurd (fresh_r r ir (named ∙ sym is ∙ ap (λ (z : RunRow Uuid). z.id) same))
            ]
          ],
        )

  -- Once `start_run` has returned true, the run is started.
  pub start_run-IsStarted :
      (now : ℕ) (run_id : Uuid) (worker : String) (t : Tables Uuid)
      → (start_run now run_id worker t).0 ≡ true
      → IsStarted run_id (start_run now run_id worker t).1.runs
  unfolding start_run is_pending
  start_run-IsStarted now run_id worker t began =
      elim (Option-cases (first_row (select_where (is_run_pending run_id) t.runs))) [
        | inl absent ↦ ground (arith, absent, began)
        | inr (run, found) ↦
            let (ir, was) = first_selected (is_run_pending run_id) run t.runs found in
            let named = eq_of_beq run.id run_id (ground (arith, was)) in
            rw (found, start_run)
              (
                updated_has (is_run_pending run_id) (run_started now worker) (λ r. refl) run_id
                    t.runs run ir named,
                updated_all (is_run_pending run_id) (run_started now worker) (λ r. refl) run_id
                    t.runs NotPending (λ z iz nz yes_. refl)
                    (λ z iz nz no_. ground (arith, no_, (e.beq_iff z.id run_id).1 nz)),
              )
      ]

  -- The tables after some transactions, in turn.
  pub data Later (t : Tables Uuid) : Tables Uuid → Type 0 where
    same : Later t t
    next : {u v : Tables Uuid} → Later t u → Does u v → Later t v

  pub Later-IsStarted :
      {t t' : Tables Uuid} (run_id : Uuid)
      → Later t t'
      → IsStarted run_id t.runs
      → IsStarted run_id t'.runs
  Later-IsStarted run_id same h = h
  Later-IsStarted run_id (next before d) h =
      Does-IsStarted run_id d (Later-IsStarted run_id before h)
