-- ===== src/Server/Store/Operations/Outcomes.antt =====
-- What single transactions of crates/server/src/store/postgres.rs do to runs that are over.
use soro_fuzz.Base.{
  ℕ, ◌≡◌, refl, ap, sym, subst, ◌∙◌, Bool, true, false, ◌||◌, some, List, [], ◌∷◌, inl, inr,
  Bool-cases, Option-cases, arith, String, Eq, ◌==◌, eq_of_beq, if◌then◌else◌,
}
use soro_fuzz.Server.Store.{is_terminal, RunStatus, RunFinish}
use soro_fuzz.Server.Store.Tables.{RunRow, Tables, select_where, first_row, update_where}
use soro_fuzz.Server.Store.Operations.{
  is_pending, is_running, is_run_pending, is_run_running, get_campaign, sync_targets, insert_rows,
  new_run_row, cancel_rows, run_cancelled, cancel_campaign, claim_job, start_run, run_started,
  finish_rows, finish_run, run_finished, is_empty, run_exists,
}
use soro_fuzz.Server.Store.Operations.Lists.{IsIn, IsIn-append_left, IsIn-updated}
use soro_fuzz.Server.Store.Operations.Mirror.{mirror, Consistent}
use soro_fuzz.Server.Store.Operations.Reachable.{
  Does, syncs, creates, cancels, claims, starts, finishes, Reachable, Reachable-Consistent,
  get_campaign_row, create_campaign-insert_rows,
}

-- A run that is over.
abbrev pub IsOver : RunStatus → Type 0
IsOver RunStatus.pending = ⊥
IsOver RunStatus.running = ⊥
IsOver _ = Unit

over_not_pending : (s : RunStatus) → IsOver s → is_pending s ≡ false
unfolding is_pending
over_not_pending RunStatus.pending h = absurd h
over_not_pending _ h = refl

over_not_running : (s : RunStatus) → IsOver s → is_running s ≡ false
unfolding is_running
over_not_running RunStatus.running h = absurd h
over_not_running _ h = refl

over_terminal : (s : RunStatus) → IsOver s → is_terminal (mirror s) ≡ true
unfolding mirror is_terminal
over_terminal RunStatus.pending h = absurd h
over_terminal RunStatus.running h = absurd h
over_terminal _ h = refl

module _ {Uuid : Type 0} ⦃e : Eq Uuid⦄ where
  -- A row that an update does not select stays.
  stays :
      (p : RunRow Uuid → Bool) (f : RunRow Uuid → RunRow Uuid) (r : RunRow Uuid)
      (l : List (RunRow Uuid))
      → IsIn r l
      → p r ≡ false
      → IsIn r (update_where p f l)
  stays p f r l h no_ =
      subst (λ x. IsIn x (update_where p f l)) (ap (λ b. if b then f r else r) no_)
        (IsIn-updated p f r l h)

  cancel_keeps :
      (now : ℕ) (id : Uuid) (t : Tables Uuid) (r : RunRow Uuid)
      → Consistent t
      → IsIn r t.runs
      → IsOver r.status
      → IsIn r (cancel_campaign now id t).1.runs
  unfolding cancel_campaign cancel_rows
  cancel_keeps now id t r k h over = elim (Option-cases (get_campaign id t)) [
    | inl absent ↦ rw (absent, cancel_campaign) h
    | inr (current, found) ↦ elim (Bool-cases (is_terminal current.status)) [
      | inl ended ↦ rw (found, cancel_campaign) (rw ended h)
      | inr open_ ↦ elim (Bool-cases (r.campaign_id == id)) [
        | inr other ↦
            rw (found, cancel_campaign)
              (rw open_ (stays (λ x. x.campaign_id == id) (run_cancelled now) r t.runs h other))
        | inl same ↦
            let (c, ic, named, status) = get_campaign_row id t current found in
            let shown = k.mirrored c r ic h (eq_of_beq r.campaign_id id same ∙ sym named) in
            let ended = ap is_terminal (sym status ∙ shown) ∙ over_terminal r.status over in
            absurd (ground (arith, ended, open_))
      ]
    ]
  ]

  start_keeps :
      (now : ℕ) (run_id : Uuid) (worker : String) (t : Tables Uuid) (r : RunRow Uuid)
      → IsIn r t.runs
      → IsOver r.status
      → IsIn r (start_run now run_id worker t).1.runs
  unfolding start_run
  start_keeps now run_id worker t r h over =
      elim (Option-cases (first_row (select_where (is_run_pending run_id) t.runs))) [
        | inl absent ↦ rw (absent, start_run) h
        | inr (run, found) ↦
            rw (found, start_run)
              (stays (is_run_pending run_id) (run_started now worker) r t.runs h
                (ground (arith, over_not_pending r.status over)))
      ]

  finish_keeps :
      (now : ℕ) (run_id : Uuid) (ids : List Uuid) (finish : RunFinish) (t : Tables Uuid)
      (r : RunRow Uuid)
      → IsIn r t.runs
      → IsOver r.status
      → IsIn r (finish_rows now run_id ids finish t).runs
  unfolding finish_rows
  finish_keeps now run_id ids finish t r h over =
      elim (Option-cases (first_row (select_where (is_run_running run_id) t.runs))) [
        | inl absent ↦ rw (absent, finish_rows) h
        | inr (run, found) ↦
            rw (found, finish_rows)
              (stays (is_run_running run_id) (run_finished now finish) r t.runs h
                (ground (arith, over_not_running r.status over)))
      ]

  pub finish_run-rows :
      (now : ℕ) (run_id : Uuid) (ids : List Uuid) (finish : RunFinish) (t t' : Tables Uuid)
      → finish_run now run_id ids finish t ≡ some t'
      → finish_rows now run_id ids finish t ≡ t'
  unfolding finish_run
  finish_run-rows now run_id ids finish t t' made =
      elim (Bool-cases (is_empty finish.findings || run_exists run_id t.runs)) [
        | inl kept ↦ ground (arith, kept, made)
        | inr refused ↦ ground (arith, refused, made)
      ]

  pub claim_runs :
      (now : ℕ) (worker : String) (t : Tables Uuid) → (claim_job now worker t).1.runs ≡ t.runs
  unfolding claim_job
  claim_runs now worker t = ground arith

  -- In tables that transactions as wholes have led to, a run that is completed, cancelled or failed
  -- keeps its row, with all its columns, through any further transaction as a whole.
  pub over_stays :
      {t t' : Tables Uuid}
      → Reachable t
      → Does t t'
      → (r : RunRow Uuid) → IsIn r t.runs
      → IsOver r.status
      → IsIn r t'.runs
  unfolding insert_rows sync_targets
  over_stays {t} {t'} h (creates now c r0 j input row new made) r ir over =
      subst (λ x. IsIn r x.runs) (create_campaign-insert_rows now c r0 j input t row t' made)
        (IsIn-append_left r t.runs (new_run_row c r0 ∷ []) ir)
  over_stays {t} h (syncs targets) r ir over = ir
  over_stays {t} h (cancels now id) r ir over =
      cancel_keeps now id t r (Reachable-Consistent h) ir over
  over_stays {t} h (claims now worker) r ir over = rw (claim_runs now worker t) ir
  over_stays {t} h (starts now run_id worker) r ir over = start_keeps now run_id worker t r ir over
  over_stays {t} {t'} h (finishes now run_id ids finish made) r ir over =
      subst (λ x. IsIn r x.runs) (finish_run-rows now run_id ids finish t t' made)
        (finish_keeps now run_id ids finish t r ir over)
