-- ===== src/Server/Store/Operations/Overlap.antt =====
-- `cancel_campaign` of crates/server/src/store/postgres.rs when another transaction is committed
-- between its read and its updates.
use soro_fuzz.Base.{
  ℕ, ◌≡◌, refl, ap, sym, ◌∙◌, subst, true, false, some, List, [], ◌∷◌, ◌++◌, inl, inr, Bool-cases,
  Option-cases, arith, Eq, ◌==◌, if◌then◌else◌,
}
use soro_fuzz.Server.Store.{is_terminal, RunStatus, RunFinish, CampaignRecord}
use soro_fuzz.Server.Store.Tables.{
  CampaignRow, RunRow, Tables, select_where, first_row, update_where,
}
use soro_fuzz.Server.Store.Operations.{
  is_running, is_run_running, with_runs, campaigns_with_runs, get_campaign, cancel_rows,
  run_cancelled, cancel_campaign, finish_rows, finish_run, run_finished,
}
use soro_fuzz.Server.Store.Operations.Lists.{IsIn, IsIn-selected, IsIn-updated, none_selected}
use soro_fuzz.Server.Store.Operations.Mirror.{mirror}
use soro_fuzz.Server.Store.Operations.Reachable.{
  cancels, finishes, Reachable, after, Reachable-Consistent, get_campaign_row,
}
use soro_fuzz.Server.Store.Operations.Outcomes.{IsOver, finish_run-rows, over_stays}
use soro_fuzz.Server.Store.Operations.Ended.{finish-IsOver}

first_row-append :
    {A : Type 0} (l m : List A) (y : A)
    → first_row m ≡ some y
    → (x : A) × (first_row (l ++ m) ≡ some x)
first_row-append [] m y h = (y, h)
first_row-append (x ∷ l) m y h = (x, refl)

running_not_terminal : (s : RunStatus) → is_running s ≡ true → is_terminal (mirror s) ≡ false
unfolding is_running is_terminal mirror
running_not_terminal RunStatus.running h = refl
running_not_terminal _ h = ground (arith, h)

module _ {Uuid : Type 0} ⦃e : Eq Uuid⦄ where
  with_runs-some :
      (c : CampaignRow Uuid) (r : RunRow Uuid) (runs : List (RunRow Uuid))
      (rest : List (CampaignRecord Uuid))
      → IsIn r runs
      → r.campaign_id ≡ c.id
      → (x : CampaignRecord Uuid) × (first_row (with_runs c runs ++ rest) ≡ some x)
  unfolding with_runs
  with_runs-some c r [] rest h same = absurd h
  with_runs-some c r (s ∷ runs) rest h same = elim (Bool-cases (s.campaign_id == c.id)) [
    | inl yes_ ↦ rw yes_ (_, refl)
    | inr no_ ↦ elim h [
      | inl here ↦
          let is = (e.beq_iff s.campaign_id c.id).1 (ap (λ x. x.campaign_id) (sym here) ∙ same) in
          absurd (ground (arith, is, no_))
      | inr later ↦ rw no_ (with_runs-some c r runs rest later same)
    ]
  ]

  joined_found :
      (c : CampaignRow Uuid) (r : RunRow Uuid) (cs : List (CampaignRow Uuid))
      (runs : List (RunRow Uuid))
      → IsIn c cs
      → IsIn r runs
      → r.campaign_id ≡ c.id
      → (x : CampaignRecord Uuid) × (first_row (campaigns_with_runs cs runs) ≡ some x)
  unfolding campaigns_with_runs
  joined_found c r [] runs h ir same = absurd h
  joined_found c r (d ∷ cs) runs h ir same = elim h [
    | inl here ↦
        with_runs-some d r runs (campaigns_with_runs cs runs) ir (same ∙ ap (λ x. x.id) here)
    | inr later ↦
        let (y, found) = joined_found c r cs runs later ir same in
        first_row-append (with_runs d runs) (campaigns_with_runs cs runs) y found
  ]

  finish_rows_finishes :
      (now : ℕ) (ids : List Uuid) (finish : RunFinish) (t : Tables Uuid) (r : RunRow Uuid)
      → IsIn r t.runs
      → is_running r.status ≡ true
      → IsIn (run_finished now finish r) (finish_rows now r.id ids finish t).runs
  unfolding finish_rows
  finish_rows_finishes now ids finish t r ir running =
      let holds : is_run_running r.id r ≡ true =
        ground (arith, running, (e.beq_iff r.id r.id).1 refl) in
      elim (Option-cases (first_row (select_where (is_run_running r.id) t.runs))) [
        | inl absent ↦
            let fails = none_selected (is_run_running r.id) r t.runs absent ir in
            absurd (ground (arith, holds, fails))
        | inr (run, found) ↦
            rw (found, finish_rows)
              (subst
                (λ x. IsIn x (update_where (is_run_running r.id) (run_finished now finish) t.runs))
                (ap (λ b. if b then run_finished now finish r else r) holds)
                (IsIn-updated (is_run_running r.id) (run_finished now finish) r t.runs ir))
      ]

  cancel_rows_cancels :
      (now : ℕ) (id : Uuid) (t : Tables Uuid) (r : RunRow Uuid)
      → IsIn r t.runs
      → r.campaign_id ≡ id
      → IsIn (run_cancelled now r) (cancel_rows now id t).runs
  unfolding cancel_rows
  cancel_rows_cancels now id t r ir is =
      subst (λ x. IsIn x (cancel_rows now id t).runs)
        (ap (λ b. if b then run_cancelled now r else r) ((e.beq_iff r.campaign_id id).1 is))
        (IsIn-updated (λ x. x.campaign_id == id) (run_cancelled now) r t.runs ir)

  -- In tables that transactions as wholes have led to, let a run be running, `cancel_campaign` read
  -- its campaign, and `finish_run` of the run be committed before the updates of `cancel_campaign`.
  -- Then the read has found a campaign that is not over, on which `cancel_campaign` goes on to its
  -- updates; `finish_run` has left the run over; and the updates overwrite it as cancelled. If
  -- `cancel_campaign` had come after `finish_run` as a whole, the run would have stayed as
  -- `finish_run` left it.
  pub cancel_rows_overwrites :
      {t t' : Tables Uuid} (now later : ℕ) (ids : List Uuid) (finish : RunFinish) (r : RunRow Uuid)
      → Reachable t
      → IsIn r t.runs
      → is_running r.status ≡ true
      → finish_run now r.id ids finish t ≡ some t'
      → ((current : CampaignRecord Uuid) × (get_campaign r.campaign_id t ≡ some current)
          × (is_terminal current.status ≡ false))
        × ((cancel_campaign later r.campaign_id t).1 ≡ cancel_rows later r.campaign_id t)
        × IsOver (run_finished now finish r).status
        × IsIn (run_finished now finish r) t'.runs
        × IsIn
            (run_cancelled later (run_finished now finish r))
            (cancel_rows later r.campaign_id t').runs
        × IsIn (run_finished now finish r) (cancel_campaign later r.campaign_id t').1.runs
  unfolding get_campaign cancel_campaign
  cancel_rows_overwrites {t} {t'} now later ids finish r h ir running made =
      let k = Reachable-Consistent h in
      let (c, ic, named) = k.refers r ir in
      let chosen =
        IsIn-selected (λ d. d.id == r.campaign_id) c t.campaigns ic
          ((e.beq_iff c.id r.campaign_id).1 named) in
      let (current, found) = joined_found c r _ t.runs chosen ir (sym named) in
      let (d, id_, is, status) = get_campaign_row r.campaign_id t current found in
      let mirrors = k.mirrored d r id_ ir (sym is) in
      let open_ = ap is_terminal (sym status ∙ mirrors) ∙ running_not_terminal r.status running in
      let over = finish-IsOver finish.status in
      let kept : IsIn (run_finished now finish r) t'.runs =
        subst (λ x. IsIn (run_finished now finish r) x.runs)
          (finish_run-rows now r.id ids finish t t' made)
          (finish_rows_finishes now ids finish t r ir running) in
      (
        (current, found, open_),
        rw (found, cancel_campaign) (rw open_ refl),
        over,
        kept,
        cancel_rows_cancels later r.campaign_id t' (run_finished now finish r) kept refl,
        over_stays (after h (finishes now r.id ids finish made)) (cancels later r.campaign_id)
            (run_finished now finish r) kept over,
      )
