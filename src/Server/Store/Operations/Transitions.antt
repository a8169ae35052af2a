-- ===== src/Server/Store/Operations/Transitions.antt =====
-- The transactions of crates/server/src/store/postgres.rs that change statuses, and the relation of
-- a campaign's status to its run's.
use soro_fuzz.Base.{
  ℕ, ◌≡◌, ◌≢◌, refl, ap, sym, subst, ◌∙◌, Bool, true, false, ◌&&◌, ◌||◌, some, List, inl, inr,
  Bool-cases, Option-cases, arith, String, string_eq, Eq, ◌==◌, eq_of_beq,
}
use soro_fuzz.Server.Store.{
  CampaignStatus, is_terminal, RunStatus, RunFinishStatus, run_status, campaign_status, RunFinish,
}
use soro_fuzz.Server.Store.Tables.{CampaignRow, RunRow, Tables, select_where, first_row}
use soro_fuzz.Server.Store.Operations.{
  is_pending, is_running, is_queued, is_run_pending, is_run_running, get_campaign, cancel_rows,
  cancel_campaign, claim_job, start_run, finish_run, finish_rows, run_exists, is_empty,
  campaign_set, run_cancelled, run_started, run_finished,
}
use soro_fuzz.Server.Store.Operations.Lists.{IsIn, first_selected}
use soro_fuzz.Server.Store.Operations.Mirror.{mirror, Consistent, update_rows, unchanged-Consistent}

true_ne_false : true ≢ false
true_ne_false p = ground arith

and_split : (a b : Bool) → (a && b) ≡ true → (a ≡ true) × (b ≡ true)
and_split a b h = ground arith

pending_status : (s : RunStatus) → is_pending s ≡ true → s ≡ RunStatus.pending
unfolding is_pending
pending_status RunStatus.pending h = refl
pending_status _ h = ground arith

running_status : (s : RunStatus) → is_running s ≡ true → s ≡ RunStatus.running
unfolding is_running
running_status RunStatus.running h = refl
running_status _ h = ground arith

campaign_status-mirror : (s : RunFinishStatus) → campaign_status s ≡ mirror (run_status s)
unfolding campaign_status run_status mirror
campaign_status-mirror RunFinishStatus.completed = refl
campaign_status-mirror RunFinishStatus.cancelled = refl
campaign_status-mirror RunFinishStatus.failed = refl

module _ {Uuid : Type 0} ⦃e : Eq Uuid⦄ where
  cancel_rows-Consistent :
      (now : ℕ) (id : Uuid) (t : Tables Uuid) → Consistent t → Consistent (cancel_rows now id t)
  unfolding cancel_rows mirror
  cancel_rows-Consistent now id t k =
      update_rows t (cancel_rows now id t) (λ c. c.id == id)
        (campaign_set CampaignStatus.cancelled now) (λ r. r.campaign_id == id) (run_cancelled now)
        refl refl (λ c. refl) (λ r. (refl, refl))
        (λ c r ic ir together same. elim (Bool-cases (c.id == id)) [
          | inl yes_ ↦ rw (together, yes_)
          | inr no_ ↦ rw (together, no_) same
        ])
        k

  pub cancel_campaign-Consistent :
      (now : ℕ) (id : Uuid) (t : Tables Uuid)
      → Consistent t
      → Consistent (cancel_campaign now id t).1
  unfolding cancel_campaign
  cancel_campaign-Consistent now id t k = elim (Option-cases (get_campaign id t)) [
    | inl absent ↦ rw (absent, cancel_campaign) k
    | inr (current, found) ↦ elim (Bool-cases (is_terminal current.status)) [
      | inl over ↦ rw (found, cancel_campaign) (rw over k)
      | inr open_ ↦ rw (found, cancel_campaign) (rw open_ (cancel_rows-Consistent now id t k))
    ]
  ]

  pub claim_job-Consistent :
      (now : ℕ) (worker : String) (t : Tables Uuid)
      → Consistent t
      → Consistent (claim_job now worker t).1
  unfolding claim_job
  claim_job-Consistent now worker t k =
      unchanged-Consistent t (claim_job now worker t).1 (ground arith) (ground arith) k

  -- Of two rows with the run's id there is only one, and only one campaign has it.
  module _ (t : Tables Uuid) (k : Consistent t) (run_id : Uuid) (run : RunRow Uuid)
      (here : IsIn run t.runs) (named : run.id ≡ run_id) where
    the_run : (r : RunRow Uuid) → IsIn r t.runs → (r.id == run_id) ≡ true → r ≡ run
    the_run r ir same = k.one_row r run ir here (eq_of_beq r.id run_id same ∙ sym named)

    the_campaign :
        (c : CampaignRow Uuid) (r : RunRow Uuid)
        → IsIn r t.runs
        → r.campaign_id ≡ c.id
        → (c.id == run.campaign_id) ≡ true
        → r ≡ run
    the_campaign c r ir together same =
        k.one_run r run ir here (together ∙ eq_of_beq c.id run.campaign_id same)

    -- A run with the id is the run, and its campaign's status is the mirror of its status.
    module _ (c : CampaignRow Uuid) (r : RunRow Uuid) (ic : IsIn c t.campaigns) (ir : IsIn r t.runs)
        (together : r.campaign_id ≡ c.id) where
      -- The campaign of the run is named by its row, and no other campaign is.
      named_apart : (c.id == run.campaign_id) ≡ false → (r.id == run_id) ≡ false
      named_apart apart = elim (Bool-cases (r.id == run_id)) [
        | inl same ↦
            let campaign = sym together ∙ ap (λ x. x.campaign_id) (the_run r ir same) in
            let yes_ = (e.beq_iff c.id run.campaign_id).1 campaign in
            absurd (true_ne_false (sym yes_ ∙ apart))
        | inr other ↦ other
      ]

      named_same :
          (c.id == run.campaign_id) ≡ true
          → ((r.id == run_id) ≡ true) × (r.status ≡ run.status) × (c.status ≡ mirror run.status)
      named_same same =
          let is = the_campaign c r ir together same in
          (
            (e.beq_iff r.id run_id).1 (ap (λ x. x.id) is ∙ named),
            ap (λ x. x.status) is,
            k.mirrored c r ic ir together ∙ ap (λ x. mirror x.status) is,
          )

  pub start_run-Consistent :
      (now : ℕ) (run_id : Uuid) (worker : String) (t : Tables Uuid)
      → Consistent t
      → Consistent (start_run now run_id worker t).1
  unfolding start_run is_queued is_pending mirror
  start_run-Consistent now run_id worker t k =
      elim (Option-cases (first_row (select_where (is_run_pending run_id) t.runs))) [
        | inl absent ↦ rw (absent, start_run) k
        | inr (run, found) ↦
            let (here, holds) = first_selected (is_run_pending run_id) run t.runs found in
            let (is, status) = and_split (run.id == run_id) (is_pending run.status) holds in
            let named = eq_of_beq run.id run_id is in
            let st = pending_status run.status status in
            rw (found, start_run)
              (update_rows t _ (λ c. c.id == run.campaign_id && is_queued c.status)
                (campaign_set CampaignStatus.running now) (is_run_pending run_id)
                (run_started now worker) refl refl (λ c. refl) (λ r. (refl, refl))
                (λ c r ic ir together same. elim (Bool-cases (c.id == run.campaign_id)) [
                  | inl yes_ ↦
                      let (r_is, r_st, c_st) =
                        named_same t k run_id run here named c r ic ir together yes_ in
                      let c_q : is_queued c.status ≡ true = ap is_queued (c_st ∙ ap mirror st) in
                      let r_p : is_pending r.status ≡ true = ap is_pending (r_st ∙ st) in
                      rw (yes_, c_q, r_is, r_p)
                  | inr no_ ↦
                      let r_no = named_apart t k run_id run here named c r ic ir together no_ in
                      rw (no_, r_no) same
                ])
                k)
      ]

  finish_rows-Consistent :
      (now : ℕ) (run_id : Uuid) (ids : List Uuid) (finish : RunFinish) (t : Tables Uuid)
      → Consistent t
      → Consistent (finish_rows now run_id ids finish t)
  unfolding finish_rows is_running mirror
  finish_rows-Consistent now run_id ids finish t k =
      elim (Option-cases (first_row (select_where (is_run_running run_id) t.runs))) [
        | inl absent ↦ rw (absent, finish_rows) (unchanged-Consistent t _ refl refl k)
        | inr (run, found) ↦
            let (here, holds) = first_selected (is_run_running run_id) run t.runs found in
            let (is, status) = and_split (run.id == run_id) (is_running run.status) holds in
            let named = eq_of_beq run.id run_id is in
            let st = running_status run.status status in
            rw (found, finish_rows)
              (update_rows t _ (λ c. c.id == run.campaign_id)
                (campaign_set (campaign_status finish.status) now) (is_run_running run_id)
                (run_finished now finish) refl refl (λ c. refl) (λ r. (refl, refl))
                (λ c r ic ir together same. elim (Bool-cases (c.id == run.campaign_id)) [
                  | inl yes_ ↦
                      let (r_is, r_st, c_st) =
                        named_same t k run_id run here named c r ic ir together yes_ in
                      let r_p : is_running r.status ≡ true = ap is_running (r_st ∙ st) in
                      rw (yes_, r_is, r_p) (campaign_status-mirror finish.status)
                  | inr no_ ↦
                      let r_no = named_apart t k run_id run here named c r ic ir together no_ in
                      rw (no_, r_no) same
                ])
                k)
      ]

  pub finish_run-Consistent :
      (now : ℕ) (run_id : Uuid) (ids : List Uuid) (finish : RunFinish) (t t' : Tables Uuid)
      → finish_run now run_id ids finish t ≡ some t'
      → Consistent t
      → Consistent t'
  unfolding finish_run
  finish_run-Consistent now run_id ids finish t t' made k =
      elim (Bool-cases (is_empty finish.findings || run_exists run_id t.runs)) [
        | inl kept ↦
            let same : finish_rows now run_id ids finish t ≡ t' = ground (arith, kept, made) in
            subst Consistent same (finish_rows-Consistent now run_id ids finish t k)
        | inr refused ↦ ground (arith, refused, made)
      ]
