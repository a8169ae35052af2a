-- ===== src/Server/Store/Operations/Claims.antt =====
-- `claim_job` of crates/server/src/store/postgres.rs.
use soro_fuzz.Base.{
  ℕ, suc, ◌≤◌, ◌≡◌, ◌≢◌, refl, ap, sym, ◌∙◌, true, false, ◌&&◌, Option, none, some, List, [], ◌∷◌,
  inl, inr, Bool-cases, Option-cases, arith, String, Eq, ◌==◌, eq_of_beq,
}
use soro_fuzz.Server.Store.{RunStatus, ClaimedJob}
use soro_fuzz.Server.Store.Tables.{RunRow, JobRow, Tables, select_where, earliest}
use soro_fuzz.Server.Store.Operations.{is_null, is_pending, is_claimable, claim_job}
use soro_fuzz.Server.Store.Operations.Lists.{
  IsIn, IsIn-update_where, IsIn-select_where, IsIn-selected, IsIn-earliest, earliest_le,
  earliest-none,
}

pending_status : (s : RunStatus) → is_pending s ≡ true → s ≡ RunStatus.pending
unfolding is_pending
pending_status RunStatus.pending h = refl
pending_status _ h = ground arith

module _ {Uuid : Type 0} ⦃e : Eq Uuid⦄ where
  -- A claimable job is unclaimed, and its run is pending.
  claimable_run :
      (runs : List (RunRow Uuid)) (j : JobRow Uuid)
      → is_claimable runs j ≡ true
      → (is_null j.claimed_by ≡ true)
        × ((r : RunRow Uuid) × IsIn r runs × (r.id ≡ j.run_id) × (r.status ≡ RunStatus.pending))
  unfolding is_claimable
  claimable_run [] j h = cc
  claimable_run (r ∷ runs) j h =
      elim (Bool-cases (r.id == j.run_id && is_null j.claimed_by && is_pending r.status)) [
        | inl yes_ ↦
            let same : (r.id == j.run_id) ≡ true = ground (arith, yes_) in
            let unclaimed : is_null j.claimed_by ≡ true = ground (arith, yes_) in
            let pending : is_pending r.status ≡ true = ground (arith, yes_) in
            (
              unclaimed,
              (r, inl refl, eq_of_beq r.id j.run_id same, pending_status r.status pending),
            )
        | inr no_ ↦
            let (unclaimed, (s, is, named, pending)) = claimable_run runs j (rw no_ at h) in
            (unclaimed, (s, inr is, named, pending))
      ]

  module _ (now : ℕ) (worker : String) (t : Tables Uuid) where
    abbrev chosen : Option (JobRow Uuid)
    chosen = earliest (λ j. j.created_at) (select_where (is_claimable t.runs) t.jobs)

    claimed_row :
        (j : ClaimedJob Uuid)
        → (claim_job now worker t).0 ≡ some j
        → (row : JobRow Uuid) × (chosen ≡ some row) × (row.id ≡ j.job_id) × (row.run_id ≡ j.run_id)
    unfolding claim_job
    claimed_row j h = elim (Option-cases chosen) [
      | inl empty ↦ ground (arith, empty, h)
      | inr (row, found) ↦
          let same : some (record {
            job_id = row.id;
            campaign_id = row.campaign_id;
            run_id = row.run_id;
            attempts = suc row.attempts;
          })
              ≡ some j =
            rw (found, claim_job) at h in
          (row, found, ground (arith, same), ground (arith, same))
    ]

    -- A job that is claimed was unclaimed, its run is pending, and no other such job is older; and
    -- if none is claimed then there is no such job.
    pub claim_job_oldest :
        ((j : ClaimedJob Uuid)
          → (claim_job now worker t).0 ≡ some j
          → (row : JobRow Uuid) × IsIn row t.jobs
            × (row.id ≡ j.job_id)
            × (is_null row.claimed_by ≡ true)
            × ((r : RunRow Uuid) × IsIn r t.runs
                × (r.id ≡ j.run_id)
                × (r.status ≡ RunStatus.pending))
            × ((y : JobRow Uuid)
                → IsIn y t.jobs
                → is_claimable t.runs y ≡ true
                → row.created_at ≤ y.created_at))
        × ((claim_job now worker t).0 ≡ none
            → (y : JobRow Uuid) → IsIn y t.jobs
            → is_claimable t.runs y ≡ false)
    unfolding claim_job
    claim_job_oldest = (
      λ j h.
          let (row, found, named, of_run) = claimed_row j h in
          let here =
            IsIn-earliest (λ x. x.created_at) row (select_where (is_claimable t.runs) t.jobs)
              found in
          let (held, claimable) = IsIn-select_where (is_claimable t.runs) row t.jobs here in
          let (unclaimed, (r, ir, is, pending)) = claimable_run t.runs row claimable in
          (
            row,
            held,
            named,
            unclaimed,
            (r, ir, is ∙ of_run, pending),
            λ y iy cy.
                earliest_le (λ x. x.created_at) row (select_where (is_claimable t.runs) t.jobs)
                  found y (IsIn-selected (is_claimable t.runs) y t.jobs iy cy),
          ),
      λ h y iy. elim (Bool-cases (is_claimable t.runs y)) [
        | inr no_ ↦ no_
        | inl cy ↦ elim (Option-cases chosen) [
          | inr (row, found) ↦ ground (arith, found, h)
          | inl empty ↦ absurd (
              earliest-none (λ x. x.created_at) y (select_where (is_claimable t.runs) t.jobs) empty
                (IsIn-selected (is_claimable t.runs) y t.jobs iy cy))
        ]
      ],
    )

    -- After a claim, the job that was claimed is no longer unclaimed.
    claimed_marked :
        (j : ClaimedJob Uuid) (x : JobRow Uuid)
        → (claim_job now worker t).0 ≡ some j
        → IsIn x (claim_job now worker t).1.jobs
        → x.id ≡ j.job_id
        → is_null x.claimed_by ≡ false
    unfolding claim_job
    claimed_marked j x h ix same =
        let (row, found, named, of_run) = claimed_row j h in
        let (y, iy, is) =
          IsIn-update_where (λ z. z.id == row.id)
            (λ z. record z {
              claimed_by = some worker;
              claimed_at = some now;
              attempts = suc z.attempts;
            })
            x t.jobs (rw (found, claim_job) at ix) in
        elim (Bool-cases (y.id == row.id)) [
          | inl yes_ ↦ ap (λ z. is_null z.claimed_by) (rw yes_ at is)
          | inr no_ ↦
              let x_is_y = rw no_ at is in
              let yes_ =
                (e.beq_iff y.id row.id).1 (ap (λ z. z.id) (sym x_is_y) ∙ same ∙ sym named) in
              absurd (ground (arith, yes_, no_))
        ]

  -- Two claims in turn, by whichever workers, never claim the same job.
  pub claim_job_once :
      (now later : ℕ) (worker other : String) (t : Tables Uuid) (j k : ClaimedJob Uuid)
      → (claim_job now worker t).0 ≡ some j
      → (claim_job later other (claim_job now worker t).1).0 ≡ some k
      → k.job_id ≢ j.job_id
  claim_job_once now later worker other t j k first second same =
      let t' = (claim_job now worker t).1 in
      let (row, found, named, unclaimed, of_run, oldest) =
        (claim_job_oldest later other t').0 k second in
      let marked = claimed_marked now worker t j row first found (named ∙ same) in
      absurd (ground (arith, unclaimed, marked))
