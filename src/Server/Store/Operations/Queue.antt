-- ===== src/Server/Store/Operations/Queue.antt =====
-- How many jobs of crates/server/src/store/postgres.rs can be claimed, before and after each
-- transaction of a worker.
use soro_fuzz.Base.{
  ℕ, suc, ◌-◌, ◌≤◌, ◌<◌, ◌≡◌, ◌≢◌, ◌⊎◌, refl, sym, ◌∙◌, Bool, true, false, ◌&&◌, some, List, [],
  ◌∷◌, inl, inr, Bool-cases, Option-cases, arith, String, Eq, ◌==◌, beq_refl, length, if◌then◌else◌,
}
use soro_fuzz.Server.Store.{RunFinish}
use soro_fuzz.Server.Store.Tables.{
  RunRow, JobRow, Tables, select_where, first_row, update_where, earliest,
}
use soro_fuzz.Server.Store.Operations.{
  is_null, is_pending, is_claimable, is_run_pending, is_run_running, claim_job, start_run,
  run_started, finish_rows, run_finished,
}
use soro_fuzz.Server.Store.Operations.Lists.{
  IsIn, IsIn-earliest, IsIn-select_where, IsIn-selected, earliest-none,
}
use soro_fuzz.Server.Store.Operations.Runs.{finish_not_pending}

module _ {A : Type 0} where
  count_where : (A → Bool) → List A → ℕ
  count_where p l = length (select_where p l)

  count_le :
      (p q : A → Bool)
      → ((x : A) → p x ≡ true → q x ≡ true)
      → (l : List A) → count_where p l ≤ count_where q l
  unfolding count_where select_where
  count_le p q h [] = omega arith
  count_le p q h (x ∷ l) = ground (arith, h x, count_le p q h l)

  module _ (p q : A → Bool) (f : A → A) (gone : (x : A) → p (f x) ≡ false) where
    count_update_le : (l : List A) → count_where p (update_where q f l) ≤ count_where p l
    unfolding count_where select_where update_where
    count_update_le [] = omega arith
    count_update_le (x ∷ l) = ground (arith, gone x, count_update_le l)

    count_update_lt :
        (x : A) (l : List A)
        → IsIn x l
        → p x ≡ true
        → q x ≡ true
        → count_where p (update_where q f l) < count_where p l
    unfolding count_where select_where update_where
    count_update_lt x [] h px qx = absurd h
    count_update_lt x (y ∷ l) (inl same) px qx =
        rw (← same) (ground (arith, gone x, px, qx, count_update_le l))
    count_update_lt x (y ∷ l) (inr later) px qx =
        ground (arith, gone y, count_update_lt x l later px qx)

either_true : (a b : Bool) → (if a then true else b) ≡ true → (a ≡ true) ⊎ (b ≡ true)
either_true true b h = inl refl
either_true false b h = inr h

is_later : (a : Bool) {b : Bool} → b ≡ true → (if a then true else b) ≡ true
is_later true h = refl
is_later false h = h

true_ne_false : true ≢ false
true_ne_false p = ground arith

module _ {Uuid : Type 0} ⦃e : Eq Uuid⦄ where
  unfoldable pub claimable : Tables Uuid → ℕ
  unfolding count_where
  claimable t = count_where (is_claimable t.runs) t.jobs

  abbrev test : RunRow Uuid → JobRow Uuid → Bool
  test r j = r.id == j.run_id && is_null j.claimed_by && is_pending r.status

  pending_of : (r : RunRow Uuid) (j : JobRow Uuid) → test r j ≡ true → is_pending r.status ≡ true
  pending_of r j h = ground (arith, h)

  update_claimable :
      (p : RunRow Uuid → Bool) (f : RunRow Uuid → RunRow Uuid)
      → ((r : RunRow Uuid) → is_pending (f r).status ≡ false)
      → (runs : List (RunRow Uuid)) (j : JobRow Uuid)
      → is_claimable (update_where p f runs) j ≡ true
      → is_claimable runs j ≡ true
  unfolding is_claimable update_where
  update_claimable p f done [] j h = h
  update_claimable p f done (r ∷ runs) j h = elim (Bool-cases (p r)) [
    | inr kept ↦
        elim (either_true (test r j) (is_claimable (update_where p f runs) j) (rw kept at h)) [
          | inl first ↦ rw first refl
          | inr later ↦ is_later (test r j) (update_claimable p f done runs j later)
        ]
    | inl hit ↦
        elim (either_true (test (f r) j) (is_claimable (update_where p f runs) j) (rw hit at h)) [
          | inl first ↦ absurd (true_ne_false (sym (pending_of (f r) j first) ∙ done r))
          | inr later ↦ is_later (test r j) (update_claimable p f done runs j later)
        ]
  ]

  claimed_not_claimable :
      (runs : List (RunRow Uuid)) (j : JobRow Uuid)
      → is_null j.claimed_by ≡ false
      → is_claimable runs j ≡ false
  unfolding is_claimable
  claimed_not_claimable [] j h = refl
  claimed_not_claimable (r ∷ runs) j h = ground (arith, claimed_not_claimable runs j h)

  pub start_run-claimable :
      (now : ℕ) (run_id : Uuid) (worker : String) (t : Tables Uuid)
      → claimable (start_run now run_id worker t).1 ≤ claimable t
  unfolding start_run claimable is_pending
  start_run-claimable now run_id worker t =
      elim (Option-cases (first_row (select_where (is_run_pending run_id) t.runs))) [
        | inl absent ↦ rw (absent, start_run) (omega arith)
        | inr (run, found) ↦
            rw (found, start_run)
              (count_le _ (is_claimable t.runs)
                (update_claimable (is_run_pending run_id) (run_started now worker) (λ r. refl)
                  t.runs)
                t.jobs)
      ]

  pub finish_rows-claimable :
      (now : ℕ) (run_id : Uuid) (ids : List Uuid) (finish : RunFinish) (t : Tables Uuid)
      → claimable (finish_rows now run_id ids finish t) ≤ claimable t
  unfolding finish_rows claimable
  finish_rows-claimable now run_id ids finish t =
      elim (Option-cases (first_row (select_where (is_run_running run_id) t.runs))) [
        | inl absent ↦ rw (absent, finish_rows) (omega arith)
        | inr (run, found) ↦
            rw (found, finish_rows)
              (count_le _ (is_claimable t.runs)
                (update_claimable (is_run_running run_id) (run_finished now finish)
                  (λ r. finish_not_pending finish.status) t.runs)
                t.jobs)
      ]

  count_none :
      (p : JobRow Uuid → Bool) (l : List (JobRow Uuid))
      → ((x : JobRow Uuid) → IsIn x l → p x ≡ false)
      → count_where p l ≡ 0
  unfolding count_where select_where
  count_none p [] h = refl
  count_none p (x ∷ l) h = ground (arith, h x (inl refl), count_none p l (λ y iy. h y (inr iy)))

  -- Where none can be claimed, no job passes the test.
  pub none_claimable :
      (t : Tables Uuid)
      → claimable t ≡ 0
      → (j : JobRow Uuid) → IsIn j t.jobs
      → is_claimable t.runs j ≡ false
  unfolding claimable count_where
  none_claimable t h j ij = elim (Bool-cases (is_claimable t.runs j)) [
    | inr no_ ↦ no_
    | inl yes_ ↦ absurd (
        none_in j (select_where (is_claimable t.runs) t.jobs) h
          (IsIn-selected (is_claimable t.runs) j t.jobs ij yes_))
  ]
    where
      none_in : (x : JobRow Uuid) (l : List (JobRow Uuid)) → length l ≡ 0 → IsIn x l → ⊥
      none_in x [] h here = here
      none_in x (y ∷ l) h here = omega arith

  -- A claim takes one of the claimable jobs, if there is any.
  pub claim_job-claimable :
      (now : ℕ) (worker : String) (t : Tables Uuid)
      → claimable (claim_job now worker t).1 ≤ claimable t - 1
  unfolding claim_job claimable
  claim_job-claimable now worker t =
      elim (Option-cases
        (earliest (λ j. j.created_at) (select_where (is_claimable t.runs) t.jobs))) [
          | inl empty ↦
              let zero_ = count_none (is_claimable t.runs) t.jobs (λ y iy.
                elim (Bool-cases (is_claimable t.runs y)) [
                  | inr no_ ↦ no_
                  | inl cy ↦ absurd (
                      earliest-none (λ j. j.created_at) y
                        (select_where (is_claimable t.runs) t.jobs) empty
                        (IsIn-selected (is_claimable t.runs) y t.jobs iy cy))
                ]) in
              rw (empty, claim_job) (omega (arith, zero_))
          | inr (job, found) ↦
              let (held, cj) = IsIn-select_where (is_claimable t.runs) job t.jobs (
                IsIn-earliest (λ j. j.created_at) job (select_where (is_claimable t.runs) t.jobs)
                  found) in
              let less =
                count_update_lt (is_claimable t.runs) (λ (j : JobRow Uuid). j.id == job.id)
                  (λ (j : JobRow Uuid). record j {
                    claimed_by = some worker;
                    claimed_at = some now;
                    attempts = suc j.attempts;
                  })
                  (λ j. claimed_not_claimable t.runs _ refl) job t.jobs held cj (beq_refl job.id) in
              rw (found, claim_job) (omega (arith, less))
        ]
