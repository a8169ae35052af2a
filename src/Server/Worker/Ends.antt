-- ===== src/Server/Worker/Ends.antt =====
-- What `process` of crates/server/src/worker/mod.rs sends, and how it leaves the run.
use soro_fuzz.Base.{
  ap, sym, Bool, true, Option, some, String, arith, ◌≡◌, refl, ◌∙◌, none, List, [], ◌∷◌, ◌++◌, map,
  ◌⊎◌, inl, inr, Bool-cases, Option-cases, Eq, ◌==◌, if◌then◌else◌,
}
use soro_fuzz.Base.Results.{Result, ok, err, Result-cases}
use soro_fuzz.Server.Store.{RunStatus, run_status, CampaignRecord, RunFinish}
use soro_fuzz.Server.Targets.{Target, get}
use soro_fuzz.Server.Runner.{ProgressEvent, RunOutcome, RunResult, RunnerError, RunJob}
use soro_fuzz.Server.Store.Interface.{StoreError}
use soro_fuzz.Base.Dict.{lookup}
use soro_fuzz.Server.Worker.{
  World, Worker, to_finish, finish_status, budget, execute, begin, process,
}
use soro_fuzz.Server.Worker.Hub.{
  ProgressHub, channel_capacity, publisher, subscribe, close, subscribe_lem,
}

-- How a run has ended, by what its runner returned.
abbrev pub ending : Result RunnerError RunResult → RunStatus
ending (err error) = RunStatus.failed
ending (ok result) = elim result.outcome [
  | RunOutcome.completed ↦ RunStatus.completed
  | RunOutcome.cancelled ↦ RunStatus.cancelled
]

-- The events of a run: that it is running, what the runner reports, and how it ended.
abbrev pub run_events :
    {Sender : Type 0}
    → Sender
    → List ProgressEvent × Result RunnerError RunResult
    → List (Sender × ProgressEvent)
run_events sender (events, result) =
    map (λ event. (sender, event))
      (ProgressEvent.status RunStatus.running
        ∷ (events ++ ProgressEvent.status (ending result) ∷ []))

run_status-to_finish :
    (sanitizer : Option String) (name : String) (result : Result RunnerError RunResult)
    → run_status (to_finish sanitizer name result).status ≡ ending result
unfolding run_status to_finish
run_status-to_finish sanitizer name (err error) = refl
run_status-to_finish sanitizer name (ok result) = by_outcome result.outcome
  where
    by_outcome :
        (o : RunOutcome)
        → run_status (finish_status o) ≡ elim o [
          | RunOutcome.completed ↦ RunStatus.completed
          | RunOutcome.cancelled ↦ RunStatus.cancelled
        ]
    by_outcome RunOutcome.completed = refl
    by_outcome RunOutcome.cancelled = refl

module _ {S Uuid Sender : Type 0} ⦃e : Eq Uuid⦄ (worker : Worker S Uuid Sender)
    (campaign_id run_id : Uuid) (w : World S Uuid Sender) where
  abbrev pub job_of : CampaignRecord Uuid → Target → RunJob Uuid
  job_of c target = record {
    run_id = run_id;
    campaign_id = campaign_id;
    fuzz_target_name = target.fuzz_target_name;
    invariant_ids = c.invariant_ids;
    time_budget_secs = budget c.time_budget_secs;
  }

  -- What the store answers when the campaign is read, and when the run is started after that.
  abbrev pub read : Result StoreError (Option (CampaignRecord Uuid)) × S
  read = worker.store.get_campaign campaign_id w.state

  abbrev pub started : Result StoreError Bool × S
  started = worker.store.start_run run_id worker.id read.1

  -- The store has the campaign, the registry its target, and the run is started.
  abbrev pub IsGranted : CampaignRecord Uuid → Target → Type 0
  IsGranted c target =
      (read.0 ≡ ok (some c))
      × (get c.target_id worker.targets ≡ some target)
      × (started.0 ≡ ok true)

  -- The channel of the run: the one that the hub has, or else a new one.
  abbrev pub IsChannel : Sender → Type 0
  IsChannel sender =
      (subscribe run_id w.progress ≡ some sender)
      ⊎ ((subscribe run_id w.progress ≡ none)
          × (sender ≡ worker.channel w.progress.created channel_capacity))

  -- A job was run and published from its start to its end, its end stored with the status that was
  -- published, and its channel closed, those of all other runs left as they were.
  abbrev pub WasPublished : RunJob Uuid → World S Uuid Sender → Type 0
  WasPublished job after =
      (sender : Sender) × (finish : RunFinish) × IsChannel sender
      × (after.sent ≡ w.sent ++ run_events sender (worker.runner job))
      × (run_status finish.status ≡ ending (worker.runner job).1)
      × (after.state ≡ (worker.store.finish_run run_id finish started.1).1)
      × ((other : Uuid)
          → subscribe other after.progress
            ≡ (if run_id == other then none else subscribe other w.progress))

  abbrev pub WasGranted : World S Uuid Sender → Type 0
  WasGranted after =
      (c : CampaignRecord Uuid) × (target : Target) × IsGranted c target
      × WasPublished (job_of c target) after

  -- The run is not granted, and nothing was sent.
  abbrev pub WasSkipped : World S Uuid Sender → Type 0
  WasSkipped after =
      ((c : CampaignRecord Uuid) (target : Target) → ¬ IsGranted c target)
      × (after.sent ≡ w.sent)
      × (after.progress ≡ w.progress)

  hub_after :
      (hub : ProgressHub Uuid Sender) (other : Uuid)
      → subscribe other (close run_id (publisher worker.channel run_id hub).1)
        ≡ (if run_id == other then none else subscribe other hub)
  hub_after hub other =
      let (opened, rest, reused) = subscribe_lem worker.channel run_id other hub in
      let (rest', closed, again) =
        subscribe_lem worker.channel run_id other (publisher worker.channel run_id hub).1 in
      closed ∙ elim (Bool-cases (run_id == other)) [
        | inl yes_ ↦ rw yes_ refl
        | inr no_ ↦ rw no_ (opened ∙ rw no_ refl)
      ]

  publisher-IsChannel : IsChannel (publisher worker.channel run_id w.progress).0
  unfolding publisher subscribe
  publisher-IsChannel = elim (Option-cases (lookup run_id w.progress.channels)) [
    | inl absent ↦ inr (absent, rw (absent, publisher) refl)
    | inr (sender, there) ↦ inl (there ∙ rw (there, publisher) refl)
  ]

  abbrev begun : World S Uuid Sender
  begun = record w { state = started.1 }

  execute-WasPublished :
      (c : CampaignRecord Uuid) (target : Target)
      → WasPublished (job_of c target) (execute worker campaign_id run_id c target begun)
  unfolding execute
  execute-WasPublished c target =
      let answer = worker.runner (job_of c target) in
      let finish = to_finish worker.fuzz_sanitizer target.fuzz_target_name answer.1 in
      let same = run_status-to_finish worker.fuzz_sanitizer target.fuzz_target_name answer.1 in
      (
        (publisher worker.channel run_id w.progress).0,
        finish,
        publisher-IsChannel,
        rw same refl,
        same,
        refl,
        hub_after w.progress,
      )

  -- A campaign that is granted is the one that was read.
  granted_found :
      (c : CampaignRecord Uuid) (d : CampaignRecord Uuid) (target : Target)
      → read.0 ≡ ok (some c)
      → IsGranted d target
      → (get c.target_id worker.targets ≡ some target) × (started.0 ≡ ok true)
  granted_found c d target found (same, known, run_it) =
      let is : d ≡ c = ground (arith, found, same) in
      (ap (λ (x : CampaignRecord Uuid). get x.target_id worker.targets) (sym is) ∙ known, run_it)

  abbrev processed : World S Uuid Sender
  processed = process worker campaign_id run_id w

  skipped :
      ((c : CampaignRecord Uuid) (target : Target) → ¬ IsGranted c target)
      → (processed.sent ≡ w.sent) × (processed.progress ≡ w.progress)
      → WasSkipped processed
  skipped refused (sent, hub) = (refused, sent, hub)

  -- Whatever the store answers, a worker that processes a claimed job does one of two things. If the
  -- store has the campaign, the registry its target, and the run is started, it sends on the run's
  -- channel that the run is running, then what the runner reports for the job, then the status that
  -- the runner's result stands for, which is the one it puts to the store; and it closes the run's
  -- channel, with those of other runs left as they were. Otherwise it sends nothing and leaves the
  -- hub as it was.
  pub process_publishes :
      WasGranted (process worker campaign_id run_id w)
      ⊎ WasSkipped (process worker campaign_id run_id w)
  unfolding process begin
  process_publishes = elim (Result-cases read.0) [
    | inr (error, failed) ↦
        inr
          (skipped (λ c target g. ground (arith, failed, g.0)) (rw (failed, process) (refl, refl)))
    | inl (row, is) ↦ elim (Option-cases row) [
      | inl absent ↦ inr (
          skipped (λ c target g. ground (arith, is, absent, g.0))
            (rw (is, process) (rw absent (refl, refl))))
      | inr (c, found) ↦
          let has = is ∙ ap ok found in
          elim (Option-cases (get c.target_id worker.targets)) [
            | inl unknown ↦ inr (
                skipped (λ d t g. ground (arith, unknown, (granted_found c d t has g).0))
                  (rw (is, process) (rw (found, unknown) (refl, refl))))
            | inr (target, known) ↦ elim (Result-cases started.0) [
              | inr (error, failed) ↦ inr (
                  skipped (λ d t g. ground (arith, failed, (granted_found c d t has g).1))
                    (rw (is, process) (rw (found, known) (rw (failed, begin) (refl, refl)))))
              | inl (run_it, was) ↦ elim (Bool-cases run_it) [
                | inr no_ ↦ inr (
                    skipped (λ d t g. ground (arith, was, no_, (granted_found c d t has g).1))
                      (rw (is, process)
                        (rw (found, known) (rw (was, begin) (rw no_ (refl, refl))))))
                | inl yes_ ↦ inl (
                  c,
                  target,
                  (has, known, was ∙ ap ok yes_),
                  rw (is, process)
                      (rw (found, known)
                        (rw (was, begin) (rw yes_ (execute-WasPublished c target)))),
                )
              ]
            ]
          ]
    ]
  ]
