-- ===== src/Tests/Requests.antt =====
-- The theorems on the API of crates/server at concrete requests, with numbers for ids and senders.
use soro_fuzz.Base.{
  ℕ, ◌≤◌, ◌≡◌, refl, true, false, none, some, [], ◌∷◌, ◌++◌, length, String, string_eq, nat_eq,
  is_blank, arith, display_ℕ,
}
use soro_fuzz.Base.Results.{ok, err}
use soro_fuzz.Int.{pos, negsuc}
use soro_fuzz.Server.Store.{CampaignStatus, RunStatus, CampaignRecord}
use soro_fuzz.Server.Store.Operations.Reachable.{
  Reachable, fresh, Reachable-Consistent, empty_tables,
}
use soro_fuzz.Server.Store.Interface.{StoreError}
use soro_fuzz.Server.Store.Postgres.{Database, Surroundings, pg_store, create}
use soro_fuzz.Server.Targets.{Target, get}
use soro_fuzz.Server.Runner.{ProgressEvent}
use soro_fuzz.Server.Api.{Formats, internal, AppState}
use soro_fuzz.Server.Api.Campaigns.{
  CreateCampaignRequest, CampaignDto, ListCampaignsQuery, campaign_dto, create_campaign,
  get_campaign, list_campaigns,
}
use soro_fuzz.Server.Api.Campaigns.Checks.{
  IsAcceptable, IsRefused, requested, create_campaign_accepted, create_campaign-IsRefused,
}
use soro_fuzz.Server.Api.Campaigns.Pages.{Answers, ListFails, list_campaigns_pages}
use soro_fuzz.Server.Api.Campaigns.Created.{answered, create_campaign-get_campaign}
use soro_fuzz.Server.Api.Stream.{status, Received, event, lagged, closed, stream_loop, is_terminal}
use soro_fuzz.Server.Api.Stream.Ends.{
  ends, hears, misses, tells, stream_loop_first_terminal, stream_loop_ends,
}
use soro_fuzz.Tests.Stores.{counter_target}
use soro_fuzz.Tests.Servers.{registry, served}

-- Ids are texts, and every text is one.
abbrev texts : Formats String
texts = record { parse_str = some; to_string = λ u. u; parse_from_rfc3339 = λ raw. none }

abbrev alone : Surroundings String
alone = record {
  clock = λ n. n;
  gen_random_uuid = display_ℕ;
  others = λ n t. t;
  list_error = λ filter n. none;
}

abbrev empty : Database String
empty = record { tables = empty_tables (counter_target ∷ []); transactions = 0; generated = 0 }

abbrev app : AppState (Database String) String ℕ
app = record {
  store = pg_store alone;
  targets = registry;
  progress = record { channels = []; created = 0 };
  max_time_budget_secs = pos 600;
}

abbrev body : CreateCampaignRequest
body = record {
  target_id = "counter";
  name = "nightly";
  invariant_ids = [];
  time_budget_secs = pos 60;
}

acceptable : IsAcceptable counter_target (pos 600) body
unfolding is_blank
acceptable = record { named = refl; invariants = tt; at_least = omega arith; at_most = omega arith }

create_campaign_accepted_example :
    ((row : CampaignRecord String) (s' : Database String)
      → create alone (requested texts app body empty) empty ≡ (ok row, s')
      → create_campaign texts app body empty ≡ (ok (201, campaign_dto texts row), s'))
    × ((e : StoreError) (s' : Database String)
        → create alone (requested texts app body empty) empty ≡ (err e, s')
        → create_campaign texts app body empty ≡ (err (internal "an internal error occurred"), s'))
create_campaign_accepted_example =
    create_campaign_accepted texts app body empty counter_target served acceptable (omega arith)

abbrev stray : CreateCampaignRequest
stray = record body { target_id = "unheard of" }

unserved :
    (target : Target)
    → get "unheard of" registry ≡ some target
    → ¬ IsAcceptable target (pos 600) stray
unfolding get
unserved target h k = ground (arith, h)

create_campaign-IsRefused_example :
    IsRefused 400 (create_campaign texts app stray empty).0
    × ((create_campaign texts app stray empty).1 ≡ empty)
create_campaign-IsRefused_example = create_campaign-IsRefused texts app stray empty unserved

abbrev everything : ListCampaignsQuery
everything = record {
  status = none;
  target_id = none;
  since = none;
  until = none;
  limit = some (pos 100000);
  offset = some (negsuc 4);
}

list_campaigns_pages_example :
    Answers
      (ListFails alone texts app empty)
      (λ rows. length rows ≤ 200)
      (list_campaigns texts app everything empty).0
list_campaigns_pages_example = list_campaigns_pages alone texts app everything empty

Reachable-empty : Reachable empty.tables
Reachable-empty = fresh (counter_target ∷ [])

abbrev answered_body : CampaignDto
answered_body = answered alone texts app (λ n t. refl) (λ u. refl) body empty

create_campaign-get_campaign_example :
    ((create_campaign texts app body empty).0 ≡ ok (201, answered_body))
    × ◌≡◌ (answered_body.status) CampaignStatus.queued
    × (answered_body.target_id ≡ "counter")
    × (answered_body.name ≡ body.name)
    × (answered_body.invariant_ids ≡ [])
    × (answered_body.time_budget_secs ≡ pos 60)
    × ((get_campaign texts app answered_body.id (create_campaign texts app body empty).1).0
        ≡ ok answered_body)
create_campaign-get_campaign_example =
    create_campaign-get_campaign alone texts app (λ n t. refl) (λ u. refl) body empty
      (Reachable-Consistent Reachable-empty) ((λ c h. absurd h), (λ r h. absurd h)) refl
      counter_target served acceptable (omega arith)

abbrev early : Received
early = event 1 (ProgressEvent.status RunStatus.running)

abbrev late : Received
late = event 9 (ProgressEvent.status RunStatus.cancelled)

running_open : is_terminal RunStatus.running ≡ false
unfolding is_terminal
running_open = refl

failed_over : is_terminal RunStatus.failed ≡ true
unfolding is_terminal
failed_over = refl

stream_loop_first_terminal_example :
    ((stream_loop some RunStatus.pending (early ∷ lagged 3 ∷ [])).1 ≡ false)
    × (stream_loop some RunStatus.pending
          (early ∷ lagged 3 ∷ event 2 (ProgressEvent.status RunStatus.failed) ∷ late ∷ [])
        ≡ (
          (stream_loop some RunStatus.pending (early ∷ lagged 3 ∷ [])).0
              ++ status RunStatus.failed ∷ [],
          true,
        ))
stream_loop_first_terminal_example =
    stream_loop_first_terminal some RunStatus.pending (early ∷ lagged 3 ∷ []) (late ∷ []) 2
      RunStatus.failed (running_open, (tt, tt)) failed_over

stream_loop_ends_example :
    (stream_loop some RunStatus.pending (early ∷ lagged 1 ∷ closed ∷ [])).1 ≡ true
stream_loop_ends_example = stream_loop_ends some RunStatus.pending (
    hears 1 (ProgressEvent.status RunStatus.running)
      (tells 1 (misses (ProgressEvent.status RunStatus.completed) ends)))
