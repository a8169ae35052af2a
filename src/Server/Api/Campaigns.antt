-- ===== src/Server/Api/Campaigns.antt =====
-- The handlers of crates/server/src/api/campaigns.rs.
pub mod Checks
pub mod Pages
pub mod Created
use soro_fuzz.Base.{
  ℕ, Bool, true, false, ◌||◌, not, Option, none, some, List, [], ◌∷◌, ◌++◌, map, String, string_eq,
  ◌==◌, concat, contains, is_blank, unwrap_or, if◌then◌else◌,
}
use soro_fuzz.Base.Results.{Result, ok, err}
use soro_fuzz.Int.{ℤ, pos, ltb_ℤ, clamp, display, as_i32}
use soro_fuzz.Server.Store.{CampaignStatus, NewCampaign, CampaignRecord}
use soro_fuzz.Server.Store.Interface.{Store}
use soro_fuzz.Server.Store.Reads.{CampaignFilter}
use soro_fuzz.Server.Targets.{InvariantInfo, Target, get}
use soro_fuzz.Server.Api.{
  Formats, ApiError, bad_request, not_found, AppState, Handler, ◌>>=◌, ◌>>◌, respond, try_,
  try_store, ok_or, parse_uuid,
}

abbrev pub default_list_limit : ℤ
default_list_limit = pos 50

abbrev pub max_list_limit : ℤ
max_list_limit = pos 200

pub record CreateCampaignRequest : Type 0 where
  pub target_id : String
  pub name : String
  pub invariant_ids : List String
  pub time_budget_secs : ℤ  -- i64

pub record CampaignDto : Type 0 where
  pub id : String
  pub target_id : String
  pub name : String
  pub invariant_ids : List String
  pub time_budget_secs : ℤ  -- i32
  pub status : CampaignStatus
  pub run_id : String
  pub created_at : ℕ

unfoldable pub campaign_dto : {Uuid : Type 0} → Formats Uuid → CampaignRecord Uuid → CampaignDto
campaign_dto formats r = record {
  id = formats.to_string r.id;
  target_id = r.target_id;
  name = r.name;
  invariant_ids = r.invariant_ids;
  time_budget_secs = r.time_budget_secs;
  status = r.status;
  run_id = formats.to_string r.run_id;
  created_at = r.created_at;
}

-- The loop over the ids of invariants: the error of the first that the target does not offer.
unfoldable pub check_invariants : String → List String → List String → Result ApiError (Unit {0})
check_invariants target_id available [] = ok tt
check_invariants target_id available (id ∷ ids) =
    let rest = check_invariants target_id available ids in
    if not (contains available id)
    then err (
        bad_request "unknown_invariant"
          (concat ("target `" ∷ target_id ∷ "` has no invariant `" ∷ id ∷ "`" ∷ [])))
    else rest

-- The checks of `create_campaign`, in their order, up to the call of the store.
unfoldable pub validate : Option Target → ℤ → CreateCampaignRequest → Result ApiError (Unit {0})
unfolding check_invariants
validate none max body =
    err (bad_request "unknown_target" (concat ("no target with id `" ∷ body.target_id ∷ "`" ∷ [])))
validate (some target) max body =
    if is_blank body.name
    then err (bad_request "invalid_name" "name must not be empty")
    else elim (check_invariants body.target_id (map (λ i. i.id) target.available_invariants)
        body.invariant_ids) [
          | err e ↦ err e
          | ok _ ↦
              if ltb_ℤ body.time_budget_secs (pos 1) || ltb_ℤ max body.time_budget_secs
              then err (
                  bad_request "invalid_time_budget" (
                    concat (
                      "timeBudgetSecs must be between 1 and "
                      ∷ display max
                      ∷ " (the configured JOB_TIMEOUT_SECONDS)"
                      ∷ [])))
              else ok tt
        ]

unfoldable pub parse_campaign_status : String → Result ApiError CampaignStatus
parse_campaign_status raw =
    if raw == "queued"
    then ok CampaignStatus.queued
    else if raw == "running"
    then ok CampaignStatus.running
    else if raw == "completed"
    then ok CampaignStatus.completed
    else if raw == "cancelled"
    then ok CampaignStatus.cancelled
    else if raw == "failed"
    then ok CampaignStatus.failed
    else err (bad_request "invalid_status" (concat ("`" ∷ raw ∷ "` is not a valid status" ∷ [])))

unfoldable pub parse_datetime : {Uuid : Type 0} → Formats Uuid → String → Result ApiError ℕ
parse_datetime formats raw =
    ok_or (formats.parse_from_rfc3339 raw)
      (bad_request "invalid_date" (concat ("`" ∷ raw ∷ "` is not a valid ISO 8601 timestamp" ∷ [])))

-- `.map(f).transpose()`
abbrev pub optional :
    {A : Type 0} → (String → Result ApiError A) → Option String → Result ApiError (Option A)
optional f none = ok none
optional f (some raw) = elim (f raw) [ ok a ↦ ok (some a) | err e ↦ err e ]

pub record ListCampaignsQuery : Type 0 where
  pub status : Option String
  pub target_id : Option String
  pub since : Option String
  pub until : Option String
  pub limit : Option ℤ  -- i64
  pub offset : Option ℤ  -- i64

abbrev pub max_ℤ : ℤ → ℤ → ℤ
max_ℤ a b = if ltb_ℤ a b then b else a

module _ {S Uuid Sender : Type 0} (formats : Formats Uuid) (state : AppState S Uuid Sender) where
  -- The status code is 201.
  unfoldable pub create_campaign : CreateCampaignRequest → Handler S (ℕ × CampaignDto)
  unfolding validate campaign_dto get
  create_campaign body = do
    try_ (validate (get body.target_id state.targets) state.max_time_budget_secs body)
    row ← try_store (
        state.store.create_campaign (record {
          target_id = body.target_id;
          name = body.name;
          invariant_ids = body.invariant_ids;
          time_budget_secs = as_i32 body.time_budget_secs;
        }))
    respond (201, campaign_dto formats row)

  unfoldable pub list_campaigns : ListCampaignsQuery → Handler S (List CampaignDto)
  unfolding parse_campaign_status parse_datetime campaign_dto
  list_campaigns query = do
    status ← try_ (optional parse_campaign_status query.status)
    since ← try_ (optional (parse_datetime formats) query.since)
    until ← try_ (optional (parse_datetime formats) query.until)
    rows ← try_store (
        state.store.list_campaigns (record {
          status = status;
          target_id = query.target_id;
          since = since;
          until = until;
          limit = clamp (pos 1) max_list_limit (unwrap_or query.limit default_list_limit);
          offset = max_ℤ (unwrap_or query.offset (pos 0)) (pos 0);
        }))
    respond (map (campaign_dto formats) rows)

  abbrev pub campaign_not_found : Uuid → ApiError
  campaign_not_found id =
      not_found "campaign_not_found" (concat ("no campaign with id " ∷ formats.to_string id ∷ []))

  unfoldable pub get_campaign : String → Handler S CampaignDto
  unfolding parse_uuid campaign_dto
  get_campaign raw = do
    id ← try_ (parse_uuid formats raw)
    found ← try_store (state.store.get_campaign id)
    row ← try_ (ok_or found (campaign_not_found id))
    respond (campaign_dto formats row)

  unfoldable pub cancel_campaign : String → Handler S CampaignDto
  unfolding parse_uuid campaign_dto
  cancel_campaign raw = do
    id ← try_ (parse_uuid formats raw)
    found ← try_store (state.store.cancel_campaign id)
    row ← try_ (ok_or found (campaign_not_found id))
    respond (campaign_dto formats row)
