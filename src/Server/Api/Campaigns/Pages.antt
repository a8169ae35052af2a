-- ===== src/Server/Api/Campaigns/Pages.antt =====
-- The pages that `list_campaigns` of crates/server/src/api/campaigns.rs answers with, on the
-- database.
use soro_fuzz.Base.{
  ◌⊎◌, ℕ, suc, ◌≤◌, ◌≡◌, refl, ap, subst, Bool, true, false, Option, none, some, List, [], ◌∷◌, map,
  length, String, string_eq, ◌==◌, length-take, take, arith, inl, inr, Option-cases, Eq, unwrap_or,
  if◌then◌else◌,
}
use soro_fuzz.Base.Results.{Result, ok, err}
use soro_fuzz.Int.{ℤ, pos, ltb_ℤ, clamp, pos_part}
use soro_fuzz.Server.Store.{CampaignStatus}
use soro_fuzz.Server.Store.Reads
use soro_fuzz.Server.Store.Reads.{CampaignFilter}
use soro_fuzz.Server.Store.Tables.{Tables}
use soro_fuzz.Server.Store.Postgres.{Database, Surroundings, pg_store, list, seen}
use soro_fuzz.Server.Api.{Formats, ApiError, AppState, Handler, go_on, respond, try_store, ok_or}
use soro_fuzz.Server.Api.Campaigns.{
  ListCampaignsQuery, campaign_dto, list_campaigns, parse_campaign_status, parse_datetime, optional,
  default_list_limit, max_list_limit, max_ℤ,
}

clamped :
    (z : ℤ)
    → (ltb_ℤ (clamp (pos 1) max_list_limit z) (pos 0) ≡ false)
      × (pos_part (clamp (pos 1) max_list_limit z) ≤ 200)
clamped z = (ground arith, ground arith)

at_least_zero : (z : ℤ) → ltb_ℤ (max_ℤ z (pos 0)) (pos 0) ≡ false
at_least_zero z = ground arith

length-map : {A B : Type 0} (f : A → B) (l : List A) → length (map f l) ≡ length l
length-map f [] = refl
length-map f (x ∷ l) = ap suc (length-map f l)

-- The answer has the property, or it is an error with the status code 400, or, if there is a
-- failure, with the status code 500.
abbrev pub Answers : {A : Type 0} → Type 0 → (A → Type 0) → Result ApiError A → Type 0
Answers Failure P (ok a) = P a
Answers Failure P (err e) = (e.status ≡ 400) ⊎ (Failure × (e.status ≡ 500))

Answers-go_on :
    (F : Type 0) {S A B : Type 0} (P : A → Type 0) (Q : B → Type 0) (r : Result ApiError A) (s : S)
    (f : A → Handler S B)
    → Answers F P r
    → ((a : A) → P a → Answers F Q (f a s).0)
    → Answers F Q (go_on (r, s) f).0
Answers-go_on F P Q (ok a) s f h k = k a h
Answers-go_on F P Q (err e) s f h k = h

abbrev Any : {A : Type 0} → A → Type 0
Any a = Unit

Answers-some :
    (F : Type 0) {A : Type 0} (r : Result ApiError A)
    → Answers F Any r
    → Answers F Any (elim r [ ok a ↦ ok (some a) | err e ↦ err e ])
Answers-some F (ok a) h = tt
Answers-some F (err e) h = h

Answers-optional :
    (F : Type 0) {A : Type 0} (f : String → Result ApiError A) (o : Option String)
    → ((raw : String) → Answers F Any (f raw))
    → Answers F Any (optional f o)
Answers-optional F f none h = tt
Answers-optional F f (some raw) h = Answers-some F (f raw) (h raw)

Answers-ok_or :
    (F : Type 0) {A : Type 0} (o : Option A) (e : ApiError)
    → e.status ≡ 400
    → Answers F Any (ok_or o e)
Answers-ok_or F none e h = inl h
Answers-ok_or F (some a) e h = tt

Answers-if :
    (F : Type 0) {A : Type 0} (b : Bool) (a : A) (r : Result ApiError A)
    → Answers F Any r
    → Answers F Any (if b then ok a else r)
Answers-if F true a r h = tt
Answers-if F false a r h = h

Answers-parse_datetime :
    (F : Type 0) {Uuid : Type 0} (formats : Formats Uuid) (raw : String)
    → Answers F Any (parse_datetime formats raw)
unfolding parse_datetime
Answers-parse_datetime F formats raw = Answers-ok_or F (formats.parse_from_rfc3339 raw) _ refl

Answers-parse_campaign_status :
    (F : Type 0) (raw : String) → Answers F Any (parse_campaign_status raw)
unfolding parse_campaign_status
Answers-parse_campaign_status F raw = Answers-if F (raw == "queued") CampaignStatus.queued _ (
    Answers-if F (raw == "running") CampaignStatus.running _ (
      Answers-if F (raw == "completed") CampaignStatus.completed _ (
        Answers-if F (raw == "cancelled") CampaignStatus.cancelled _
          (Answers-if F (raw == "failed") CampaignStatus.failed _ (inl refl)))))

abbrev IsSmall : {A : Type 0} → Option (List A) → Type 0
IsSmall none = ⊥
IsSmall (some l) = length l ≤ 200

take_small : {A : Type 0} (n : ℕ) (l : List A) → n ≤ 200 → length (take n l) ≤ 200
take_small n l h = omega (arith, length-take {0} n l)

module _ {Uuid : Type 0} ⦃e : Eq Uuid⦄ where
  list-IsSmall :
      (filter : CampaignFilter) (t : Tables Uuid)
      → ltb_ℤ filter.limit (pos 0) ≡ false
      → ltb_ℤ filter.offset (pos 0) ≡ false
      → pos_part filter.limit ≤ 200
      → IsSmall (Reads.list_campaigns filter t)
  unfolding Reads.list_campaigns
  list-IsSmall filter t limit offset small = rw (limit, offset) (take_small _ _ small)

  module _ {Sender : Type 0} (around : Surroundings Uuid) (formats : Formats Uuid)
      (state : AppState (Database Uuid) Uuid Sender) where
    -- The filter of a request whose texts were read.
    abbrev page : ListCampaignsQuery → Option CampaignStatus → Option ℕ → Option ℕ → CampaignFilter
    page query status since until = record {
      status = status;
      target_id = query.target_id;
      since = since;
      until = until;
      limit = clamp (pos 1) max_list_limit (unwrap_or query.limit default_list_limit);
      offset = max_ℤ (unwrap_or query.offset (pos 0)) (pos 0);
    }

    -- The database fails at a query for a list.
    abbrev pub ListFails : Database Uuid → Type 0
    ListFails db =
        (filter : CampaignFilter) × (error : String) × (around.list_error filter db.transactions
          ≡ some error)

    Answers-page :
        (query : ListCampaignsQuery) (status : Option CampaignStatus) (since until : Option ℕ)
        (db : Database Uuid)
        → Answers
            (ListFails db)
            (λ rows. length rows ≤ 200)
            (go_on
              (try_store (list around (page query status since until)) db)
              (λ rows. respond (map (campaign_dto formats) rows))).0
    unfolding list
    Answers-page query status since until db =
        let filter = page query status since until in
        let (low, high) = clamped (unwrap_or query.limit default_list_limit) in
        let small =
          list-IsSmall filter (seen around db) low (at_least_zero (unwrap_or query.offset (pos 0)))
            high in
        elim (Option-cases (around.list_error filter db.transactions)) [
          | inr (error, fails) ↦ rw (fails, list) (inr ((filter, error, fails), refl))
          | inl works ↦ elim (Option-cases (Reads.list_campaigns filter (seen around db))) [
            | inl refused ↦ absurd (subst IsSmall refused small)
            | inr (rows, found) ↦
                let few : length rows ≤ 200 = subst IsSmall found small in
                rw (works, list)
                  (rw found (omega (arith, few, length-map (campaign_dto formats) rows)))
          ]
        ]

    pub list_campaigns_pages :
        (query : ListCampaignsQuery) (db : Database Uuid)
        → Answers
            (ListFails db)
            (λ rows. length rows ≤ 200)
            (list_campaigns formats (record state { store = pg_store around }) query db).0
    unfolding list_campaigns list
    list_campaigns_pages query db =
        Answers-go_on (ListFails db) Any (λ rows. length rows ≤ 200)
          (optional parse_campaign_status query.status) db _
          (Answers-optional (ListFails db) parse_campaign_status query.status
            (Answers-parse_campaign_status (ListFails db)))
          (λ status _.
            Answers-go_on (ListFails db) Any (λ rows. length rows ≤ 200)
              (optional (parse_datetime formats) query.since) db _
              (Answers-optional (ListFails db) (parse_datetime formats) query.since
                (Answers-parse_datetime (ListFails db) formats))
              (λ since _.
                Answers-go_on (ListFails db) Any (λ rows. length rows ≤ 200)
                  (optional (parse_datetime formats) query.until) db _
                  (Answers-optional (ListFails db) (parse_datetime formats) query.until
                    (Answers-parse_datetime (ListFails db) formats))
                  (λ until _. Answers-page query status since until db)))
