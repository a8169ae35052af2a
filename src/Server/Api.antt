-- ===== src/Server/Api.antt =====
-- crates/server/src/api/mod.rs, error.rs and util.rs: what the handlers share. A handler is a
-- function on the state of the store. The libraries that read and write ids and times are given by
-- `Formats`.
pub mod Campaigns
pub mod Resources
pub mod Stream
use soro_fuzz.Base.{ℕ, Option, none, some, List, [], ◌∷◌, String, concat}
use soro_fuzz.Base.Results.{Result, ok, err, map_err}
use soro_fuzz.Int.{ℤ}
use soro_fuzz.Server.Store.Interface.{StoreError, Action, Store}
use soro_fuzz.Server.Targets.{TargetRegistry}
use soro_fuzz.Server.Worker.Hub.{ProgressHub}

-- `Uuid::parse_str`, its `Display`, and `DateTime::parse_from_rfc3339` with its time in UTC.
pub record Formats (Uuid : Type 0) : Type 0 where
  pub parse_str : String → Option Uuid
  pub to_string : Uuid → String
  pub parse_from_rfc3339 : String → Option ℕ

pub record ApiError : Type 0 where
  pub status : ℕ
  pub error : String
  pub message : String

abbrev pub bad_request : String → String → ApiError
bad_request error message = record { status = 400; error = error; message = message }

abbrev pub not_found : String → String → ApiError
not_found error message = record { status = 404; error = error; message = message }

abbrev pub internal : String → ApiError
internal message = record { status = 500; error = "internal_error"; message = message }

pub record ApiErrorBody : Type 0 where
  pub error : String
  pub message : String

-- The status code and the body of the response.
abbrev pub into_response : ApiError → ℕ × ApiErrorBody
into_response e = (e.status, record { error = e.error; message = e.message })

-- `From<StoreError>`
abbrev pub from_store_error : StoreError → ApiError
from_store_error error = internal "an internal error occurred"

pub record AppState (S Uuid Sender : Type 0) : Type 0 where
  pub store : Store S Uuid
  pub targets : TargetRegistry
  pub progress : ProgressHub Uuid Sender
  pub max_time_budget_secs : ℤ  -- i64

abbrev pub Handler : Type 0 → Type 0 → Type 0
Handler S A = S → Result ApiError A × S

module _ {S : Type 0} where
  abbrev pub go_on :
      {A B : Type 0} → Result ApiError A × S → (A → Handler S B) → Result ApiError B × S
  go_on (ok a, s) f = f a s
  go_on (err e, s) f = (err e, s)

  infixl 5 ◌>>=◌ ◌>>◌
  abbrev pub ◌>>=◌ : {A B : Type 0} → Handler S A → (A → Handler S B) → Handler S B
  (m >>= f) s = go_on (m s) f

  abbrev pub ◌>>◌ : {B : Type 0} → Handler S (Unit {0}) → Handler S B → Handler S B
  m >> k = m >>= λ _. k

  abbrev pub respond : {A : Type 0} → A → Handler S A
  respond a s = (ok a, s)

  -- `?` on a result, and on a call of the store
  abbrev pub try_ : {A : Type 0} → Result ApiError A → Handler S A
  try_ r s = (r, s)

  abbrev pub try_store : {A : Type 0} → Action S A → Handler S A
  try_store call s = let (r, s') = call s in (map_err from_store_error r, s')

abbrev pub ok_or : {A : Type 0} → Option A → ApiError → Result ApiError A
ok_or none e = err e
ok_or (some a) e = ok a

unfoldable pub parse_uuid : {Uuid : Type 0} → Formats Uuid → String → Result ApiError Uuid
parse_uuid formats raw =
    ok_or (formats.parse_str raw)
      (bad_request "invalid_id" (concat ("`" ∷ raw ∷ "` is not a valid id" ∷ [])))
