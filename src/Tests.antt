-- ===== src/Tests.antt =====
-- A small host, on which the theorems on crates/core, crates/invariants and examples/ are applied to
-- concrete runs: addresses are numbers, generated in turn, and a storage is kept for each contract.
pub mod Engine
pub mod Contracts
pub mod Tokens
pub mod Generated
pub mod Stores
pub mod Servers
pub mod Requests
pub mod Processes
pub mod Starts
use soro_fuzz.Base.{
  ℕ, suc, ◌≡◌, refl, ap, ◌∙◌, Option, none, some, Bool, true, false, ◌&&◌, ◌||◌, List, [], ◌∷◌,
  String, nat_eq, ◌==◌, beq_refl, if◌then◌else◌, arith,
}
use soro_fuzz.Core.Command.{Result, ok, err, TryResult}
use soro_fuzz.Core.Adapter.{Sdk}
use soro_fuzz.Examples.Host.{Called, returns, fails, traps, Call, Invocation, MockAuth, Host}

pub record World (S : Type 0) : Type 0 where
  pub clock : ℕ
  pub fresh : ℕ
  pub stored : ℕ → S
  pub auths : List (MockAuth ℕ)

abbrev pub is_signed : List (MockAuth ℕ) → Invocation ℕ → ℕ → Bool
is_signed [] i a = false
is_signed (m ∷ ms) i a = (m.signer == a && m.invoke.contract == i.contract) || is_signed ms i a

abbrev pub call_result : {A E : Type 0} → Called A E → TryResult A (Unit {0}) E (Unit {0})
call_result (returns a) = ok (ok a)
call_result (fails x) = err (ok x)
call_result traps = err (err tt)

abbrev pub call_value : {A E : Type 0} → Called A E → Option A
call_value (returns a) = some a
call_value (fails x) = none
call_value traps = none

pub is_signed_self :
    (m : MockAuth ℕ) (ms : List (MockAuth ℕ)) → is_signed (m ∷ ms) m.invoke m.signer ≡ true
is_signed_self m ms = ground (arith, beq_refl m.signer, beq_refl m.invoke.contract)

module _ {S : Type 0} where
  abbrev pub store : ℕ → S → World S → World S
  store id s w = record w { stored = λ a. if id == a then s else w.stored a }

  abbrev pub call_storage : {A E : Type 0} → ℕ → Called A E × S → World S → World S
  call_storage id (returns a, s) w = store id s w
  call_storage id (fails x, s) w = w
  call_storage id (traps, s) w = w

  pub store_same : (id : ℕ) (s : S) (w : World S) → (store id s w).stored id ≡ s
  store_same id s w = rw (beq_refl id)

  abbrev pub sdk_of : S → Sdk ℕ
  sdk_of initial = record {
    Env = World S;
    default = record { clock = 0; fresh = 1; stored = λ a. initial; auths = [] };
    generate_address = λ w. (w.fresh, record w { fresh = suc w.fresh });
    timestamp = λ w. w.clock;
    set_timestamp = λ t w. record w { clock = t };
    timestamp-set_timestamp = λ t w. refl;
  }

  abbrev pub host_of : (initial : S) → Host (sdk_of initial) S
  host_of initial = record {
    ConvErr = Unit;
    InvokeError = Unit;
    debug_conv = λ x. "ConversionError";
    debug_invoke = λ x. "Abort";
    storage = λ id w. w.stored id;
    register = λ s w. (w.fresh, store w.fresh s (record w { fresh = suc w.fresh }));
    mock_auths = λ ms w. record w { auths = ms };
    signed = λ w i a. is_signed w.auths i a;
    try_invoke = λ i f w.
        let r = f (is_signed w.auths i) w.clock (w.stored i.contract) in
        (call_result r.0, call_storage i.contract r w);
    invoke = λ i f w. call_value (f (is_signed w.auths i) w.clock (w.stored i.contract)).0;
    storage-register = λ s w. store_same w.fresh s (record w { fresh = suc w.fresh });
    storage-set_timestamp = λ id t w. refl;
    storage-mock_auths = λ id ms w. refl;
    signed-mock_auths_self = λ m w. is_signed_self m [];
    signed-mock_auths_nil = λ i a w. refl;
    try_invoke_returns = λ i f w a s h. (
      ap (λ r. call_result r.0) h,
      ap (λ r. (call_storage i.contract r w).stored i.contract) h ∙ store_same i.contract s w,
    );
    try_invoke_fails = λ i f w x s h.
        (ap (λ r. call_result r.0) h, ap (λ r. (call_storage i.contract r w).stored i.contract) h);
    try_invoke_traps = λ i f w s h. (
      tt,
      ap (λ r. call_result r.0) h,
      ap (λ r. (call_storage i.contract r w).stored i.contract) h,
    );
    invoke_returns = λ i f w a s h. ap (λ r. call_value r.0) h;
  }
