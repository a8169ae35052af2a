-- ===== src/Examples/Token/Harness.antt =====
-- examples/token/src/harness.rs: what wires the token into the engine.
use mathlib.Core.Option
use soro_fuzz.Base.{ℕ, Option, none, some, List, [], ◌∷◌, map, String, Eq, ◌==◌, if◌then◌else◌}
use soro_fuzz.Int.{ℤ, pos, i128_min, i128_max, checked_add, checked_sub}
use soro_fuzz.Strategies.Amounts.{NonNegativeI128}
use soro_fuzz.Core.Auth.{AddressPool, get}
use soro_fuzz.Core.Command.{Outcome, is_ok, Executed, ExecContext}
use soro_fuzz.Core.Adapter.{Sdk, ContractAdapter}
use soro_fuzz.Invariants.{HasBalances, HasTotalSupply, RequiresAuthorizer}
use soro_fuzz.Examples.Host.{
  Call, Invocation, Val, address, int, Host, no_address, try_call, mock_single_auth,
}
use soro_fuzz.Examples.Token
use soro_fuzz.Examples.Token.{Storage, code_of}

abbrev pub admin_index : ℕ
admin_index = 0

abbrev pub initial_holder_index : ℕ
initial_holder_index = 1

abbrev pub initial_supply : ℤ
initial_supply = pos 1000000000

pub record TokenModel (Address : Type 0) : Type 0 where
  pub admin : Address
  pub balances : List (Address × ℤ)
  pub total_supply : ℤ

-- The indices are `AddressIndex`es, `u8`s.
pub data TokenCommand : Type 0 where
  mint : ℕ → NonNegativeI128 → TokenCommand
  burn : ℕ → NonNegativeI128 → TokenCommand
  transfer : ℕ → ℕ → NonNegativeI128 → TokenCommand

infixl 5 ◌>>=◌
abbrev pub ◌>>=◌ : {A B : Type 0} → Option A → (A → Option B) → Option B
none >>= f = none
some a >>= f = f a

module _ {Address : Type 0} ⦃e : Eq Address⦄ where
  -- `HasBalances::balance_of`, over the model's entries
  unfoldable pub balance_of : List (Address × ℤ) → Address → ℤ
  balance_of [] who = pos 0
  balance_of ((a, b) ∷ entries) who =
      let rest = balance_of entries who in if a == who then b else rest

  unfoldable pub balance_holders : List (Address × ℤ) → List Address
  balance_holders entries = map (λ (x : Address × ℤ). x.0) entries

  -- A write through `balance_mut`: to the entry of the address, or to one that is pushed for it.
  unfoldable pub write_balance : Address → ℤ → List (Address × ℤ) → List (Address × ℤ)
  write_balance who value [] = (who, value) ∷ []
  write_balance who value ((a, b) ∷ entries) =
      let rest = write_balance who value entries in
      if a == who then (a, value) ∷ entries else (a, b) ∷ rest

  -- `*model.balance_mut(who) += amount`: `none` is the overflow, which panics. The entry that
  -- `balance_mut` pushes starts at zero.
  unfoldable pub add_balance : Address → ℤ → TokenModel Address → Option (TokenModel Address)
  unfolding balance_of write_balance
  add_balance who amount model =
      Option.map (λ value. record model { balances = write_balance who value model.balances })
        (checked_add i128_min i128_max (balance_of model.balances who) amount)

  unfoldable pub sub_balance : Address → ℤ → TokenModel Address → Option (TokenModel Address)
  unfolding balance_of write_balance
  sub_balance who amount model =
      Option.map (λ value. record model { balances = write_balance who value model.balances })
        (checked_sub i128_min i128_max (balance_of model.balances who) amount)

  unfoldable pub add_supply : ℤ → TokenModel Address → Option (TokenModel Address)
  add_supply amount model =
      Option.map (λ value. record model { total_supply = value })
        (checked_add i128_min i128_max model.total_supply amount)

  unfoldable pub sub_supply : ℤ → TokenModel Address → Option (TokenModel Address)
  sub_supply amount model =
      Option.map (λ value. record model { total_supply = value })
        (checked_sub i128_min i128_max model.total_supply amount)

  unfoldable pub apply_ok :
      TokenCommand → TokenModel Address → AddressPool Address → Option (TokenModel Address)
  unfolding add_balance sub_balance add_supply sub_supply
  apply_ok (mint to amount) model addresses = do
    to_addr ← get addresses to
    model' ← add_balance to_addr amount.value model
    add_supply amount.value model'
  apply_ok (burn from amount) model addresses = do
    from_addr ← get addresses from
    model' ← sub_balance from_addr amount.value model
    sub_supply amount.value model'
  apply_ok (transfer from to amount) model addresses = do
    from_addr ← get addresses from
    to_addr ← get addresses to
    model' ← sub_balance from_addr amount.value model
    add_balance to_addr amount.value model'

  unfoldable pub apply_to_model :
      TokenCommand
      → TokenModel Address
      → AddressPool Address
      → Outcome
      → Option (TokenModel Address)
  unfolding apply_ok
  apply_to_model command model addresses outcome =
      if is_ok outcome then apply_ok command model addresses else some model

  unfoldable pub required_authorizer :
      TokenCommand → TokenModel Address → AddressPool Address → Option (Option Address)
  required_authorizer (mint to amount) model addresses = some (some model.admin)
  required_authorizer (burn from amount) model addresses = Option.map some (get addresses from)
  required_authorizer (transfer from to amount) model addresses =
      Option.map some (get addresses from)

module _ {Address : Type 0} ⦃e : Eq Address⦄ {sdk : Sdk Address}
    (host : Host sdk (Storage Address)) where
  unfoldable pub setup_with : Address → Address → sdk.Env → Address × TokenModel Address × sdk.Env
  setup_with admin initial_holder env =
      let (contract_id, env') =
        host.register (Token.constructor admin initial_holder initial_supply) env in
      (
        contract_id,
        record {
          admin = admin;
          balances = (initial_holder, initial_supply) ∷ [];
          total_supply = initial_supply;
        },
        env',
      )

  unfoldable pub setup :
      AddressPool Address → sdk.Env → Option (Address × TokenModel Address × sdk.Env)
  unfolding setup_with
  setup addresses env = do
    admin ← get addresses admin_index
    initial_holder ← get addresses initial_holder_index
    some (setup_with admin initial_holder env)

  abbrev pub invocation : Address → String → List (Val Address) → Invocation Address
  invocation contract_id fn_name args = record {
    contract = contract_id;
    fn_name = fn_name;
    args = args;
  }

  -- The auth is mocked if the signer signed, then the call is made.
  unfoldable pub gated :
      {A : Type 0}
      → Address
      → Invocation Address
      → Call Address (Storage Address) A Token.Error
      → List Address
      → sdk.Env
      → Executed × sdk.Env
  gated signer i f authorizers env =
      let (auth_satisfied, env') = mock_single_auth host signer i authorizers env in
      try_call host i f auth_satisfied code_of env'

  -- An address that a command names, or the panic of an empty pool.
  abbrev pub with_address :
      AddressPool Address → ℕ → sdk.Env → (Address → Executed × sdk.Env) → Executed × sdk.Env
  with_address addresses index env k = elim (get addresses index) [
    | none ↦ (no_address, env)
    | some a ↦ k a
  ]

  unfoldable pub execute :
      TokenCommand → ExecContext Address → List Address → sdk.Env → Executed × sdk.Env
  unfolding gated
  execute (mint to amount) ctx authorizers env = with_address ctx.addresses admin_index env λ admin.
      with_address ctx.addresses to env λ to_addr.
        gated admin (invocation ctx.contract_id "mint" (address to_addr ∷ int amount.value ∷ []))
          (Token.mint to_addr amount.value) authorizers env
  execute (burn from amount) ctx authorizers env = with_address ctx.addresses from env λ from_addr.
      gated from_addr
        (invocation ctx.contract_id "burn" (address from_addr ∷ int amount.value ∷ []))
        (Token.burn from_addr amount.value) authorizers env
  execute (transfer from to amount) ctx authorizers env =
      with_address ctx.addresses from env λ from_addr. with_address ctx.addresses to env λ to_addr.
        gated from_addr
          (invocation ctx.contract_id "transfer"
            (address from_addr ∷ address to_addr ∷ int amount.value ∷ []))
          (Token.transfer from_addr to_addr amount.value) authorizers env

  abbrev pub adapter : ContractAdapter sdk
  adapter = record {
    Command = TokenCommand;
    Model = TokenModel Address;
    setup = setup;
    execute = execute;
    apply_to_model = apply_to_model;
  }

  abbrev pub token_balances : HasBalances adapter
  token_balances = record {
    balance_holders = λ model. balance_holders model.balances;
    balance_of = λ model. balance_of model.balances;
  }

  abbrev pub token_supply : HasTotalSupply adapter
  token_supply = record { total_supply = λ model. model.total_supply }

  abbrev pub token_authorizer : RequiresAuthorizer adapter
  token_authorizer = record { required_authorizer = required_authorizer }
