-- ===== src/Invariants.antt =====
-- crates/invariants: the ready-made invariants, over what a model or a command exposes.
pub mod Laws
pub mod Sums
use soro_fuzz.Base.{
  ℕ, not, Option, none, some, List, [], ◌∷◌, map, String, concat, Eq, contains, if◌then◌else◌,
}
use soro_fuzz.Int.{ℤ, pos, ltb_ℤ, beq_ℤ, i128_min, i128_max, checked_add, display}
use soro_fuzz.Core.Auth.{AddressPool}
use soro_fuzz.Core.Command.{is_ok}
use soro_fuzz.Core.Adapter.{Sdk, ContractAdapter, Check, passed, failed, panicked, Invariant}

module _ {Address : Type 0} {sdk : Sdk Address} (a : ContractAdapter sdk) where
  pub record HasBalances : Type 0 where
    pub balance_holders : a.Model → List Address
    pub balance_of : a.Model → Address → ℤ  -- i128

  pub record HasTotalSupply : Type 0 where
    pub total_supply : a.Model → ℤ  -- i128

  -- The outer `none` is a panic, the inner one a command that is open to anyone.
  pub record RequiresAuthorizer : Type 0 where
    pub required_authorizer : a.Command → a.Model → AddressPool Address → Option (Option Address)

-- The loop of `NoNegativeBalance::check` over the holders.
unfoldable pub check_balances :
    {Address : Type 0} → (Address → String) → (Address → ℤ) → ℕ → List Address → Check
check_balances debug_address balance_of step_index [] = passed
check_balances debug_address balance_of step_index (holder ∷ holders) =
    let rest = check_balances debug_address balance_of step_index holders in
    let balance = balance_of holder in
    if ltb_ℤ balance (pos 0)
    then failed (record {
      invariant = "no-negative-balance";
      message =
          concat ("balance of " ∷ debug_address holder ∷ " went negative: " ∷ display balance ∷ []);
      step_index = step_index;
    })
    else rest

-- `Iterator::sum` over `i128`: `none` is an overflow, which panics.
unfoldable pub sum_from : ℤ → List ℤ → Option ℤ
sum_from acc [] = some acc
sum_from acc (x ∷ xs) = elim (checked_add i128_min i128_max acc x) [
  | none ↦ none
  | some acc' ↦ sum_from acc' xs
]

module _ {Address : Type 0} {sdk : Sdk Address} {a : ContractAdapter sdk}
    (debug_address : Address → String) where
  unfoldable pub no_negative_balance : HasBalances a → Invariant a
  no_negative_balance m = record {
    name = "no-negative-balance";
    check = λ ctx.
        check_balances debug_address (m.balance_of ctx.model) ctx.step_index
          (m.balance_holders ctx.model);
  }

  unfoldable pub supply_conservation : HasBalances a → HasTotalSupply a → Invariant a
  unfolding sum_from
  supply_conservation m n = record {
    name = "supply-conservation";
    check = λ ctx.
        elim (sum_from (pos 0) (map (m.balance_of ctx.model) (m.balance_holders ctx.model))) [
          | none ↦ panicked
          | some sum ↦
              let total = n.total_supply ctx.model in
              if not (beq_ℤ sum total)
              then failed (record {
                invariant = "supply-conservation";
                message = concat (
                    "sum of balances ("
                    ∷ display sum
                    ∷ ") != total supply ("
                    ∷ display total
                    ∷ ")"
                    ∷ []);
                step_index = ctx.step_index;
              })
              else passed
        ];
  }

  unfoldable pub auth_required_for_mutation : ⦃e : Eq Address⦄ → RequiresAuthorizer a → Invariant a
  auth_required_for_mutation c = record {
    name = "auth-required-for-mutation";
    check = λ ctx.
        if not (is_ok ctx.last_outcome)
        then passed
        else elim (c.required_authorizer ctx.command ctx.model ctx.addresses) [
          | none ↦ panicked
          | some none ↦ passed
          | some (some required) ↦
              if not (contains ctx.authorizers required)
              then failed (record {
                invariant = "auth-required-for-mutation";
                message = concat (
                    "command succeeded without authorization from required address "
                    ∷ debug_address required
                    ∷ []);
                step_index = ctx.step_index;
              })
              else passed
        ];
  }
