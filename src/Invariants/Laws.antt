-- ===== src/Invariants/Laws.antt =====
-- When the checks of crates/invariants pass.
use soro_fuzz.Base.{
  ℕ, ◌≡◌, refl, ◌↔◌, ◌⊎◌, inl, inr, ◌∙◌, ap, sym, true, false, none, some, Option-cases, List, [],
  ◌∷◌, map, String, Eq, contains, arith, Bool-cases, All,
}
use soro_fuzz.Int.{ℤ, pos, ◌≤ℤ◌, ltb_ℤ, le_of_ltb_ℤ, beq_ℤ, beq_ℤ_iff}
use soro_fuzz.Core.Command.{is_ok}
use soro_fuzz.Core.Adapter.{Sdk, ContractAdapter, InvariantCtx, passed}
use soro_fuzz.Invariants.Sums.{total, IsBounded, sum_from-total, sum_from_zero}
use soro_fuzz.Invariants.{
  HasBalances, HasTotalSupply, RequiresAuthorizer, check_balances, sum_from, no_negative_balance,
  supply_conservation, auth_required_for_mutation,
}

check_balances_passed :
    {Address : Type 0} (debug : Address → String) (f : Address → ℤ) (k : ℕ) (hs : List Address)
    → (check_balances debug f k hs ≡ passed) ↔ All (λ a. pos 0 ≤ℤ f a) hs
unfolding check_balances
check_balances_passed debug f k [] = (λ _. tt, λ _. refl)
check_balances_passed debug f k (a ∷ hs) = elim (Bool-cases (ltb_ℤ (f a) (pos 0))) [
  | inl negative ↦ (λ h. cc (sym (rw negative at h)), λ h. ground (arith, h.0))
  | inr nonneg ↦ rw nonneg (
      let (to, from) = check_balances_passed debug f k hs in
      (λ h. (le_of_ltb_ℤ (f a) (pos 0) nonneg, to h), λ h. from h.1))
]

module _ {Address : Type 0} {sdk : Sdk Address} {a : ContractAdapter sdk}
    (debug_address : Address → String) where
  -- `no-negative-balance` passes exactly if every balance holder's balance is at least zero.
  pub no_negative_balance_passed :
      (m : HasBalances a) (ctx : InvariantCtx a)
      → ((no_negative_balance debug_address m).check ctx ≡ passed)
        ↔ All (λ who. pos 0 ≤ℤ m.balance_of ctx.model who) (m.balance_holders ctx.model)
  unfolding no_negative_balance
  no_negative_balance_passed m ctx =
      check_balances_passed debug_address (m.balance_of ctx.model) ctx.step_index
        (m.balance_holders ctx.model)

  -- `supply-conservation` passes exactly if the holders' balances, summed up one after another as
  -- integers, never leave the range of an i128 and come to the total supply.
  pub supply_conservation_passed :
      (m : HasBalances a) (n : HasTotalSupply a) (ctx : InvariantCtx a)
      → ((supply_conservation debug_address m n).check ctx ≡ passed) ↔ (
          IsBounded (pos 0) (map (m.balance_of ctx.model) (m.balance_holders ctx.model))
          × (total (map (m.balance_of ctx.model) (m.balance_holders ctx.model))
              ≡ n.total_supply ctx.model))
  unfolding supply_conservation
  supply_conservation_passed m n ctx =
      let balances = map (m.balance_of ctx.model) (m.balance_holders ctx.model) in
      let supply = n.total_supply ctx.model in
      elim (Option-cases (sum_from (pos 0) balances)) [
        | inl overflows ↦ (
          λ h. ground (arith, overflows, h),
          λ (bounded, _). ground (arith, overflows, sum_from-total (pos 0) balances bounded),
        )
        | inr (v, sums) ↦
            let (bounded, comes) = sum_from_zero balances v sums in
            elim (Bool-cases (beq_ℤ v supply)) [
              | inl same ↦ (
                λ h. (bounded, comes ∙ (beq_ℤ_iff v supply).0 same),
                λ h. ground (arith, sums, same),
              )
              | inr differs ↦ (
                λ h. ground (arith, sums, differs, h),
                λ (_, equal).
                    let same = (beq_ℤ_iff v supply).1 (sym comes ∙ equal) in
                    ground (arith, same, differs),
              )
            ]
      ]

  -- `auth-required-for-mutation` passes exactly if the command did not succeed, or it is open to
  -- anyone, or the address that it requires is one of the signers.
  pub auth_required_passed :
      ⦃e : Eq Address⦄ (c : RequiresAuthorizer a) (ctx : InvariantCtx a)
      → ((auth_required_for_mutation debug_address c).check ctx ≡ passed) ↔ (
          (is_ok ctx.last_outcome ≡ false)
          ⊎ ((c.required_authorizer ctx.command ctx.model ctx.addresses ≡ some none)
              ⊎ ((required : Address) × (c.required_authorizer ctx.command ctx.model ctx.addresses
                    ≡ some (some required))
                  × (contains ctx.authorizers required ≡ true))))
  unfolding auth_required_for_mutation
  auth_required_passed c ctx =
      let required = c.required_authorizer ctx.command ctx.model ctx.addresses in
      elim (Bool-cases (is_ok ctx.last_outcome)) [
        | inr not_ok ↦ (λ h. inl not_ok, λ h. ground (arith, not_ok))
        | inl succeeded ↦ elim (Option-cases required) [
          | inl panics ↦
              (λ h. ground (arith, succeeded, panics), λ h. ground (arith, succeeded, panics))
          | inr (inner, found) ↦ elim (Option-cases inner) [
            | inl open_ ↦ (
              λ h. inr (inl (found ∙ ap some open_)),
              λ h. ground (arith, succeeded, found, open_),
            )
            | inr (who, named) ↦ elim (Bool-cases (contains ctx.authorizers who)) [
              | inl signed ↦ (
                λ h. inr (inr (who, found ∙ ap some named, signed)),
                λ h. ground (arith, succeeded, found, named, signed),
              )
              | inr unsigned ↦ (
                λ h. ground (arith, succeeded, found, named, unsigned),
                λ h. ground (arith, succeeded, found, named, unsigned),
              )
            ]
          ]
        ]
      ]
