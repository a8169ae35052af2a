-- ===== src/Tests/Tokens.antt =====
-- Runs and calls of the token of examples/token on the small host.
use soro_fuzz.Base.{
  ℕ, ◌≡◌, refl, Bool, true, false, none, some, [], ◌∷◌, ◌==◌, nat_eq, String, unwrap_or, arith, ◌↔◌,
  ◌⊎◌, All, map, contains,
}
use soro_fuzz.Int
use soro_fuzz.Int.{ℤ, pos, negsuc, ◌+ℤ◌, ◌≤ℤ◌}
use soro_fuzz.Core.Auth.{AuthSelection, get, generate}
use soro_fuzz.Core.Command.{Outcome, is_ok, Run}
use soro_fuzz.Core.Adapter.{InvariantCtx, passed}
use soro_fuzz.Invariants.{no_negative_balance, supply_conservation, auth_required_for_mutation}
use soro_fuzz.Invariants.Sums.{total, IsBounded}
use soro_fuzz.Invariants.Laws.{
  no_negative_balance_passed, supply_conservation_passed, auth_required_passed,
}
use soro_fuzz.Core.Harness.{completed, run}
use soro_fuzz.Examples.Host.{returns}
use soro_fuzz.Examples.Token
use soro_fuzz.Examples.Token.Harness.{
  TokenCommand, mint, burn, transfer, adapter, balance_of, balance_holders, required_authorizer,
  token_balances, token_supply, token_authorizer,
}
use soro_fuzz.Examples.Token.Clean.{harness, IsApart, token_run_completed}
use soro_fuzz.Examples.Token.SelfTransfer.{transfer_self_inflates}
use soro_fuzz.Tests.{sdk_of, host_of}

abbrev no_token : Token.Storage ℕ
no_token = record { admin = none; total_supply = none; balances = λ a. none }

abbrev everyone : AuthSelection
everyone = record { indices = 0 ∷ 1 ∷ 2 ∷ [] }

abbrev debug : ℕ → String
debug a = "address"

abbrev token_steps : Run TokenCommand
token_steps = record {
  steps =
      record {
        command = transfer 1 2 (record { value = pos 10 });
        authorized = everyone;
        advance_time = none;
      }
      ∷ record {
        command = burn 2 (record { value = pos 11 });
        authorized = everyone;
        advance_time = some 5;
      }
      ∷ [];
}

generated-IsApart :
    IsApart
      (host_of no_token)
      (generate (sdk_of no_token).generate_address 4 (sdk_of no_token).default).0
      (transfer 1 2 (record { value = pos 10 }))
unfolding get generate
generated-IsApart p = ground arith

token_run_completed_example :
    run (adapter (host_of no_token)) (harness (host_of no_token) debug 32 4) token_steps ≡ completed
token_run_completed_example =
    token_run_completed (host_of no_token) debug 32 4 token_steps (generated-IsApart, (tt, tt))

abbrev rich : Token.Storage ℕ
rich =
    Token.set_balance 7 (pos 50)
      (record { admin = some 1; total_supply = some (pos 50); balances = λ a. none })

abbrev signs_seven : ℕ → Bool
signs_seven a = a == 7

fits : Int.in_range Int.i128_min Int.i128_max (pos 50 +ℤ pos 20) ≡ true
unfolding ◌+ℤ◌
fits = refl

transfer_self_inflates_example :
    ((Token.transfer 7 7 (pos 20) signs_seven 0 rich).0 ≡ returns tt)
    × (unwrap_or ((Token.transfer 7 7 (pos 20) signs_seven 0 rich).1.balances 7) (pos 0)
        ≡ pos 50 +ℤ pos 20)
    × ((Token.transfer 7 7 (pos 20) signs_seven 0 rich).1.total_supply ≡ some (pos 50))
transfer_self_inflates_example =
    transfer_self_inflates 7 (pos 20) signs_seven 0 rich refl refl refl refl fits

abbrev seen : InvariantCtx (adapter (host_of no_token))
seen = record {
  env = (sdk_of no_token).default;
  contract_id = 9;
  model = record { admin = 1; balances = (1, pos 3) ∷ (2, negsuc 0) ∷ []; total_supply = pos 2 };
  command = mint 1 (record { value = pos 3 });
  last_outcome = Outcome.ok;
  authorizers = 2 ∷ [];
  addresses = record { addresses = 1 ∷ 2 ∷ [] };
  step_index = 0;
}

no_negative_balance_passed_example :
    ((no_negative_balance debug (token_balances (host_of no_token))).check seen ≡ passed)
    ↔ All (λ who. pos 0 ≤ℤ balance_of seen.model.balances who) (balance_holders seen.model.balances)
no_negative_balance_passed_example =
    no_negative_balance_passed debug (token_balances (host_of no_token)) seen

supply_conservation_passed_example :
    ((supply_conservation debug
          (token_balances (host_of no_token))
          (token_supply (host_of no_token))).check
        seen
      ≡ passed)
    ↔ (IsBounded
          (pos 0)
          (map (balance_of seen.model.balances) (balance_holders seen.model.balances))
        × (total (map (balance_of seen.model.balances) (balance_holders seen.model.balances))
            ≡ pos 2))
supply_conservation_passed_example =
    supply_conservation_passed debug (token_balances (host_of no_token))
      (token_supply (host_of no_token)) seen

auth_required_passed_example :
    ((auth_required_for_mutation debug (token_authorizer (host_of no_token))).check seen ≡ passed)
    ↔ ((is_ok Outcome.ok ≡ false)
        ⊎ ((required_authorizer seen.command seen.model seen.addresses ≡ some none)
            ⊎ ((required : ℕ) × (required_authorizer seen.command seen.model seen.addresses
                  ≡ some (some required))
                × (contains (2 ∷ []) required ≡ true))))
auth_required_passed_example = auth_required_passed debug (token_authorizer (host_of no_token)) seen
