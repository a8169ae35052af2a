-- ===== src/Examples/Token/Clean.antt =====
-- The runs of the token (examples/token/src) through the harness of fuzz/fuzz_targets/token_fuzz.rs.
use soro_fuzz.Base.{
  map, ℕ, ◌≡◌, refl, sym, ap, ◌∙◌, true, false, Option, some, List, [], ◌∷◌, Eq, ◌==◌, eq_of_beq,
  Bool-cases, inl, inr, ◌⊎◌, ◌≢◌, arith, contains, All, String,
}
use soro_fuzz.Int.{ℤ, pos, ◌≤ℤ◌, ◌+ℤ◌}
use soro_fuzz.Core.Auth.{AddressPool, AuthSelection, get, generate}
use soro_fuzz.Core.Auth.Resolve.{IsNonempty, get_total}
use soro_fuzz.Core.Command.{Outcome, is_ok, Executed, ExecContext, Step, Run}
use soro_fuzz.Core.Adapter.{Sdk, InvariantCtx}
use soro_fuzz.Core.Harness.{completed, Harness, run}
use soro_fuzz.Core.Harness.Clean.{AllPass}
use soro_fuzz.Core.Harness.Rule.{Keeps, run_completed_rule}
use soro_fuzz.Invariants.{no_negative_balance, supply_conservation, auth_required_for_mutation}
use soro_fuzz.Invariants.Sums.{sum_from_zero}
use soro_fuzz.Invariants.Laws.{
  no_negative_balance_passed, supply_conservation_passed, auth_required_passed,
}
use soro_fuzz.Examples.Host.{address, int, Host}
use soro_fuzz.Examples.Token
use soro_fuzz.Examples.Token.{Storage, Error, code_of, negative_amount, balance}
use soro_fuzz.Examples.Token.Harness.{
  admin_index, initial_holder_index, initial_supply, TokenModel, TokenCommand, mint, burn, transfer,
  balance_of, balance_holders, apply_ok, apply_to_model, required_authorizer, setup, setup_with,
  gated, execute, adapter, invocation, with_address, token_balances, token_supply, token_authorizer,
  ◌>>=◌, add_balance, sub_balance, add_supply, sub_supply,
}
use soro_fuzz.Examples.Token.Ledger.{sum_from_entries, balance_of_bounds}
use soro_fuzz.Examples.Token.Effects.{Books, mint-Effect, burn-Effect, transfer-Effect}
use soro_fuzz.Examples.Token.Settles.{
  Settled, succeeded, refused, gated_settles, mint_unsigned, burn_unsigned, transfer_unsigned,
}

module _ {Address : Type 0} ⦃e : Eq Address⦄ {sdk : Sdk Address}
    (host : Host sdk (Storage Address)) where
  -- The contract's admin is the pool's first address, and the model is its books.
  record Agrees (ctx : ExecContext Address) (model : TokenModel Address) (env : sdk.Env)
      : Type 0 where
    named : get ctx.addresses admin_index ≡ some model.admin
    books : Books (host.storage ctx.contract_id env) model

  -- A transfer whose two indices name different addresses; any other command.
  abbrev pub IsApart : AddressPool Address → TokenCommand → Type 0
  IsApart pool (mint to amount) = Unit
  IsApart pool (burn from amount) = Unit
  IsApart pool (transfer from to amount) = get pool from ≢ get pool to

  -- The three invariants of the fuzz target, with any settings.
  abbrev pub harness : (Address → String) → ℕ → ℕ → Harness (adapter host)
  harness debug commands pool = record {
    commands_per_run = commands;
    address_pool_size = pool;
    invariants =
        no_negative_balance debug (token_balances host)
        ∷ supply_conservation debug (token_balances host) (token_supply host)
        ∷ auth_required_for_mutation debug (token_authorizer host)
        ∷ [];
  }

  All-nonneg :
      (l : List (Address × ℤ)) (hs : List Address)
      → ((a : Address) → pos 0 ≤ℤ balance_of l a)
      → All (λ a. pos 0 ≤ℤ balance_of l a) hs
  All-nonneg l [] h = tt
  All-nonneg l (a ∷ hs) h = (h a, All-nonneg l hs h)

  checks_pass :
      (debug : Address → String) (n m : ℕ) (ctx : InvariantCtx (adapter host)) (s : Storage Address)
      → Books s ctx.model
      → (is_ok ctx.last_outcome ≡ false)
        ⊎ ((required : Address) × (required_authorizer ctx.command ctx.model ctx.addresses
              ≡ some (some required))
            × (contains ctx.authorizers required ≡ true))
      → AllPass (adapter host) (harness debug n m).invariants ctx
  checks_pass debug n m ctx s k auth =
      let l = ctx.model.balances in
      (
        (no_negative_balance_passed debug (token_balances host) ctx).1
            (All-nonneg l (balance_holders l) (λ a. (balance_of_bounds l a k.nonneg).0)),
        (
          (supply_conservation_passed debug (token_balances host) (token_supply host) ctx).1 (
              sum_from_zero (map (balance_of l) (balance_holders l)) ctx.model.total_supply
                (sum_from_entries l k.distinct k.nonneg (rw k.total k.bounded) ∙ ap some k.total)),
          (
            (auth_required_passed debug (token_authorizer host) ctx).1
                (elim auth [ inl no_ ↦ inl no_ | inr yes_ ↦ inr (inr yes_) ]),
            tt,
          ),
        ),
      )

  Keeps-of :
      (debug : Address → String) (n m : ℕ) (ctx : ExecContext Address) (k : ℕ)
      (step : Step TokenCommand) (authorizers : List Address) (model : TokenModel Address)
      (env : sdk.Env) (signer : Address) (x : Executed × sdk.Env)
      → Agrees ctx model env
      → execute host step.command ctx authorizers env ≡ x
      → ((model' : TokenModel Address)
          → model'.admin ≡ model.admin
          → required_authorizer step.command model' ctx.addresses ≡ some (some signer))
      → Settled host ctx.contract_id signer model.admin authorizers
          (host.storage ctx.contract_id env)
          (apply_ok step.command model ctx.addresses)
          x
      → Keeps (adapter host) (harness debug n m) Agrees ctx k step authorizers model env
  unfolding apply_to_model is_ok
  Keeps-of debug n m ctx k step authorizers model env signer x p made required settled =
      elim settled [
        | succeeded m' yes_ r up same books ↦ record {
          outcome = Outcome.ok;
          model' = m';
          env' = x.1;
          came_to = made ∙ ap (λ y. (y, x.1)) r;
          benign = tt;
          applied = up;
          held = record { named = p.named ∙ ap some (sym same); books = books };
          checked = checks_pass debug n m _ _ books (inr (signer, required m' same, yes_));
        }
        | refused o benign no_ r left ↦ record {
          outcome = o;
          model' = model;
          env' = x.1;
          came_to = made ∙ ap (λ y. (y, x.1)) r;
          benign = benign;
          applied = rw no_;
          held = record { named = p.named; books = rw left p.books };
          checked = checks_pass debug n m _ (host.storage ctx.contract_id env) p.books (inl no_);
        }
      ]

  apart :
      (pool : AddressPool Address) (i j : ℕ) (a b : Address)
      → get pool i ≡ some a
      → get pool j ≡ some b
      → get pool i ≢ get pool j
      → (a == b) ≡ false
  apart pool i j a b p q distinct = elim (Bool-cases (a == b)) [
    | inl same ↦ absurd (distinct (p ∙ ap some (eq_of_beq a b same) ∙ sym q))
    | inr other ↦ other
  ]

  keeps :
      (debug : Address → String) (n m : ℕ) (ctx : ExecContext Address) (k : ℕ)
      (command : TokenCommand) (selection : AuthSelection) (advance : Option ℕ)
      (authorizers : List Address) (model : TokenModel Address) (env : sdk.Env)
      → IsNonempty ctx.addresses
      → IsApart ctx.addresses command
      → Agrees ctx model env
      → Keeps
          (adapter host)
          (harness debug n m)
          Agrees
          ctx
          k
          (record { command = command; authorized = selection; advance_time = advance })
          authorizers
          model
          env
  unfolding execute required_authorizer apply_ok
  keeps debug n m ctx k (mint to amount) selection advance authorizers model env nonempty q p =
      let (a, found) = get_total ctx.addresses to nonempty in
      let s = host.storage ctx.contract_id env in
      let i = invocation host ctx.contract_id "mint" (address a ∷ int amount.value ∷ []) in
      let settled =
        gated_settles host model.admin model.admin i (Token.mint a amount.value) authorizers env
          (add_balance a amount.value model >>= add_supply amount.value)
          (λ signs now yes_. mint-Effect s model p.books signs now a amount.value yes_)
          (λ signs now. mint_unsigned s a model.admin amount.value signs now p.books.admin) in
      Keeps-of debug n m ctx k _ authorizers model env model.admin
        (gated host model.admin i (Token.mint a amount.value) authorizers env) p
        (rw (p.named, with_address) (rw (found, with_address)))
        (λ model' same. ap (λ x. some (some x)) same) (rw found settled)
  keeps debug n m ctx k (burn from amount) selection advance authorizers model env nonempty q p =
      let (a, found) = get_total ctx.addresses from nonempty in
      let s = host.storage ctx.contract_id env in
      let i = invocation host ctx.contract_id "burn" (address a ∷ int amount.value ∷ []) in
      let settled =
        gated_settles host a model.admin i (Token.burn a amount.value) authorizers env
          (sub_balance a amount.value model >>= sub_supply amount.value)
          (λ signs now yes_. burn-Effect s model p.books signs now a amount.value yes_)
          (λ signs now. burn_unsigned s a amount.value signs now) in
      Keeps-of debug n m ctx k _ authorizers model env a
        (gated host a i (Token.burn a amount.value) authorizers env) p (rw (found, with_address))
        (λ model' same. rw found) (rw found settled)
  keeps debug n m ctx k (transfer from to amount) selection advance authorizers model env nonempty q
        p =
      let (a, found) = get_total ctx.addresses from nonempty in
      let (b, found') = get_total ctx.addresses to nonempty in
      let s = host.storage ctx.contract_id env in
      let other = apart ctx.addresses from to a b found found' q in
      let i =
        invocation host ctx.contract_id "transfer"
          (address a ∷ address b ∷ int amount.value ∷ []) in
      let settled =
        gated_settles host a model.admin i (Token.transfer a b amount.value) authorizers env
          (sub_balance a amount.value model >>= add_balance b amount.value)
          (λ signs now yes_. transfer-Effect s model p.books signs now a b amount.value other yes_)
          (λ signs now. transfer_unsigned s a b amount.value signs now) in
      Keeps-of debug n m ctx k _ authorizers model env a
        (gated host a i (Token.transfer a b amount.value) authorizers env) p
        (rw (found, with_address) (rw (found', with_address))) (λ model' same. rw found)
        (rw (found, found') settled)

  start-Books :
      (admin holder : Address)
      → Books (Token.constructor admin holder initial_supply) (record {
        admin = admin;
        balances = (holder, initial_supply) ∷ [];
        total_supply = initial_supply;
      })
  unfolding Token.constructor balance_of balance_holders ◌+ℤ◌
  start-Books admin holder = record {
    admin = refl;
    balances = λ a. ground arith;
    supply = refl;
    total = refl;
    nonneg = (omega arith, tt);
    distinct = (refl, tt);
    bounded = omega arith;
  }

  -- For any sequence of commands in which no transfer names the same address twice, whoever signs
  -- each command and however the clock is advanced, the harness of the fuzz target runs to the
  -- end: no command comes to an undeclared panic, no balance of the model is negative, the
  -- balances sum up to the supply, and no command succeeds unsigned.
  pub token_run_completed :
      (debug : Address → String) (commands pool : ℕ) (r : Run TokenCommand)
      → All
          (λ step. IsApart (generate sdk.generate_address pool sdk.default).0 step.command)
          r.steps
      → run (adapter host) (harness debug commands pool) r ≡ completed
  unfolding setup setup_with
  token_run_completed debug commands pool r apart_steps =
      run_completed_rule (adapter host) (harness debug commands pool) Agrees IsApart
        (λ ctx t model env p. record {
          named = p.named;
          books = rw (host.storage-set_timestamp ctx.contract_id t env) p.books;
        })
        (λ addresses env nonempty.
          let (admin, named) = get_total addresses admin_index nonempty in
          let (holder, named') = get_total addresses initial_holder_index nonempty in
          let (id, model, made) = setup_with host admin holder env in
          (
            id,
            model,
            made,
            rw (named, named', setup),
            record {
              named = named;
              books =
                  rw (host.storage-register (Token.constructor admin holder initial_supply) env)
                    (start-Books admin holder);
            },
          ))
        (λ ctx k step authorizers model env nonempty q p.
          keeps debug commands pool ctx k step.command step.authorized step.advance_time authorizers
            model env nonempty q p)
        r apart_steps
