-- ===== src/Examples/Escrow/Effects.antt =====
-- What each command of examples/escrow/src/harness.rs does to a host that holds an escrow.
use soro_fuzz.Base.{
  ℕ, ◌≡◌, refl, ◌∙◌, ap, true, some, inl, inr, List, [], ◌∷◌, Eq, Bool-cases, leb, ltb,
}
use soro_fuzz.Int.{ℤ, int_eq}
use soro_fuzz.Strategies.Time.{TimeAdvance}
use soro_fuzz.Strategies.Amounts.{NonNegativeI128}
use soro_fuzz.Core.Command.{Outcome, rejected, is_ok, returned}
use soro_fuzz.Core.Adapter.{Sdk}
use soro_fuzz.Core.Harness.Clean.{IsBenign}
use soro_fuzz.Examples.Host.{Called, returns, fails, traps, Host, int}
use soro_fuzz.Examples.Host.Calls.{
  settled_outcome, settled_storage, IsSettled, try_call_settles, gated_call_settles,
}
use soro_fuzz.Examples.Escrow
use soro_fuzz.Examples.Escrow.{Storage, Error, Status, code_of}
use soro_fuzz.Examples.Escrow.Harness.{
  ModelStatus, empty, deposited, released, refunded, EscrowModel, EscrowCommand, deposit, release,
  refund, advance_time, apply_ok, apply_to_model, expected, invocation, gated, execute_with,
}
use soro_fuzz.Examples.Escrow.Machine.{
  holding, deposit_spec, release_spec, refund_spec, deposit_signed, deposit_unsigned,
  release_signed, release_unsigned, refund_lem,
}

module _ {Address : Type 0} ⦃e : Eq Address⦄ {sdk : Sdk Address} (host : Host sdk (Storage Address))
    (id d b : Address) (deadline : ℕ) where
  -- A command on a host that holds the model's status: an outcome that is no finding, and the
  -- status of the updated model.
  pub record Effect (command : EscrowCommand) (authorizers : List Address)
      (model : EscrowModel Address) (env : sdk.Env) : Type 0 where
    pub outcome : Outcome
    pub benign : IsBenign outcome
    pub came_to : (execute_with host command id d authorizers env).0 ≡ returned outcome
    pub model' : EscrowModel Address
    pub applied : apply_to_model command model (record { addresses = [] }) outcome ≡ some model'
    pub amount' : ℤ
    pub held :
        host.storage id (execute_with host command id d authorizers env).1
        ≡ holding d b deadline (expected model'.status) amount'

  -- What a settled call makes of the status and the model agrees.
  record Agreement (command : EscrowCommand) (model : EscrowModel Address) (amount : ℤ)
      (r : Called (Unit {0}) Error × Storage Address) : Type 0 where
    settled : IsSettled r.0
    model' : EscrowModel Address
    amount' : ℤ
    applied :
        apply_to_model command model (record { addresses = [] }) (settled_outcome code_of r.0)
        ≡ some model'
    left :
        settled_storage (holding d b deadline (expected model.status) amount) r
        ≡ holding d b deadline (expected model'.status) amount'

  IsBenign-settled :
      (r : Called (Unit {0}) Error) → IsSettled r → IsBenign (settled_outcome code_of r)
  IsBenign-settled (returns _) h = tt
  IsBenign-settled (fails _) h = tt
  IsBenign-settled traps h = elim h [ ]

  agree_deposit :
      (p : Address) (status : ModelStatus) (amount : ℤ) (value : NonNegativeI128)
      → Agreement
          (deposit value)
          (record { depositor = p; status = status })
          amount
          (deposit_spec d b deadline (expected status) amount value.value)
  unfolding expected apply_to_model apply_ok is_ok
  agree_deposit p empty amount value = record {
    settled = tt;
    model' = record { depositor = p; status = deposited };
    amount' = value.value;
    applied = refl;
    left = refl;
  }
  agree_deposit p status amount value = record {
    settled = tt;
    model' = record { depositor = p; status = status };
    amount' = amount;
    applied = refl;
    left = refl;
  }

  agree_release :
      (p : Address) (status : ModelStatus) (amount : ℤ) (now : ℕ)
      → Agreement release
          (record { depositor = p; status = status })
          amount
          (release_spec d b deadline (expected status) amount now)
  unfolding expected apply_to_model apply_ok is_ok
  agree_release p deposited amount now = elim (Bool-cases (leb deadline now)) [
    | inl late ↦ record {
      settled = rw late tt;
      model' = record { depositor = p; status = deposited };
      amount' = amount;
      applied = rw late;
      left = rw late;
    }
    | inr early ↦ record {
      settled = rw early tt;
      model' = record { depositor = p; status = released };
      amount' = amount;
      applied = rw early;
      left = rw early;
    }
  ]
  agree_release p status amount now = record {
    settled = tt;
    model' = record { depositor = p; status = status };
    amount' = amount;
    applied = refl;
    left = refl;
  }

  agree_refund :
      (p : Address) (status : ModelStatus) (amount : ℤ) (now : ℕ)
      → Agreement refund
          (record { depositor = p; status = status })
          amount
          (refund_spec d b deadline (expected status) amount now)
  unfolding expected apply_to_model apply_ok is_ok
  agree_refund p deposited amount now = elim (Bool-cases (ltb now deadline)) [
    | inl early ↦ record {
      settled = rw early tt;
      model' = record { depositor = p; status = deposited };
      amount' = amount;
      applied = rw early;
      left = rw early;
    }
    | inr late ↦ record {
      settled = rw late tt;
      model' = record { depositor = p; status = refunded };
      amount' = amount;
      applied = rw late;
      left = rw late;
    }
  ]
  agree_refund p status amount now = record {
    settled = tt;
    model' = record { depositor = p; status = status };
    amount' = amount;
    applied = refl;
    left = refl;
  }

  module _ (model : EscrowModel Address) (amount : ℤ) (authorizers : List Address) (env : sdk.Env)
      (h : host.storage id env ≡ holding d b deadline (expected model.status) amount) where
    Effect-deposit : (value : NonNegativeI128) → Effect (deposit value) authorizers model env
    unfolding execute_with gated apply_to_model is_ok
    Effect-deposit value =
        let spec = deposit_spec d b deadline (expected model.status) amount value.value in
        let agree = agree_deposit model.depositor model.status amount value in
        elim (gated_call_settles host d (invocation host id "deposit" (int value.value ∷ []))
          (Escrow.deposit value.value) code_of authorizers env
          (holding d b deadline (expected model.status) amount) (λ _. spec) h (λ _. agree.settled)
          (λ signs t p.
            deposit_signed d b deadline (expected model.status) amount signs t value.value p)
          (λ signs t p.
            deposit_unsigned d b deadline (expected model.status) amount signs t value.value p)) [
              | inl (t, yes_, r, left) ↦ record {
                outcome = settled_outcome code_of spec.0;
                benign = IsBenign-settled spec.0 agree.settled;
                came_to = r;
                model' = agree.model';
                applied = agree.applied;
                amount' = agree.amount';
                held = left ∙ agree.left;
              }
              | inr (m, no_, r, left) ↦ record {
                outcome = rejected m;
                benign = tt;
                came_to = r;
                model' = model;
                applied = refl;
                amount' = amount;
                held = left;
              }
            ]

    Effect-release : Effect release authorizers model env
    unfolding execute_with gated apply_to_model is_ok
    Effect-release =
        let spec = release_spec d b deadline (expected model.status) amount in
        let agree = agree_release model.depositor model.status amount in
        elim (gated_call_settles host d (invocation host id "release" []) Escrow.release code_of
          authorizers env (holding d b deadline (expected model.status) amount) spec h
          (λ t. (agree t).settled) (release_signed d b deadline (expected model.status) amount)
          (release_unsigned d b deadline (expected model.status) amount)) [
            | inl (t, yes_, r, left) ↦ record {
              outcome = settled_outcome code_of (spec t).0;
              benign = IsBenign-settled (spec t).0 (agree t).settled;
              came_to = r;
              model' = (agree t).model';
              applied = (agree t).applied;
              amount' = (agree t).amount';
              held = left ∙ (agree t).left;
            }
            | inr (m, no_, r, left) ↦ record {
              outcome = rejected m;
              benign = tt;
              came_to = r;
              model' = model;
              applied = refl;
              amount' = amount;
              held = left;
            }
          ]

    Effect-refund : Effect refund authorizers model env
    unfolding execute_with
    Effect-refund =
        let i = invocation host id "refund" [] in
        let now = sdk.timestamp env in
        let spec = refund_spec d b deadline (expected model.status) amount now in
        let agree = agree_refund model.depositor model.status amount now in
        let (r, left) =
          try_call_settles host i Escrow.refund true code_of env spec.0 spec.1
            (rw h (refund_lem d b deadline (expected model.status) amount (host.signed env i) now))
            agree.settled in
        record {
          outcome = settled_outcome code_of spec.0;
          benign = IsBenign-settled spec.0 agree.settled;
          came_to = r;
          model' = agree.model';
          applied = agree.applied;
          amount' = agree.amount';
          held = left ∙ ap (λ s. settled_storage s spec) h ∙ agree.left;
        }

    Effect-advance_time :
        (advance : TimeAdvance) → Effect (advance_time advance) authorizers model env
    unfolding execute_with apply_to_model apply_ok is_ok
    Effect-advance_time advance = record {
      outcome = Outcome.ok;
      benign = tt;
      came_to = refl;
      model' = model;
      applied = refl;
      amount' = amount;
      held = host.storage-set_timestamp id _ env ∙ h;
    }

    pub effect : (command : EscrowCommand) → Effect command authorizers model env
    effect (deposit value) = Effect-deposit value
    effect release = Effect-release
    effect refund = Effect-refund
    effect (advance_time advance) = Effect-advance_time advance
