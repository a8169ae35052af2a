-- ===== src/Core/Auth.antt =====
-- crates/core/src/auth.rs: the address pool, and the addresses that sign a step.
pub mod Resolve
use soro_fuzz.Base.{
  ℕ, zero, suc, ◌%◌, max, Option, none, some, List, [], ◌∷◌, ◌++◌, Eq, contains, length, get_elem?,
  nat_beq, if◌then◌else◌,
}

pub record AddressPool (Address : Type 0) : Type 0 where
  pub addresses : List Address

-- The indices are `u8`s; they are only ever reduced modulo the pool's length.
pub record AuthSelection : Type 0 where
  pub indices : List ℕ

unfoldable pub no_indices : AuthSelection
no_indices = record { indices = [] }

unfoldable pub from_indices : List ℕ → AuthSelection
from_indices is = record { indices = is }

-- `Address::generate`, so many times; every call changes the host.
module _ {Address Env : Type 0} (generate_one : Env → Address × Env) where
  unfoldable pub generate_all : ℕ → Env → List Address × Env
  generate_all zero env = ([], env)
  generate_all (suc n) env =
      let (a, env') = generate_one env in let (as', env'') = generate_all n env' in (a ∷ as', env'')

  unfoldable pub generate : ℕ → Env → AddressPool Address × Env
  unfolding generate_all
  generate size env =
      let (as', env') = generate_all (max size 1) env in (record { addresses = as' }, env')

module _ {Address : Type 0} where
  -- `none` is the panic of `index % 0` on an empty pool.
  unfoldable pub get : AddressPool Address → ℕ → Option Address
  get pool index =
      if nat_beq (length pool.addresses) 0
      then none
      else get_elem? pool.addresses (index % length pool.addresses)

  unfoldable pub len : AddressPool Address → ℕ
  len pool = length pool.addresses

module _ {Address : Type 0} ⦃e : Eq Address⦄ where
  abbrev pub push_new : Address → List Address → List Address
  push_new addr out = if contains out addr then out else out ++ (addr ∷ [])

  -- The loop of `resolve` over the indices that are left; `out` is what it has collected.
  unfoldable pub resolve_from : AddressPool Address → List ℕ → List Address → Option (List Address)
  resolve_from pool [] out = some out
  resolve_from pool (raw_index ∷ rest) out = elim (get pool raw_index) [
    | none ↦ none
    | some addr ↦ resolve_from pool rest (push_new addr out)
  ]

  unfoldable pub resolve : AddressPool Address → AuthSelection → Option (List Address)
  unfolding resolve_from
  resolve pool selection = resolve_from pool selection.indices []
