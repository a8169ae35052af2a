-- ===== src/Examples/Token/Effects.antt =====
-- What each function of examples/token/src/lib.rs does to a contract whose books the shadow model of
-- examples/token/src/harness.rs keeps.
use soro_fuzz.Base.{
  ℕ, ◌≡◌, refl, ◌∙◌, Bool, true, false, Option, some, List, Eq, ◌==◌, Bool-cases, inl, inr,
  unwrap_or, arith,
}
use soro_fuzz.Int.{
  ℤ, pos, ◌+ℤ◌, ◌-ℤ◌, ◌≤ℤ◌, ltb_ℤ, i128_min, i128_max, in_range, in_range_intro, in_range_bounds,
  int_laws, le_of_ltb_ℤ,
}
use soro_fuzz.Core.Auth.Resolve.{IsDistinct}
use soro_fuzz.Examples.Host.{Called, returns, fails}
use soro_fuzz.Examples.Token.{
  Storage, Error, insufficient_balance, overflow, negative_amount, set_balance, set_total_supply,
  mint, burn, transfer, balance,
}
use soro_fuzz.Examples.Token.Harness.{
  TokenModel, balance_of, balance_holders, write_balance, add_balance, sub_balance, add_supply,
  sub_supply, ◌>>=◌,
}
use soro_fuzz.Examples.Token.Ledger.{
  sum, AllNonneg, balance_of-write, sum-write, write-AllNonneg, balance_of_bounds, write-IsDistinct,
}

module _ {Address : Type 0} ⦃e : Eq Address⦄ where
  -- The contract's balances and supply are the model's; no balance is negative, and they sum up to
  -- the supply.
  pub record Books (s : Storage Address) (m : TokenModel Address) : Type 0 where
    pub admin : s.admin ≡ some m.admin
    pub balances : (a : Address) → unwrap_or (s.balances a) (pos 0) ≡ balance_of m.balances a
    pub supply : unwrap_or s.total_supply (pos 0) ≡ m.total_supply
    pub total : sum m.balances ≡ m.total_supply
    pub nonneg : AllNonneg m.balances
    pub distinct : IsDistinct (balance_holders m.balances)
    pub bounded : m.total_supply ≤ℤ i128_max

  -- The result of a call: an error that leaves the storage, or a value with a storage that the
  -- updated model is the books of.
  pub data Effect {A : Type 0} (admin : Address) (s : Storage Address)
      (updated : Option (TokenModel Address)) (r : Called A Error × Storage Address) : Type 0 where
    failed : (x : Error) → r ≡ (fails x, s) → Effect admin s updated r
    returned :
        (v : A) (s' : Storage Address) (m' : TokenModel Address)
        → r ≡ (returns v, s')
        → updated ≡ some m'
        → m'.admin ≡ admin
        → Books s' m'
        → Effect admin s updated r

  -- A balance that is written in the contract and in the model.
  set_balance_kept :
      (who : Address) (v : ℤ) (s : Storage Address) (l : List (Address × ℤ))
      → ((a : Address) → unwrap_or (s.balances a) (pos 0) ≡ balance_of l a)
      → (a : Address)
      → unwrap_or ((set_balance who v s).balances a) (pos 0) ≡ balance_of (write_balance who v l) a
  set_balance_kept who v s l h a = elim (Bool-cases (who == a)) [
    | inl same ↦ rw (balance_of-write who v l a, same)
    | inr other ↦ rw (balance_of-write who v l a, other) (h a)
  ]

  -- A balance and the supply that change by the same amount.
  Books-set :
      (s : Storage Address) (m : TokenModel Address)
      → Books s m
      → (who : Address) (v t : ℤ) → pos 0 ≤ℤ v
      → m.total_supply +ℤ v ≡ t +ℤ balance_of m.balances who
      → t ≤ℤ i128_max
      → Books
          (set_total_supply t (set_balance who v s))
          (record m { balances = write_balance who v m.balances; total_supply = t })
  Books-set s m k who v t low moved high = record {
    admin = k.admin;
    balances = set_balance_kept who v s m.balances k.balances;
    supply = refl;
    total = grind (int_laws, sum-write who v m.balances, k.total);
    nonneg = write-AllNonneg who v m.balances low k.nonneg;
    distinct = write-IsDistinct who v m.balances k.distinct;
    bounded = high;
  }

  -- An amount that moves from one balance to another.
  Books-move :
      (s : Storage Address) (m : TokenModel Address)
      → Books s m
      → (from to : Address) (v w : ℤ) → (from == to) ≡ false
      → pos 0 ≤ℤ v
      → pos 0 ≤ℤ w
      → v +ℤ w ≡ balance_of m.balances from +ℤ balance_of m.balances to
      → Books
          (set_balance to w (set_balance from v s))
          (record m { balances = write_balance to w (write_balance from v m.balances) })
  Books-move s m k from to v w apart low low' moved =
      let l = write_balance from v m.balances in
      let other : balance_of l to ≡ balance_of m.balances to =
        balance_of-write from v m.balances to ∙ rw apart in
      record {
        admin = k.admin;
        balances =
            set_balance_kept to w (set_balance from v s) l
              (set_balance_kept from v s m.balances k.balances);
        supply = k.supply;
        total = grind (int_laws, sum-write to w l, sum-write from v m.balances, k.total, other);
        nonneg = write-AllNonneg to w l low' (write-AllNonneg from v m.balances low k.nonneg);
        distinct = write-IsDistinct to w l (write-IsDistinct from v m.balances k.distinct);
        bounded = k.bounded;
      }

  module _ (s : Storage Address) (m : TokenModel Address) (k : Books s m) (signs : Address → Bool)
      (now : ℕ) where
    pub mint-Effect :
        (to : Address) (amount : ℤ)
        → signs m.admin ≡ true
        → Effect m.admin s
            (add_balance to amount m >>= add_supply amount)
            (mint to amount signs now s)
    unfolding mint balance add_balance add_supply
    mint-Effect to amount auth =
        let b = balance_of m.balances to in
        let t = m.total_supply in
        elim (Bool-cases (ltb_ℤ amount (pos 0))) [
          | inl negative ↦ failed negative_amount (rw (negative, mint))
          | inr nonneg ↦ elim (Bool-cases (in_range i128_min i128_max (b +ℤ amount))) [
            | inr out ↦ failed overflow (ground (arith, nonneg, k.admin, auth, k.balances to, out))
            | inl fits ↦ elim (Bool-cases (in_range i128_min i128_max (t +ℤ amount))) [
              | inr out ↦
                  failed overflow
                    (ground (arith, nonneg, k.admin, auth, k.balances to, fits, k.supply, out))
              | inl fits' ↦
                  returned (b +ℤ amount)
                    (set_total_supply (t +ℤ amount) (set_balance to (b +ℤ amount) s))
                    (record m {
                      balances = write_balance to (b +ℤ amount) m.balances;
                      total_supply = t +ℤ amount;
                    })
                    (ground (arith, nonneg, k.admin, auth, k.balances to, fits, k.supply, fits'))
                    (simp (fits, fits')) refl
                    (Books-set s m k to (b +ℤ amount) (t +ℤ amount)
                      (omega (
                        int_laws,
                        balance_of_bounds m.balances to k.nonneg,
                        le_of_ltb_ℤ amount (pos 0) nonneg,
                      ))
                      (omega int_laws) (in_range_bounds i128_min i128_max (t +ℤ amount) fits').1)
            ]
          ]
        ]

    -- What is taken from a balance that holds it stays in range.
    taken_fits :
        (from : Address) (amount : ℤ)
        → ltb_ℤ amount (pos 0) ≡ false
        → ltb_ℤ (balance_of m.balances from) amount ≡ false
        → (pos 0 ≤ℤ balance_of m.balances from -ℤ amount)
          × (in_range i128_min i128_max (balance_of m.balances from -ℤ amount) ≡ true)
    taken_fits from amount nonneg enough =
        let (low, high) = balance_of_bounds m.balances from k.nonneg in
        let total = k.total in
        let bounded = k.bounded in
        let left = balance_of m.balances from -ℤ amount in
        let le = le_of_ltb_ℤ (balance_of m.balances from) amount enough in
        let ge = le_of_ltb_ℤ amount (pos 0) nonneg in
        let low' : pos 0 ≤ℤ left = omega int_laws in
        (low', in_range_intro i128_min i128_max left (omega int_laws) (grind (int_laws, total)))

    pub burn-Effect :
        (from : Address) (amount : ℤ)
        → signs from ≡ true
        → Effect m.admin s
            (sub_balance from amount m >>= sub_supply amount)
            (burn from amount signs now s)
    unfolding burn balance sub_balance sub_supply
    burn-Effect from amount auth =
        let b = balance_of m.balances from in
        let t = m.total_supply in
        elim (Bool-cases (ltb_ℤ amount (pos 0))) [
          | inl negative ↦ failed negative_amount (rw (negative, burn))
          | inr nonneg ↦ elim (Bool-cases (ltb_ℤ b amount)) [
            | inl short ↦
                failed insufficient_balance (ground (arith, nonneg, auth, k.balances from, short))
            | inr enough ↦
                let (low, fits) = taken_fits from amount nonneg enough in
                elim (Bool-cases (in_range i128_min i128_max (t -ℤ amount))) [
                  | inr out ↦
                      failed overflow
                        (ground (arith, nonneg, auth, k.balances from, enough, fits, k.supply, out))
                  | inl fits' ↦
                      returned (b -ℤ amount)
                        (set_total_supply (t -ℤ amount) (set_balance from (b -ℤ amount) s))
                        (record m {
                          balances = write_balance from (b -ℤ amount) m.balances;
                          total_supply = t -ℤ amount;
                        })
                        (ground
                          (arith, nonneg, auth, k.balances from, enough, fits, k.supply, fits'))
                        (simp (fits, fits')) refl
                        (Books-set s m k from (b -ℤ amount) (t -ℤ amount) low (omega int_laws)
                          (in_range_bounds i128_min i128_max (t -ℤ amount) fits').1)
                ]
          ]
        ]

    pub transfer-Effect :
        (from to : Address) (amount : ℤ)
        → (from == to) ≡ false
        → signs from ≡ true
        → Effect m.admin s
            (sub_balance from amount m >>= add_balance to amount)
            (transfer from to amount signs now s)
    unfolding transfer balance sub_balance add_balance
    transfer-Effect from to amount apart auth =
        let b = balance_of m.balances from in
        let c = balance_of m.balances to in
        let same : balance_of (write_balance from (b -ℤ amount) m.balances) to ≡ c =
          balance_of-write from (b -ℤ amount) m.balances to ∙ rw apart in
        elim (Bool-cases (ltb_ℤ amount (pos 0))) [
          | inl negative ↦ failed negative_amount (rw (negative, transfer))
          | inr nonneg ↦ elim (Bool-cases (ltb_ℤ b amount)) [
            | inl short ↦
                failed insufficient_balance (ground (arith, nonneg, auth, k.balances from, short))
            | inr enough ↦
                let (low, fits) = taken_fits from amount nonneg enough in
                elim (Bool-cases (in_range i128_min i128_max (c +ℤ amount))) [
                  | inr out ↦ failed overflow (
                      ground
                        (arith, nonneg, auth, k.balances from, k.balances to, enough, fits, out))
                  | inl fits' ↦
                      returned tt (set_balance to (c +ℤ amount) (set_balance from (b -ℤ amount) s))
                        (record m {
                          balances =
                              write_balance to (c +ℤ amount)
                                (write_balance from (b -ℤ amount) m.balances);
                        })
                        (ground (
                          arith,
                          nonneg,
                          auth,
                          k.balances from,
                          k.balances to,
                          enough,
                          fits,
                          fits',
                        ))
                        (simp (fits, same, fits')) refl
                        (Books-move s m k from to (b -ℤ amount) (c +ℤ amount) apart low
                          (omega (
                            int_laws,
                            balance_of_bounds m.balances to k.nonneg,
                            le_of_ltb_ℤ amount (pos 0) nonneg,
                          ))
                          (omega int_laws))
                ]
          ]
        ]
