-- ===== src/Strategies/Bytes.antt =====
-- crates/strategies/src/bytes32.rs: 32 bytes.
use soro_fuzz.Base.{ℕ, zero, suc, Option, some, List, [], ◌∷◌, if◌then◌else◌}
use soro_fuzz.Int.{pos, beq_ℤ}
use soro_fuzz.Strategies.Source.{Source, ◌>>=◌}

pub record Bytes32 : Type 0 where
  pub bytes : List ℕ

-- `[byte; n]`
unfoldable pub repeated : ℕ → ℕ → List ℕ
repeated zero byte = []
repeated (suc n) byte = byte ∷ repeated n byte

-- `Arbitrary::arbitrary`
unfoldable pub arbitrary : (source : Source) → source.Data → Option (Bytes32 × source.Data)
unfolding repeated
arbitrary source u = do
  (at_edge, u') ← source.ratio 1 4 u
  (if at_edge
      then (do
        (choice, u'') ← source.int_in_range (pos 0) (pos 1) u'
        some (
          record { bytes = if beq_ℤ choice (pos 0) then repeated 32 0 else repeated 32 255 },
          u'',
        ))
      else (do (bytes, u'') ← source.fill_buffer 32 u'; some (record { bytes = bytes }, u'')))

-- `BytesN::from_array` of soroban_sdk is a parameter.
unfoldable to_bytes_n : {Env BytesN : Type 0} → (Env → List ℕ → BytesN) → Bytes32 → Env → BytesN
to_bytes_n from_array self env = from_array env self.bytes
