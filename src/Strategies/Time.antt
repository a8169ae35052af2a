-- ===== src/Strategies/Time.antt =====
-- crates/strategies/src/time.rs: ledger-time advances.
use soro_fuzz.Base.{ℕ, ◌*◌, Option, some, if◌then◌else◌}
use soro_fuzz.Int.{pos, beq_ℤ}
use soro_fuzz.Strategies.Source.{Source, ◌>>=◌}

pub record TimeAdvance : Type 0 where
  pub secs : ℕ  -- u32

abbrev pub large_jump_secs : ℕ
large_jump_secs = 60 * 60 * 24 * 365 * 5

-- `Arbitrary::arbitrary`
unfoldable pub arbitrary : (source : Source) → source.Data → Option (TimeAdvance × source.Data)
arbitrary source u = do
  (at_edge, u') ← source.ratio 1 4 u
  (if at_edge
      then (do
        (choice, u'') ← source.int_in_range (pos 0) (pos 2) u'
        some (
          record {
            secs =
                if beq_ℤ choice (pos 0)
                then 0
                else if beq_ℤ choice (pos 1)
                then 1
                else large_jump_secs;
          },
          u'',
        ))
      else (do (secs, u'') ← source.u32 u'; some (record { secs = secs }, u'')))
