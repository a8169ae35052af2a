-- ===== src/Server/Worker/Hub.antt =====
-- crates/server/src/worker/progress.rs: the channels of the runs that are being worked on. The
-- channels are those of the library `tokio`; a sender names its channel.
use soro_fuzz.Base.{
  ℕ, suc, ◌≡◌, Option, none, some, List, Eq, ◌==◌, inl, inr, Option-cases, arith, if◌then◌else◌,
}
use soro_fuzz.Base.Dict.{lookup, insert, remove, lookup-insert, lookup-remove}

abbrev pub channel_capacity : ℕ
channel_capacity = 256

-- The hub, with the number of the channels that were created for it.
pub record ProgressHub (Uuid Sender : Type 0) : Type 0 where
  pub channels : List (Uuid × Sender)
  pub created : ℕ

-- `channel n capacity` is the sender of the `n`-th channel that is created.
module _ {Uuid Sender : Type 0} ⦃e : Eq Uuid⦄ where
  unfoldable pub publisher :
      (ℕ → ℕ → Sender) → Uuid → ProgressHub Uuid Sender → Sender × ProgressHub Uuid Sender
  unfolding lookup insert
  publisher channel run_id hub = elim (lookup run_id hub.channels) [
    | some sender ↦ (sender, hub)
    | none ↦
        let sender = channel hub.created channel_capacity in
        (sender, record { channels = insert run_id sender hub.channels; created = suc hub.created })
  ]

  -- The sender of the channel that a receiver is opened on.
  unfoldable pub subscribe : Uuid → ProgressHub Uuid Sender → Option Sender
  unfolding lookup
  subscribe run_id hub = lookup run_id hub.channels

  unfoldable pub close : Uuid → ProgressHub Uuid Sender → ProgressHub Uuid Sender
  unfolding remove
  close run_id hub = record hub { channels = remove run_id hub.channels }

  -- Subscribing to a run after a publisher was asked for reaches the publisher's channel, and after
  -- the run was closed no channel; to every other run both change nothing. A channel that is open
  -- is used again.
  pub subscribe_lem :
      (channel : ℕ → ℕ → Sender) (run_id other : Uuid) (hub : ProgressHub Uuid Sender)
      → (subscribe other (publisher channel run_id hub).1 ≡ (
          if run_id == other then some (publisher channel run_id hub).0 else subscribe other hub))
        × (subscribe other (close run_id hub)
            ≡ (if run_id == other then none else subscribe other hub))
        × ((sender : Sender)
            → subscribe run_id hub ≡ some sender
            → publisher channel run_id hub ≡ (sender, hub))
  unfolding subscribe publisher close
  subscribe_lem channel run_id other hub = (
    elim (Option-cases (lookup run_id hub.channels)) [
      | inl absent ↦
          rw (absent, publisher)
            (lookup-insert run_id other (channel hub.created channel_capacity) hub.channels)
      | inr (sender, found) ↦ rw (found, publisher) (ground (arith, found, e.beq_iff run_id other))
    ],
    lookup-remove run_id other hub.channels,
    λ sender found. rw (found, publisher),
  )
