-- ===== src/Builder/Chain.antt =====
-- rollup1/builder/builder.ts: what `start` learns of L1, and the timestamps of simulations.
use sync_rollups.Prelude.{
  ℕ, ◌+◌, ◌-◌, ◌*◌, ◌/◌, true, false, ◌||◌, Option, none, some, ltb, ◌==◌, if◌then◌else◌,
}
use sync_rollups.Outcome.Io.{Io, pure, catching, ◌>>=◌, ◌>>◌}
use sync_rollups.Builder.{
  Builder, BuilderServices, L1Head, Site, own, assign, mock_submitter, default_relays,
  chiado_relays,
}

-- Mainnet, Sepolia, Chiado, Gnosis and any other chain.
unfoldable pub settle_on : ℕ → Builder → Builder
settle_on chain b =
    if chain == 1
    then record b { l1_chain_id = chain; bundle_submitter = some default_relays }
    else if chain == 11155111
    then record b { l1_chain_id = chain; post_batch_gas_limit = 5000000 }
    else if chain == 10200
    then record b {
      l1_chain_id = chain;
      post_batch_gas_limit = 300000;
      bundle_submitter = some chiado_relays;
    }
    else if chain == 100
    then record b { l1_chain_id = chain; post_batch_gas_limit = 5000000 }
    else record b { l1_chain_id = chain }

-- Seconds.
unfoldable pub slot_duration : ℕ → ℕ
slot_duration chain = if chain == 1 || chain == 11155111 then 12 else 5

abbrev pub max : ℕ → ℕ → ℕ
max a b = if ltb a b then b else a

-- The milliseconds to wait at `now`, in milliseconds too: until a second into the slot of the latest
-- block, or, from three seconds on, into the next slot.
unfoldable pub slot_wait : ℕ → ℕ → ℕ → ℕ
slot_wait latest slot now =
    if ltb now ((latest + 1) * 1000)
    then (latest + 1) * 1000 - now
    else if ltb ((latest + 3) * 1000) now
    then (latest + slot + 1) * 1000 - now
    else 0

abbrev pub or_zero : Option ℕ → ℕ
or_zero none = 0
or_zero (some t) = t

abbrev pub head_timestamp : Option L1Head → ℕ
head_timestamp none = 0
head_timestamp (some h) = h.timestamp

module _ {W : Type 0} (s : BuilderServices (Site W)) where
  -- Anvil is what lets its mining be controlled.
  unfoldable pub detect_l1 : Io (Site W) (Unit {0})
  detect_l1 =
      catching
        (do
          s.set_automine true
          assign (λ b. record b { is_anvil_l1 = true; post_batch_gas_limit = 30000000 })
          chain ← s.l1_network
          assign (λ b. record b { l1_chain_id = chain; bundle_submitter = some mock_submitter }))
        (λ e. do
          assign (λ b. record b { is_anvil_l1 = false; post_batch_gas_limit = 2000000 })
          chain ← s.l1_network
          assign (settle_on chain))

  unfoldable pub choose_sim_timestamp : Io (Site W) ℕ
  choose_sim_timestamp = do
    latest ← s.l1_latest_timestamp
    anvil ← own (λ b. b.is_anvil_l1)
    if anvil
        then (do now ← s.now; pure (max (now / 1000 + 2) (or_zero latest + 2)))
        else (do chain ← own (λ b. b.l1_chain_id); pure (or_zero latest + slot_duration chain))

  unfoldable pub wait_for_next_slot : Io (Site W) ℕ
  wait_for_next_slot = do
    latest ← s.l1_latest_timestamp
    now ← s.now
    chain ← own (λ b. b.l1_chain_id)
    if slot_wait (or_zero latest) (slot_duration chain) now == 0
        then pure tt
        else s.sleep (slot_wait (or_zero latest) (slot_duration chain) now)
    fresh ← s.l1_latest_timestamp
    pure (or_zero fresh + slot_duration chain)

  -- A mismatch is printed: the fullnodes accept the state that was executed before.
  unfoldable pub correct_timestamp_if_needed : ℕ → Io (Site W) (Unit {0})
  correct_timestamp_if_needed block = do
    anvil ← own (λ b. b.is_anvil_l1)
    if anvil then pure tt else (s.l1_block block >>= λ _. pure tt)

  -- The block that a transaction is in is compared with the simulation.
  unfoldable pub verify_timestamp : ℕ → ℕ → Io (Site W) (Unit {0})
  verify_timestamp block sim_timestamp = do
    head ← s.l1_block block
    if head_timestamp head == sim_timestamp then pure tt else correct_timestamp_if_needed block
