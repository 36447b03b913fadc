-- ===== src/Builder/Relays.antt =====
-- rollup1/builder/bundle-submitter.ts and mock-bundle-submitter.ts: how bundles reach L1.
pub mod Inclusion
use sync_rollups.Prelude.{
  ℕ, zero, suc, ◌+◌, ◌-◌, Bool, true, false, JsString, Option, none, some, List, [], ◌∷◌, length,
  ltb, leb,
}
use sync_rollups.Prelude.Int.{pos}
use sync_rollups.Outcome.{Outcome}
use sync_rollups.Outcome.Io.{◌>>=◌, ◌>>◌, Io, pure, raise, lift, catching}
use sync_rollups.Types.BigInt.{to_hex}
use sync_rollups.Builder.{BundleResult}

-- What the submitters call: ethers, the relays, the node on L1, and Anvil. `receipt_block` asks the
-- node, `cached_receipt_block` ethers.
pub record RelayServices (W : Type 0) : Type 0 where
  pub tx_hash : JsString → Outcome JsString
  pub sign_body : List JsString → JsString → Io W JsString
  pub send_bundle : JsString → JsString → List JsString → JsString → Io W (Unit {0})
  pub current_block : Io W ℕ
  pub receipt_block : JsString → Io W (Option ℕ)
  pub cached_receipt_block : JsString → Io W (Option ℕ)
  pub set_automine : Bool → Io W (Unit {0})
  pub send_raw : JsString → Io W (Unit {0})
  pub set_next_timestamp : ℕ → Io W (Unit {0})
  pub mine : Io W (Unit {0})
  pub tx_count : ℕ → Io W (Option ℕ)
  pub now : Io W ℕ
  pub sleep : ℕ → Io W (Unit {0})

module _ {W : Type 0} (s : RelayServices W) where
  unfoldable pub hashes_of_raw : List JsString → Io W (List JsString)
  hashes_of_raw [] = pure []
  hashes_of_raw (raw ∷ raws) = do
    hash ← lift (s.tx_hash raw)
    hashes ← hashes_of_raw raws
    pure (hash ∷ hashes)

  -- What a relay answers is only printed.
  unfoldable pub send_each : List JsString → JsString → List JsString → JsString → Io W (Unit {0})
  send_each [] header raws block = pure tt
  send_each (url ∷ urls) header raws block = do
    catching (s.send_bundle url header raws block) (λ e. pure tt)
    send_each urls header raws block

  unfoldable pub send_to_relays : List JsString → List JsString → JsString → Io W (Unit {0})
  send_to_relays relays raws block = do
    header ← s.sign_body raws block
    send_each relays header raws block

  -- The given number of blocks from a target on.
  unfoldable pub send_ahead : ℕ → List JsString → List JsString → ℕ → Io W (Unit {0})
  send_ahead zero relays raws target = pure tt
  send_ahead (suc more) relays raws target = do
    send_to_relays relays raws (to_hex (pos target))
    send_ahead more relays raws (suc target)

  unfoldable pub is_found : Option ℕ → Bool
  is_found none = false
  is_found (some block) = true

  -- Whether the node has a receipt; an error is passed over.
  unfoldable pub has_receipt : JsString → Io W Bool
  has_receipt hash =
      catching (do block ← s.receipt_block hash; pure (is_found block)) (λ e. pure false)

  unfoldable pub block_or_none : Io W (Option ℕ)
  block_or_none = catching (do block ← s.current_block; pure (some block)) (λ e. pure none)

  -- The rounds of waiting for at most 24000 ms; each sleeps 500 ms, so 48 rounds are enough.
  unfoldable pub inclusion_loop : ℕ → ℕ → ℕ → ℕ → JsString → Io W Bool
  inclusion_loop zero start last target hash = pure false
  inclusion_loop (suc rounds) start last target hash = do
    time ← s.now
    elim (ltb (time - start) 24000) [
      | false ↦ pure false
      | true ↦ do
        block ← block_or_none
        elim block [
          | none ↦ do s.sleep 500; inclusion_loop rounds start last target hash
          | some current ↦ elim (ltb last current) [
            | false ↦ do s.sleep 500; inclusion_loop rounds start last target hash
            | true ↦ do
              found ← has_receipt hash
              elim found [
                | true ↦ pure true
                | false ↦ elim (ltb target current) [
                  | true ↦ do s.sleep 1000; has_receipt hash
                  | false ↦ do s.sleep 500; inclusion_loop rounds start current target hash
                ]
              ]
          ]
        ]
    ]

  unfoldable pub wait_for_inclusion : ℕ → JsString → Io W Bool
  wait_for_inclusion target hash = do start ← s.now; inclusion_loop 48 start 0 target hash

  unfoldable pub block_or : ℕ → Option ℕ → ℕ
  block_or target none = target
  block_or target (some block) = block

  -- The block of a bundle that is included; where it cannot be read it is the target.
  unfoldable pub actual_block : Bool → ℕ → JsString → Io W ℕ
  actual_block false target hash = pure target
  actual_block true target hash =
      catching (do block ← s.cached_receipt_block hash; pure (block_or target block))
        (λ e. pure target)

  -- `hashes[0]`; a bundle of the builder has a transaction.
  unfoldable pub first_of : List JsString → JsString
  first_of [] = []
  first_of (hash ∷ hashes) = hash

  -- The bundle is sent for the target block and the two after it.
  unfoldable pub submit_and_wait : List JsString → List JsString → ℕ → Io W BundleResult
  submit_and_wait relays raws target = do
    hashes ← hashes_of_raw raws
    send_ahead 3 relays raws target
    included ← wait_for_inclusion (target + 2) (first_of hashes)
    block ← actual_block included target (first_of hashes)
    pure (record { included = included; block_number = block; tx_hashes = hashes })

  -- A transaction that is refused is only printed.
  unfoldable pub send_raws : List JsString → Io W (Unit {0})
  send_raws [] = pure tt
  send_raws (raw ∷ raws) = do catching (s.send_raw raw) (λ e. pure tt); send_raws raws

  -- One block is mined; automine is on again afterwards, also after an error.
  unfoldable pub mine_bundle : List JsString → ℕ → Io W (Unit {0})
  mine_bundle raws timestamp = do
    s.set_automine false
    catching (do send_raws raws; s.set_next_timestamp timestamp; s.mine)
        (λ e. do s.set_automine true; raise e)
    s.set_automine true

  unfoldable pub mock_submit_and_wait : List JsString → ℕ → Io W BundleResult
  mock_submit_and_wait raws timestamp = do
    hashes ← hashes_of_raw raws
    mine_bundle raws timestamp
    block ← s.current_block
    count ← s.tx_count block
    pure (record {
      included = leb (length raws) (block_or 0 count);
      block_number = block;
      tx_hashes = hashes;
    })
