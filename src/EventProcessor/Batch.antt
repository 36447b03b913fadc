-- ===== src/EventProcessor/Batch.antt =====
-- `replayBatchExecution` of rollup1/reth-fullnode/event-processor.ts, and the rounds of the loop
-- that chooses between it and `processEvent`.
pub mod Dropped
use sync_rollups.Prelude.{
  ℕ, zero, suc, ◌+◌, Bool, true, false, not, ◌&&◌, JsString, codes, str_eq, to_lower, starts_with,
  Option, none, some, List, [], ◌∷◌, ◌++◌, keep, any, length, ltb, leb, ◌==◌, if◌then◌else◌,
}
use sync_rollups.Prelude.Int.{ℤ, pos}
use sync_rollups.Outcome.{Outcome, ok, throw}
use sync_rollups.Outcome.Io.{Io, pure, raise, lift, gets, modify, catching, ◌>>=◌, ◌>>◌}
use sync_rollups.Maps.{JsMap, text_key, map_get, map_set}
use sync_rollups.Types.{Action}
use sync_rollups.EventProcessor.{Node, on_world, track}
use sync_rollups.EventProcessor.Services.{RawTransaction, L1Transaction, Services}
use sync_rollups.EventProcessor.Events.{
  Execution, EventArgs, state_updated, l2_execution_performed, ProcessedEvent, posted_root,
  is_execution, changes_state,
}
use sync_rollups.EventProcessor.Replay.{
  later_timestamp, timestamp_of, preload_l2_to_l1_entry, process_event,
}

pub record DecodedTx : Type 0 where
  pub result : Option Action
  pub rlp : JsString
  pub tx : RawTransaction

abbrev pub Proxies : Type 0
Proxies = JsMap JsString (JsString × ℤ)

unfoldable pub l2_to_l1_result_of : ProcessedEvent → Option Action
l2_to_l1_result_of e = elim e.args [
  | state_updated _ ↦ none
  | l2_execution_performed x ↦ x.l2_to_l1_result
]

unfoldable pub has_result : DecodedTx → Bool
has_result d = elim d.result [ none ↦ false | some _ ↦ true ]

-- Is it a call of `createCrossChainProxy` on the rollups contract?
unfoldable pub is_proxy_deploy : JsString → RawTransaction → Bool
is_proxy_deploy rollups tx = elim tx.target [
  | none ↦ false
  | some t ↦ str_eq (to_lower t) (to_lower rollups) && starts_with tx.payload (codes "0x2dd72120")
]

abbrev pub is_other : JsString → DecodedTx → Bool
is_other rollups d = not (has_result d) && not (is_proxy_deploy rollups d.tx)

module _ {W : Type 0} where
  unfoldable pub track_all : List ProcessedEvent → Option ℕ → Node W → Node W
  track_all [] l2_block n = n
  track_all (e ∷ l) l2_block n =
      track_all l l2_block (track (posted_root e) e.block_number l2_block n)

module _ {W : Type 0} (s : Services W) where
  -- The proxy that a deployment will create; a failure is passed over.
  unfoldable pub note_proxy : RawTransaction → Proxies → Io (Node W) Proxies
  note_proxy tx proxies =
      catching
        (do
          decoded ← lift (s.decode_proxy_deploy tx.payload)
          address ← on_world (s.compute_proxy_address decoded.0 decoded.1)
          pure (map_set proxies (to_lower address) decoded))
        (λ e. pure proxies)

  unfoldable pub note_if_deploy : RawTransaction → Proxies → Io (Node W) Proxies
  note_if_deploy tx proxies = do
    rollups ← gets (λ n. n.processor.rollups_address)
    if is_proxy_deploy rollups tx then note_proxy tx proxies else pure proxies

  -- The first pass. An event whose transaction is missing, or is no `executeL2TX`, is passed over.
  unfoldable pub decode_batch :
      List ProcessedEvent → Proxies → Io (Node W) (List DecodedTx × Proxies)
  decode_batch [] proxies = pure ([], proxies)
  decode_batch (e ∷ l) proxies = do
    found ← on_world (s.l1_transaction e.transaction_hash)
    elim found [
      | none ↦ decode_batch l proxies
      | some l1_tx ↦ do
        decoded ← lift (s.decode_execute_l2tx l1_tx.payload)
        elim decoded [
          | none ↦ decode_batch l proxies
          | some rlp ↦ do
            tx ← lift (s.parse_raw_transaction rlp)
            proxies' ← note_if_deploy tx proxies
            later ← decode_batch l proxies'
            pure (record { result = l2_to_l1_result_of e; rlp = rlp; tx = tx } ∷ later.0, later.1)
        ]
    ]

  unfoldable pub send_all : List DecodedTx → Io (Node W) (Unit {0})
  send_all [] = pure tt
  send_all (d ∷ l) = do on_world (s.send_raw_transaction d.rlp); send_all l

  unfoldable pub proxy_identity : Proxies → JsString → Io (Node W) (JsString × ℤ)
  proxy_identity proxies target = elim (map_get proxies (to_lower target)) [
    | some identity ↦ pure identity
    | none ↦ on_world (s.l2_authorized_proxy target)
  ]

  unfoldable pub preload_one : Proxies → DecodedTx → Io (Node W) (Unit {0})
  preload_one proxies d = elim d.tx.target [
    | none ↦ pure tt
    | some target ↦ elim d.result [
      | none ↦ pure tt
      | some result ↦ do
        identity ← proxy_identity proxies target
        preload_l2_to_l1_entry s d.tx identity.0 identity.1 result
    ]
  ]

  unfoldable pub preload_all : Proxies → List DecodedTx → Io (Node W) (Unit {0})
  preload_all proxies [] = pure tt
  preload_all proxies (d ∷ l) = do preload_one proxies d; preload_all proxies l

  -- Block 1 of a batch with L2→L1 calls: only if there are proxy deployments.
  unfoldable pub deploy_block : List DecodedTx → List DecodedTx → Option ℕ → Io (Node W) (Unit {0})
  deploy_block [] others timestamp = pure tt
  deploy_block (d ∷ deploys) others timestamp = do
    send_all (d ∷ deploys)
    send_all others
    on_world (s.mine_block timestamp)

  unfoldable pub send_with_calls :
      JsString → List DecodedTx → Proxies → Option ℕ → Io (Node W) (Unit {0})
  send_with_calls rollups txs proxies timestamp = do
    deploy_block (keep (λ d. is_proxy_deploy rollups d.tx) txs) (keep (is_other rollups) txs)
        timestamp
    preload_all proxies (keep has_result txs)
    on_world (s.mine_block (later_timestamp 1 timestamp))
    send_all (keep has_result txs)
    on_world (s.mine_block (later_timestamp 2 timestamp))

  unfoldable pub send_plain : List DecodedTx → Option ℕ → Io (Node W) (Unit {0})
  send_plain [] timestamp = raise (codes "No executeL2TX transactions decoded from batch events")
  send_plain (d ∷ txs) timestamp = do send_all (d ∷ txs); on_world (s.mine_block timestamp)

  unfoldable pub send_batch : List DecodedTx → Proxies → Option ℕ → Io (Node W) (Unit {0})
  send_batch txs proxies timestamp = do
    rollups ← gets (λ n. n.processor.rollups_address)
    if any has_result txs
        then send_with_calls rollups txs proxies timestamp
        else send_plain txs timestamp

  unfoldable pub replay_batch_execution : ℕ → List ProcessedEvent → Io (Node W) (Unit {0})
  replay_batch_execution block events =
      catching
        (do
          l1_block ← on_world (s.l1_block block)
          decoded ← decode_batch events []
          send_batch decoded.0 decoded.1 (timestamp_of l1_block)
          on_world s.actual_state_root
          l2_block ← on_world s.l2_block_number
          modify (track_all events (some l2_block)))
        (λ e. modify (track_all events none))

  unfoldable pub process_all : List ProcessedEvent → Io (Node W) (Unit {0})
  process_all [] = pure tt
  process_all (e ∷ l) = do process_event s e; process_all l

  -- One round of the loop: an execution with those that follow it in its L1 block.
  unfoldable pub process_run : ProcessedEvent → List ProcessedEvent → Io (Node W) (Unit {0})
  process_run e more =
      let batch = keep changes_state (e ∷ more) in
      if is_execution e && ltb 1 (length batch)
      then (do
        replay_batch_execution e.block_number batch
        process_all (keep (λ f. not (changes_state f)) (e ∷ more)))
      else process_all (e ∷ more)
