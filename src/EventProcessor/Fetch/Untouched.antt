-- ===== src/EventProcessor/Fetch/Untouched.antt =====
-- Processing the events of a range in rollup1/reth-fullnode/event-processor.ts leaves the block
-- hashes, the checkpoints and the next block alone.
use sync_rollups.Prelude.{
  ℕ, true, false, Bool-cases, inl, inr, JsString, str_eq, to_lower, Option, none, some, List, [],
  ◌∷◌, keep, any, length, ltb, ◌&&◌,
}
use sync_rollups.Prelude.Int.{ℤ}
use sync_rollups.Outcome.Io.{Io, modify, ◌>>◌}
use sync_rollups.Outcome.Leaves.{
  Leaves, Keeps-bind, Leaves-pure, Leaves-raise, Leaves-lift, Leaves-gets, Leaves-modify,
  Leaves-catching, Leaves-if, Leaves-option,
}
use sync_rollups.Maps.{JsMap, text_key, map_get}
use sync_rollups.Types.{Action, type_eq, call}
use sync_rollups.EventProcessor.{Checkpoint, Node, on_world, track}
use sync_rollups.EventProcessor.Services.{L1Transaction, RawTransaction, Services}
use sync_rollups.EventProcessor.Events.{
  Execution, EventArgs, state_updated, l2_execution_performed, ProcessedEvent, is_execution,
  changes_state, posted_root,
}
use sync_rollups.EventProcessor.Replay.{
  timestamp_of, replay_other, preload_l2_to_l1_entry, replay_l2_to_l1, replay_l2tx,
  replay_incoming_call, replay_legacy_call, replay_transaction, confirm_pre_executed,
  accept_pre_executed, check_fraud, replay_and_track, replay_execution, set_last_event,
  process_event,
}
use sync_rollups.EventProcessor.Batch.{
  has_result, is_proxy_deploy, DecodedTx, Proxies, note_proxy, note_if_deploy, decode_batch,
  send_all, proxy_identity, preload_one, preload_all, deploy_block, send_with_calls, send_plain,
  send_batch, track_all, replay_batch_execution, process_all, process_run,
}

module _ {W : Type 0} (K : JsMap ℕ JsString → List Checkpoint → ℕ → Type 0) where
  -- A property of the hashes, the checkpoints and the next block.
  abbrev pub Books : Node W → Type 0
  Books n = K n.processor.block_hash_history n.processor.checkpoints n.processor.next_block

  abbrev Kept : {A : Type 0} → Io (Node W) A → Type 0
  Kept m = Leaves Books Books m

  pub on_world-Kept : {A : Type 0} (m : Io W A) → Kept (on_world m)
  unfolding on_world
  on_world-Kept m = record { leaves = λ n q. q }

  track-Kept : (root : JsString) (block : ℕ) (l2 : Option ℕ) → Kept (modify (track root block l2))
  unfolding track
  track-Kept root block l2 = Leaves-modify _ _ _ (λ n q. q)

  track_all-Books :
      (l : List ProcessedEvent) (l2 : Option ℕ) (n : Node W) → Books n → Books (track_all l l2 n)
  unfolding track_all track
  track_all-Books [] l2 n q = q
  track_all-Books (e ∷ l) l2 n q =
      track_all-Books l l2 (track (posted_root e) e.block_number l2 n) q

  module _ (s : Services W) where
    check_fraud-Books : (a b : JsString) (n : Node W) → Books n → Books (check_fraud s a b n)
    unfolding check_fraud
    check_fraud-Books a b n q = elim (Bool-cases (str_eq a b)) [
      | inl same ↦ rw same q
      | inr other ↦ rw other q
    ]

    preload-Kept :
        (tx : RawTransaction) (a : JsString) (r : ℤ) (x : Action)
        → Kept (preload_l2_to_l1_entry s tx a r x)
    unfolding preload_l2_to_l1_entry
    preload-Kept tx a r x =
        Keeps-bind _ _ _ (Leaves-gets _ _)
          (λ _. Keeps-bind _ _ _ (Leaves-gets _ _) (λ _. on_world-Kept _))

    replay_l2tx-Kept :
        (rlp : JsString) (x : Option Action) (t : Option ℕ) → Kept (replay_l2tx s rlp x t)
    unfolding replay_l2tx replay_l2_to_l1
    replay_l2tx-Kept rlp x t = Keeps-bind _ _ _ (Leaves-lift _ _) (λ tx.
        Leaves-option _ x _ _ (on_world-Kept _) (λ r.
          Leaves-option _ tx.target _ _ (on_world-Kept _) (λ target.
            Keeps-bind _ _ _ (on_world-Kept _) (λ _. Keeps-bind _ _ _ (preload-Kept _ _ _ _) (λ _.
              Keeps-bind _ _ _ (on_world-Kept _)
                (λ _. Keeps-bind _ _ _ (on_world-Kept _) (λ _. on_world-Kept _)))))))

    replay_legacy-Kept : (tx : L1Transaction) (t : Option ℕ) → Kept (replay_legacy_call s tx t)
    unfolding replay_legacy_call
    replay_legacy-Kept tx t = Leaves-option _ tx.target _ _ (Leaves-raise _ _) (λ proxy.
        Keeps-bind _ _ _ (on_world-Kept _)
          (λ _. Keeps-bind _ _ _ (on_world-Kept _) (λ _. on_world-Kept _)))

    replay_incoming-Kept : (a : Action) (t : Option ℕ) → Kept (replay_incoming_call s a t)
    unfolding replay_incoming_call
    replay_incoming-Kept a t = Keeps-bind _ _ _ (Leaves-gets _ _) (λ id.
        Keeps-bind _ _ _ (on_world-Kept _) (λ answer. Keeps-bind _ _ _ (Leaves-gets _ _) (λ target.
          Keeps-bind _ _ _ (on_world-Kept _)
            (λ _. Keeps-bind _ _ _ (on_world-Kept _) (λ _. on_world-Kept _)))))

    replay_other-Kept :
        (x : Option Action) (tx : L1Transaction) (t : Option ℕ) → Kept (replay_other s x tx t)
    replay_other-Kept none tx t = replay_legacy-Kept tx t
    replay_other-Kept (some a) tx t =
        Leaves-if _ _ (type_eq a.action_type call) _ _ (replay_incoming-Kept a t)
          (replay_legacy-Kept tx t)

    replay_transaction-Kept :
        (x : Execution) (block : ℕ) (hash : JsString) → Kept (replay_transaction s x block hash)
    unfolding replay_transaction
    replay_transaction-Kept x block hash = Keeps-bind _ _ _ (on_world-Kept _) (λ found.
        Leaves-option _ found _ _ (Leaves-raise _ _) (λ tx.
          Keeps-bind _ _ _ (on_world-Kept _) (λ l1_block.
            Keeps-bind _ _ _ (Leaves-lift _ _) (λ decoded.
              Leaves-option _ decoded _ _
                (replay_other-Kept x.consumed_action tx (timestamp_of l1_block))
                (λ rlp. replay_l2tx-Kept rlp x.l2_to_l1_result (timestamp_of l1_block))))))

    accept-Kept : (x : Execution) (block : ℕ) → Kept (accept_pre_executed s x block)
    unfolding accept_pre_executed confirm_pre_executed
    accept-Kept x block = Keeps-bind _ _ _ (on_world-Kept _) (λ actual.
        Leaves-if _ _ (str_eq actual x.new_state) _ _
          (Keeps-bind _ _ _ (on_world-Kept _) (λ _. Keeps-bind _ _ _ (on_world-Kept _) (λ l2.
            Keeps-bind _ _ _ (on_world-Kept _)
              (λ _. Keeps-bind _ _ _ (track-Kept _ _ _) (λ _. Leaves-pure _ _)))))
          (Leaves-pure _ _))

    replay_and_track-Kept :
        (x : Execution) (block : ℕ) (hash : JsString) → Kept (replay_and_track s x block hash)
    unfolding replay_and_track
    replay_and_track-Kept x block hash =
        Leaves-catching _ _ _
          (Keeps-bind _ _ _ (replay_transaction-Kept x block hash) (λ _.
            Keeps-bind _ _ _ (on_world-Kept _) (λ actual.
              Keeps-bind _ _ _
                (Leaves-modify _ _ _ (λ n q. check_fraud-Books actual x.new_state n q))
                (λ _. Keeps-bind _ _ _ (on_world-Kept _) (λ l2. track-Kept _ _ _)))))
          (λ e.
            Keeps-bind _ _ _ (Leaves-catching _ _ _ (on_world-Kept _) (λ e'. Leaves-pure _ _))
              (λ l2. track-Kept _ _ _))

    replay_execution-Kept :
        (x : Execution) (block : ℕ) (hash : JsString) → Kept (replay_execution s x block hash)
    unfolding replay_execution
    replay_execution-Kept x block hash =
        Leaves-if _ _ (str_eq x.current_state x.new_state) _ _ (track-Kept _ _ _) (
          Keeps-bind _ _ _ (Leaves-catching _ _ _ (accept-Kept x block) (λ e. Leaves-pure _ _))
            (λ accepted.
              Leaves-if _ _ accepted _ _ (Leaves-pure _ _) (replay_and_track-Kept x block hash)))

    process_args-Kept :
        (a : EventArgs) (block : ℕ) (hash : JsString)
        → Kept (elim a [
          | state_updated root ↦ modify (λ n. set_last_event s true (track root block none n))
          | l2_execution_performed x ↦
              replay_execution s x block hash >> modify (set_last_event s false)
        ])
    unfolding set_last_event track
    process_args-Kept (state_updated root) block hash = Leaves-modify _ _ _ (λ n q. q)
    process_args-Kept (l2_execution_performed x) block hash =
        Keeps-bind _ _ _ (replay_execution-Kept x block hash) (λ _. Leaves-modify _ _ _ (λ n q. q))

    process_event-Kept : (e : ProcessedEvent) → Kept (process_event s e)
    unfolding process_event
    process_event-Kept e = process_args-Kept e.args e.block_number e.transaction_hash

    process_all-Kept : (l : List ProcessedEvent) → Kept (process_all s l)
    unfolding process_all
    process_all-Kept [] = Leaves-pure _ _
    process_all-Kept (e ∷ l) = Keeps-bind _ _ _ (process_event-Kept e) (λ _. process_all-Kept l)

    note-Kept : (tx : RawTransaction) (proxies : Proxies) → Kept (note_if_deploy s tx proxies)
    unfolding note_if_deploy note_proxy
    note-Kept tx proxies = Keeps-bind _ _ _ (Leaves-gets _ _) (λ rollups.
        Leaves-if _ _ (is_proxy_deploy rollups tx) _ _
          (Leaves-catching _ _ _
            (Keeps-bind _ _ _ (Leaves-lift _ _)
              (λ _. Keeps-bind _ _ _ (on_world-Kept _) (λ _. Leaves-pure _ _)))
            (λ e. Leaves-pure _ _))
          (Leaves-pure _ _))

    decode_batch-Kept :
        (l : List ProcessedEvent) (proxies : Proxies) → Kept (decode_batch s l proxies)
    unfolding decode_batch
    decode_batch-Kept [] proxies = Leaves-pure _ _
    decode_batch-Kept (e ∷ l) proxies = Keeps-bind _ _ _ (on_world-Kept _) (λ found.
        Leaves-option _ found _ _ (decode_batch-Kept l proxies) (λ l1_tx.
          Keeps-bind _ _ _ (Leaves-lift _ _) (λ decoded.
            Leaves-option _ decoded _ _ (decode_batch-Kept l proxies) (λ rlp.
              Keeps-bind _ _ _ (Leaves-lift _ _) (λ tx.
                Keeps-bind _ _ _ (note-Kept tx proxies)
                  (λ p. Keeps-bind _ _ _ (decode_batch-Kept l p) (λ later. Leaves-pure _ _)))))))

    send_all-Kept : (l : List DecodedTx) → Kept (send_all s l)
    unfolding send_all
    send_all-Kept [] = Leaves-pure _ _
    send_all-Kept (d ∷ l) = Keeps-bind _ _ _ (on_world-Kept _) (λ _. send_all-Kept l)

    preload_one-Kept : (proxies : Proxies) (d : DecodedTx) → Kept (preload_one s proxies d)
    unfolding preload_one proxy_identity
    preload_one-Kept proxies d = Leaves-option _ d.tx.target _ _ (Leaves-pure _ _) (λ target.
        Leaves-option _ d.result _ _ (Leaves-pure _ _) (λ r.
          Keeps-bind _ _ _
            (Leaves-option _ (map_get proxies (to_lower target)) _ _ (on_world-Kept _)
              (λ identity. Leaves-pure _ _))
            (λ identity. preload-Kept _ _ _ _)))

    preload_all-Kept : (proxies : Proxies) (l : List DecodedTx) → Kept (preload_all s proxies l)
    unfolding preload_all
    preload_all-Kept proxies [] = Leaves-pure _ _
    preload_all-Kept proxies (d ∷ l) =
        Keeps-bind _ _ _ (preload_one-Kept proxies d) (λ _. preload_all-Kept proxies l)

    deploy_block-Kept :
        (deploys others : List DecodedTx) (t : Option ℕ) → Kept (deploy_block s deploys others t)
    unfolding deploy_block
    deploy_block-Kept [] others t = Leaves-pure _ _
    deploy_block-Kept (d ∷ deploys) others t =
        Keeps-bind _ _ _ (send_all-Kept (d ∷ deploys))
          (λ _. Keeps-bind _ _ _ (send_all-Kept others) (λ _. on_world-Kept _))

    send_plain-Kept : (txs : List DecodedTx) (t : Option ℕ) → Kept (send_plain s txs t)
    unfolding send_plain
    send_plain-Kept [] t = Leaves-raise _ _
    send_plain-Kept (d ∷ txs) t = Keeps-bind _ _ _ (send_all-Kept (d ∷ txs)) (λ _. on_world-Kept _)

    send_batch-Kept :
        (txs : List DecodedTx) (proxies : Proxies) (t : Option ℕ)
        → Kept (send_batch s txs proxies t)
    unfolding send_batch send_with_calls
    send_batch-Kept txs proxies t = Keeps-bind _ _ _ (Leaves-gets _ _) (λ rollups.
        Leaves-if _ _ (any has_result txs) _ _
          (Keeps-bind _ _ _ (deploy_block-Kept _ _ _) (λ _.
            Keeps-bind _ _ _ (preload_all-Kept _ _) (λ _.
              Keeps-bind _ _ _ (on_world-Kept _)
                (λ _. Keeps-bind _ _ _ (send_all-Kept _) (λ _. on_world-Kept _)))))
          (send_plain-Kept txs t))

    replay_batch-Kept :
        (block : ℕ) (l : List ProcessedEvent) → Kept (replay_batch_execution s block l)
    unfolding replay_batch_execution
    replay_batch-Kept block l =
        Leaves-catching _ _ _
          (Keeps-bind _ _ _ (on_world-Kept _) (λ _. Keeps-bind _ _ _ (decode_batch-Kept l []) (λ d.
            Keeps-bind _ _ _ (send_batch-Kept _ _ _) (λ _. Keeps-bind _ _ _ (on_world-Kept _) (λ _.
              Keeps-bind _ _ _ (on_world-Kept _)
                (λ l2. Leaves-modify _ _ _ (λ n q. track_all-Books l (some l2) n q)))))))
          (λ e. Leaves-modify _ _ _ (λ n q. track_all-Books l none n q))

    pub process_run-Kept :
        (e : ProcessedEvent) (more : List ProcessedEvent)
        → Leaves Books Books (process_run s e more)
    unfolding process_run
    process_run-Kept e more =
        Leaves-if _ _ (is_execution e && ltb 1 (length (keep changes_state (e ∷ more)))) _ _
          (Keeps-bind _ _ _ (replay_batch-Kept _ _) (λ _. process_all-Kept _)) (process_all-Kept _)
