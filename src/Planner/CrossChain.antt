-- ===== src/Planner/CrossChain.antt =====
-- Plans for calls between L1 and L2: `planL2ToL1Call`, `planL1ToL2Call` and
-- `planL1ToL2CallWithProxy` of rollup1/builder/execution-planner.ts.
use sync_rollups.Prelude.{
  ℕ, Bool, true, false, ◌&&◌, ◌||◌, not, JsString, codes, str_eq, is_truthy, Option, none, some,
  List, [], ◌∷◌, ◌++◌, map, if◌then◌else◌,
}
use sync_rollups.Prelude.Int.{ℤ, pos, ◌-ℤ◌, ltb_ℤ}
use sync_rollups.Outcome.{ok}
use sync_rollups.Outcome.Io.{Io, pure, lift, catching, ◌>>=◌, ◌>>◌}
use sync_rollups.Types.{
  Action, StateDelta, ExecutionEntry, ExecutionPlan, create_l2tx_action, create_call_action,
  create_result_action,
}
use sync_rollups.Types.Json.{map_outcome, state_delta_from_json}
use sync_rollups.EventProcessor.Replay.{later_timestamp, call_result, entry_for}
use sync_rollups.Proofer.{L1Call}
use sync_rollups.Proofer.Entry.{present}
use sync_rollups.Planner.{
  L1CallReply, PlannerServices, PlannerConfig, override_or, moves, first_new_state, succeed,
  simulate_action, l1_state,
}

-- The arguments of `planL2ToL1Call` that describe the call.
pub record L2ToL1Call : Type 0 where
  pub rlp : JsString
  pub l1_target : JsString
  pub call_data : JsString
  pub call_value : ℤ
  pub l2_sender : JsString
  pub source_proxy_on_l1 : JsString

unfoldable pub is_plain_transfer : JsString → Bool
is_plain_transfer call_data =
    not (is_truthy call_data) || str_eq call_data (codes "0x") || str_eq call_data (codes "0x00")

-- What a call would move; the reply of one that cannot be simulated is a failure without deltas.
unfoldable pub failed_reply : L1CallReply
failed_reply = record { return_data = codes "0x"; failed = true; state_deltas = []; new_state = [] }

module _ {W : Type 0} (s : PlannerServices W) (config : PlannerConfig) where
  -- What is planned before the user's transaction: the entries, their root actions, and the state
  -- that they lead to.
  unfoldable pub plan_deploy :
      Option JsString → Option ℕ → JsString → Io W (List ExecutionEntry × List Action × JsString)
  plan_deploy none timestamp current = pure ([], [], current)
  plan_deploy (some tx) timestamp current = do
    simulation ← simulate_action s (create_l2tx_action config.rollup_id tx) timestamp
    succeed simulation
    deployed ← first_new_state simulation.state_deltas
    pure (
      record {
        state_deltas = moves config.rollup_id current deployed ∷ [];
        action_hash = s.hash_action (create_l2tx_action config.rollup_id tx);
        next_action = create_result_action config.rollup_id (codes "0x") false;
      }
          ∷ [],
      create_l2tx_action config.rollup_id tx ∷ [],
      deployed,
    )

  unfoldable pub simulate_l1_call : L2ToL1Call → Io W (JsString × Bool)
  simulate_l1_call c = do
    code ← s.l1_code c.l1_target
    if is_plain_transfer c.call_data && str_eq code (codes "0x")
        then pure (codes "0x", false)
        else λ w.
            let (answer, w') =
              s.l1_call c.source_proxy_on_l1 c.l1_target c.call_data c.call_value w in
            (ok (call_result answer), w')

  unfoldable pub post_l2_state : List StateDelta → JsString → JsString → JsString
  post_l2_state [] current action_hash = s.hash_states current action_hash
  post_l2_state (d ∷ ds) current action_hash = d.new_state

  -- The ether that leaves the rollup with the call.
  unfoldable pub continuation_deltas : ℤ → JsString → List StateDelta
  continuation_deltas value state =
      if ltb_ℤ (pos 0) value
      then record (moves config.rollup_id state state) { ether_delta = pos 0 -ℤ value } ∷ []
      else []

  -- The user's transaction, which goes on with a call on L1, and the result of that call.
  unfoldable pub call_entries :
      L2ToL1Call → JsString → JsString → JsString × Bool → List ExecutionEntry
  call_entries c current post answer =
      record {
        state_deltas = moves config.rollup_id current post ∷ [];
        action_hash = s.hash_action (create_l2tx_action config.rollup_id c.rlp);
        next_action =
            create_call_action config.rollup_id c.l1_target c.call_value c.call_data c.l2_sender
              config.rollup_id [];
      }
      ∷ record {
        state_deltas = continuation_deltas c.call_value post;
        action_hash = s.hash_action (create_result_action config.rollup_id answer.0 answer.1);
        next_action = create_result_action config.rollup_id answer.0 answer.1;
      }
      ∷ []

  unfoldable pub call_actions : L2ToL1Call → JsString × Bool → List Action
  call_actions c answer =
      create_l2tx_action config.rollup_id c.rlp
      ∷ create_result_action config.rollup_id answer.0 answer.1
      ∷ []

  -- The entry that the proxy on L2 will consume.
  unfoldable pub preload_data : L2ToL1Call → JsString × Bool → JsString
  preload_data c answer = s.encode_load_execution_table (
      entry_for
        (s.hash_action (
          create_call_action (pos 0) c.l1_target c.call_value c.call_data c.l2_sender
            config.rollup_id []))
        (create_result_action (pos 0) answer.0 answer.1)
      ∷ [])

  unfoldable pub hash_of_first : List Action → JsString
  hash_of_first [] = []
  hash_of_first (a ∷ rest) = s.hash_action a

  unfoldable pub plan_l2_to_l1_call :
      L2ToL1Call → Option ℕ → Option JsString → Option JsString → Io W ExecutionPlan
  plan_l2_to_l1_call c timestamp override deploy_tx = do
    state ← l1_state s
    before ← plan_deploy (present deploy_tx) timestamp (override_or override state)
    answer ← simulate_l1_call c
    s.system_call config.rollups_address (preload_data c answer) timestamp
    simulation ←
        simulate_action s (create_l2tx_action config.rollup_id c.rlp) (later_timestamp 1 timestamp)
    succeed simulation
    let post =
        post_l2_state simulation.state_deltas before.2
          (s.hash_action (create_l2tx_action config.rollup_id c.rlp))
    pure (record {
      entries = before.0 ++ call_entries c before.2 post answer;
      root_action_hash = hash_of_first (before.1 ++ call_actions c answer);
      root_actions = before.1 ++ call_actions c answer;
      proof = [];
      preload_system_calls = some (
          record {
            entry_index = elim (present deploy_tx) [ none ↦ 0 | some _ ↦ 1 ];
            target = config.rollups_address;
            payload = preload_data c answer;
          }
          ∷ []);
    })

  -- A plan of one entry.
  unfoldable pub call_plan : Action → List StateDelta → JsString → Bool → ExecutionPlan
  call_plan a deltas return_data failed = record {
    entries =
        record {
          state_deltas = deltas;
          action_hash = s.hash_action a;
          next_action = create_result_action config.rollup_id return_data failed;
        }
        ∷ [];
    root_action_hash = s.hash_action a;
    root_actions = a ∷ [];
    proof = [];
    preload_system_calls = none;
  }

  unfoldable pub deltas_or_none : JsString → List StateDelta → List StateDelta
  deltas_or_none current [] = moves config.rollup_id current current ∷ []
  deltas_or_none current (d ∷ ds) = d ∷ ds

  unfoldable pub plan_l1_to_l2_call : JsString → JsString → ℤ → JsString → Io W ExecutionPlan
  plan_l1_to_l2_call l2_target call_data value source_address = do
    current ← s.get_state_root
    let a =
        create_call_action config.rollup_id l2_target value call_data source_address
          config.rollup_id []
    simulation ← simulate_action s a none
    pure (
        call_plan a (deltas_or_none current simulation.state_deltas) simulation.next_action.payload
          simulation.next_action.failed)

  -- The reply with its deltas read; an error of the call or of reading them counts as a failure.
  unfoldable pub simulate_l1_to_l2_call : L1Call → Option ℕ → Io W (L1CallReply × List StateDelta)
  simulate_l1_to_l2_call c timestamp =
      catching
        (do
          r ← s.simulate_l1_call c timestamp
          deltas ← lift (map_outcome state_delta_from_json r.state_deltas)
          pure (r, deltas))
        (λ e. pure (failed_reply, []))

  -- The moved ether is the value of the call.
  unfoldable pub proxy_deltas :
      ℤ → JsString → JsString → L1CallReply → List StateDelta → List StateDelta
  proxy_deltas value current action_hash r [] =
      record (moves config.rollup_id current
        (if is_truthy r.new_state then r.new_state else s.hash_states current action_hash)) {
          ether_delta = value;
        }
      ∷ []
  proxy_deltas value current action_hash r (d ∷ ds) =
      map (λ (x : StateDelta). record x { ether_delta = value }) (d ∷ ds)

  unfoldable pub plan_l1_to_l2_call_with_proxy :
      L1Call → Option ℕ → Option JsString → Option ℤ → Io W ExecutionPlan
  plan_l1_to_l2_call_with_proxy c timestamp override proxy_rollup_id = do
    state ← l1_state s
    let a =
        create_call_action (elim proxy_rollup_id [ none ↦ config.rollup_id | some id ↦ id ])
          c.target c.value c.payload c.original_sender (pos 0) []
    reply ← simulate_l1_to_l2_call c timestamp
    pure (
        call_plan a
          (proxy_deltas c.value (override_or override state) (s.hash_action a) reply.0 reply.1)
          (if is_truthy reply.0.return_data then reply.0.return_data else codes "0x")
          reply.0.failed)
