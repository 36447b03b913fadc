-- ===== src/Builder/Plan.antt =====
-- The plan of `processL2Transaction` of rollup1/builder/builder.ts: the hint table, the state that
-- is simulated from, the deployment of a proxy on L2 and the choice of a plan.
pub mod Executions
use sync_rollups.Prelude.{
  ℕ, zero, suc, ◌*◌, Bool, true, false, not, ◌&&◌, ◌||◌, JsString, codes, str_eq, to_lower, Option,
  none, some, if◌then◌else◌,
}
use sync_rollups.Prelude.Int.{pos}
use sync_rollups.Maps.{JsMap, text_key, map_get}
use sync_rollups.Outcome.Io.{◌>>=◌, ◌>>◌, Io, pure, raise, lift, catching}
use sync_rollups.Types.{ExecutionPlan}
use sync_rollups.Types.BigInt.{to_hex}
use sync_rollups.Proofer.Entry.{present}
use sync_rollups.Planner.L2.{plan_l2_transaction, speculate_plan_l2_transaction}
use sync_rollups.Planner.CrossChain.{plan_l2_to_l1_call}
use sync_rollups.Builder.{BuilderConfig, BuilderServices, ParsedTx, Site, block_text, own}
use sync_rollups.Builder.Fees.{estimate_base_fee}

-- `tx.from && tx.from.toLowerCase() === this.operatorAddress`
unfoldable pub signed_by : JsString → ParsedTx → Bool
signed_by operator tx = elim (present tx.from) [
  | none ↦ false
  | some from ↦ str_eq (to_lower from) operator
]

-- The proxy that an L2→L1 call is sent to, and the target on L1 that it is registered for.
unfoldable pub hint_for : JsMap JsString JsString → ParsedTx → Option (JsString × JsString)
hint_for table tx = elim (present tx.to) [
  | none ↦ none
  | some to ↦ elim (present (map_get table (to_lower to))) [
    | none ↦ none
    | some target ↦ some (to, target)
  ]
]

abbrev pub target_of : Option (JsString × JsString) → Option JsString
target_of none = none
target_of (some (proxy, target)) = some target

module _ {W : Type 0} (s : BuilderServices (Site W)) where
  -- The 60 rounds that wait for the engine to match; an error is passed over.
  unfoldable pub match_loop : ℕ → JsString → Io (Site W) (Unit {0})
  match_loop zero tracked = pure tt
  match_loop (suc rounds) tracked = do
    s.sleep 2000
    matches ←
        catching
          (do
            evm ← s.planner.get_actual_state_root
            elim (str_eq evm tracked) [
              | true ↦ pure true
              | false ↦ do now_tracked ← s.planner.get_state_root; pure (str_eq evm now_tracked)
            ])
          (λ e. pure false)
    elim matches [ true ↦ pure tt | false ↦ match_loop rounds tracked ]

  -- The engine is rolled back to the block of the tracked state, unless it stands there.
  unfoldable pub align_evm : Io (Site W) (Unit {0})
  align_evm = do
    anvil ← own (λ b. b.is_anvil_l1)
    if anvil then pure tt else (do
      evm ← s.planner.get_actual_state_root
      tracked ← s.planner.get_state_root
      if str_eq evm tracked then pure tt else (do
        block ← s.tracked_l2_block
        catching (s.revert_to_snapshot (block_text (to_hex (pos block)))) (λ e. pure tt)
        match_loop 60 tracked))

  unfoldable pub take_snapshot : Io (Site W) (Option ℕ)
  take_snapshot = do
    anvil ← own (λ b. b.is_anvil_l1)
    if anvil then pure none else (do block ← s.l2_block_number; pure (some block))

module _ {W : Type 0} (s : BuilderServices (Site W)) (config : BuilderConfig) where
  -- The deployment is signed by the account of the builder on L2.
  unfoldable pub sign_proxy_deploy : JsString → Io (Site W) JsString
  sign_proxy_deploy target = do
    nonce ← s.l2_transaction_count config.builder_address
    parent ← s.l2_latest_block
    next_base_fee ← lift (estimate_base_fee parent)
    chain ← own (λ b. b.l2_chain_id)
    s.sign_l2_deploy (record {
      to = config.planner.rollups_address;
      payload = s.encode_create_proxy target;
      nonce = nonce;
      chain_id = chain;
      gas_limit = 500000;
      max_fee_per_gas = next_base_fee * 2;
    })

  -- Nothing is signed where the proxy has code.
  unfoldable pub proxy_deploy : JsString → JsString → Io (Site W) (Option JsString)
  proxy_deploy proxy target = do
    code ← s.l2_code proxy
    if str_eq code (codes "0x") || str_eq code (codes "0x0")
        then (do raw ← sign_proxy_deploy target; pure (some raw))
        else pure none

  unfoldable pub plan_withdrawal :
      ParsedTx
      → JsString
      → ℕ
      → ℕ
      → JsString × JsString
      → JsString
      → Io (Site W) (ExecutionPlan × Option JsString)
  plan_withdrawal tx signed_tx chain sim_timestamp (proxy, target) from = do
    deploy ← proxy_deploy proxy target
    source ← s.proxy_address from config.planner.rollup_id chain
    plan ←
        plan_l2_to_l1_call s.planner config.planner
          (record {
            rlp = signed_tx;
            l1_target = target;
            call_data = tx.payload;
            call_value = tx.value;
            l2_sender = from;
            source_proxy_on_l1 = source;
          })
          (some sim_timestamp) none deploy
    pure (plan, deploy)

  -- The plan beside the deployment that goes before it.
  unfoldable pub plan_for :
      ParsedTx
      → JsString
      → ℕ
      → ℕ
      → Option (JsString × JsString)
      → Io (Site W) (ExecutionPlan × Option JsString)
  plan_for tx signed_tx chain sim_timestamp (some hint) = elim (present tx.from) [
    | none ↦ raise (codes "Signed L2 tx has no sender address")
    | some from ↦ plan_withdrawal tx signed_tx chain sim_timestamp hint from
  ]
  plan_for tx signed_tx chain sim_timestamp none = do
    anvil ← own (λ b. b.is_anvil_l1)
    plan ←
        if config.use_ecdsa_verifier && not anvil
        then speculate_plan_l2_transaction s.planner config.planner signed_tx (some sim_timestamp)
        else plan_l2_transaction s.planner config.planner signed_tx (some sim_timestamp) none
    pure (plan, none)
