-- ===== src/Builder/Bundle.antt =====
-- The transactions that rollup1/builder/builder.ts signs: `signContractTx` and the bundles of
-- `processL2Transaction` and `processL2Batch`.
pub mod Signing
use sync_rollups.Prelude.{
  ℕ, suc, ◌++◌, map, JsString, codes, str_eq, Option, none, some, List, [], ◌∷◌, if◌then◌else◌,
}
use sync_rollups.Prelude.Int.{ℤ, pos}
use sync_rollups.Outcome.Io.{◌>>=◌, Io, pure}
use sync_rollups.Types.{ExecutionEntry}
use sync_rollups.Builder.{
  Builder, BuilderServices, Site, ContractCall, create_cross_chain_proxy, post_batch, execute_l2tx,
  Overrides, own,
}

-- A call with its limits, before its nonce is known.
pub record PricedCall : Type 0 where
  pub call : ContractCall
  pub gas_limit : ℕ
  pub max_fee_per_gas : ℕ
  pub max_priority_fee_per_gas : ℕ

unfoldable pub with_nonce : PricedCall → ℕ → Overrides
with_nonce c nonce = record {
  gas_limit = c.gas_limit;
  max_fee_per_gas = c.max_fee_per_gas;
  max_priority_fee_per_gas = c.max_priority_fee_per_gas;
  nonce = nonce;
}

-- `maxFeePerGas`, and the priority fees of a proxy deployment, of the batch and of executions.
pub record Fees : Type 0 where
  pub max_fee : ℕ
  pub deploy_priority : ℕ
  pub batch_priority : ℕ
  pub exec_priority : ℕ

unfoldable pub execution_call : Builder → Fees → ℤ → JsString → PricedCall
execution_call b fees rollup_id tx = record {
  call = execute_l2tx rollup_id tx;
  gas_limit = b.exec_l2tx_gas_limit;
  max_fee_per_gas = fees.max_fee;
  max_priority_fee_per_gas = fees.exec_priority;
}

-- `postBatch`, and an execution of each L2 transaction.
unfoldable pub batch_calls :
    Builder → Fees → ℤ → List ExecutionEntry → JsString → List JsString → List PricedCall
batch_calls b fees rollup_id entries proof txs =
    record {
      call = post_batch entries proof;
      gas_limit = b.post_batch_gas_limit;
      max_fee_per_gas = fees.max_fee;
      max_priority_fee_per_gas = fees.batch_priority;
    }
    ∷ map (execution_call b fees rollup_id) txs

-- The deployment of a proxy, where there is one, comes before the transaction of the user.
unfoldable pub l2_txs : Option JsString → JsString → List JsString
l2_txs none signed_tx = signed_tx ∷ []
l2_txs (some deploy) signed_tx = deploy ∷ signed_tx ∷ []

unfoldable pub deploy_call : Fees → JsString → ℕ → PricedCall
deploy_call fees target chain = record {
  call = create_cross_chain_proxy target (pos chain);
  gas_limit = 500000;
  max_fee_per_gas = fees.max_fee;
  max_priority_fee_per_gas = fees.deploy_priority;
}

module _ {W : Type 0} (s : BuilderServices (Site W)) where
  unfoldable pub sign_contract_tx : ContractCall → Overrides → Io (Site W) JsString
  sign_contract_tx call overrides = do
    unsigned ← s.populate_transaction call overrides
    chain ← own (λ b. b.l1_chain_id)
    s.sign_transaction (record unsigned { chain_id = chain })

  -- `signedRawTxs.push(…); nonce++`
  unfoldable pub sign_all : ℕ → List PricedCall → Io (Site W) (List JsString)
  sign_all nonce [] = pure []
  sign_all nonce (c ∷ calls) = do
    raw ← sign_contract_tx c.call (with_nonce c nonce)
    raws ← sign_all (suc nonce) calls
    pure (raw ∷ raws)

  -- The alias on L1 of the target of an L2→L1 call, if it has no code.
  unfoldable pub alias_calls : Fees → ℕ → Option JsString → Io (Site W) (List PricedCall)
  alias_calls fees chain none = pure []
  alias_calls fees chain (some target) = do
    alias ← s.proxy_address target (pos chain) chain
    code ← s.l1_code alias
    pure (if str_eq code (codes "0x") then deploy_call fees target chain ∷ [] else [])

  -- The transactions of `processL2Transaction` from a nonce on.
  unfoldable pub sign_l2_bundle :
      Fees
      → ℤ
      → ℕ
      → Option JsString
      → List ExecutionEntry
      → JsString
      → List JsString
      → ℕ
      → Io (Site W) (List JsString)
  sign_l2_bundle fees rollup_id chain target entries proof txs nonce = do
    alias ← alias_calls fees chain target
    b ← own (λ b. b)
    sign_all nonce (alias ++ batch_calls b fees rollup_id entries proof txs)
