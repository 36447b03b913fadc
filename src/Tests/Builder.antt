-- ===== src/Tests/Builder.antt =====
-- rollup1/builder/builder.ts and the rollbacks of rollup1/reth-fullnode/rpc-server.ts at concrete
-- inputs.
use sync_rollups.Prelude.{
  ℕ, ◌<◌, ◌≤◌, ◌≡◌, ◌≢◌, refl, ◌++◌, JsString, codes, Option, none, some, List, [], ◌∷◌, length,
  length-append, All, arith, ◌↔◌, ap,
}
use sync_rollups.Prelude.Int.{pos}
use sync_rollups.Outcome.{ok}
use sync_rollups.Outcome.Rules.{Ends, Returns, Always}
use sync_rollups.Outcome.Leaves.{Leaves}
use sync_rollups.Types.BigInt.{to_hex}
use sync_rollups.Types.{
  ExecutionPlan, IsChainAction, IsChainEntry, create_l2tx_action, create_result_action,
}
use sync_rollups.Proofer.Entry.{present}
use sync_rollups.Proofer.Prove.{required_state, first_state, prove_from, handle_prove}
use sync_rollups.Planner.{moves}
use sync_rollups.Planner.L2.{batch_plan, batch_entries, batch_entry, first_hash}
use sync_rollups.Planner.Provable.{IsProvable}
use sync_rollups.Builder.Proof.{ProofTerms, proof_body}
use sync_rollups.Builder.Proof.Accepted.{handle_prove-proof_body}
use sync_rollups.Tests.Proofer.{toy_node}
use sync_rollups.Builder.{Builder, FeeData, L2Head, ParsedTx, block_text, block_number}
use sync_rollups.Builder.Fees.{chiado, base_priority, bundle_max_fee, estimate_base_fee}
use sync_rollups.Builder.Fees.Payable.{IsPayable, bundle_fees-IsPayable_iff}
use sync_rollups.Builder.Bundle.{Fees, PricedCall, batch_calls, l2_txs}
use sync_rollups.Builder.Bundle.Signing.{Numbered}
use sync_rollups.Builder.Hints.{handle_register_l2_hint}
use sync_rollups.Builder.Hints.Lookup.{RegisteredAt, handle_register_l2_hint-Returns}
use sync_rollups.Builder.Landing.{bundle_fees}
use sync_rollups.Builder.L2.{process_l2_transaction}
use sync_rollups.Builder.Batch.{process_l2_batch}
use sync_rollups.Builder.Submit.{on_l2, SubmitRequest}
use sync_rollups.Builder.Monitor.Submission.{IsSubmission}
use sync_rollups.Builder.Monitor.Landing.{MayLand}
use sync_rollups.Builder.Monitor.L2.{process_l2_transaction-Leaves}
use sync_rollups.Builder.Monitor.Batch.{IsBatch, MayLandBatch, process_l2_batch-Leaves}
use sync_rollups.Builder.Plan.Executions.{Executes, plan_for-Executes}
use sync_rollups.Builder.Plan.{plan_for}
use sync_rollups.RpcServer.{revert_target}
use sync_rollups.RpcServer.Snapshots.{revert_target-hex, revert_target-number}
use sync_rollups.Tests.ToyBuilder.{
  toy, toy_planner, Carries, toy-IsSigner, config, IsLong, AllLong, toy-IsQuiet, Numbered-length,
}

abbrev user_tx : ParsedTx
user_tx = record {
  from = some (codes "0xe");
  to = some (codes "0xd");
  payload = codes "0x";
  value = pos 5;
  hash = none;
}

long_l2 :
    (alias : List PricedCall) (b : Builder) (fees : Fees) (plan : ExecutionPlan)
    (proof tx : JsString) (deploy : Option JsString)
    → 1 < length (alias ++ batch_calls b fees (pos 1) plan.entries proof (l2_txs deploy tx))
unfolding batch_calls l2_txs
long_l2 alias b fees plan proof tx none = omega (arith, length-append alias _)
long_l2 alias b fees plan proof tx (some d) = omega (arith, length-append alias _)

submission-IsLong :
    (tx : JsString) (raws : List JsString) → IsSubmission toy config Carries tx raws → IsLong raws
submission-IsLong tx raws h = omega (
  arith,
  Numbered-length h.nonce _ raws h.bundle.decoded,
  long_l2 h.bundle.alias h.bundle.limits h.fees h.plan h.proof tx h.deploy,
)

toy-MayLand : (tx : JsString) → MayLand toy config Carries toy-IsSigner AllLong toy-IsQuiet tx
toy-MayLand tx = record {
  submits = λ c raws n t h. record { leaves = λ w p. (submission-IsLong tx raws h, p) };
  broadcasts = λ before raw more h. record { leaves = λ w p. p };
}

process_l2_transaction-Leaves_example :
    Leaves AllLong AllLong (process_l2_transaction toy config (codes "0x02"))
process_l2_transaction-Leaves_example =
    process_l2_transaction-Leaves toy config Carries toy-IsSigner AllLong toy-IsQuiet (codes "0x02")
      (toy-MayLand (codes "0x02"))

abbrev two : List JsString
two = codes "0x02" ∷ codes "0x03" ∷ []

batch-IsLong :
    (raws : List JsString) (nonce : ℕ) (calls : List PricedCall)
    → IsBatch toy config Carries two calls
    → Numbered Carries nonce calls raws
    → IsLong raws
unfolding batch_calls
batch-IsLong raws nonce calls h d =
    omega (arith, Numbered-length nonce calls raws d, ap length h.calls_of)

toy-MayLandBatch : MayLandBatch toy config Carries AllLong two
toy-MayLandBatch = record {
  submits = λ c raws n t nonce calls h d. record {
    leaves = λ w p. (batch-IsLong raws nonce calls h d, p);
  };
  broadcasts = λ raw nonce before c more h d. record { leaves = λ w p. p };
}

process_l2_batch-Leaves_example : Leaves AllLong AllLong (process_l2_batch toy config two)
process_l2_batch-Leaves_example =
    process_l2_batch-Leaves toy config Carries toy-IsSigner AllLong toy-IsQuiet two toy-MayLandBatch

abbrev request : SubmitRequest
request = record { source_chain = on_l2; signed_tx = codes "0x02"; l2_target_address = none }

abbrev some_fees : Fees
some_fees = record { max_fee = 9; deploy_priority = 4; batch_priority = 3; exec_priority = 2 }

plan_for-Executes_example :
    Ends
      (λ planned _. Executes (l2_txs (present planned.1) (codes "0x02")) planned.0)
      (plan_for toy config user_tx (codes "0x02") 100 7 (some (codes "0xd", codes "0xa")))
plan_for-Executes_example =
    plan_for-Executes toy config user_tx (codes "0x02") 100 7 (some (codes "0xd", codes "0xa"))

-- What Chiado answers: a base fee of 7 wei and no priority fee.
abbrev cheap : FeeData
cheap = record { max_fee_per_gas = some 14; max_priority_fee_per_gas = some 0 }

bundle_fees-IsPayable_iff_example :
    IsPayable (bundle_fees 10200 cheap)
    ↔ (◌≡◌ {A = ℕ} 10200 chiado → base_priority 10200 cheap ≤ bundle_max_fee 10200 cheap)
bundle_fees-IsPayable_iff_example = bundle_fees-IsPayable_iff 10200 cheap

-- So its bundles are not taken there.
cheap_bundles : ¬ IsPayable (bundle_fees 10200 cheap)
unfolding base_priority bundle_max_fee
cheap_bundles h = absurd (ground (arith, (bundle_fees-IsPayable_iff 10200 cheap).0 h refl))

abbrev parent : L2Head
parent = record { base_fee_per_gas = 1000; gas_used = 20000000; gas_limit = 30000000 }

estimated : estimate_base_fee parent ≡ ok 1041
unfolding estimate_base_fee
estimated = refl

handle_register_l2_hint-Returns_example :
    Returns Always
      (RegisteredAt toy config (codes "0xT"))
      (handle_register_l2_hint toy config (codes "0xT"))
handle_register_l2_hint-Returns_example =
    handle_register_l2_hint-Returns toy config (codes "0xT") refl

revert_target-hex_example : revert_target (block_text (to_hex (pos 26))) ≡ ok (some 26)
revert_target-hex_example = revert_target-hex 26

revert_target-number_example : (k : ℕ) × (revert_target (block_number 26) ≡ ok (some k)) × (26 < k)
revert_target-number_example = revert_target-number 26 (omega arith)

abbrev a_plan : ExecutionPlan
a_plan = batch_plan toy_planner config.planner (codes "a") (codes "b") (codes "0x02" ∷ [])

abbrev some_terms : ProofTerms
some_terms = record {
  timestamp = 7;
  batch_signed_txs = codes "0x02" ∷ [];
  source_proxies = [];
  hints = [];
  ecdsa_params = none;
}

a_plan-IsProvable : IsProvable toy_node.hash_action a_plan
unfolding batch_plan batch_entries batch_entry first_hash
a_plan-IsProvable = record { same_length = refl; hashes = (refl, tt); root = refl }

chain_action : (a : JsString) → IsChainAction (create_l2tx_action (pos 1) a)
unfolding create_l2tx_action
chain_action a = record { rollup_id = tt; value = tt; source_rollup = tt; scope = tt }

a_plan-entries : All IsChainEntry a_plan.entries
unfolding batch_plan batch_entries batch_entry moves create_result_action
a_plan-entries = (
  record {
    state_deltas = (tt, tt);
    next_action = record { rollup_id = tt; value = tt; source_rollup = tt; scope = tt };
  },
  tt,
)

a_plan-actions : All IsChainAction a_plan.root_actions
unfolding batch_plan
a_plan-actions = (chain_action _, tt)

some_entries : a_plan.entries ≢ []
unfolding batch_plan batch_entries
some_entries h = cc

a_plan-start : required_state a_plan.entries ≡ some (codes "a")
unfolding batch_plan batch_entries batch_entry moves required_state first_state present
a_plan-start = refl

handle_prove-proof_body_example :
    handle_prove toy_node (proof_body a_plan some_terms) 5
    ≡ prove_from toy_node
        (proof_body a_plan some_terms)
        a_plan.entries
        a_plan.root_actions
        (codes "a")
        5
handle_prove-proof_body_example =
    handle_prove-proof_body toy_node a_plan some_terms (codes "a") 5 a_plan-IsProvable
      a_plan-entries a_plan-actions some_entries a_plan-start
