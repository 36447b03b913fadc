-- ===== src/Builder/Proof.antt =====
-- `waitForProoferSync` and `requestProof` of rollup1/builder/builder.ts.
pub mod Accepted
use sync_rollups.Prelude.{
  ℕ, zero, suc, ◌-◌, true, false, ◌++◌, map, JsString, codes, is_truthy, Option, none, some, List,
  [], ltb, if◌then◌else◌,
}
use sync_rollups.Outcome.Io.{◌>>=◌, ◌>>◌, Io, pure, raise, catching}
use sync_rollups.Types.{ExecutionPlan, Preload}
use sync_rollups.Types.Json.{action_to_json, execution_entry_to_json}
use sync_rollups.Proofer.{Hint, EcdsaParams, ProveRequest}
use sync_rollups.Builder.{BuilderServices, Site, StoredHint, ProofReply, own}

unfoldable pub format_hint : StoredHint → Hint
format_hint h = record {
  action = action_to_json h.action;
  timestamp = h.timestamp;
  source_proxy = some h.source_proxy;
}

abbrev preloads_or_none : Option (List Preload) → List Preload
preloads_or_none none = []
preloads_or_none (some l) = l

-- What goes into a proof beside the plan; a list that is not given is empty.
pub record ProofTerms : Type 0 where
  pub timestamp : ℕ
  pub batch_signed_txs : List JsString
  pub source_proxies : List (Option JsString)
  pub hints : List StoredHint
  pub ecdsa_params : Option EcdsaParams

unfoldable pub proof_body : ExecutionPlan → ProofTerms → ProveRequest
proof_body plan terms = record {
  entries = map execution_entry_to_json plan.entries;
  root_actions = map action_to_json plan.root_actions;
  timestamp = some terms.timestamp;
  hints = map format_hint terms.hints;
  batch_signed_txs = terms.batch_signed_txs;
  source_proxies = terms.source_proxies;
  preload_system_calls = preloads_or_none plan.preload_system_calls;
  ecdsa_params = terms.ecdsa_params;
}

unfoldable pub rejection : ProofReply → JsString
rejection r =
    codes "Proofer rejected: "
    ++ (r.error
        ++ (if is_truthy r.proofer_state
            then codes " (proofer state: " ++ (r.proofer_state ++ codes ")")
            else []))

module _ {W : Type 0} (s : BuilderServices (Site W)) where
  -- The rounds of waiting for at most 120000 ms; each sleeps 3000 ms, so 40 rounds are enough.
  unfoldable pub proofer_loop : ℕ → ℕ → Io (Site W) (Unit {0})
  proofer_loop zero start = pure tt
  proofer_loop (suc rounds) start = do
    time ← s.now
    elim (ltb (time - start) 120000) [
      | false ↦ pure tt
      | true ↦ do
        synced ← catching s.proofer_is_synced (λ e. pure false)
        elim synced [ true ↦ pure tt | false ↦ do s.sleep 3000; proofer_loop rounds start ]
    ]

  unfoldable pub wait_for_proofer_sync : Io (Site W) (Unit {0})
  wait_for_proofer_sync = do
    anvil ← own (λ b. b.is_anvil_l1)
    if anvil then pure tt else (do start ← s.now; proofer_loop 40 start)

  unfoldable pub request_proof : ExecutionPlan → ProofTerms → Io (Site W) JsString
  request_proof plan terms = do
    wait_for_proofer_sync
    reply ← s.prove (proof_body plan terms)
    if reply.success then pure reply.proof else raise (rejection reply)
