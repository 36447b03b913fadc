-- ===== src/Builder/Proof/Accepted.antt =====
-- What rollup1/proofer/proofer.ts makes of the request that rollup1/builder/builder.ts sends.
use sync_rollups.Prelude.{
  ℕ, ◌≡◌, ◌≢◌, refl, ap, true, false, map, JsString, none, some, List, [], ◌∷◌, length, ◌==◌, All,
  arith,
}
use sync_rollups.Outcome.Io.{lift, ◌>>=◌}
use sync_rollups.Types.{Action, ExecutionEntry, ExecutionPlan, IsChainAction, IsChainEntry}
use sync_rollups.Types.Json.{
  action_to_json, action_from_json, execution_entry_to_json, execution_entry_from_json,
}
use sync_rollups.Types.RoundTrip.{
  map_outcome-map, action_from_json-action_to_json,
  execution_entry_from_json-execution_entry_to_json,
}
use sync_rollups.Proofer.{ProveRequest, ProoferServices}
use sync_rollups.Proofer.Prove.{
  check_hashes, required_state, prove_from, prove_entries, handle_prove,
}
use sync_rollups.Proofer.Prove.Checks.{check_hashes_iff}
use sync_rollups.Planner.Provable.{IsProvable}
use sync_rollups.Builder.Proof.{ProofTerms, proof_body}

length-map : {A B : Type 0} (f : A → B) (xs : List A) → length (map f xs) ≡ length xs
length-map f [] = refl
length-map f (x ∷ xs) = omega (arith, length-map f xs)

same : (a b c d : ℕ) → a ≡ c → b ≡ d → c ≡ d → (a == b) ≡ true
same a b c d h k l = ground arith

not_empty : {A : Type 0} (xs : List A) → xs ≢ [] → (length xs == 0) ≡ false
not_empty [] h = absurd (h refl)
not_empty (x ∷ xs) h = ground arith

module _ {W : Type 0} (s : ProoferServices W) where
  prove_entries_lem :
      (request : ProveRequest) (entries : List ExecutionEntry) (actions : List Action)
      (required : JsString)
      → check_hashes s.hash_action 0 entries actions ≡ none
      → required_state entries ≡ some required
      → prove_entries s request entries actions ≡ prove_from s request entries actions required
  unfolding prove_entries
  prove_entries_lem request entries actions required h k = rw (prove_entries, h, k) refl

  -- A request for a plan that has entries and the form that the proofer asks for gets past all of
  -- its checks that come before the node is used: the proofer goes on with exactly the entries and
  -- the root actions of the plan, from the state that the plan starts from.
  pub handle_prove-proof_body :
      (plan : ExecutionPlan) (terms : ProofTerms) (required : JsString) (w : W)
      → IsProvable s.hash_action plan
      → All IsChainEntry plan.entries
      → All IsChainAction plan.root_actions
      → plan.entries ≢ []
      → required_state plan.entries ≡ some required
      → handle_prove s (proof_body plan terms) w
        ≡ prove_from s (proof_body plan terms) plan.entries plan.root_actions required w
  unfolding handle_prove proof_body ◌>>=◌ lift
  handle_prove-proof_body plan terms required w provable entries actions some_entry start =
      rw
        (
          same (length (map execution_entry_to_json plan.entries))
              (length (map action_to_json plan.root_actions)) _ _
              (length-map execution_entry_to_json plan.entries)
              (length-map action_to_json plan.root_actions) provable.same_length,
          length-map execution_entry_to_json plan.entries,
          not_empty plan.entries some_entry,
          map_outcome-map execution_entry_to_json execution_entry_from_json
              execution_entry_from_json-execution_entry_to_json plan.entries entries,
          map_outcome-map action_to_json action_from_json action_from_json-action_to_json
              plan.root_actions actions,
        )
        (ap (λ m. m w)
          (prove_entries_lem (proof_body plan terms) plan.entries plan.root_actions required
            ((check_hashes_iff s.hash_action 0 plan.entries plan.root_actions).1 provable.hashes)
            start))
