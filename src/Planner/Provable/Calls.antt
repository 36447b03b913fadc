-- ===== src/Planner/Provable/Calls.antt =====
-- The plans of rollup1/builder/execution-planner.ts for calls between L1 and L2 have the form that
-- the proofer asks for.
use sync_rollups.Prelude.{◌≡◌, JsString, List, ◌++◌, length}
use sync_rollups.Types.{Action, ExecutionEntry}
use sync_rollups.Proofer.Prove.Checks.{HashesMatch}
use sync_rollups.Planner.{PlannerServices, PlannerConfig}
use sync_rollups.Planner.Provable.{Chained}

module _ {W : Type 0} (s : PlannerServices W) (config : PlannerConfig) where
  -- What is planned first can be followed by what starts from its state.
  abbrev Extends : JsString → List ExecutionEntry × List Action × JsString → Type 0
  Extends state before =
      (es : List ExecutionEntry) (actions : List Action)
      → length es ≡ length actions
      → HashesMatch s.hash_action es actions
      → Chained before.2 es
      → (length (before.0 ++ es) ≡ length (before.1 ++ actions))
        × HashesMatch s.hash_action (before.0 ++ es) (before.1 ++ actions)
        × Chained state (before.0 ++ es)
