-- ===== src/Builder/Submit.antt =====
-- `handleSubmit` of rollup1/builder/builder.ts.
use sync_rollups.Prelude.{
  ℕ, zero, suc, ◌-◌, Bool, true, false, JsString, codes, str_eq, Option, ltb, if◌then◌else◌,
}
use sync_rollups.Outcome.Io.{◌>>=◌, ◌>>◌, Io, pure, catching}
use sync_rollups.Builder.{BuilderConfig, BuilderServices, Site, SubmitResponse}
use sync_rollups.Builder.L2.{failure, process_l2_transaction}
use sync_rollups.Builder.L1.{process_l1_transaction}

pub data SourceChain : Type 0 where
  on_l1 on_l2 : SourceChain

pub record SubmitRequest : Type 0 where
  pub source_chain : SourceChain
  pub signed_tx : JsString
  pub l2_target_address : Option JsString

module _ {W : Type 0} (s : BuilderServices (Site W)) where
  -- `isTrackedStateSynced` of the planner; its two reads are in order here.
  unfoldable pub is_tracked_state_synced : Io (Site W) Bool
  is_tracked_state_synced = do
    tracked ← s.planner.get_state_root
    l1 ← s.planner.l1_state_root
    pure (str_eq tracked l1)

  -- The rounds of waiting for at most 10000 ms; each sleeps 200 ms, so 50 rounds are enough.
  unfoldable pub sync_loop : ℕ → ℕ → Io (Site W) Bool
  sync_loop zero start = pure false
  sync_loop (suc rounds) start = do
    time ← s.now
    elim (ltb (time - start) 10000) [
      | false ↦ pure false
      | true ↦ do
        s.sleep 200
        synced ← is_tracked_state_synced
        elim synced [ true ↦ pure true | false ↦ sync_loop rounds start ]
    ]

  unfoldable pub wait_until_synced : Io (Site W) Bool
  wait_until_synced = do
    synced ← is_tracked_state_synced
    if synced then pure true else (do start ← s.now; sync_loop 50 start)

module _ {W : Type 0} (s : BuilderServices (Site W)) (config : BuilderConfig) where
  unfoldable pub dispatch : SourceChain → SubmitRequest → Io (Site W) SubmitResponse
  dispatch on_l2 request = process_l2_transaction s config request.signed_tx
  dispatch on_l1 request =
      process_l1_transaction s config request.signed_tx request.l2_target_address

  unfoldable pub handle_submit : SubmitRequest → Io (Site W) SubmitResponse
  handle_submit request = do
    synced ← wait_until_synced s
    if synced
        then catching (dispatch request.source_chain request) (λ e. pure (failure e))
        else pure (failure (codes "Fullnode not synced with L1 after 10s"))
