-- ===== src/EventProcessor/Replay/Tracking.antt =====
-- Processing an event of rollup1/reth-fullnode/event-processor.ts tracks the root that it posts.
use sync_rollups.Prelude.{
  ℕ, ◌≡◌, refl, Bool, true, false, Bool-cases, inl, inr, JsString, str_eq, Option, none, some,
  if◌then◌else◌,
}
use sync_rollups.Outcome.Io.{pure, modify, ◌>>◌}
use sync_rollups.Outcome.Rules.{
  Ends, Returns, Always, Ends-bind, Returns-bind, Ends-modify, Ends-modify-pure, Ends-Anything,
  Anything, Returns-modify, Ends-pure, Returns-pure, Returns-weaken, Returns-catching,
}
use sync_rollups.StateManager.{update_state}
use sync_rollups.EventProcessor.{Node, track}
use sync_rollups.EventProcessor.Services.{Services}
use sync_rollups.EventProcessor.Events.{
  Execution, state_updated, l2_execution_performed, ProcessedEvent, posted_root,
}
use sync_rollups.EventProcessor.Replay.{
  accept_pre_executed, confirm_pre_executed, replay_and_track, replay_execution, set_last_event,
  process_event,
}

module _ {W : Type 0} where
  abbrev pub tracked_root : Node W → JsString
  tracked_root n = n.processor.manager.state.state_root

  pub tracked_root-track :
      (root : JsString) (block : ℕ) (l2 : Option ℕ) (n : Node W)
      → tracked_root (track root block l2 n) ≡ root
  unfolding track update_state
  tracked_root-track root block none n = refl
  tracked_root-track root block (some k) n = refl

  abbrev pub Tracks : {A : Type 0} → JsString → A → Node W → Type 0
  Tracks root a n = tracked_root n ≡ root

  -- A pre-check that answers yes has tracked the root.
  abbrev Accepted : JsString → Bool → Node W → Type 0
  Accepted root b n = b ≡ true → tracked_root n ≡ root

  module _ (s : Services W) where
    confirm-Accepted :
        (x : Execution) (block : ℕ) → Ends (Accepted x.new_state) (confirm_pre_executed s x block)
    unfolding confirm_pre_executed
    confirm-Accepted x block = Ends-bind _ _ _ λ _. Ends-bind _ _ _ λ l2.
        Ends-bind _ _ _
          λ _. Ends-modify-pure _ _ true (λ n _. tracked_root-track x.new_state block (some l2) n)

    accept-Accepted :
        (x : Execution) (block : ℕ) → Ends (Accepted x.new_state) (accept_pre_executed s x block)
    unfolding accept_pre_executed
    accept-Accepted x block = Ends-bind _ _ _ λ actual.
        elim (Bool-cases (str_eq actual x.new_state)) [
          | inl same ↦ rw same (confirm-Accepted x block)
          | inr other ↦ rw other (Ends-pure _ false (λ n e. cc))
        ]

    replay_and_track-Returns :
        (x : Execution) (block : ℕ) (hash : JsString)
        → Returns Always (Tracks x.new_state) (replay_and_track s x block hash)
    unfolding replay_and_track
    replay_and_track-Returns x block hash =
        Returns-catching _ _ _
          (Ends-bind _ _ _ λ _. Ends-bind _ _ _ λ actual. Ends-bind _ _ _ λ _.
            Ends-bind _ _ _ λ l2. Ends-modify _ _ (tracked_root-track x.new_state block (some l2)))
          λ e.
            Returns-bind _ _ Anything _ _
              (Returns-catching _ _ _ (Ends-Anything _) (λ _. Returns-pure _ _ 0 (λ _ _. tt)))
              (λ l2. Returns-modify _ _ _ (λ n _. tracked_root-track x.new_state block (some l2) n))

    after_check :
        (x : Execution) (block : ℕ) (hash : JsString) (accepted : Bool)
        → Returns
            (Accepted x.new_state accepted)
            (Tracks x.new_state)
            (if accepted then pure tt else replay_and_track s x block hash)
    after_check x block hash true = Returns-pure _ _ tt (λ _ q. q refl)
    after_check x block hash false =
        Returns-weaken _ _ _ _ (λ _ _. tt) (replay_and_track-Returns x block hash)

    replay_execution-Returns :
        (x : Execution) (block : ℕ) (hash : JsString)
        → Returns Always (Tracks x.new_state) (replay_execution s x block hash)
    unfolding replay_execution
    replay_execution-Returns x block hash = elim (Bool-cases (str_eq x.current_state x.new_state)) [
      | inl same ↦
          rw same (Returns-modify _ _ _ (λ n _. tracked_root-track x.new_state block none n))
      | inr changed ↦ rw changed (
          Returns-bind _ _ (Accepted x.new_state) _ _
            (Returns-catching _ _ _ (accept-Accepted x block)
              (λ _. Returns-pure _ _ false (λ _ _ e. cc)))
            (after_check x block hash))
    ]

    -- Whatever L1 and the engine answer, processing an event does not throw, and the tracked root
    -- is then the one that the event posts.
    pub process_event-Returns :
        (e : ProcessedEvent) → Returns Always (Tracks (posted_root e)) (process_event s e)
    unfolding process_event posted_root set_last_event
    process_event-Returns e =
        elim e.args
          as (λ a.
            Returns Always
              (Tracks
                (elim a [ state_updated root ↦ root | l2_execution_performed x ↦ x.new_state ]))
              (elim a [
                | state_updated root ↦
                    modify (λ n. set_last_event s true (track root e.block_number none n))
                | l2_execution_performed x ↦
                    replay_execution s x e.block_number e.transaction_hash
                    >> modify (set_last_event s false)
              ])) [
                | state_updated root ↦
                    Returns-modify (Tracks root)
                      (λ n. set_last_event s true (track root e.block_number none n)) Always
                      (λ n _. tracked_root-track root e.block_number none n)
                | l2_execution_performed x ↦
                    Returns-bind (Tracks x.new_state) Always (Tracks x.new_state)
                      (replay_execution s x e.block_number e.transaction_hash)
                      (λ _. modify (set_last_event s false))
                      (replay_execution-Returns x e.block_number e.transaction_hash)
                      (λ _.
                        Returns-modify (Tracks x.new_state) (set_last_event s false)
                          (Tracks x.new_state tt) (λ n q. q))
              ]
