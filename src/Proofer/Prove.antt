-- ===== src/Proofer/Prove.antt =====
-- `handleProve` and `rollback` of rollup1/proofer/proofer.ts.
pub mod Checks
pub mod Soundness
pub mod Rollback
pub mod Waiting
use sync_rollups.Prelude.{
  ℕ, zero, suc, ◌+◌, ◌-◌, Bool, true, false, not, ◌&&◌, all, JsString, codes, str_eq, is_truthy,
  Option, none, some, List, [], ◌∷◌, keep, length, get_elem?, ltb, ◌==◌, if◌then◌else◌,
}
use sync_rollups.Outcome.{Outcome, ok, throw}
use sync_rollups.Outcome.Io.{Io, pure, raise, lift, catching, ◌>>=◌, ◌>>◌}
use sync_rollups.Types.{Action, StateDelta, ExecutionEntry, Preload}
use sync_rollups.Types.Json.{map_outcome, action_from_json, execution_entry_from_json}
use sync_rollups.Proofer.{
  Hint, ProveRequest, Refusal, unequal_lengths, no_entries, no_state_delta, needs_hints,
  hints_missed, hash_mismatch, hint_failed, unexpected, ProveResponse, proved, refused,
  ProoferServices,
}
use sync_rollups.Proofer.Entry.{present, verify_entry, verify_batch, apply_hint}

-- The hash of an action is a parameter.
unfoldable pub check_hashes :
    (Action → JsString) → ℕ → List ExecutionEntry → List Action → Option Refusal
check_hashes hash index [] actions = none
check_hashes hash index (e ∷ es) [] = none
check_hashes hash index (e ∷ es) (a ∷ actions) =
    let rest = check_hashes hash (suc index) es actions in
    if str_eq (hash a) e.action_hash then rest else some (hash_mismatch index)

unfoldable pub first_state : List StateDelta → Option JsString
first_state [] = none
first_state (d ∷ ds) = present (some d.current_state)

-- `entries[0]?.stateDeltas[0]?.currentState`, where it is not empty.
unfoldable pub required_state : List ExecutionEntry → Option JsString
required_state [] = none
required_state (e ∷ es) = first_state e.state_deltas

unfoldable pub is_identity : ExecutionEntry → Bool
is_identity e = all (λ d. str_eq d.current_state d.new_state) e.state_deltas

unfoldable pub preloads_of : ℕ → List Preload → List Preload
preloads_of index l = keep (λ p. p.entry_index == index) l

unfoldable pub proxy_at : ℕ → List (Option JsString) → Option JsString
proxy_at index l = elim (get_elem? l index) [ none ↦ none | some p ↦ p ]

unfoldable pub next_timestamp : Option ℕ → Option ℕ
next_timestamp none = none
next_timestamp (some t) = some (suc t)

-- The timestamp for an entry after its preloads.
unfoldable pub timestamp_after : List Preload → Option ℕ → Option ℕ
timestamp_after [] t = t
timestamp_after (p ∷ ps) t = timestamp_after ps (next_timestamp t)

module _ {W : Type 0} (s : ProoferServices W) where
  -- Errors are printed.
  unfoldable pub rollback : ℕ → Io W (Unit {0})
  rollback target_block = catching (s.revert_to_snapshot target_block) (λ e. pure tt)

  -- The rounds of waiting for at most 5000 ms; each sleeps 200 ms, so 25 rounds are enough.
  unfoldable pub wait_loop : ℕ → ℕ → JsString → JsString → Io W JsString
  wait_loop zero start required tracked = pure tracked
  wait_loop (suc fuel) start required tracked = do
    time ← s.now
    elim (ltb (time - start) 5000) [
      | false ↦ pure tracked
      | true ↦ do
        s.sleep 200
        tracked' ← s.get_state_root
        elim (str_eq tracked' required) [
          | true ↦ pure tracked'
          | false ↦ wait_loop fuel start required tracked'
        ]
    ]

  unfoldable pub wait_for_sync : JsString → Io W JsString
  wait_for_sync required = do
    tracked ← s.get_state_root
    if str_eq tracked required
        then pure tracked
        else (do start ← s.now; wait_loop 25 start required tracked)

  -- The 30 rounds that wait for reth to restart; an error is passed over.
  unfoldable pub restart_loop : ℕ → JsString → JsString → Io W JsString
  restart_loop zero required current = pure current
  restart_loop (suc rounds) required current = do
    s.sleep 2000
    current' ← catching s.get_actual_state_root (λ e. pure current)
    elim (str_eq current' required) [
      | true ↦ pure current'
      | false ↦ restart_loop rounds required current'
    ]

  unfoldable pub align_evm : JsString → JsString → JsString → Io W JsString
  align_evm required tracked current =
      if str_eq tracked required && not (str_eq current required)
      then (do
        l2_block ← s.get_tracked_l2_block
        catching (s.revert_to_snapshot l2_block) (λ e. pure tt)
        restart_loop 30 required current)
      else pure current

  unfoldable pub apply_hints : ℕ → List Hint → Io W (Option Refusal)
  apply_hints index [] = pure none
  apply_hints index (h ∷ hs) = do
    done ← catching (apply_hint s h >> pure true) (λ e. pure false)
    elim done [ false ↦ pure (some (hint_failed index)) | true ↦ apply_hints (suc index) hs ]

  -- After a refusal for a failed hint or a missed state the node is rolled back.
  unfoldable pub check_reached : JsString → Option Refusal → Io W (Option Refusal)
  check_reached required (some r) = pure (some r)
  check_reached required none = do
    reached ← s.get_actual_state_root
    pure (if str_eq reached required then none else some hints_missed)

  unfoldable pub rolled_back : ℕ → Option Refusal → Io W (Option Refusal)
  rolled_back snapshot none = pure none
  rolled_back snapshot (some r) = do rollback snapshot; pure (some r)

  unfoldable pub reach_state : ℕ → JsString → JsString → List Hint → Io W (Option Refusal)
  reach_state snapshot required current hints =
      if str_eq current required then pure none else elim hints [
        | [] ↦ pure (some needs_hints)
        | ◌∷◌ h hs ↦ do
          applied ← apply_hints 0 (h ∷ hs)
          reached ← check_reached required applied
          rolled_back snapshot reached
      ]

  unfoldable pub run_preloads : List Preload → Option ℕ → Io W (Unit {0})
  run_preloads [] t = pure tt
  run_preloads (p ∷ ps) t = do
    s.system_call p.target p.payload t
    run_preloads ps (next_timestamp t)

  unfoldable pub verify_one : ProveRequest → ℕ → ExecutionEntry → Action → Io W (Option Refusal)
  verify_one request index e a = if is_identity e then pure none else (do
    let preloads = preloads_of index request.preload_system_calls
    run_preloads preloads request.timestamp
    verify_entry s e a (timestamp_after preloads request.timestamp) index
        (proxy_at index request.source_proxies))

  unfoldable pub verify_entries :
      ProveRequest → ℕ → List ExecutionEntry → List Action → Io W (Option Refusal)
  verify_entries request index [] actions = pure none
  verify_entries request index (e ∷ es) [] = raise (codes "no root action")
  verify_entries request index (e ∷ es) (a ∷ actions) = do
    verdict ← verify_one request index e a
    elim verdict [ some r ↦ pure (some r) | none ↦ verify_entries request (suc index) es actions ]

  unfoldable pub verify_all :
      ProveRequest → List ExecutionEntry → List Action → Io W (Option Refusal)
  verify_all request entries actions = elim request.batch_signed_txs [
    | [] ↦ verify_entries request 0 entries actions
    | ◌∷◌ tx txs ↦ verify_batch s entries (tx ∷ txs) request.timestamp
  ]

  unfoldable pub sign_unless :
      ProveRequest → List ExecutionEntry → Option Refusal → Io W ProveResponse
  sign_unless request entries (some r) = pure (refused r)
  sign_unless request entries none = do
    proof ← s.sign_post_batch_proof entries request.ecdsa_params
    pure (proved proof)

  unfoldable pub verify_and_sign :
      ProveRequest → ℕ → List ExecutionEntry → List Action → Option Refusal → Io W ProveResponse
  verify_and_sign request snapshot entries actions (some r) = pure (refused r)
  verify_and_sign request snapshot entries actions none = do
    verdict ← verify_all request entries actions
    checked ← rolled_back snapshot verdict
    sign_unless request entries checked

  unfoldable pub attempt :
      ProveRequest → ℕ → JsString → List ExecutionEntry → List Action → Io W ProveResponse
  attempt request snapshot required entries actions = do
    tracked ← wait_for_sync required
    actual ← s.get_actual_state_root
    current ← align_evm required tracked actual
    refusal ← reach_state snapshot required current request.hints
    verify_and_sign request snapshot entries actions refusal

  unfoldable pub prove_from :
      ProveRequest → List ExecutionEntry → List Action → JsString → Io W ProveResponse
  prove_from request entries actions required = do
    snapshot ← s.take_snapshot
    catching (attempt request snapshot required entries actions)
        (λ e. do rollback snapshot; pure (refused (unexpected e)))

  unfoldable pub prove_entries :
      ProveRequest → List ExecutionEntry → List Action → Io W ProveResponse
  prove_entries request entries actions = elim (check_hashes s.hash_action 0 entries actions) [
    | some r ↦ pure (refused r)
    | none ↦ elim (required_state entries) [
      | none ↦ pure (refused no_state_delta)
      | some required ↦ prove_from request entries actions required
    ]
  ]

  unfoldable pub handle_prove : ProveRequest → Io W ProveResponse
  handle_prove request =
      if not (length request.entries == length request.root_actions)
      then pure (refused unequal_lengths)
      else if length request.entries == 0
      then pure (refused no_entries)
      else (do
        entries ← lift (map_outcome execution_entry_from_json request.entries)
        actions ← lift (map_outcome action_from_json request.root_actions)
        prove_entries request entries actions)
