-- ===== src/Proofer/Entry/Soundness.antt =====
-- What it takes for rollup1/proofer/proofer.ts to accept an entry.
use sync_rollups.Prelude.{
  ℕ, Bool, true, false, Bool-cases, inl, inr, ◌≡◌, refl, ◌↔◌, ◌⊎◌, JsString, Option, none, some,
  if◌then◌else◌, arith,
}
use sync_rollups.Outcome.{Outcome, ok, throw}
use sync_rollups.Outcome.Io.{Io, lift, ◌>>=◌}
use sync_rollups.Outcome.Rules.{Ends, Ends-if, EndsAt, Ends-then, EndsFrom-pure, Ends-pure}
use sync_rollups.Types.{call, type_eq, Action, ExecutionEntry}
use sync_rollups.Types.Json.{action_from_json}
use sync_rollups.Proofer.{Refusal, simulation_failed, L1CallResult, SimulationJson, ProoferServices}
use sync_rollups.Proofer.Compare.{bool_eq_iff, folded, compare_actions_iff}
use sync_rollups.Proofer.Entry.Claims.{Claims, Agrees, claims_iff, agrees_iff}
use sync_rollups.Proofer.Entry.{
  agrees, check_l1_call, check_next_action, check_decoded, check_simulation, call_of, present,
  verify_call, simulate, verify_entry,
}

-- The result of a simulation bears out an entry.
abbrev pub Confirms : ExecutionEntry → SimulationJson → Type 0
Confirms entry r =
    ((r.success ≡ false) × (entry.next_action.failed ≡ true))
    ⊎ ((r.success ≡ true)
        × Agrees entry r.state_deltas
        × ((type_eq entry.next_action.action_type call ≡ true)
            ⊎ ((a : Action) × (action_from_json r.next_action ≡ ok a)
                × (folded a ≡ folded entry.next_action))))

check_next_action_iff :
    (index : ℕ) (entry : ExecutionEntry) (a : Action)
    → (check_next_action index entry a ≡ none) ↔ (folded a ≡ folded entry.next_action)
unfolding check_next_action
check_next_action_iff index entry a = ground (arith, compare_actions_iff a entry.next_action)

ok_injective : (o o' : Option Refusal) → ok o ≡ ok o' → o ≡ o'
ok_injective o o' h = cc

check_decoded-none :
    (index : ℕ) (entry : ExecutionEntry) (r : Outcome Action)
    → check_decoded index entry r ≡ ok none
    → (a : Action) × (r ≡ ok a) × (folded a ≡ folded entry.next_action)
unfolding check_decoded
check_decoded-none index entry (ok a) h = (
  a,
  refl,
  (check_next_action_iff index entry a).0 (ok_injective (check_next_action index entry a) none h),
)
check_decoded-none index entry (throw e) h = cc

ok_some : (r : Refusal) → ¬ (Outcome.ok (some r) ≡ Outcome.ok none)
ok_some r h = cc

failure_claimed :
    (failed : Bool) (r : Refusal) → ok (if failed then none else some r) ≡ ok none → failed ≡ true
failure_claimed true r h = refl
failure_claimed false r h = cc

-- A simulation is accepted only if it bears the entry out: it fails where the entry claims a
-- failure, or it succeeds with the claimed new state, where it has one, and with the claimed next
-- action, up to the case of texts, where that is no call.
pub check_simulation-Confirms :
    (index : ℕ) (entry : ExecutionEntry) (r : SimulationJson)
    → check_simulation index entry r ≡ ok none
    → Confirms entry r
unfolding check_simulation
check_simulation-Confirms index entry r h = elim (Bool-cases r.success) [
  | inl good ↦ elim (Bool-cases (agrees entry r.state_deltas)) [
    | inl same ↦ elim (Bool-cases (type_eq entry.next_action.action_type call)) [
      | inl to_l1 ↦ inr (good, (agrees_iff entry r.state_deltas).0 same, inl to_l1)
      | inr other ↦ inr (
        good,
        (agrees_iff entry r.state_deltas).0 same,
        inr (
            check_decoded-none index entry (action_from_json r.next_action)
              (rw (good, same, other) at h)),
      )
    ]
    | inr differs ↦ absurd (ok_some _ (rw (good, differs) at h))
  ]
  | inr bad ↦
      inl (bad, failure_claimed entry.next_action.failed (simulation_failed index) (rw bad at h))
]

check_l1_call_iff :
    (index : ℕ) (entry : ExecutionEntry) (r : L1CallResult)
    → (check_l1_call index entry r ≡ none)
      ↔ (Claims entry r.new_state × (r.failed ≡ entry.next_action.failed))
unfolding check_l1_call
check_l1_call_iff index entry r =
    ground (arith, bool_eq_iff r.failed entry.next_action.failed, claims_iff entry r.new_state)

module _ {W A : Type 0} where
  -- Some state of the node answered `a` to a call.
  abbrev pub Answered : Io W A → A → Type 0
  Answered m a = (w : W) × ((m w).0 ≡ ok a)

  Answered-at :
      (m : Io W A) (w : W) (r : Outcome A) (v : W) → (m w).0 ≡ r → EndsAt (λ a _. Answered m a) r v
  Answered-at m w (ok a) v h = (w, h)
  Answered-at m w (throw e) v h = tt

  pub Ends-Answered : (m : Io W A) → Ends (λ a _. Answered m a) m
  Ends-Answered m = record { ends = λ w. Answered-at m w (m w).0 (m w).1 refl }

module _ {W : Type 0} (s : ProoferServices W) where
  -- The node has borne out an entry: an L1→L2 call from a given proxy, or another action.
  abbrev pub Verified : ExecutionEntry → Action → Option ℕ → Option JsString → Type 0
  Verified entry action timestamp source_proxy =
      ((type_eq action.action_type call ≡ true)
        × (proxy : JsString) × (source_proxy ≡ some proxy)
        × (r : L1CallResult) × Answered (s.simulate_l1_call (call_of proxy action) timestamp) r
        × Claims entry r.new_state
        × (r.failed ≡ entry.next_action.failed))
      ⊎ ((type_eq action.action_type call ≡ false)
          × (r : SimulationJson) × Answered (simulate s action timestamp) r
          × Confirms entry r)

  verify_call-Ends :
      (entry : ExecutionEntry) (action : Action) (timestamp : Option ℕ) (index : ℕ)
      (proxy : Option JsString)
      → type_eq action.action_type call ≡ true
      → Ends
          (λ o _. o ≡ none → Verified entry action timestamp proxy)
          (verify_call s entry action timestamp index proxy)
  unfolding verify_call
  verify_call-Ends entry action timestamp index none c = Ends-pure _ _ (λ _ e. cc)
  verify_call-Ends entry action timestamp index (some proxy) c =
      Ends-then _ _ _ _ (Ends-Answered (s.simulate_l1_call (call_of proxy action) timestamp)) (λ r.
        EndsFrom-pure _ _ _ (λ _ q e.
          let (new_state, failed) = (check_l1_call_iff index entry r).0 e in
          inl (c, proxy, refl, r, q, new_state, failed)))

  checked :
      (entry : ExecutionEntry) (action : Action) (timestamp : Option ℕ) (index : ℕ)
      (proxy : Option JsString) (r : SimulationJson) (o : Outcome (Option Refusal)) (w : W)
      → type_eq action.action_type call ≡ false
      → Answered (simulate s action timestamp) r
      → check_simulation index entry r ≡ o
      → EndsAt (λ o _. o ≡ none → Verified entry action timestamp proxy) o w
  checked entry action timestamp index proxy r (ok o) w c q h =
      λ e. inr (c, r, q, check_simulation-Confirms index entry r (rw e at h))
  checked entry action timestamp index proxy r (throw e) w c q h = tt

  -- An entry that is accepted has been borne out by an answer of the node: for an L1→L2 call, one
  -- from a source proxy that is given, with the claimed state and failure; for any other action, a
  -- simulation of it.
  pub verify_entry-Ends :
      (entry : ExecutionEntry) (action : Action) (timestamp : Option ℕ) (index : ℕ)
      (proxy : Option JsString)
      → Ends
          (λ o _. o ≡ none → Verified entry action timestamp (present proxy))
          (verify_entry s entry action timestamp index proxy)
  unfolding verify_entry lift
  verify_entry-Ends entry action timestamp index proxy =
      Ends-if _ (type_eq action.action_type call)
        (verify_call s entry action timestamp index (present proxy))
        (simulate s action timestamp >>= λ r. lift (check_simulation index entry r))
        (verify_call-Ends entry action timestamp index (present proxy))
        (λ other. Ends-then _ _ _ _ (Ends-Answered (simulate s action timestamp)) (λ r. record {
          ends = λ w q.
              checked entry action timestamp index (present proxy) r
                (check_simulation index entry r) w other q refl;
        }))
