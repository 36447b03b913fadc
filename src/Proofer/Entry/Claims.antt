-- ===== src/Proofer/Entry/Claims.antt =====
-- What an entry claims of the state, for rollup1/proofer/proofer.ts.
use sync_rollups.Prelude.{◌≡◌, true, ◌↔◌, JsString, str_eq, str_eq_iff, List, [], ◌∷◌, arith, false}
use sync_rollups.Types.{StateDelta, ExecutionEntry}
use sync_rollups.Proofer.{StateDeltaJson}
use sync_rollups.Proofer.Entry.{claims, agrees}

-- The first of the deltas ends at this state.
abbrev pub EndsIn : List StateDelta → JsString → Type 0
EndsIn [] new_state = ⊥
EndsIn (d ∷ ds) new_state = new_state ≡ d.new_state

abbrev pub Claims : ExecutionEntry → JsString → Type 0
Claims entry new_state = EndsIn entry.state_deltas new_state

-- The state of a simulation, where it has one, is the claimed one.
abbrev pub Agrees : ExecutionEntry → List StateDeltaJson → Type 0
Agrees entry [] = Unit
Agrees entry (d ∷ ds) = Claims entry d.new_state

deltas_iff :
    (l : List StateDelta) (new_state : JsString)
    → ((elim l [ [] ↦ false | ◌∷◌ d ds ↦ str_eq new_state d.new_state ]) ≡ true)
      ↔ EndsIn l new_state
deltas_iff [] new_state = ground arith
deltas_iff (d ∷ ds) new_state = str_eq_iff new_state d.new_state

pub claims_iff :
    (entry : ExecutionEntry) (new_state : JsString)
    → (claims entry new_state ≡ true) ↔ Claims entry new_state
unfolding claims
claims_iff entry new_state = deltas_iff entry.state_deltas new_state

pub agrees_iff :
    (entry : ExecutionEntry) (l : List StateDeltaJson) → (agrees entry l ≡ true) ↔ Agrees entry l
unfolding agrees
agrees_iff entry [] = ground arith
agrees_iff entry (d ∷ ds) = claims_iff entry d.new_state
