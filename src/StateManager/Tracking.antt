-- ===== src/StateManager/Tracking.antt =====
-- The tracked balance and state of rollup1/reth-fullnode/state-manager.ts.
use sync_rollups.Prelude.{ℕ, ◌≡◌, refl, arith, Bool-cases, inl, inr}
use sync_rollups.Prelude.Int.{ℤ, pos, negsuc, ◌+ℤ◌, ◌≤ℤ◌, ltb_ℤ}
use sync_rollups.Outcome.{Outcome, ok, throw}
use sync_rollups.Types.BigInt.{to_string, big_int-to_string10}
use sync_rollups.StateManager.{StateManager, set_balance, restore_state, update_ether_balance}

abbrev pub OutcomeOfBalance : ℤ → StateManager → Outcome (Unit {0}) → StateManager → Type 0
OutcomeOfBalance delta m (ok _) m' =
    (m' ≡ record m { state = record m.state { ether_balance = m.state.ether_balance +ℤ delta } })
    × (pos 0 ≤ℤ m.state.ether_balance +ℤ delta)
OutcomeOfBalance delta m (throw _) m' = (m' ≡ m) × (m.state.ether_balance +ℤ delta ≤ℤ negsuc 0)

-- The balance is moved by the delta if the sum is not negative; else the call throws and leaves
-- the state as it is.
pub update_ether_balance_outcome :
    (delta : ℤ) (m : StateManager)
    → OutcomeOfBalance delta m (update_ether_balance delta m).0 (update_ether_balance delta m).1
unfolding update_ether_balance
update_ether_balance_outcome delta m =
    elim (Bool-cases (ltb_ℤ (m.state.ether_balance +ℤ delta) (pos 0))) [
      | inl low ↦ rw low (refl, ground arith)
      | inr high ↦ rw high (refl, ground arith)
    ]

-- Restoring a checkpoint that holds the root and the decimal balance of `m` gives both back,
-- whatever happened in between.
pub restore_state_lem :
    (m later : StateManager) (balance : ℕ)
    → m.state.ether_balance ≡ pos balance
    → restore_state m.state.state_root (to_string 10 m.state.ether_balance) later ≡ (
      ok tt,
      record later {
        state = record later.state {
          state_root = m.state.state_root;
          ether_balance = m.state.ether_balance;
        };
      },
    )
unfolding restore_state set_balance
restore_state_lem m later balance h = rw h (rw (big_int-to_string10 balance))
