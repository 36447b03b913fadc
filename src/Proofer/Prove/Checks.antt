-- ===== src/Proofer/Prove/Checks.antt =====
-- The checks of rollup1/proofer/proofer.ts that need no answer of the node.
use sync_rollups.Prelude.{
  ℕ, suc, Bool, true, false, Bool-cases, inl, inr, ◌≡◌, refl, ◌↔◌, JsString, codes, str_eq_iff,
  Option, none, some, List, [], ◌∷◌, if◌then◌else◌, arith,
}
use sync_rollups.Outcome.{ok, throw}
use sync_rollups.Types.{Action, ExecutionEntry}
use sync_rollups.Proofer.{Refusal, batch_failed, batch_mismatch, BatchResult}
use sync_rollups.Proofer.Entry.{claims, check_batch}
use sync_rollups.Proofer.Entry.Claims.{Claims, claims_iff}
use sync_rollups.Proofer.Prove.{check_hashes}

-- Every entry holds the hash of its root action.
abbrev pub HashesMatch : (Action → JsString) → List ExecutionEntry → List Action → Type 0
HashesMatch hash [] actions = Unit
HashesMatch hash (e ∷ es) [] = Unit
HashesMatch hash (e ∷ es) (a ∷ actions) = (hash a ≡ e.action_hash) × HashesMatch hash es actions

-- The check of the hashes passes exactly if every entry holds the hash of its root action.
pub check_hashes_iff :
    (hash : Action → JsString) (index : ℕ) (entries : List ExecutionEntry) (actions : List Action)
    → (check_hashes hash index entries actions ≡ none) ↔ HashesMatch hash entries actions
unfolding check_hashes
check_hashes_iff hash index [] actions = (λ _. tt, λ _. refl)
check_hashes_iff hash index (e ∷ es) [] = (λ _. tt, λ _. refl)
check_hashes_iff hash index (e ∷ es) (a ∷ actions) =
    ground (arith, str_eq_iff (hash a) e.action_hash, check_hashes_iff hash (suc index) es actions)

-- The first entry claims the state that a batch ends at.
abbrev pub FirstClaims : List ExecutionEntry → JsString → Type 0
FirstClaims [] new_state = ⊥
FirstClaims (e ∷ es) new_state = Claims e new_state

claim_checked :
    (claimed : Bool) (r : Refusal) (o : Option Refusal)
    → ok (if claimed then none else some r) ≡ ok o
    → o ≡ none
    → claimed ≡ true
claim_checked true r o h n = refl
claim_checked false r o h n = cc

pub batch_checked :
    (r : BatchResult) (entries : List ExecutionEntry) (o : Option Refusal)
    → check_batch entries r ≡ ok o
    → o ≡ none
    → (r.success ≡ true) × FirstClaims entries r.new_state
unfolding check_batch
batch_checked r entries o h n = elim (Bool-cases r.success) [
  | inl good ↦ (good, first_checked entries (rw good at h))
  | inr bad ↦ absurd (refused_batch (rw bad at h))
]
  where
    refused_batch : ok (some batch_failed) ≡ ok o → ⊥
    refused_batch k = cc

    first_checked :
        (l : List ExecutionEntry)
        → (elim l [
          | [] ↦ throw (codes "no first entry")
          | ◌∷◌ e es ↦ ok (if claims e r.new_state then none else some batch_mismatch)
        ])
          ≡ ok o
        → FirstClaims l r.new_state
    first_checked [] k = cc
    first_checked (e ∷ es) k =
        (claims_iff e r.new_state).0 (claim_checked (claims e r.new_state) batch_mismatch o k n)
