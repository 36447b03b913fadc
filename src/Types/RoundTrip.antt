-- ===== src/Types/RoundTrip.antt =====
-- Reading back the JSON form of rollup1/reth-fullnode/types.ts.
use sync_rollups.Prelude.{
  ℕ, suc, false, codes, ap, ◌≡◌, refl, List, [], ◌∷◌, map, All, arith, starts_with,
}
use sync_rollups.Prelude.Int.{ℤ, pos, negsuc, sub_ℕ}
use sync_rollups.Outcome.{Outcome, ok}
use sync_rollups.Types.{
  Action, StateDelta, ExecutionEntry, IsUint, IsChainAction, IsChainDelta, IsChainEntry,
}
use sync_rollups.Types.BigInt.{to_hex, big_int, big_int-to_hex}
use sync_rollups.Types.Json.{
  map_outcome, action_to_json, action_from_json, signed_hex, read_signed, state_delta_to_json,
  state_delta_from_json, execution_entry_to_json, execution_entry_from_json,
}

big_int-to_hex_of_IsUint : (n : ℤ) → IsUint n → big_int (to_hex n) ≡ ok n
big_int-to_hex_of_IsUint (pos n) h = big_int-to_hex n
big_int-to_hex_of_IsUint (negsuc n) h = absurd h

pub map_outcome-map {ℓ κ} :
    {A : Type ℓ} {B : Type κ} {P : A → Type ℓ} (f : A → B) (g : B → Outcome A)
    → ((x : A) → P x → g (f x) ≡ ok x)
    → (xs : List A) → All P xs
    → map_outcome g (map f xs) ≡ ok xs
unfolding map_outcome
map_outcome-map f g h [] _ = refl
map_outcome-map f g h (x ∷ xs) (p, ps) = rw (h x p, map_outcome-map f g h xs ps)

-- An action survives its JSON form if the integers of its unsigned fields are non-negative.
pub action_from_json-action_to_json :
    (a : Action) → IsChainAction a → action_from_json (action_to_json a) ≡ ok a
unfolding action_from_json action_to_json
action_from_json-action_to_json a h = rw (
  big_int-to_hex_of_IsUint a.rollup_id h.rollup_id,
  big_int-to_hex_of_IsUint a.value h.value,
  big_int-to_hex_of_IsUint a.source_rollup h.source_rollup,
  map_outcome-map to_hex big_int big_int-to_hex_of_IsUint a.scope h.scope,
)

starts_with-to_hex : (n : ℤ) → starts_with (to_hex n) (codes "-") ≡ false
unfolding starts_with to_hex
starts_with-to_hex n = refl

sub_ℕ-zero : (n : ℕ) → sub_ℕ 0 (suc n) ≡ negsuc n
sub_ℕ-zero n = ground arith

read_signed-signed_hex : (n : ℤ) → read_signed (signed_hex n) ≡ ok n
unfolding read_signed signed_hex
read_signed-signed_hex (pos n) = rw starts_with-to_hex (big_int-to_hex n)
read_signed-signed_hex (negsuc n) = rw big_int-to_hex (ap ok (sub_ℕ-zero n))

state_delta_round_trip :
    (d : StateDelta) → IsChainDelta d → state_delta_from_json (state_delta_to_json d) ≡ ok d
unfolding state_delta_from_json state_delta_to_json
state_delta_round_trip d h =
    rw (read_signed-signed_hex d.ether_delta, big_int-to_hex_of_IsUint d.rollup_id h)

-- Reading the JSON form of an execution entry gives the entry back, if the integers of its unsigned
-- fields are non-negative; its ether deltas may have any sign.
pub execution_entry_from_json-execution_entry_to_json :
    (e : ExecutionEntry)
    → IsChainEntry e
    → execution_entry_from_json (execution_entry_to_json e) ≡ ok e
unfolding execution_entry_from_json execution_entry_to_json
execution_entry_from_json-execution_entry_to_json e h = rw (
  map_outcome-map state_delta_to_json state_delta_from_json state_delta_round_trip e.state_deltas
      h.state_deltas,
  action_from_json-action_to_json e.next_action h.next_action,
)
