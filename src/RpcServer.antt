-- ===== src/RpcServer.antt =====
-- rollup1/reth-fullnode/rpc-server.ts: the block that `syncrollups_revertToSnapshot` goes back to.
pub mod Snapshots
use sync_rollups.Prelude.{
  ℕ, ◌+◌, ◌*◌, ◌||◌, JsString, codes, is_truthy, Option, none, some, [], ◌∷◌, ◌==◌, if◌then◌else◌,
}
use sync_rollups.Prelude.Int.{pos}
use sync_rollups.Outcome.{Outcome, ok, throw}
use sync_rollups.Types.BigInt.{digit_value, to_string}
use sync_rollups.Builder.{BlockParam, block_text, block_number}

-- The digits up to the first character that is none.
unfoldable pub parse_prefix : Option ℕ → JsString → Option ℕ
unfolding digit_value
parse_prefix seen [] = seen
parse_prefix seen (c ∷ s) = elim (digit_value 16 c) [
  | none ↦ seen
  | some d ↦ parse_prefix (some (elim seen [ none ↦ d | some n ↦ n * 16 + d ])) s
]

-- `parseInt(text, 16)` of a text without white space or sign in front; `none` is NaN.
unfoldable pub parse_int : JsString → Option ℕ
unfolding parse_prefix
parse_int [] = none
parse_int (c ∷ []) = parse_prefix none (c ∷ [])
parse_int (c ∷ d ∷ s) =
    if c == b'0'
    then (if d == b'x' || d == b'X' then parse_prefix none s else parse_prefix none (c ∷ d ∷ s))
    else parse_prefix none (c ∷ d ∷ s)

-- `parseInt(blockHex, 16)`, where a missing parameter is refused; a number is written in decimal
-- digits before it is parsed.
unfoldable pub revert_target : BlockParam → Outcome (Option ℕ)
revert_target (block_text text) =
    if is_truthy text then ok (parse_int text) else throw (codes "Missing block number parameter")
revert_target (block_number n) =
    if n == 0
    then throw (codes "Missing block number parameter")
    else ok (parse_int (to_string 10 (pos n)))
