-- ===== src/Builder/Hints.antt =====
-- The tables of rollup1/builder/builder.ts: the hints for L2→L1 calls and the prepared L1→L2 calls.
pub mod Lookup
use sync_rollups.Prelude.{
  ℕ, ◌-◌, ◌++◌, JsString, codes, to_lower, is_truthy, [], ◌∷◌, drop, ltb, if◌then◌else◌,
}
use sync_rollups.Prelude.Int.{ℤ}
use sync_rollups.Maps.{JsMap, text_key, map_set}
use sync_rollups.Outcome.{Outcome, ok, throw}
use sync_rollups.Outcome.Io.{◌>>=◌, ◌>>◌, Io, pure, catching}
use sync_rollups.Types.BigInt.{big_int, to_hex}
use sync_rollups.Builder.{BuilderConfig, BuilderServices, Preparation, Site, own, assign}

pub record PrepareL1CallRequest : Type 0 where
  pub l2_target : JsString
  pub value : JsString
  pub payload : JsString
  pub source_address : JsString

unfoldable pub hex_or_lower : Outcome ℤ → JsString → JsString
hex_or_lower (ok n) text = to_hex n
hex_or_lower (throw e) text = to_lower text

unfoldable pub normalize_hex_number : JsString → JsString
unfolding hex_or_lower
normalize_hex_number text = hex_or_lower (big_int text) text

unfoldable pub normalize_hex_data : JsString → JsString
normalize_hex_data text = if is_truthy text then to_lower text else codes "0x"

abbrev bar : JsString
bar = codes "|"

unfoldable pub prepare_l1_cache_key : PrepareL1CallRequest → JsString
prepare_l1_cache_key r =
    to_lower r.source_address
    ++ (bar
        ++ (to_lower r.l2_target
            ++ (bar ++ (normalize_hex_number r.value ++ (bar ++ normalize_hex_data r.payload)))))

-- Ten minutes.
abbrev pub prepare_l1_cache_ttl_ms : ℕ
prepare_l1_cache_ttl_ms = 600000

-- What is older is deleted.
unfoldable pub prune_old : ℕ → JsMap JsString Preparation → JsMap JsString Preparation
prune_old now [] = []
prune_old now ((key, p) ∷ m) =
    let rest = prune_old now m in
    if ltb prepare_l1_cache_ttl_ms (now - p.created_at_ms) then rest else (key, p) ∷ rest

-- A successful answer holds the address of the proxy, another one the error.
pub data HintResponse : Type 0 where
  registered failed : JsString → HintResponse

module _ {W : Type 0} (s : BuilderServices (Site W)) where
  unfoldable pub prune_prepare_l1_cache : Io (Site W) (Unit {0})
  prune_prepare_l1_cache = do
    now ← s.now
    assign (λ b. record b { prepare_l1_cache = prune_old now b.prepare_l1_cache })

  unfoldable pub handle_register_l2_hint : BuilderConfig → JsString → Io (Site W) HintResponse
  handle_register_l2_hint config l1_target =
      catching
        (do
          chain ← own (λ b. b.l2_chain_id)
          answer ←
              s.l2_eth_call config.planner.rollups_address (s.encode_compute_proxy l1_target chain)
          assign (λ b. record b {
            l2_hint_table =
                map_set b.l2_hint_table (to_lower (codes "0x" ++ drop 26 answer)) l1_target;
          })
          pure (registered (codes "0x" ++ drop 26 answer)))
        (λ e. pure (failed e))
