-- ===== src/Tests/ToyBuilder.antt =====
-- A small chain for the tests of rollup1/builder/builder.ts: it remembers the bundles it was sent.
use sync_rollups.Prelude.{
  ℕ, suc, ◌<◌, ◌≡◌, refl, true, false, JsString, codes, none, some, List, [], ◌∷◌, length, All,
  arith,
}
use sync_rollups.Prelude.Int.{pos}
use sync_rollups.Outcome.{ok}
use sync_rollups.Types.BigInt.{to_string}
use sync_rollups.EventProcessor.Services.{returned}
use sync_rollups.Planner.{PlannerServices}
use sync_rollups.Builder.{
  BuilderConfig, BuilderServices, ContractCall, create_cross_chain_proxy, post_batch, execute_l2tx,
  Overrides, Site,
}
use sync_rollups.Builder.Bundle.{PricedCall}
use sync_rollups.Builder.Bundle.Signing.{Numbered, IsSigner}
use sync_rollups.Builder.Monitor.{IsQuiet}
use sync_rollups.Tests.Proofer.{simulated}

abbrev pub Chain : Type 0
Chain = Site (List (List JsString))

abbrev pub toy_planner : PlannerServices Chain
toy_planner = record {
  get_state_root = λ w. (ok (codes "a"), w);
  get_actual_state_root = λ w. (ok (codes "a"), w);
  l1_state_root = λ w. (ok (codes "a"), w);
  simulate_action = λ a t w. (ok (simulated true), w);
  speculate_action = λ a t w. (ok (simulated true), w);
  simulate_batch = λ l t w. (ok (record { success = true; new_state = codes "b" }), w);
  simulate_l1_call = λ c t w. (
    ok (record {
      return_data = codes "0x01";
      failed = false;
      state_deltas = [];
      new_state = codes "b";
    }),
    w,
  );
  system_call = λ a d t w. (ok tt, w);
  l1_code = λ a w. (ok (codes "0x"), w);
  l1_call = λ p a d v w. (returned (codes "0x"), w);
  hash_action = λ a. a.payload;
  hash_states = λ a h. a;
  encode_load_execution_table = λ l. codes "load";
}

abbrev pub tag : ContractCall → ℕ
tag (create_cross_chain_proxy target id) = b'c'
tag (post_batch entries proof) = b'p'
tag (execute_l2tx id tx) = b'x'

abbrev pub signed_text : ContractCall → Overrides → JsString
signed_text call o = tag call ∷ to_string 10 (pos o.nonce)

abbrev pub toy : BuilderServices Chain
toy = record {
  planner = toy_planner;
  tracked_l2_block = λ w. (ok 4, w);
  revert_to_snapshot = λ b w. (ok tt, w);
  l2_block_number = λ w. (ok 4, w);
  l2_code = λ a w. (ok (codes "0x"), w);
  l2_transaction_count = λ a w. (ok 0, w);
  l2_latest_block =
      λ w. (ok (record { base_fee_per_gas = 7; gas_used = 0; gas_limit = 30000000 }), w);
  l2_eth_call = λ a d w. (ok (codes "0x0000000000000000000000000Ab"), w);
  load_executions = λ l w. (ok tt, w);
  set_automine = λ b w. (ok tt, w);
  l1_network = λ w. (ok 31337, w);
  l1_latest_timestamp = λ w. (ok (some 100), w);
  l1_block = λ n w. (ok (some (record { timestamp = 105; hash = codes "h" })), w);
  l1_block_number = λ w. (ok 9, w);
  l1_cached_block_number = λ w. (ok 9, w);
  l1_code = λ a w. (ok (codes "0x"), w);
  l1_fee_data = λ w. (ok (record { max_fee_per_gas = some 7; max_priority_fee_per_gas = none }), w);
  wallet_nonce = λ t w. (ok 3, w);
  proxy_address = λ a id c w. (ok (codes "0xf"), w);
  rollup_state_root = λ w. (ok (codes "b"), w);
  authorized_rollup = λ p w. (ok (pos 1), w);
  created_proxies = λ t id w. (ok (some (codes "0xf") ∷ []), w);
  send_post_batch = λ e p w. (ok (codes "h"), w);
  is_confirmed = λ h w. (ok true, w);
  broadcast = λ raw w. (ok raw, w);
  wait_receipt = λ h w. (ok (record { block_number = 10; hash = h }), w);
  submit_and_wait = λ c raws n t w. (
    ok (record { included = true; block_number = 10; tx_hashes = raws }),
    record w { world = raws ∷ w.world },
  );
  proofer_is_synced = λ w. (ok true, w);
  prove =
      λ r w. (ok (record { success = true; proof = codes "s"; error = []; proofer_state = [] }), w);
  proofer_rollback = λ w. (ok tt, w);
  parse_transaction = λ raw. ok (record {
    from = some (codes "0xe");
    to = some (codes "0xD");
    payload = codes "0x";
    value = pos 5;
    hash = some raw;
  });
  populate_transaction = λ call o w. (ok (record { call = call; overrides = o; chain_id = 0 }), w);
  sign_transaction = λ tx w. (ok (signed_text tx.call tx.overrides), w);
  sign_l2_deploy = λ d w. (ok (codes "0x03"), w);
  encode_create_proxy = λ t. t;
  encode_compute_proxy = λ t c. t;
  now = λ w. (ok 101500, w);
  sleep = λ ms w. (ok tt, w);
}

abbrev pub Carries : JsString → ContractCall → Overrides → Type 0
Carries raw call o = raw ≡ signed_text call o

pub toy-IsSigner : IsSigner toy Carries
toy-IsSigner = record {
  populates = λ call o. record { ends = λ w. (refl, refl) };
  signs = λ tx. record { ends = λ w. refl };
}

abbrev pub config : BuilderConfig
config = record {
  planner = record { rollup_id = pos 1; rollups_address = codes "0xc" };
  builder_address = codes "0xb";
  use_ecdsa_verifier = false;
}

-- No bundle is a single transaction.
abbrev pub IsLong : List JsString → Type 0
IsLong raws = 1 < length raws

abbrev pub AllLong : Chain → Type 0
AllLong w = All IsLong w.world

pub toy-IsQuiet : IsQuiet toy AllLong
toy-IsQuiet = record {
  assigns = λ f w p. p;
  get_state_root = record { leaves = λ w p. p };
  get_actual_state_root = record { leaves = λ w p. p };
  l1_state_root = record { leaves = λ w p. p };
  simulate_action = λ _ _. record { leaves = λ w p. p };
  speculate_action = λ _ _. record { leaves = λ w p. p };
  simulate_batch = λ _ _. record { leaves = λ w p. p };
  system_call = λ _ _ _. record { leaves = λ w p. p };
  l1_code_at = λ _. record { leaves = λ w p. p };
  l1_call = λ p a d v w h. h;
  simulate_l1_call = λ _ _. record { leaves = λ w p. p };
  tracked_l2_block = record { leaves = λ w p. p };
  revert_to_snapshot = λ _. record { leaves = λ w p. p };
  l2_block_number = record { leaves = λ w p. p };
  l2_code = λ _. record { leaves = λ w p. p };
  l2_transaction_count = λ _. record { leaves = λ w p. p };
  l2_latest_block = record { leaves = λ w p. p };
  load_executions = λ _. record { leaves = λ w p. p };
  l1_network = record { leaves = λ w p. p };
  l1_latest_timestamp = record { leaves = λ w p. p };
  l1_block = λ _. record { leaves = λ w p. p };
  l1_block_number = record { leaves = λ w p. p };
  l1_cached_block_number = record { leaves = λ w p. p };
  l1_code = λ _. record { leaves = λ w p. p };
  l1_fee_data = record { leaves = λ w p. p };
  wallet_nonce = λ _. record { leaves = λ w p. p };
  proxy_address = λ _ _ _. record { leaves = λ w p. p };
  rollup_state_root = record { leaves = λ w p. p };
  authorized_rollup = λ _. record { leaves = λ w p. p };
  created_proxies = λ _ _. record { leaves = λ w p. p };
  is_confirmed = λ _. record { leaves = λ w p. p };
  wait_receipt = λ _. record { leaves = λ w p. p };
  proofer_is_synced = record { leaves = λ w p. p };
  prove = λ _. record { leaves = λ w p. p };
  proofer_rollback = record { leaves = λ w p. p };
  populate_transaction = λ _ _. record { leaves = λ w p. p };
  sign_transaction = λ _. record { leaves = λ w p. p };
  sign_l2_deploy = λ _. record { leaves = λ w p. p };
  now = record { leaves = λ w p. p };
  sleep = λ _. record { leaves = λ w p. p };
}

pub Numbered-length :
    (nonce : ℕ) (calls : List PricedCall) (raws : List JsString)
    → Numbered Carries nonce calls raws
    → length raws ≡ length calls
Numbered-length nonce [] [] h = refl
Numbered-length nonce [] (raw ∷ raws) h = absurd h
Numbered-length nonce (c ∷ calls) [] h = absurd h
Numbered-length nonce (c ∷ calls) (raw ∷ raws) (_, h) =
    omega (arith, Numbered-length (suc nonce) calls raws h)
