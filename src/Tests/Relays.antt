-- ===== src/Tests/Relays.antt =====
-- rollup1/builder/bundle-submitter.ts beside a chain that goes on and includes nothing; the state is
-- the clock.
use sync_rollups.Prelude.{ℕ, ◌+◌, ◌/◌, ◌≡◌, refl, false, codes, none, some, [], ◌∷◌}
use sync_rollups.Outcome.{ok}
use sync_rollups.Outcome.Io.{pure, gets, modify}
use sync_rollups.Outcome.Rules.{Ends, Ends-pure}
use sync_rollups.Builder.Relays.{RelayServices, submit_and_wait}
use sync_rollups.Builder.Relays.Inclusion.{submit_and_wait-Ends}

abbrev toy_relays : RelayServices ℕ
toy_relays = record {
  tx_hash = λ raw. ok raw;
  sign_body = λ raws block. pure (codes "signature");
  send_bundle = λ url header raws block. pure tt;
  current_block = gets (λ t. t / 5000);
  receipt_block = λ hash. pure none;
  cached_receipt_block = λ hash. pure none;
  set_automine = λ on. pure tt;
  send_raw = λ raw. pure tt;
  set_next_timestamp = λ t. pure tt;
  mine = pure tt;
  tx_count = λ block. pure (some 0);
  now = gets (λ t. t);
  sleep = λ ms. modify (λ t. t + ms);
}

submit_and_wait-Ends_example :
    Ends
      (λ result _. result.included ≡ false)
      (submit_and_wait toy_relays (codes "relay" ∷ []) (codes "0x01" ∷ codes "0x02" ∷ []) 4)
submit_and_wait-Ends_example =
    submit_and_wait-Ends toy_relays (λ hash. Ends-pure _ _ (λ _. refl)) (codes "relay" ∷ [])
      (codes "0x01" ∷ codes "0x02" ∷ []) 4
