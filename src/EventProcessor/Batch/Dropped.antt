-- ===== src/EventProcessor/Batch/Dropped.antt =====
-- The transactions that `replayBatchExecution` of rollup1/reth-fullnode/event-processor.ts leaves
-- out of a batch with L2→L1 calls.
use sync_rollups.Prelude.{
  ℕ, ◌≡◌, refl, ap, Bool, false, Bool-cases, inl, inr, JsString, Option, List, [], ◌∷◌, keep, arith,
}
use sync_rollups.EventProcessor.Services.{Services}
use sync_rollups.EventProcessor.Batch.{
  DecodedTx, Proxies, has_result, is_proxy_deploy, is_other, deploy_block, send_with_calls,
}

keep-keep : (A : Type 0) (p : A → Bool) (l : List A) → keep p (keep p l) ≡ keep p l
keep-keep A p [] = refl
keep-keep A p (a ∷ l) = elim (Bool-cases (p a)) [
  | inl kept ↦ rw (kept, kept) (ap (λ k. a ∷ k) (keep-keep A p l))
  | inr other ↦ rw other (keep-keep A p l)
]

-- The test of an element fails on what another test keeps.
keep_cases :
    (A : Type 0) (p : A → Bool) (a : A) (l : List A)
    → keep p (a ∷ l) ≡ []
    → (p a ≡ false) × (keep p l ≡ [])
keep_cases A p a l h = ground arith

keep-none : (A : Type 0) (p q : A → Bool) (l : List A) → keep p l ≡ [] → keep p (keep q l) ≡ []
keep-none A p q [] h = refl
keep-none A p q (a ∷ l) h =
    let (other, rest) = keep_cases A p a l h in
    elim (Bool-cases (q a)) [
      | inl first ↦ rw (first, other) (keep-none A p q l rest)
      | inr second ↦ rw second (keep-none A p q l rest)
    ]

module _ {W : Type 0} (s : Services W) where
  deploy_block-none :
      (deploys others others' : List DecodedTx) (timestamp : Option ℕ)
      → deploys ≡ []
      → deploy_block s deploys others timestamp ≡ deploy_block s [] others' timestamp
  unfolding deploy_block
  deploy_block-none deploys others others' timestamp h = rw h refl

  -- In a batch with L2→L1 calls but without a proxy deployment, only the transactions that make
  -- such a call are sent: sending the whole batch is sending those alone.
  pub send_with_calls-without_deploys :
      (rollups : JsString) (txs : List DecodedTx) (proxies : Proxies) (timestamp : Option ℕ)
      → keep (λ d. is_proxy_deploy rollups d.tx) txs ≡ []
      → send_with_calls s rollups txs proxies timestamp
        ≡ send_with_calls s rollups (keep has_result txs) proxies timestamp
  unfolding send_with_calls
  send_with_calls-without_deploys rollups txs proxies timestamp h =
      rw
        (
          deploy_block-none (keep (λ d. is_proxy_deploy rollups d.tx) txs)
              (keep (is_other rollups) txs) [] timestamp h,
          deploy_block-none (keep (λ d. is_proxy_deploy rollups d.tx) (keep has_result txs))
              (keep (is_other rollups) (keep has_result txs)) [] timestamp
              (keep-none DecodedTx (λ d. is_proxy_deploy rollups d.tx) has_result txs h),
          keep-keep DecodedTx has_result txs,
        )
        refl
