-- ===== src/Builder/Bundle/Signing.antt =====
-- What the transactions are that rollup1/builder/builder.ts signs.
use sync_rollups.Prelude.{
  ℕ, suc, ◌≡◌, refl, ◌++◌, JsString, Option, none, some, List, [], ◌∷◌, if◌then◌else◌, Bool, true,
  false, str_eq, codes, ◌⊎◌, inl, inr,
}
use sync_rollups.Prelude.Int.{ℤ}
use sync_rollups.Outcome.Rules.{
  Ends, Ends-bind, Ends-then, Ends-pure, Ends-weaken, EndsFrom-pure, EndsFrom-given,
}
use sync_rollups.Types.{ExecutionEntry}
use sync_rollups.Builder.{Builder, BuilderServices, Site, ContractCall, Overrides, UnsignedTx}
use sync_rollups.Builder.Bundle.{
  PricedCall, with_nonce, Fees, batch_calls, deploy_call, sign_contract_tx, sign_all, alias_calls,
  sign_l2_bundle,
}

-- That a signed transaction is one of a call with its overrides.
abbrev pub Carrying : Type 1
Carrying = JsString → ContractCall → Overrides → Type 0

-- The transactions are those of the calls, in their order and with consecutive nonces.
abbrev pub Numbered : Carrying → ℕ → List PricedCall → List JsString → Type 0
Numbered carries nonce [] [] = Unit
Numbered carries nonce [] (raw ∷ raws) = ⊥
Numbered carries nonce (c ∷ calls) [] = ⊥
Numbered carries nonce (c ∷ calls) (raw ∷ raws) =
    carries raw c.call (with_nonce c nonce) × Numbered carries (suc nonce) calls raws

module _ {W : Type 0} (s : BuilderServices (Site W)) (carries : Carrying) where
  -- ethers: `populateTransaction` takes the call and the overrides over, and what is signed is a
  -- transaction of them.
  pub record IsSigner : Type 0 where
    pub populates :
        (call : ContractCall) (overrides : Overrides)
        → Ends
            (λ (tx : UnsignedTx) _. (tx.call ≡ call) × (tx.overrides ≡ overrides))
            (s.populate_transaction call overrides)
    pub signs :
        (tx : UnsignedTx) → Ends (λ raw _. carries raw tx.call tx.overrides) (s.sign_transaction tx)

  module _ (signer : IsSigner) where
    pub sign_contract_tx-Ends :
        (call : ContractCall) (overrides : Overrides)
        → Ends (λ raw _. carries raw call overrides) (sign_contract_tx s call overrides)
    unfolding sign_contract_tx
    sign_contract_tx-Ends call overrides =
        Ends-then _ _ _ _ (signer.populates call overrides) (λ tx. EndsFrom-given _ _ _ (λ q.
          Ends-bind _ _ _ (λ chain.
            Ends-weaken _ _ _ (λ raw _ d. rw (← q.0, ← q.1) d)
              (signer.signs (record tx { chain_id = chain })))))

    -- Where calls are signed one after the other, the transactions are these calls in this order,
    -- with consecutive nonces.
    pub sign_all-Ends :
        (nonce : ℕ) (calls : List PricedCall)
        → Ends (λ raws _. Numbered carries nonce calls raws) (sign_all s nonce calls)
    unfolding sign_all
    sign_all-Ends nonce [] = Ends-pure _ _ (λ _. tt)
    sign_all-Ends nonce (c ∷ calls) =
        Ends-then _ _ _ _ (sign_contract_tx-Ends c.call (with_nonce c nonce)) (λ raw.
          EndsFrom-given _ _ _ (λ q.
            Ends-then _ _ _ _ (sign_all-Ends (suc nonce) calls)
              (λ raws. EndsFrom-pure _ _ _ (λ _ h. (q, h)))))

-- A deployment of the proxy of a target on L1, or nothing.
abbrev pub IsAlias : Fees → ℕ → Option JsString → List PricedCall → Type 0
IsAlias fees chain target alias =
    (alias ≡ []) ⊎ ((t : JsString) × (target ≡ some t) × (alias ≡ deploy_call fees t chain ∷ []))

module _ {W : Type 0} (s : BuilderServices (Site W)) (carries : Carrying) where
  -- The transactions for a plan: perhaps the deployment of a proxy for the target on L1, then the
  -- batch, then an execution of each L2 transaction, with consecutive nonces.
  pub record IsL2Bundle (fees : Fees) (rollup_id : ℤ) (chain : ℕ) (target : Option JsString)
      (entries : List ExecutionEntry) (proof : JsString) (txs : List JsString) (nonce : ℕ)
      (raws : List JsString) : Type 0 where
    pub limits : Builder
    pub alias : List PricedCall
    pub deploys : IsAlias fees chain target alias
    pub decoded :
        Numbered carries nonce (alias ++ batch_calls limits fees rollup_id entries proof txs) raws

  alias_calls-Ends :
      (fees : Fees) (chain : ℕ) (target : Option JsString)
      → Ends (λ alias _. IsAlias fees chain target alias) (alias_calls s fees chain target)
  unfolding alias_calls
  alias_calls-Ends fees chain none = Ends-pure _ _ (λ _. inl refl)
  alias_calls-Ends fees chain (some t) =
      Ends-bind _ _ _
        (λ alias. Ends-bind _ _ _ (λ code. Ends-pure _ _ (λ _. by_code (str_eq code (codes "0x")))))
    where
      by_code :
          (b : Bool) → IsAlias fees chain (some t) (if b then deploy_call fees t chain ∷ [] else [])
      by_code true = inr (t, refl, refl)
      by_code false = inl refl

  module _ (signer : IsSigner s carries) where
    -- What is signed for an L2 transaction is: at most the deployment of the proxy of its target on
    -- L1, the batch with the entries and the proof, and an execution of each given L2 transaction,
    -- in this order and with consecutive nonces.
    pub sign_l2_bundle-Ends :
        (fees : Fees) (rollup_id : ℤ) (chain : ℕ) (target : Option JsString)
        (entries : List ExecutionEntry) (proof : JsString) (txs : List JsString) (nonce : ℕ)
        → Ends
            (λ raws _. IsL2Bundle fees rollup_id chain target entries proof txs nonce raws)
            (sign_l2_bundle s fees rollup_id chain target entries proof txs nonce)
    unfolding sign_l2_bundle
    sign_l2_bundle-Ends fees rollup_id chain target entries proof txs nonce =
        Ends-then _ _ _ _ (alias_calls-Ends fees chain target) (λ alias. EndsFrom-given _ _ _ (λ q.
          Ends-bind _ _ _ (λ b.
            Ends-weaken _ _ _
              (λ raws _ d. record { limits = b; alias = alias; deploys = q; decoded = d })
              (sign_all-Ends s carries signer nonce
                (alias ++ batch_calls b fees rollup_id entries proof txs)))))
