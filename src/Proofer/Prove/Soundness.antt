-- ===== src/Proofer/Prove/Soundness.antt =====
-- What a signature of rollup1/proofer/proofer.ts says.
use sync_rollups.Prelude.{
  ℕ, suc, true, not, inl, inr, ◌≡◌, refl, ◌⊎◌, JsString, Option, none, some, Option-cases, List, [],
  ◌∷◌, length, ◌==◌,
}
use sync_rollups.Outcome.{ok}
use sync_rollups.Outcome.Io.{pure}
use sync_rollups.Outcome.Rules.{
  Ends, Ends-if, Ends-bind, Ends-then, Ends-pure, Ends-raise, Ends-weaken, Ends-catching, Ends-lift,
  EndsFrom, EndsFrom-bind, EndsFrom-given,
}
use sync_rollups.Types.{Action, ExecutionEntry}
use sync_rollups.Types.Json.{map_outcome, action_from_json, execution_entry_from_json}
use sync_rollups.Proofer.{
  ProveRequest, Refusal, ProveResponse, proved, refused, BatchResult, ProoferServices,
}
use sync_rollups.Proofer.Entry.{present, verify_batch}
use sync_rollups.Proofer.Entry.Soundness.{Answered, Ends-Answered, Verified, verify_entry-Ends}
use sync_rollups.Proofer.Prove.{
  check_hashes, is_identity, preloads_of, proxy_at, timestamp_after, rolled_back, verify_one,
  verify_entries, verify_all, sign_unless, verify_and_sign, attempt, prove_from, prove_entries,
  handle_prove, required_state,
}
use sync_rollups.Proofer.Prove.Checks.{HashesMatch, check_hashes_iff, FirstClaims, batch_checked}

module _ {W : Type 0} (s : ProoferServices W) where
  module _ (request : ProveRequest) where
    -- An entry changes nothing, or the node has borne it out.
    abbrev pub Checked : ℕ → ExecutionEntry → Action → Type 0
    Checked index e a =
        (is_identity e ≡ true)
        ⊎ Verified s e a
            (timestamp_after (preloads_of index request.preload_system_calls) request.timestamp)
            (present (proxy_at index request.source_proxies))

    abbrev pub AllChecked : ℕ → List ExecutionEntry → List Action → Type 0
    AllChecked index [] actions = Unit
    AllChecked index (e ∷ es) [] = ⊥
    AllChecked index (e ∷ es) (a ∷ actions) = Checked index e a × AllChecked (suc index) es actions

    verify_one-Ends :
        (index : ℕ) (e : ExecutionEntry) (a : Action)
        → Ends (λ o _. o ≡ none → Checked index e a) (verify_one s request index e a)
    unfolding verify_one
    verify_one-Ends index e a =
        Ends-if _ (is_identity e) _ _ (λ same. Ends-pure _ _ (λ _ _. inl same))
          (λ _.
            Ends-bind _ _ _
              (λ _. Ends-weaken _ _ _ (λ _ _ h n. inr (h n)) (verify_entry-Ends s e a _ index _)))

    verify_entries-Ends :
        (index : ℕ) (entries : List ExecutionEntry) (actions : List Action)
        → Ends
            (λ o _. o ≡ none → AllChecked index entries actions)
            (verify_entries s request index entries actions)
    unfolding verify_entries
    verify_entries-Ends index [] actions = Ends-pure _ _ (λ _ _. tt)
    verify_entries-Ends index (e ∷ es) [] = Ends-raise _ _
    verify_entries-Ends index (e ∷ es) (a ∷ actions) =
        Ends-then _ (λ o _. o ≡ none → Checked index e a) _ _ (verify_one-Ends index e a)
          (after_one (verify_entries-Ends (suc index) es actions))
      where
        after_one :
            Ends
              (λ o _. o ≡ none → AllChecked (suc index) es actions)
              (verify_entries s request (suc index) es actions)
            → (o : Option Refusal)
            → EndsFrom
                (λ _. o ≡ none → Checked index e a)
                (λ o' _. o' ≡ none → Checked index e a × AllChecked (suc index) es actions)
                (elim o [
                  | some r ↦ pure (some r)
                  | none ↦ verify_entries s request (suc index) es actions
                ])
        after_one later none =
            EndsFrom-given _ _ _ (λ h. Ends-weaken _ _ _ (λ _ _ k n. (h refl, k n)) later)
        after_one later (some r) = EndsFrom-given _ _ _ (λ _. Ends-pure _ _ (λ _ n. cc))

    -- What was checked of a request: its entries one by one, or the batch of its transactions.
    abbrev pub AllVerified : List JsString → List ExecutionEntry → List Action → Type 0
    AllVerified [] entries actions = AllChecked 0 entries actions
    AllVerified (tx ∷ txs) entries actions =
        (r : BatchResult) × Answered (s.simulate_batch (tx ∷ txs) request.timestamp) r
        × (r.success ≡ true)
        × FirstClaims entries r.new_state

    verify_all-Ends :
        (entries : List ExecutionEntry) (actions : List Action)
        → Ends
            (λ o _. o ≡ none → AllVerified request.batch_signed_txs entries actions)
            (verify_all s request entries actions)
    unfolding verify_all verify_batch
    verify_all-Ends entries actions =
        elim request.batch_signed_txs
          as (λ l.
            Ends (λ o _. o ≡ none → AllVerified l entries actions)
              (elim l [
                | [] ↦ verify_entries s request 0 entries actions
                | ◌∷◌ tx txs ↦ verify_batch s entries (tx ∷ txs) request.timestamp
              ])) [
                | [] ↦ verify_entries-Ends 0 entries actions
                | ◌∷◌ tx txs ↦
                    Ends-then _ _ _ _
                      (Ends-Answered (s.simulate_batch (tx ∷ txs) request.timestamp))
                      (λ r. EndsFrom-given _ _ _ (λ q. Ends-lift _ _ (λ o e _ n.
                        let (good, first) = batch_checked r entries o e n in (r, q, good, first))))
              ]

    rolled_back-EndsFrom :
        (X : Type 0) (snapshot : ℕ) (o : Option Refusal)
        → EndsFrom (λ _. o ≡ none → X) (λ o' _. o' ≡ none → X) (rolled_back s snapshot o)
    unfolding rolled_back
    rolled_back-EndsFrom X snapshot none = EndsFrom-given _ _ _ (λ h. Ends-pure _ _ (λ _ n. h n))
    rolled_back-EndsFrom X snapshot (some r) =
        EndsFrom-given _ _ _ (λ _. Ends-bind _ _ _ (λ _. Ends-pure _ _ (λ _ n. cc)))

    sign_unless-EndsFrom :
        (X : Type 0) (entries : List ExecutionEntry) (o : Option Refusal)
        → EndsFrom
            (λ _. o ≡ none → X)
            (λ a _. (proof : JsString) → a ≡ proved proof → X)
            (sign_unless s request entries o)
    unfolding sign_unless
    sign_unless-EndsFrom X entries none =
        EndsFrom-given _ _ _ (λ h. Ends-bind _ _ _ (λ _. Ends-pure _ _ (λ _ _ _. h refl)))
    sign_unless-EndsFrom X entries (some r) =
        EndsFrom-given _ _ _ (λ _. Ends-pure _ _ (λ _ proof n. cc))

    module _ (entries : List ExecutionEntry) (actions : List Action) where
      abbrev Signed : ProveResponse → W → Type 0
      Signed a w =
          (proof : JsString)
          → a ≡ proved proof
          → AllVerified request.batch_signed_txs entries actions

      refused-Ends : (r : Refusal) → Ends Signed (pure (refused r))
      refused-Ends r = Ends-pure _ _ (λ _ proof n. cc)

      verify_and_sign-Ends :
          (snapshot : ℕ) (o : Option Refusal)
          → Ends Signed (verify_and_sign s request snapshot entries actions o)
      unfolding verify_and_sign
      verify_and_sign-Ends snapshot (some r) = refused-Ends r
      verify_and_sign-Ends snapshot none =
          Ends-then _ _ _ _ (verify_all-Ends entries actions) (λ verdict.
            EndsFrom-bind _ _ _ _ _ (rolled_back-EndsFrom _ snapshot verdict)
              (λ checked. sign_unless-EndsFrom _ entries checked))

      prove_from-Ends :
          (required : JsString) → Ends Signed (prove_from s request entries actions required)
      unfolding prove_from attempt
      prove_from-Ends required = Ends-bind _ _ _ (λ snapshot.
          Ends-catching _ _ _
            (Ends-bind _ _ _ (λ _.
              Ends-bind _ _ _ (λ _.
                Ends-bind _ _ _ (λ _. Ends-bind _ _ _ (λ o. verify_and_sign-Ends snapshot o)))))
            (λ e. Ends-bind _ _ _ (λ _. refused-Ends _)))

    -- What a signature of a request says.
    pub record IsSigned : Type 0 where
      pub entries : List ExecutionEntry
      pub actions : List Action
      pub entries_read : map_outcome execution_entry_from_json request.entries ≡ ok entries
      pub actions_read : map_outcome action_from_json request.root_actions ≡ ok actions
      pub hashes : HashesMatch s.hash_action entries actions
      pub verified : AllVerified request.batch_signed_txs entries actions

    prove_entries-Ends :
        (entries : List ExecutionEntry) (actions : List Action)
        → map_outcome execution_entry_from_json request.entries ≡ ok entries
        → map_outcome action_from_json request.root_actions ≡ ok actions
        → Ends
            (λ a _. (proof : JsString) → a ≡ proved proof → IsSigned)
            (prove_entries s request entries actions)
    unfolding prove_entries
    prove_entries-Ends entries actions p q =
        elim (Option-cases (check_hashes s.hash_action 0 entries actions)) [
          | inl good ↦ elim (Option-cases (required_state entries)) [
            | inl missing ↦ rw (prove_entries, good, missing) (Ends-pure _ _ (λ _ proof n. cc))
            | inr (required, found) ↦
                rw (prove_entries, good, found)
                  (Ends-weaken _ _ _
                    (λ _ _ h proof n. record {
                      entries = entries;
                      actions = actions;
                      entries_read = p;
                      actions_read = q;
                      hashes = (check_hashes_iff s.hash_action 0 entries actions).0 good;
                      verified = h proof n;
                    })
                    (prove_from-Ends entries actions required))
          ]
          | inr (r, bad) ↦ rw (prove_entries, bad) (Ends-pure _ _ (λ _ proof n. cc))
        ]

  -- If a request is proved, its entries and root actions could be read, each entry holds the hash
  -- of its root action, and the node has borne it out: each entry that is no identity by an answer
  -- to its simulation, or, for a batch, the state that the first entry claims by one of the batch.
  pub handle_prove-Ends :
      (request : ProveRequest)
      → Ends
          (λ a _. (proof : JsString) → a ≡ proved proof → IsSigned request)
          (handle_prove s request)
  unfolding handle_prove
  handle_prove-Ends request =
      Ends-if _ (not (length request.entries == length request.root_actions)) _ _
        (λ _. Ends-pure _ _ (λ _ proof n. cc))
        (λ _.
          Ends-if _ (length request.entries == 0) _ _ (λ _. Ends-pure _ _ (λ _ proof n. cc))
            (λ _. Ends-then _ _ _ _ (Ends-lift _ _ (λ entries e _. e)) (λ entries.
              EndsFrom-given _ _ _ (λ p.
                Ends-then _ _ _ _ (Ends-lift _ _ (λ actions e _. e)) (λ actions.
                  EndsFrom-given _ _ _ (λ q. prove_entries-Ends request entries actions p q))))))
