-- ===== src/Proofer/Prove/Rollback.antt =====
-- What a refusal of rollup1/proofer/proofer.ts leaves of the node.
use sync_rollups.Prelude.{
  ℕ, suc, Bool, true, false, not, Bool-cases, inl, inr, ◌≡◌, refl, sym, ◌⊎◌, JsString, str_eq,
  Option, none, some, Option-cases, List, [], ◌∷◌, length, ◌==◌,
}
use sync_rollups.Outcome.{Outcome, ok, throw}
use sync_rollups.Outcome.Io.{pure, catching, ◌>>=◌}
use sync_rollups.Outcome.Rules.{
  Ends, EndsAt, Ends-if, Ends-bind, Ends-then, Ends-pure, Ends-weaken, Ends-catching, EndsFrom,
  EndsFrom-given, EndsFrom-pure, EndsFrom-weaken,
}
use sync_rollups.Types.{Action, ExecutionEntry}
use sync_rollups.Proofer.{
  Hint, ProveRequest, Refusal, unequal_lengths, no_entries, no_state_delta, needs_hints,
  hash_mismatch, ProveResponse, refused, unexpected, ProoferServices,
}
use sync_rollups.Proofer.Entry.Soundness.{Answered, Ends-Answered}
use sync_rollups.Proofer.Prove.{
  check_hashes, rollback, rolled_back, reach_state, sign_unless, verify_and_sign, attempt,
  prove_from, prove_entries, handle_prove, required_state,
}

-- The refusals that come before an action is executed.
unfoldable pub is_early : Refusal → Bool
is_early unequal_lengths = true
is_early no_entries = true
is_early no_state_delta = true
is_early needs_hints = true
is_early (hash_mismatch index) = true
is_early _ = false

early_some : (q r : Refusal) → is_early q ≡ true → some q ≡ some r → is_early r ≡ true
early_some q r h e = cc

early_refused : (q r : Refusal) → is_early q ≡ true → refused q ≡ refused r → is_early r ≡ true
early_refused q r h e = cc

early_hashes :
    (hash : Action → JsString) (index : ℕ) (entries : List ExecutionEntry) (actions : List Action)
    (q : Refusal)
    → check_hashes hash index entries actions ≡ some q
    → is_early q ≡ true
unfolding check_hashes is_early
early_hashes hash index [] actions q h = cc
early_hashes hash index (e ∷ es) [] q h = cc
early_hashes hash index (e ∷ es) (a ∷ actions) q h =
    elim (Bool-cases (str_eq (hash a) e.action_hash)) [
      | inl same ↦ early_hashes hash (suc index) es actions q (rw same at h)
      | inr other ↦ early_some (hash_mismatch index) q refl (rw other at h)
    ]

module _ {W : Type 0} (s : ProoferServices W) where
  -- The last thing that happened is a rollback.
  abbrev pub IsRolledBack : ℕ → W → Type 0
  IsRolledBack snapshot w = (w' : W) × (w ≡ (rollback s snapshot w').1)

  module _ (snapshot : ℕ) where
    abbrev RolledBackIf : Option Refusal → W → Type 0
    RolledBackIf o w = (r : Refusal) → o ≡ some r → (is_early r ≡ true) ⊎ IsRolledBack snapshot w

    abbrev RefusedWell : ProveResponse → W → Type 0
    RefusedWell a w = (r : Refusal) → a ≡ refused r → (is_early r ≡ true) ⊎ IsRolledBack snapshot w

    rollback_at :
        (w w' : W) (r : Outcome (Unit {0}))
        → (rollback s snapshot w).1 ≡ w'
        → EndsAt (λ _ v. IsRolledBack snapshot v) r w'
    rollback_at w w' (ok a) h = (w, sym h)
    rollback_at w w' (throw e) h = tt

    rollback-Ends : Ends (λ _ w. IsRolledBack snapshot w) (rollback s snapshot)
    rollback-Ends = record {
      ends = λ w. rollback_at w (rollback s snapshot w).1 (rollback s snapshot w).0 refl;
    }

    rolled_back-Ends : (o : Option Refusal) → Ends RolledBackIf (rolled_back s snapshot o)
    unfolding rolled_back
    rolled_back-Ends none = Ends-pure _ _ (λ _ r n. cc)
    rolled_back-Ends (some o) =
        Ends-then _ _ _ _ rollback-Ends (λ _. EndsFrom-pure _ _ _ (λ _ q r n. inr q))

    reach_state-Ends :
        (required current : JsString) (hints : List Hint)
        → Ends RolledBackIf (reach_state s snapshot required current hints)
    unfolding reach_state is_early
    reach_state-Ends required current [] =
        Ends-if _ (str_eq current required) _ _ (λ _. Ends-pure _ _ (λ _ r n. cc))
          (λ _. Ends-pure _ _ (λ _ r n. inl (early_some needs_hints r refl n)))
    reach_state-Ends required current (h ∷ hs) =
        Ends-if _ (str_eq current required) _ _ (λ _. Ends-pure _ _ (λ _ r n. cc))
          (λ _. Ends-bind _ _ _ (λ _. Ends-bind _ _ _ (λ o. rolled_back-Ends o)))

    some_refused : (o r : Refusal) → refused o ≡ refused r → some o ≡ some r
    some_refused o r n = cc

    refused_after :
        (o : Refusal) → EndsFrom (λ w. RolledBackIf (some o) w) RefusedWell (pure (refused o))
    refused_after o = EndsFrom-pure _ _ _ (λ _ q r n. q r (some_refused o r n))

    sign_unless-EndsFrom :
        (request : ProveRequest) (entries : List ExecutionEntry) (o : Option Refusal)
        → EndsFrom (λ w. RolledBackIf o w) RefusedWell (sign_unless s request entries o)
    unfolding sign_unless
    sign_unless-EndsFrom request entries none =
        EndsFrom-weaken _ _ _ (Ends-bind _ _ _ (λ _. Ends-pure _ _ (λ _ r n. cc)))
    sign_unless-EndsFrom request entries (some o) = refused_after o

    verify_and_sign-EndsFrom :
        (request : ProveRequest) (entries : List ExecutionEntry) (actions : List Action)
        (o : Option Refusal)
        → EndsFrom
            (λ w. RolledBackIf o w)
            RefusedWell
            (verify_and_sign s request snapshot entries actions o)
    unfolding verify_and_sign
    verify_and_sign-EndsFrom request entries actions none = EndsFrom-weaken _ _ _ (
        Ends-bind _ _ _ (λ verdict.
          Ends-then _ _ _ _ (rolled_back-Ends verdict)
            (λ checked. sign_unless-EndsFrom request entries checked)))
    verify_and_sign-EndsFrom request entries actions (some o) = refused_after o

    attempt-Ends :
        (request : ProveRequest) (required : JsString) (entries : List ExecutionEntry)
        (actions : List Action)
        → Ends RefusedWell (
            catching
              (attempt s request snapshot required entries actions)
              (λ e. rollback s snapshot >>= λ _. pure (refused (unexpected e))))
    unfolding attempt
    attempt-Ends request required entries actions =
        Ends-catching _ _ _
          (Ends-bind _ _ _ (λ _. Ends-bind _ _ _ (λ _. Ends-bind _ _ _ (λ current.
            Ends-then _ _ _ _ (reach_state-Ends required current request.hints)
              (λ o. verify_and_sign-EndsFrom request entries actions o)))))
          (λ e. Ends-then _ _ _ _ rollback-Ends (λ _. EndsFrom-pure _ _ _ (λ _ q r n. inr q)))

  -- The refusal is early, or the last thing that happened is a rollback to the snapshot.
  abbrev pub RollsBack : ProveResponse → W → Type 0
  RollsBack a w =
      (r : Refusal)
      → a ≡ refused r
      → (is_early r ≡ true)
        ⊎ ((snapshot : ℕ) × Answered s.take_snapshot snapshot × IsRolledBack snapshot w)

  early-Ends : (q : Refusal) → is_early q ≡ true → Ends RollsBack (pure (refused q))
  early-Ends q h = Ends-pure _ _ (λ _ r n. inl (early_refused q r h n))

  prove_from-RollsBack :
      (request : ProveRequest) (entries : List ExecutionEntry) (actions : List Action)
      (required : JsString)
      → Ends RollsBack (prove_from s request entries actions required)
  unfolding prove_from
  prove_from-RollsBack request entries actions required =
      Ends-then _ _ _ _ (Ends-Answered s.take_snapshot) (λ snapshot. EndsFrom-given _ _ _ (λ q.
        Ends-weaken _ _ _ (λ _ _ k r n. with_snapshot snapshot _ r q (k r n))
          (attempt-Ends snapshot request required entries actions)))
    where
      with_snapshot :
          (snapshot : ℕ) (w : W) (r : Refusal)
          → Answered s.take_snapshot snapshot
          → (is_early r ≡ true) ⊎ IsRolledBack snapshot w
          → (is_early r ≡ true) ⊎ ((n : ℕ) × Answered s.take_snapshot n × IsRolledBack n w)
      with_snapshot snapshot w r q (inl e) = inl e
      with_snapshot snapshot w r q (inr b) = inr (snapshot, q, b)

  prove_entries-RollsBack :
      (request : ProveRequest) (entries : List ExecutionEntry) (actions : List Action)
      → Ends RollsBack (prove_entries s request entries actions)
  unfolding prove_entries is_early
  prove_entries-RollsBack request entries actions =
      elim (Option-cases (check_hashes s.hash_action 0 entries actions)) [
        | inl good ↦ elim (Option-cases (required_state entries)) [
          | inl missing ↦ rw (prove_entries, good, missing) (early-Ends no_state_delta refl)
          | inr (required, found) ↦
              rw (prove_entries, good, found)
                (prove_from-RollsBack request entries actions required)
        ]
        | inr (r, bad) ↦
            rw (prove_entries, bad)
              (early-Ends r (early_hashes s.hash_action 0 entries actions r bad))
      ]

  -- A request is refused for its shape, a hash or the lack of hints, before an action is executed;
  -- or the last thing that happened to the node is a rollback to the snapshot that it took.
  pub handle_prove-RollsBack : (request : ProveRequest) → Ends RollsBack (handle_prove s request)
  unfolding handle_prove is_early
  handle_prove-RollsBack request =
      Ends-if _ (not (length request.entries == length request.root_actions)) _ _
        (λ _. early-Ends unequal_lengths refl)
        (λ _.
          Ends-if _ (length request.entries == 0) _ _ (λ _. early-Ends no_entries refl)
            (λ _. Ends-bind _ _ _ (λ entries.
              Ends-bind _ _ _ (λ actions. prove_entries-RollsBack request entries actions))))
