-- ===== src/StateManager/Cache.antt =====
-- The execution cache of rollup1/reth-fullnode/state-manager.ts: what is found, what is left.
use sync_rollups.Prelude.{
  ◌≡◌, ◌≢◌, ◌↔◌, refl, sym, ap, ◌∙◌, arith, JsString, str_eq, str_eq_iff, str_eq_refl, Bool, true,
  false, Bool-cases, inl, inr, Option, none, some, Option-cases, List, [], ◌∷◌, ◌++◌, All,
  if◌then◌else◌, append_assoc, append-nil, keep,
}
use sync_rollups.Prelude.Int.{ℤ}
use sync_rollups.Maps.{text_key, map_get-map_set, map_get-map_delete}
use sync_rollups.Types.{StateDelta, ExecutionEntry}
use sync_rollups.Types.BigInt.{int_eq_iff}
use sync_rollups.StateManager.{
  StateManager, get_executions, cache_one, cache_executions, deltas_match, take_match, put_back,
  consumed, find_and_consume_execution,
}

-- An entry matches when each of its deltas of our rollup starts from the given state.
pub deltas_match_iff :
    (rollup_id : ℤ) (current_state : JsString) (l : List StateDelta)
    → (deltas_match rollup_id current_state l ≡ true)
      ↔ All (λ d. d.rollup_id ≡ rollup_id → d.current_state ≡ current_state) l
unfolding deltas_match
deltas_match_iff r s [] = (λ _. tt, λ _. refl)
deltas_match_iff r s (d ∷ l) =
    ground (arith, int_eq_iff d.rollup_id r, str_eq_iff d.current_state s, deltas_match_iff r s l)

abbrev pub Matches : ℤ → JsString → ExecutionEntry → Type 0
Matches rollup_id current_state e = deltas_match rollup_id current_state e.state_deltas ≡ true

abbrev pub Misses : ℤ → JsString → ExecutionEntry → Type 0
Misses rollup_id current_state e = deltas_match rollup_id current_state e.state_deltas ≡ false

-- `found` is the first entry of `before` that matches, and `after` is the rest.
pub record IsFirstMatch (rollup_id : ℤ) (current_state : JsString)
    (before after : List ExecutionEntry) (found : ExecutionEntry) : Type 0 where
  pub skipped : List ExecutionEntry
  pub others : List ExecutionEntry
  pub before_eq : before ≡ skipped ++ found ∷ others
  pub after_eq : after ≡ skipped ++ others
  pub skipped_miss : All (Misses rollup_id current_state) skipped
  pub found_matches : Matches rollup_id current_state found

take_match-some :
    (r : ℤ) (s : JsString) (l : List ExecutionEntry) {e : ExecutionEntry}
    {rest : List ExecutionEntry}
    → take_match r s l ≡ some (e, rest)
    → IsFirstMatch r s l rest e
unfolding take_match
take_match-some r s [] h = cc
take_match-some r s (x ∷ l) {e} {rest} h = elim (Bool-cases (deltas_match r s x.state_deltas)) [
  | inl hit ↦ record {
    skipped = [];
    others = l;
    before_eq = ground arith;
    after_eq = ground arith;
    skipped_miss = tt;
    found_matches = ground arith;
  }
  | inr miss ↦ elim (Option-cases (take_match r s l)) [
    | inl nothing ↦ absurd (ground arith)
    | inr ((found, others), eq) ↦
        let ih = take_match-some r s l eq in
        record {
          skipped = x ∷ ih.skipped;
          others = ih.others;
          before_eq = ground (arith, ih.before_eq);
          after_eq = ground (arith, ih.after_eq);
          skipped_miss = (miss, ih.skipped_miss);
          found_matches = ground (arith, ih.found_matches);
        }
  ]
]

take_match-none :
    (r : ℤ) (s : JsString) (l : List ExecutionEntry) → take_match r s l ≡ none → All (Misses r s) l
unfolding take_match
take_match-none r s [] h = tt
take_match-none r s (x ∷ l) h = ground (arith, take_match-none r s l)

get_executions-put_back :
    (k j : JsString) (l : List ExecutionEntry) (m : StateManager)
    → get_executions j (put_back k l m) ≡ (if str_eq k j then l else get_executions j m)
unfolding get_executions put_back
get_executions-put_back k j [] m = ground (arith, map_get-map_delete m.execution_cache k j)
get_executions-put_back k j (e ∷ l) m =
    ground (arith, map_get-map_set m.execution_cache k j (e ∷ l))

-- What a call of `findAndConsumeExecution` does, whether it finds an entry or not.
abbrev pub Consumes :
    JsString → JsString → StateManager → Option ExecutionEntry → StateManager → Type 0
Consumes action_hash current_state m none m' =
    (m' ≡ m) × All (Misses m.rollup_id current_state) (get_executions action_hash m)
Consumes action_hash current_state m (some e) m' =
    IsFirstMatch m.rollup_id current_state (get_executions action_hash m)
      (get_executions action_hash m') e
    × ((j : JsString) → action_hash ≢ j → get_executions j m' ≡ get_executions j m)

consumed-Consumes :
    (k s : JsString) (m : StateManager) (o : Option (ExecutionEntry × List ExecutionEntry))
    → take_match m.rollup_id s (get_executions k m) ≡ o
    → Consumes k s m (consumed k m o).0 (consumed k m o).1
unfolding consumed
consumed-Consumes k s m none h = (refl, take_match-none m.rollup_id s (get_executions k m) h)
consumed-Consumes k s m (some (e, rest)) h = (
  rw (get_executions-put_back, str_eq_refl k)
      (take_match-some m.rollup_id s (get_executions k m) h),
  λ j ne. ground (arith, get_executions-put_back k j rest m, str_eq_iff k j),
)

-- `findAndConsumeExecution` answers null exactly as no cached entry of the hash matches, and then
-- changes nothing; else it removes the first entry that matches and leaves the order of the
-- others, and what is cached for other hashes, as they were.
pub find_and_consume_execution-Consumes :
    (action_hash current_state : JsString) (m : StateManager)
    → Consumes action_hash current_state m
        (find_and_consume_execution action_hash current_state m).0
        (find_and_consume_execution action_hash current_state m).1
unfolding find_and_consume_execution
find_and_consume_execution-Consumes k s m =
    consumed-Consumes k s m (take_match m.rollup_id s (get_executions k m)) refl

get_executions-cache_one :
    (m : StateManager) (e : ExecutionEntry) (j : JsString)
    → get_executions j (cache_one m e)
      ≡ get_executions j m ++ (if str_eq e.action_hash j then e ∷ [] else [])
unfolding get_executions cache_one
get_executions-cache_one m e j = ground (
  arith,
  map_get-map_set m.execution_cache e.action_hash j (get_executions e.action_hash m ++ e ∷ []),
  str_eq_iff e.action_hash j,
  append-nil (get_executions j m),
)

append-if :
    (b : Bool) (e : ExecutionEntry) (l : List ExecutionEntry)
    → (if b then e ∷ [] else []) ++ l ≡ (if b then e ∷ l else l)
append-if true e l = refl
append-if false e l = refl

-- Caching appends, for each hash, the entries of that hash in their order.
pub get_executions-cache_executions :
    (l : List ExecutionEntry) (m : StateManager) (j : JsString)
    → get_executions j (cache_executions l m)
      ≡ get_executions j m ++ keep (λ e. str_eq e.action_hash j) l
unfolding cache_executions
get_executions-cache_executions [] m j = sym (append-nil _)
get_executions-cache_executions (e ∷ l) m j =
    get_executions-cache_executions l (cache_one m e) j
    ∙ rw get_executions-cache_one (
        append_assoc (get_executions j m) _ _
        ∙ ap (λ r. get_executions j m ++ r) (append-if (str_eq e.action_hash j) e _))
