-- ===== src/Dashboard/Replay/Highlights.antt =====
-- What the replay of visualizator/dashboard/src/hooks/useDerivedState.ts shows as new.
use mathlib.Core.List.{Memᴰ}
use mathlib.Core.Path.{subst}
use sync_rollups.Prelude.{
  ◌≡◌, ◌≢◌, Bool, true, false, Bool-cases, inl, inr, JsString, str_eq, List, [], ◌∷◌, map, All,
  All-append, refl, sym, ap, ◌∙◌, arith,
}
use sync_rollups.Dashboard.Store.{
  EntryStatus, ja, jc, consumed, TableEntry, Detail, aged, with_status, age, with_detail,
}
use sync_rollups.Dashboard.Format.{truncate_hex}
use sync_rollups.Outcome.{Outcome, ok, throw, ◌>>=◌}
use sync_rollups.Types.{Action}
use sync_rollups.Maps.{JsMap}
use sync_rollups.Dashboard.{EventRecord}
use sync_rollups.Dashboard.Tables.{
  ConsumeInfo, Mutations, Cache, process_event_for_tables, extract_rollup_state,
}
use sync_rollups.Dashboard.Replay.{
  Replay, replay_event, set_all, added_status, consumed_status, consume_first, consume_all,
  replay_table,
}

abbrev pub is_new : EntryStatus → Bool
is_new ja = true
is_new _ = false

-- An entry that is shown as added is one of the given ones.
abbrev pub IsAmong : List TableEntry → TableEntry → Type 0
IsAmong adds e = is_new e.status ≡ true → Memᴰ e.id (map (λ a. a.id) adds)

not_new : (s : EntryStatus) → is_new s ≡ false → is_new s ≢ true
not_new s h k = ground (arith, h, k)

aged_old : (s : EntryStatus) → is_new (aged s) ≡ false
unfolding aged
aged_old ja = refl
aged_old jc = refl
aged_old sync_rollups.Dashboard.Store.ok = refl
aged_old consumed = refl

consumed_old : (current : Bool) → is_new (consumed_status current) ≡ false
unfolding consumed_status
consumed_old true = refl
consumed_old false = refl

with_detail_status : (d : Detail) (e : TableEntry) → (with_detail d e).status ≡ e.status
unfolding with_detail
with_detail_status [] e = refl
with_detail_status (f ∷ fs) e = refl

module _ (adds : List TableEntry) where
  aged-IsAmong : (table : List TableEntry) → All (IsAmong adds) (map age table)
  unfolding age with_status
  aged-IsAmong [] = tt
  aged-IsAmong (e ∷ es) = (λ k. absurd (not_new _ (aged_old e.status) k), aged-IsAmong es)

  consume_first-IsAmong :
      (current : Bool) (info : ConsumeInfo) (table : List TableEntry)
      → All (IsAmong adds) table
      → All (IsAmong adds) (consume_first current info table)
  unfolding consume_first
  consume_first-IsAmong current info [] h = tt
  consume_first-IsAmong current info (e ∷ es) (h, hs) =
      elim (Bool-cases (str_eq e.action_hash (truncate_hex 8 info.action_hash))) [
        | inl hit ↦
            rw (consume_first, hit)
              (
                λ k. absurd (
                    not_new (consumed_status current) (consumed_old current) (
                      sym (
                        ap is_new (
                          with_detail_status info.action_detail
                            (with_status (consumed_status current) e)))
                      ∙ k)),
                hs,
              )
        | inr other ↦ rw (consume_first, other) (h, consume_first-IsAmong current info es hs)
      ]

  consume_all-IsAmong :
      (current : Bool) (infos : List ConsumeInfo) (table : List TableEntry)
      → All (IsAmong adds) table
      → All (IsAmong adds) (consume_all current infos table)
  unfolding consume_all
  consume_all-IsAmong current [] table h = h
  consume_all-IsAmong current (info ∷ infos) table h =
      consume_all-IsAmong current infos (consume_first current info table)
        (consume_first-IsAmong current info table h)

added-IsAmong :
    (current : Bool) (adds more : List TableEntry)
    → ((x : JsString) → Memᴰ x (map (λ a. a.id) more) → Memᴰ x (map (λ a. a.id) adds))
    → All (IsAmong adds) (map (with_status (added_status current)) more)
unfolding with_status
added-IsAmong current adds [] sub = tt
added-IsAmong current adds (e ∷ es) sub =
    (λ _. sub e.id (Memᴰ.head refl), added-IsAmong current adds es (λ x m. sub x (Memᴰ.tail m)))

replay_table-IsAmong :
    (current : Bool) (adds : List TableEntry) (consumes : List ConsumeInfo)
    (table : List TableEntry)
    → All (IsAmong adds) (replay_table current adds consumes table)
unfolding replay_table
replay_table-IsAmong current adds consumes table = consume_all-IsAmong adds current consumes _ (
    All-append (IsAmong adds) _ _ (aged-IsAmong adds table)
      (added-IsAmong current adds adds (λ x m. m)))

-- What the replay of an event makes of the tables, given what the event changes.
pub record ShowsOnly (m : Mutations) (r : Replay) : Type 0 where
  pub on_l1 : All (IsAmong m.l1_adds) r.l1_table
  pub on_l2 : All (IsAmong m.l2_adds) r.l2_table

-- The replay of an event, given what the event changes.
abbrev replayed : EventRecord → Replay → Mutations × Cache → Replay
replayed event st m = record {
  l1_table = replay_table true m.0.l1_adds m.0.l1_consumes st.l1_table;
  l2_table = replay_table true m.0.l2_adds m.0.l2_consumes st.l2_table;
  contract_state = set_all (extract_rollup_state event) st.contract_state;
  cache = m.1;
}

replayed-ShowsOnly :
    (event : EventRecord) (st r : Replay) (o : Outcome (Mutations × Cache))
    → (o >>= λ m. ok (replayed event st m)) ≡ ok r
    → (m : Mutations × Cache) × (o ≡ ok m) × ShowsOnly m.0 r
replayed-ShowsOnly event st r (throw e) h = absurd cc
replayed-ShowsOnly event st r (ok m) h =
    let same : replayed event st m ≡ r = cc in
    let shown : ShowsOnly m.0 (replayed event st m) = record {
      on_l1 = replay_table-IsAmong true m.0.l1_adds m.0.l1_consumes st.l1_table;
      on_l2 = replay_table-IsAmong true m.0.l2_adds m.0.l2_consumes st.l2_table;
    } in
    (m, refl, subst (ShowsOnly m.0) same shown)

-- If the replay of a selected event does not throw, then whatever the replay of the events before it
-- has left in the tables, an entry is shown as just added only if the selected event adds it.
pub replay_event-ShowsOnly :
    (known : JsMap JsString JsString) (action_hash : Action → Outcome JsString)
    (event : EventRecord) (st r : Replay)
    → replay_event known action_hash true event st ≡ ok r
    → (m : Mutations × Cache) × (process_event_for_tables known action_hash st.cache event ≡ ok m)
      × ShowsOnly m.0 r
unfolding replay_event
replay_event-ShowsOnly known action_hash event st r h =
    replayed-ShowsOnly event st r (process_event_for_tables known action_hash st.cache event) h
