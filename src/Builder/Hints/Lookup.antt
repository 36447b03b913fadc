-- ===== src/Builder/Hints/Lookup.antt =====
-- A hint that is registered with rollup1/builder/builder.ts is found again.
use sync_rollups.Prelude.{◌≡◌, refl, ap, ◌∙◌, true, JsString, is_truthy, to_lower, some}
use sync_rollups.Maps.{JsMap, text_key, map_set, map_get-map_set}
use sync_rollups.Outcome.Io.{◌>>=◌, pure}
use sync_rollups.Outcome.Rules.{Ends, Returns, Always, Ends-bind, Returns-catching, Returns-pure}
use sync_rollups.Proofer.Entry.{present}
use sync_rollups.Builder.{BuilderConfig, BuilderServices, ParsedTx, Site, assign}
use sync_rollups.Builder.Hints.{HintResponse, registered, handle_register_l2_hint}
use sync_rollups.Builder.Plan.{hint_for}

-- A call of the proxy, its address written in any case, is an L2→L1 call to the target.
abbrev pub Finds : JsMap JsString JsString → JsString → JsString → Type 0
Finds table proxy l1_target =
    (to : JsString) (tx : ParsedTx)
    → tx.to ≡ some to
    → is_truthy to ≡ true
    → to_lower to ≡ to_lower proxy
    → hint_for table tx ≡ some (to, l1_target)

present-some : (t : JsString) → is_truthy t ≡ true → present (some t) ≡ some t
unfolding present
present-some t h = rw h

map_set-Finds :
    (table : JsMap JsString JsString) (proxy l1_target : JsString)
    → is_truthy l1_target ≡ true
    → Finds (map_set table (to_lower proxy) l1_target) proxy l1_target
unfolding hint_for
map_set-Finds table proxy l1_target h to tx e t same =
    rw
      (
        hint_for,
        ap present e ∙ present-some to t,
        same,
        map_get-map_set table (to_lower proxy) (to_lower proxy) l1_target,
        (text_key.key_eq_iff (to_lower proxy) (to_lower proxy)).1 refl,
        present-some l1_target h,
      )
      refl

answered-Finds :
    (table : JsMap JsString JsString) (a proxy l1_target : JsString)
    → is_truthy l1_target ≡ true
    → registered a ≡ registered proxy
    → Finds (map_set table (to_lower a) l1_target) proxy l1_target
answered-Finds table a proxy l1_target h q =
    rw (← same a proxy q) (map_set-Finds table a l1_target h)
  where
    same : (a b : JsString) → registered a ≡ registered b → a ≡ b
    same a b q = cc

module _ {W : Type 0} (s : BuilderServices (Site W)) (config : BuilderConfig) where
  abbrev pub RegisteredAt : JsString → HintResponse → Site W → Type 0
  RegisteredAt l1_target r w =
      (proxy : JsString) → r ≡ registered proxy → Finds w.builder.l2_hint_table proxy l1_target

  store-Ends :
      (l1_target a : JsString)
      → is_truthy l1_target ≡ true
      → Ends (RegisteredAt l1_target) (
          assign (λ b. record b { l2_hint_table = map_set b.l2_hint_table (to_lower a) l1_target })
          >>= λ _. pure (registered a))
  unfolding assign ◌>>=◌ pure
  store-Ends l1_target a h = record {
    ends = λ w proxy q. answered-Finds w.builder.l2_hint_table a proxy l1_target h q;
  }

  -- Registering a hint does not throw; if it answers a proxy, a transaction to this proxy, in
  -- whatever case its address is written, is from then on taken for a call of the target.
  pub handle_register_l2_hint-Returns :
      (l1_target : JsString)
      → is_truthy l1_target ≡ true
      → Returns Always (RegisteredAt l1_target) (handle_register_l2_hint s config l1_target)
  unfolding handle_register_l2_hint
  handle_register_l2_hint-Returns l1_target h =
      Returns-catching (RegisteredAt l1_target) _ _
        (Ends-bind _ _ _ (λ chain. Ends-bind _ _ _ (λ answer. store-Ends l1_target _ h)))
        (λ e. Returns-pure _ _ _ (λ _ _ proxy q. cc))
