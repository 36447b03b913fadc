-- ===== src/Proofer/Prove/Waiting.antt =====
-- The wait of rollup1/proofer/proofer.ts for its fullnode ends by its own test.
use sync_rollups.Prelude.{
  ℕ, zero, suc, ◌+◌, ◌-◌, ◌*◌, ◌≤◌, ◌≡◌, refl, Bool, true, false, JsString, str_eq, ltb, arith,
}
use sync_rollups.Outcome.{Outcome, ok, throw}
use sync_rollups.Outcome.Io.{Io, pure, continue, ◌>>=◌}
use sync_rollups.Proofer.{ProoferServices}
use sync_rollups.Proofer.Prove.{wait_loop}

module _ {W : Type 0} (s : ProoferServices W) where
  -- The clock can be read, passes at least the time that is slept, and does not go back.
  pub record HasClock : Type 0 where
    pub time : W → ℕ
    pub reads : (w : W) → s.now w ≡ (ok (time w), w)
    pub sleeps : (ms : ℕ) (w : W) → time w + ms ≤ time (s.sleep ms w).1
    pub goes_on : (w : W) → time w ≤ time (s.get_state_root w).1

  either_way :
      (b : Bool) (x y z : Io W JsString) (w : W)
      → (b ≡ true → y w ≡ z w)
      → (elim b as (λ _. Io W JsString) [ false ↦ x | true ↦ y ]) w
        ≡ (elim b as (λ _. Io W JsString) [ false ↦ x | true ↦ z ]) w
  either_way true x y z w h = h refl
  either_way false x y z w h = refl

  or_else :
      (b : Bool) (x y z : Io W JsString) (w : W)
      → y w ≡ z w
      → (elim b as (λ _. Io W JsString) [ true ↦ x | false ↦ y ]) w
        ≡ (elim b as (λ _. Io W JsString) [ true ↦ x | false ↦ z ]) w
  or_else true x y z w h = refl
  or_else false x y z w h = h

  too_late :
      (b : Bool) (x y : Io W JsString) (w : W)
      → b ≡ false
      → (elim b as (λ _. Io W JsString) [ false ↦ x | true ↦ y ]) w ≡ x w
  too_late true x y w h = absurd (ground arith)
  too_late false x y w h = refl

  same_continue :
      {A B : Type 0} (r : Outcome A) (f g : A → Io W B) (w : W)
      → ((a : A) → f a w ≡ g a w)
      → continue r f w ≡ continue r g w
  same_continue (ok a) f g w h = h a
  same_continue (throw e) f g w h = refl

  module _ (clock : HasClock) (start : ℕ) (required : JsString) where
    -- More fuel than 200 ms for each round up to 5000 ms changes nothing.
    wait_loop-fuel :
        (fuel fuel' : ℕ) (tracked : JsString) (w : W)
        → fuel ≤ fuel'
        → start ≤ clock.time w
        → start + 5000 ≤ clock.time w + 200 * fuel
        → wait_loop s fuel' start required tracked w ≡ wait_loop s fuel start required tracked w
    unfolding wait_loop ◌>>=◌
    wait_loop-fuel zero zero tracked w h k l = refl
    wait_loop-fuel zero (suc fuel') tracked w h k l =
        rw (clock.reads w)
          (too_late (ltb (clock.time w - start) 5000) (pure tracked) _ w (ground arith))
    wait_loop-fuel (suc fuel) zero tracked w h k l = absurd (omega arith)
    wait_loop-fuel (suc fuel) (suc fuel') tracked w h k l = rw (clock.reads w) (
        either_way (ltb (clock.time w - start) 5000) (pure tracked) _ _ w (λ _.
          same_continue (s.sleep 200 w).0 _ _ (s.sleep 200 w).1 (λ _.
            same_continue (s.get_state_root (s.sleep 200 w).1).0 _ _
              (s.get_state_root (s.sleep 200 w).1).1
              (λ tracked'. or_else (str_eq tracked' required) (pure tracked') _ _ _ (
                wait_loop-fuel fuel fuel' tracked' (s.get_state_root (s.sleep 200 w).1).1
                  (omega arith) (omega (arith, clock.sleeps 200 w, clock.goes_on (s.sleep 200 w).1))
                  (omega (arith, clock.sleeps 200 w, clock.goes_on (s.sleep 200 w).1)))))))

    -- With a clock that passes the time that is slept, the proofer's wait for its fullnode ends by
    -- its own test within the 25 rounds that it is given: with more it ends the same.
    pub wait_loop_ends :
        (rounds : ℕ) (tracked : JsString) (w : W)
        → 25 ≤ rounds
        → start ≤ clock.time w
        → wait_loop s rounds start required tracked w ≡ wait_loop s 25 start required tracked w
    wait_loop_ends rounds tracked w h k = wait_loop-fuel 25 rounds tracked w h k (omega arith)
