-- ===== src/World/Endings.antt =====
-- How triples compose with the ends of an action, and what they say of a run.
use basket_shared.Prelude.{◌≡◌, subst}
use basket_shared.World.State.{World}
use basket_shared.World.Monad.{Outcome, ok, thrown, crashed, Async, local, closing, try◌finally◌}
use basket_shared.World.Triples.{Ends, Triple}

module _ {A : Type 0} {P R : World → Type 0} {Q S : A → World → Type 0} where
  -- A weaker word on the value.
  pub Triple-result :
      {m : Async A} → ((a : A) (w : World) → Q a w → S a w) → Triple P m Q R → Triple P m S R
  Triple-result {m} f k = record { at = λ w p. let (r, w') = m w in after r w' (k.at w p) }
    where
      after : (r : Outcome A) (w' : World) → Ends Q R r w' → Ends S R r w'
      after (ok a) w' q = f a w' q
      after (thrown e) w' q = q
      after crashed w' q = q

module _ {A : Type 0} {P R : World → Type 0} {Q : A → World → Type 0} where
  pub Triple-finally :
      (m : Async A) (f : World → World)
      → ((a : A) (w : World) → Q a w → Q a (f w))
      → ((w : World) → R w → R (f w))
      → Triple P m Q R
      → Triple P (try m finally f) Q R
  unfolding try◌finally◌
  Triple-finally m f kq kr k = record { at = λ w p. let (r, w') = m w in after r w' (k.at w p) }
    where
      after :
          (r : Outcome A) (w' : World)
          → Ends Q R r w'
          → Ends Q R (closing r f w').0 (closing r f w').1
      after (ok a) w' q = kq a w' q
      after (thrown e) w' q = kr w' q
      after crashed w' q = q

module _ {A : Type 0} {P R : World → Type 0} {Q : A → World → Type 0} where
  -- What a run that returned has established.
  pub ok_result :
      {m : Async A} → Triple P m Q R → (w : World) → P w → (a : A) → (m w).0 ≡ ok a → Q a (m w).1
  ok_result {m} k w p a e = after (m w).0 (m w).1 (k.at w p) e
    where
      after : (r : Outcome A) (w' : World) → Ends Q R r w' → r ≡ ok a → Q a w'
      after (ok b) w' q e = let s : b ≡ a = cc in subst (λ x. Q x w') s q
      after (thrown f) w' q e = cc
      after crashed w' q e = cc

  pub Triple-local :
      (f : World → A × World) → ((w : World) → P w → Q (f w).0 (f w).1) → Triple P (local f) Q R
  unfolding local
  Triple-local f k = record { at = k }

module _ {A : Type 0} {P S : World → Type 0} where
  -- What every run has established, however it ended.
  pub any_result : {m : Async A} → Triple P m (λ _. S) S → (w : World) → P w → S (m w).1
  any_result {m} k w p = after (m w).0 (m w).1 (k.at w p)
    where
      after : (r : Outcome A) (w' : World) → Ends (λ _. S) S r w' → S w'
      after (ok b) w' q = q
      after (thrown f) w' q = q
      after crashed w' q = q
