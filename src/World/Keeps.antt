-- ===== src/World/Keeps.antt =====
-- Invariants of actions, with one rule for each way to build an action: the invariant holds after
-- the action, however it ends and whatever the services answer.
use basket_shared.Prelude.{ℕ, ◌≡◌, refl, Bool, true, false, List, [], ◌∷◌, if◌then◌else◌}
use basket_shared.World.State.{Fate, fine, refused, lost, crash, killed, World, ticked}
use basket_shared.World.Monad.{
  Failure, Outcome, ok, thrown, crashed, Async, pure, throw, local, answer, call, continue, ◌>>=◌,
  handle, closing, settle, try◌catch◌, try◌finally◌, transaction, for_each, when,
}

pub record Keeps {A : Type 0} (P : World → Type 0) (m : Async A) : Type 0 where
  pub at : (w : World) → P w → P (m w).1

-- `P` does not look at the number of the next call.
pub record Stable (P : World → Type 0) : Type 0 where
  pub at : (w : World) → P w → P (ticked w)

-- A transaction that fails may put the tables back.
pub record Restorable (P : World → Type 0) : Type 0 where
  pub at : (v w : World) → P v → P w → P (record w { db = v.db })

module _ {A : Type 0} {P : World → Type 0} where
  pub Keeps-pure : (value : A) → Keeps P (pure value)
  unfolding pure
  Keeps-pure value = record { at = λ w kept. kept }

  pub Keeps-throw : (e : Failure) → Keeps P (throw {A = A} e)
  unfolding throw
  Keeps-throw e = record { at = λ w h. h }

  pub Keeps-local : (f : World → A × World) → ((w : World) → P w → P (f w).1) → Keeps P (local f)
  unfolding local
  Keeps-local f k = record { at = k }

  answer_keeps : (c : Fate) (f : Async A) → Keeps P f → (w : World) → P w → P (answer c f w).1
  answer_keeps fine f k w h = k.at w h
  answer_keeps refused f k w h = h
  answer_keeps lost f k w h = k.at w h
  answer_keeps crash f k w h = h
  answer_keeps killed f k w h = k.at w h

  pub Keeps-call : (f : ℕ → Async A) → Stable P → ((n : ℕ) → Keeps P (f n)) → Keeps P (call f)
  unfolding call
  Keeps-call f s k = record {
    at = λ w h. answer_keeps (w.services.fate w.tick) (f w.tick) (k w.tick) (ticked w) (s.at w h);
  }

  -- Each branch under the outcome of the test.
  pub Keeps-if :
      (test : Bool) (first second : Async A)
      → (test ≡ true → Keeps P first)
      → (test ≡ false → Keeps P second)
      → Keeps P (if test then first else second)
  Keeps-if true first second holds fails = holds refl
  Keeps-if false first second holds fails = fails refl

  pub Keeps-catch :
      (m : Async A) (h : Failure → Async A)
      → Keeps P m
      → ((e : Failure) → Keeps P (h e))
      → Keeps P (try m catch h)
  unfolding try◌catch◌
  Keeps-catch m h km kh = record { at = λ w p. let (r, w') = m w in after r w' (km.at w p) }
    where
      after : (r : Outcome A) (w' : World) → P w' → P (handle r h w').1
      after (ok a) w' q = q
      after (thrown e) w' q = (kh e).at w' q
      after crashed w' q = q

  pub Keeps-finally :
      (m : Async A) (f : World → World)
      → Keeps P m
      → ((w : World) → P w → P (f w))
      → Keeps P (try m finally f)
  unfolding try◌finally◌
  Keeps-finally m f km kf = record { at = λ w p. let (r, w') = m w in after r w' (km.at w p) }
    where
      after : (r : Outcome A) (w' : World) → P w' → P (closing r f w').1
      after (ok a) w' q = kf w' q
      after (thrown e) w' q = kf w' q
      after crashed w' q = q

  pub Keeps-transaction :
      (m : Async A) → Stable P → Restorable P → Keeps P m → Keeps P (transaction m)
  unfolding transaction
  Keeps-transaction m s back km = record {
    at = λ w p. let (r, w') = m w in after w p r (w'.services.fate w'.tick) r w' (km.at w p);
  }
    where
      after :
          (w : World)
          → P w
          → (r : Outcome A) (c : Fate) (r' : Outcome A) (w' : World) → P w'
          → P (settle w.db r c (r', w')).1
      after w p (ok a) fine r' w' q = s.at w' q
      after w p (ok a) lost r' w' q = s.at w' q
      after w p (ok a) refused r' w' q = back.at w (ticked w') p (s.at w' q)
      after w p (ok a) crash r' w' q = back.at w (ticked w') p (s.at w' q)
      after w p (ok a) killed r' w' q = s.at w' q
      after w p (thrown e) _ r' w' q = back.at w w' p q
      after w p crashed _ r' w' q = back.at w w' p q

module _ {A B : Type 0} {P : World → Type 0} where
  pub Keeps-bind :
      (m : Async A) (f : A → Async B) → Keeps P m → ((a : A) → Keeps P (f a)) → Keeps P (m >>= f)
  unfolding ◌>>=◌
  Keeps-bind m f km kf = record { at = λ w p. let (r, w') = m w in after r w' (km.at w p) }
    where
      after : (r : Outcome A) (w' : World) → P w' → P (continue r f w').1
      after (ok a) w' q = (kf a).at w' q
      after (thrown e) w' q = q
      after crashed w' q = q

module _ {P : World → Type 0} where
  pub Keeps-for_each :
      {X : Type 0} (xs : List X) (f : X → Async (Unit {0}))
      → ((x : X) → Keeps P (f x))
      → Keeps P (for_each xs f)
  unfolding for_each
  Keeps-for_each [] f k = Keeps-pure tt
  Keeps-for_each (x ∷ xs) f k =
      Keeps-bind (f x) (λ _. for_each xs f) (k x) (λ _. Keeps-for_each xs f k)

  pub Keeps-when : (b : Bool) (m : Async (Unit {0})) → (b ≡ true → Keeps P m) → Keeps P (when b m)
  unfolding when
  Keeps-when true m k = k refl
  Keeps-when false m k = Keeps-pure tt

pub ruleset keeps_rules = (
  Keeps-pure, Keeps-throw, Keeps-local, Keeps-call, Keeps-if, Keeps-catch, Keeps-finally,
  Keeps-transaction, Keeps-bind, Keeps-for_each, Keeps-when,
)
