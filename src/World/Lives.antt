-- ===== src/World/Lives.antt =====
-- Code over services that answer every call: the process does not die, and it says how an action may
-- fail. `E` is what holds where it throws: `Reliable` allows it, and `Never` rules it out.
use basket_shared.Prelude.{ℕ, ◌≡◌, Bool, true, false, List, [], ◌∷◌, if◌then◌else◌}
use basket_shared.World.State.{Services, World, fine, ticked}
use basket_shared.World.Monad.{
  Failure, Outcome, ok, thrown, crashed, Async, pure, throw, local, call, continue, ◌>>=◌, handle,
  closing, try◌catch◌, try◌finally◌, for_each, when,
}

-- Every call is answered, and done.
pub record IsReliable (s : Services) : Type 0 where
  pub answers : (n : ℕ) → s.fate n ≡ fine

abbrev pub Reliable : World → Type 0
Reliable w = IsReliable w.services

abbrev pub Never : World → Type 0
Never w = ⊥

abbrev pub Survives : {A : Type 0} → (World → Type 0) → Outcome A → World → Type 0
Survives E (ok a) w = Reliable w
Survives E (thrown e) w = E w
Survives E crashed w = ⊥

pub record Lives {A : Type 0} (E : World → Type 0) (m : Async A) : Type 0 where
  pub at : (w : World) → Reliable w → Survives E (m w).0 (m w).1

module _ {A : Type 0} where
  pub Lives-throw : (e : Failure) → Lives Reliable (throw {A = A} e)
  unfolding throw
  Lives-throw e = record { at = λ w h. h }

module _ {A : Type 0} {E : World → Type 0} where
  pub Lives-pure : (value : A) → Lives E (pure value)
  unfolding pure
  Lives-pure value = record { at = λ w h. h }

  pub Lives-local :
      (f : World → A × World) → ((w : World) → Reliable w → Reliable (f w).1) → Lives E (local f)
  unfolding local
  Lives-local f k = record { at = k }

  pub Lives-call :
      (f : ℕ → Async A)
      → ((n : ℕ) (w : World) → Reliable w → Survives E (f n w).0 (f n w).1)
      → Lives E (call f)
  unfolding call
  Lives-call f k = record { at = λ w h. rw (h.answers w.tick) (k w.tick (ticked w) h) }

  pub Lives-if :
      (test : Bool) (first second : Async A)
      → Lives E first
      → Lives E second
      → Lives E (if test then first else second)
  Lives-if true first second a b = a
  Lives-if false first second a b = b

  pub Lives-catch :
      (m : Async A) (h : Failure → Async A)
      → Lives Reliable m
      → ((e : Failure) → Lives E (h e))
      → Lives E (try m catch h)
  unfolding try◌catch◌
  Lives-catch m h km kh = record { at = λ w p. let (r, w') = m w in after r w' (km.at w p) }
    where
      after :
          (r : Outcome A) (w' : World)
          → Survives Reliable r w'
          → Survives E (handle r h w').0 (handle r h w').1
      after (ok a) w' q = q
      after (thrown e) w' q = (kh e).at w' q
      after crashed w' q = absurd q

  pub Lives-finally :
      (m : Async A) (f : World → World)
      → Lives E m
      → ((w : World) → Reliable w → Reliable (f w))
      → ((w : World) → E w → E (f w))
      → Lives E (try m finally f)
  unfolding try◌finally◌
  Lives-finally m f km kf ke = record { at = λ w p. let (r, w') = m w in after r w' (km.at w p) }
    where
      after :
          (r : Outcome A) (w' : World)
          → Survives E r w'
          → Survives E (closing r f w').0 (closing r f w').1
      after (ok a) w' q = kf w' q
      after (thrown e) w' q = ke w' q
      after crashed w' q = absurd q

module _ {A B : Type 0} {E : World → Type 0} where
  pub Lives-bind :
      (m : Async A) (f : A → Async B) → Lives E m → ((a : A) → Lives E (f a)) → Lives E (m >>= f)
  unfolding ◌>>=◌
  Lives-bind m f km kf = record { at = λ w p. let (r, w') = m w in after r w' (km.at w p) }
    where
      after :
          (r : Outcome A) (w' : World)
          → Survives E r w'
          → Survives E (continue r f w').0 (continue r f w').1
      after (ok a) w' q = (kf a).at w' q
      after (thrown e) w' q = q
      after crashed w' q = absurd q

module _ {E : World → Type 0} where
  pub Lives-for_each :
      {X : Type 0} (xs : List X) (f : X → Async (Unit {0}))
      → ((x : X) → Lives E (f x))
      → Lives E (for_each xs f)
  unfolding for_each
  Lives-for_each [] f k = Lives-pure tt
  Lives-for_each (x ∷ xs) f k =
      Lives-bind (f x) (λ _. for_each xs f) (k x) (λ _. Lives-for_each xs f k)

  pub Lives-when : (b : Bool) (m : Async (Unit {0})) → Lives E m → Lives E (when b m)
  unfolding when
  Lives-when true m k = k
  Lives-when false m k = Lives-pure tt

pub ruleset lives_rules = (
  Lives-pure, Lives-throw, Lives-local, Lives-call, Lives-if, Lives-catch, Lives-bind,
  Lives-for_each, Lives-when,
)
