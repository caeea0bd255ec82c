-- ===== src/World/Triples.antt =====
-- What an action has established, by how it ends: `Q` of the value that it returns and the state,
-- `R` of the state where it throws or dies.
use basket_shared.Prelude.{ℕ}
use basket_shared.World.Entities.{service_failed}
use basket_shared.World.State.{Fate, fine, refused, lost, crash, killed, World, ticked}
use basket_shared.World.Monad.{
  Failure, error, Outcome, ok, thrown, crashed, Async, discard, answer, call, continue, ◌>>=◌,
  handle, try◌catch◌, settle, transaction,
}
use basket_shared.World.Keeps.{Keeps, Stable}

abbrev pub Ends :
    {A : Type 0} → (A → World → Type 0) → (World → Type 0) → Outcome A → World → Type 0
Ends Q R (ok a) w = Q a w
Ends Q R (thrown e) w = R w
Ends Q R crashed w = R w

pub record Triple {A : Type 0} (P : World → Type 0) (m : Async A) (Q : A → World → Type 0)
    (R : World → Type 0) : Type 0 where
  pub at : (w : World) → P w → Ends Q R (m w).0 (m w).1

module _ {A : Type 0} {R : World → Type 0} {Q : A → World → Type 0} where
  answer_triple :
      (c : Fate) (f : Async A) (w : World)
      → R w
      → ((a : A) (w' : World) → Q a w' → R w')
      → Ends Q R (f w).0 (f w).1
      → Ends Q R (answer c f w).0 (answer c f w).1
  answer_triple fine f w here weaken e = e
  answer_triple refused f w here weaken e = here
  answer_triple lost f w here weaken e = after (f w).0 (f w).1 e
    where
      after :
          (r : Outcome A) (w' : World)
          → Ends Q R r w'
          → Ends Q R (discard r (error service_failed)) w'
      after (ok a) w' q = weaken a w' q
      after (thrown x) w' q = q
      after crashed w' q = q
  answer_triple crash f w here weaken e = here
  answer_triple killed f w here weaken e = after (f w).0 (f w).1 e
    where
      after : (r : Outcome A) (w' : World) → Ends Q R r w' → R w'
      after (ok a) w' q = weaken a w' q
      after (thrown x) w' q = q
      after crashed w' q = q

module _ {A : Type 0} {P R : World → Type 0} {Q : A → World → Type 0} where
  -- A call: what holds before it must do for `R`, and so must what it returns.
  pub Triple-call :
      (f : ℕ → Async A)
      → ((w : World) → P w → R (ticked w))
      → ((a : A) (w : World) → Q a w → R w)
      → ((n : ℕ) (w : World) → P w → Ends Q R (f n (ticked w)).0 (f n (ticked w)).1)
      → Triple P (call f) Q R
  unfolding call
  Triple-call f before weaken k = record {
    at = λ w p.
        answer_triple (w.services.fate w.tick) (f w.tick) (ticked w) (before w p) weaken
          (k w.tick w p);
  }

module _ {A B : Type 0} {P R : World → Type 0} {Q : A → World → Type 0}
    {S : B → World → Type 0} where
  pub Triple-bind :
      (m : Async A) (f : A → Async B)
      → Triple P m Q R
      → ((a : A) → Triple (Q a) (f a) S R)
      → Triple P (m >>= f) S R
  unfolding ◌>>=◌
  Triple-bind m f km kf = record { at = λ w p. let (r, w') = m w in after r w' (km.at w p) }
    where
      after :
          (r : Outcome A) (w' : World)
          → Ends Q R r w'
          → Ends S R (continue r f w').0 (continue r f w').1
      after (ok a) w' q = (kf a).at w' q
      after (thrown e) w' q = q
      after crashed w' q = q

module _ {A : Type 0} {P : World → Type 0} where
  -- Nothing is said of the value.
  pub Triple-of_Keeps : {m : Async A} → Keeps P m → Triple P m (λ _. P) P
  Triple-of_Keeps {m} k = record { at = λ w p. let (r, w') = m w in after r w' (k.at w p) }
    where
      after : (r : Outcome A) (w' : World) → P w' → Ends (λ _. P) P r w'
      after (ok a) w' q = q
      after (thrown e) w' q = q
      after crashed w' q = q

  pub Keeps-of_Triple :
      {m : Async A} {Q : A → World → Type 0}
      → ((a : A) (w : World) → Q a w → P w)
      → Triple P m Q P
      → Keeps P m
  Keeps-of_Triple {m} {Q} weaken k = record {
    at = λ w p. let (r, w') = m w in after r w' (k.at w p);
  }
    where
      after : (r : Outcome A) (w' : World) → Ends Q P r w' → P w'
      after (ok a) w' q = weaken a w' q
      after (thrown e) w' q = q
      after crashed w' q = q

  -- A transaction keeps `P` although its parts need not: `P` holds again when all of it has run,
  -- and, at every end, once the tables are put back.
  pub Keeps-atomic :
      (m : Async A)
      → Stable P
      → ((v : World)
          → P v
          → Ends
              (λ a w. P w × P (record w { db = v.db }))
              (λ w. P (record w { db = v.db }))
              (m v).0
              (m v).1)
      → Keeps P (transaction m)
  unfolding transaction
  Keeps-atomic m s k = record {
    at = λ v p. let (r, w') = m v in after v r (w'.services.fate w'.tick) r w' (k v p);
  }
    where
      after :
          (v : World) (r : Outcome A) (c : Fate) (r' : Outcome A) (w' : World)
          → Ends (λ a w. P w × P (record w { db = v.db })) (λ w. P (record w { db = v.db })) r w'
          → P (settle v.db r c (r', w')).1
      after v (ok a) fine r' w' q = s.at w' q.0
      after v (ok a) lost r' w' q = s.at w' q.0
      after v (ok a) refused r' w' q = s.at (record w' { db = v.db }) q.1
      after v (ok a) crash r' w' q = s.at (record w' { db = v.db }) q.1
      after v (ok a) killed r' w' q = s.at w' q.0
      after v (thrown e) c r' w' q = q
      after v crashed c r' w' q = q

-- Where nothing is asked of a failure.
abbrev pub Anything : World → Type 0
Anything w = Unit

module _ {A : Type 0} {P : World → Type 0} {Q : A → World → Type 0} where
  pub Triple-transaction :
      (m : Async A)
      → ((a : A) (w : World) → Q a w → Q a (ticked w))
      → Triple P m Q Anything
      → Triple P (transaction m) Q Anything
  unfolding transaction
  Triple-transaction m s k = record {
    at = λ v p. let (r, w') = m v in after v r (w'.services.fate w'.tick) r w' (k.at v p);
  }
    where
      after :
          (v : World) (r : Outcome A) (c : Fate) (r' : Outcome A) (w' : World)
          → Ends Q Anything r w'
          → Ends Q Anything (settle v.db r c (r', w')).0 (settle v.db r c (r', w')).1
      after v (ok a) fine r' w' q = s a w' q
      after v (ok a) lost r' w' q = tt
      after v (ok a) refused r' w' q = tt
      after v (ok a) crash r' w' q = tt
      after v (ok a) killed r' w' q = tt
      after v (thrown e) c r' w' q = tt
      after v crashed c r' w' q = tt

  pub Triple-catch :
      {R : World → Type 0} (m : Async A) (h : Failure → Async A)
      → Triple P m Q R
      → ((e : Failure) → Triple R (h e) Q R)
      → Triple P (try m catch h) Q R
  unfolding try◌catch◌
  Triple-catch {R} m h km kh = record { at = λ w p. let (r, w') = m w in after r w' (km.at w p) }
    where
      after :
          (r : Outcome A) (w' : World)
          → Ends Q R r w'
          → Ends Q R (handle r h w').0 (handle r h w').1
      after (ok a) w' q = q
      after (thrown e) w' q = (kh e).at w' q
      after crashed w' q = q

module _ {A : Type 0} {P R : World → Type 0} {Q : A → World → Type 0} (S : World → Type 0) where
  -- A weaker word on failures.
  pub Triple-weaken : {m : Async A} → ((w : World) → R w → S w) → Triple P m Q R → Triple P m Q S
  Triple-weaken {m} f k = record { at = λ w p. let (r, w') = m w in after r w' (k.at w p) }
    where
      after : (r : Outcome A) (w' : World) → Ends Q R r w' → Ends Q S r w'
      after (ok a) w' q = q
      after (thrown e) w' q = f w' q
      after crashed w' q = f w' q
