-- ===== src/World/Monad.antt =====
-- Asynchronous code as actions on the state. An action returns a value, throws, or ends with the
-- process; what it wrote before that stays written, but for a transaction.
use basket_shared.Prelude.{ℕ, Bool, List, [], ◌∷◌, if◌then◌else◌}
use basket_shared.World.Entities.{Message, service_failed}
use basket_shared.World.State.{Fate, fine, refused, lost, crash, killed, World, Db, ticked}

-- What is thrown. `non_retryable` is `NonRetryableError`, `unique_violation` a `QueryFailedError`
-- with SQLSTATE 23505, and `error` any other `Error`; the others are Nest's HTTP exceptions.
pub data Failure : Type 0 where
  non_retryable error not_found conflict unauthorized forbidden : Message → Failure
  unique_violation : Failure

pub data Outcome (A : Type 0) : Type 0 where
  ok : A → Outcome A
  thrown : Failure → Outcome A
  crashed : Outcome A

abbrev pub Async : Type 0 → Type 0
Async A = World → Outcome A × World

abbrev pub discard : {A : Type 0} → Outcome A → Failure → Outcome A
discard (ok a) e = thrown e
discard (thrown f) e = thrown f
discard crashed e = crashed

module _ {A : Type 0} where
  unfoldable pub pure : A → Async A
  pure a w = (ok a, w)

  unfoldable pub throw : Failure → Async A
  throw e w = (thrown e, w)

  -- A change of the process's own memory, which does not wait.
  unfoldable pub local : (World → A × World) → Async A
  local f w = let (a, w') = f w in (ok a, w')

  -- What a call does by its fate; `f` is the call as the service makes it.
  abbrev pub answer : Fate → Async A → Async A
  answer fine f w = f w
  answer refused f w = (thrown (error service_failed), w)
  answer lost f w = let (r, w') = f w in (discard r (error service_failed), w')
  answer crash f w = (crashed, w)
  answer killed f w = let (r, w') = f w in (crashed, w')

  -- `await` of a call of a service, with the number of the call handed to it.
  unfoldable pub call : (ℕ → Async A) → Async A
  call f w = answer (w.services.fate w.tick) (f w.tick) (ticked w)

module _ {A B : Type 0} where
  abbrev pub continue : Outcome A → (A → Async B) → Async B
  continue (ok a) f w = f a w
  continue (thrown e) f w = (thrown e, w)
  continue crashed f w = (crashed, w)

  infixl 10 ◌>>=◌ ◌>>◌
  unfoldable pub ◌>>=◌ : Async A → (A → Async B) → Async B
  ◌>>=◌ m f w = let (r, w') = m w in continue r f w'

  abbrev pub ◌>>◌ : Async A → Async B → Async B
  m >> n = m >>= λ _. n

module _ {A : Type 0} where
  abbrev pub handle : Outcome A → (Failure → Async A) → Async A
  handle (ok a) h w = (ok a, w)
  handle (thrown e) h w = h e w
  handle crashed h w = (crashed, w)

  infix 1 try◌catch◌ try◌finally◌
  -- `try { m } catch (e) { h e }`
  unfoldable pub try◌catch◌ : Async A → (Failure → Async A) → Async A
  try◌catch◌ m h w = let (r, w') = m w in handle r h w'

  abbrev pub closing : Outcome A → (World → World) → World → Outcome A × World
  closing (ok a) f w = (ok a, f w)
  closing (thrown e) f w = (thrown e, f w)
  closing crashed f w = (crashed, w)

  -- `try { m } finally { f }`, for an `f` that neither waits nor throws.
  unfoldable pub try◌finally◌ : Async A → (World → World) → Async A
  try◌finally◌ m f w = let (r, w') = m w in closing r f w'

  -- COMMIT is a call. A transaction that throws or dies before it is done leaves the tables as they
  -- were; where its answer is lost, or the process dies with it done, they stay written.
  abbrev pub settle : Db → Outcome A → Fate → Outcome A × World → Outcome A × World
  settle before (ok a) fine (r, w) = (ok a, ticked w)
  settle before (ok a) lost (r, w) = (thrown (error service_failed), ticked w)
  settle before (ok a) refused (r, w) =
      (thrown (error service_failed), record (ticked w) { db = before })
  settle before (ok a) crash (r, w) = (crashed, record (ticked w) { db = before })
  settle before (ok a) killed (r, w) = (crashed, ticked w)
  settle before (thrown e) _ (r, w) = (thrown e, record w { db = before })
  settle before crashed _ (r, w) = (crashed, record w { db = before })

  -- `dataSource.transaction(m)`
  unfoldable pub transaction : Async A → Async A
  transaction m w = let (r, w') = m w in settle w.db r (w'.services.fate w'.tick) (r, w')

-- `for (const x of xs) await f(x)`
unfoldable pub for_each : {X : Type 0} → List X → (X → Async (Unit {0})) → Async (Unit {0})
unfolding pure ◌>>=◌
for_each [] f = pure tt
for_each (x ∷ xs) f = f x >> for_each xs f

unfoldable pub when : Bool → Async (Unit {0}) → Async (Unit {0})
unfolding pure
when b m = if b then m else pure tt
