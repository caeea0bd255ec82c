-- ===== src/World.antt =====
-- The state that the program keeps outside its own memory, and how it reaches it: the rows and
-- jobs (Entities), the services that it calls (Services), the whole state (State), asynchronous
-- code as actions on it (Monad), and the rules for invariants of actions (Keeps).
pub mod Entities
pub mod State
pub mod Monad
pub mod Keeps
pub mod Triples
pub mod Endings
pub mod Lives
