-- ===== src/Publishers.antt =====
-- The wrappers of instro/lib/publishers/publisher.py. `Publisher` is the protocol that they wrap
-- and offer: a publisher is a state with a `publish` and a `close`, either of which may raise. What
-- `publish` takes is one value: for most callers the data with the keyword arguments.
use instro.Prelude.{Result, ok, err}
use instro.Prelude.Exec.{Exec}
pub mod Buffered
pub mod Queued
pub mod Shared

pub record Publisher (P D : Type 0) : Type 0 where
  pub publish : D → Exec P (Unit {0})
  pub close : Exec P (Unit {0})
