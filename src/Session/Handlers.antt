-- ===== src/Session/Handlers.antt =====
-- Handlers and their guards: `Session::handle` of crates/mango-protocol/src/session/handle.rs and
-- `HandlerGuard` of handler.rs beside it. A guard's shared state is the argument.
pub mod Guards
use mango_protocol.Common.{
  ℕ, Text, Bool, true, false, not, ◌==◌, if◌then◌else◌, Option, none, some, get, remove, list_eq,
}
use mango_protocol.Libs.{Libs}
use mango_protocol.Session.State.{Shared}
use mango_protocol.Session.Shared.{register_handler}

pub record HandlerGuard : Type 0 where
  pub method : Text
  pub generation : ℕ
  pub armed : Bool

abbrev pub persist : HandlerGuard → HandlerGuard
persist guard = record guard { armed = false }

-- `is_some_and(|(generation, _)| *generation == self.generation)`
unfoldable pub is_current : Option (ℕ × ℕ) → ℕ → Bool
is_current none generation = false
is_current (some (registered, handler)) generation = registered == generation

module _ ⦃L : Libs⦄ where
  unfoldable pub handle : Shared L → Text → ℕ → Shared L × HandlerGuard
  unfolding register_handler
  handle shared method handler =
      let (shared', (method', generation)) = register_handler shared method handler in
      (shared', record { method = method'; generation = generation; armed = true })

  -- `HandlerGuard::drop`
  unfoldable pub drop_guard : HandlerGuard → Shared L → Shared L
  unfolding is_current
  drop_guard guard shared =
      if not guard.armed
      then shared
      else if is_current (get guard.method shared.handlers) guard.generation
      then record shared { handlers = remove guard.method shared.handlers }
      else shared
