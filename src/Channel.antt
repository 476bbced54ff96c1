-- ===== src/Channel.antt =====
-- The bounded channel of the `crossbeam-channel` crate, which is not part of the repository: an
-- interface. `try_send` on a full channel gives the message up.
use post_cortex.Base.{ℕ, Option}

pub record Channels : Type 1 where
  pub Chan : Type 0 → Type 0
  pub bounded : {E : Type 0} → ℕ → Chan E
  pub try_send : {E : Type 0} → Chan E → E → Chan E
  pub try_recv : {E : Type 0} → Chan E → Option (E × Chan E)
