-- ===== src/Watchers/Loop/Invariant.antt =====
-- Every round of `run` keeps the subscriptions and the watched directories consistent.
use go_sarah.Shared.{nat_eq, text_eq}
