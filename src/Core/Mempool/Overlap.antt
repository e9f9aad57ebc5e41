-- ===== src/Core/Mempool/Overlap.antt =====
-- mempool.rs: two calls of `add_transaction` whose checks both run before the writes of either. The
-- second call then writes to the pool that the first one left, without a check of it.
use zentra_chain.Prelude.Map.{Map, nat_key}
use zentra_chain.Types.Amount.{Amount}
use zentra_chain.Core.Data.{out_point_key}
use zentra_chain.Core.Mempool.{Mempool}
