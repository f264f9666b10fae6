-- ===== src/Memory/Manager/Laws.antt =====
-- `get_tx_buffers` in terms of the receive pool.
use workd.Prelude.{ℕ, ◌≡◌, List}
use workd.Prelude.Outcome.{ok}
use workd.Memory.Chunk.{Chunk}
use workd.Memory.Cluster.{Cluster, get_buffers}
use workd.Memory.Manager.{Manager, get_tx_buffers, get_channel_buffers}

pub get_tx_buffers_lem :
    (m : Manager) (bytes : ℕ) (ret : List Chunk) (c : Cluster)
    → get_buffers m.channel bytes ≡ ok (ret, c)
    → get_tx_buffers m bytes ≡ ok (ret, record m { channel = c })
unfolding get_tx_buffers get_channel_buffers
get_tx_buffers_lem m bytes ret c e = rw (e, get_tx_buffers)
