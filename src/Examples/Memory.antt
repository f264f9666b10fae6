-- ===== src/Examples/Memory.antt =====
-- The theorems about memory at concrete inputs.
use mathlib.Core.List.{Mem}
use workd.Prelude.{
  ℕ, ◌+◌, ◌-◌, ◌≡◌, refl, true, Bool, some, Option, List, [], ◌∷◌, ◌++◌, reverse, All, arith, take,
  drop, min, length, leb, if◌then◌else◌,
}
use workd.Prelude.Outcome.{ok}
use workd.Memory.Chunk
use workd.Memory.Chunk.{Chunk}
use workd.Memory.Chunk.Laws.{IsValid, Wrote, write_lem, read_lem}
use workd.Memory.Cluster.{add, get_buffers, take_loop, num_chunks, back, pop_back}
use workd.Memory.Cluster.Add.{tiles, add_lem}
use workd.Memory.Cluster.Take.{Handed, get_buffers-Handed}
use workd.Memory.Manager.{
  Manager, RecvWr, recv_wr, post_channel_cluster, post_all, post_chunk, get_tx_buffers,
  get_channel_buffers,
}
use workd.Memory.Manager.Drain.{cycles, cycles-drain}
use workd.Memory.Manager.Posted.{tx_buffers_posted}
use workd.Examples.{first, second, manager, first-IsValid}

abbrev bytes : List ℕ
bytes = 9 ∷ 9 ∷ 9 ∷ []

write_lem_example : Wrote first bytes 3 (Chunk.write first bytes 3)
write_lem_example = write_lem first bytes 3 first-IsValid (omega arith)

get_buffers-Handed_example : Handed manager.channel 5 (get_buffers manager.channel 5)
get_buffers-Handed_example =
    get_buffers-Handed manager.channel 5 (omega arith) (omega arith) (omega arith)

abbrev reg : ℕ → ℕ → Option ℕ
reg a n = some (a + 1)

add_lem_example :
    add reg 100 bytes 4 (record { chunk_size = 1; free_chunks = [] }) 3
    ≡ ok (record { chunk_size = 1; free_chunks = tiles (λ a. a + 1) 100 bytes 1 3 0 })
add_lem_example =
    add_lem reg (λ a. a + 1) 100 bytes 1 (omega arith) (λ a. refl) 3 4 [] (omega arith)
      (omega arith) (omega arith)

cycles-drain_example :
    (m' : Manager) × (cycles manager (2 ∷ 3 ∷ []) ≡ ok m')
    × (m'.channel.free_chunks ≡ [])
    × (m'.send.free_chunks ≡ [] ++ reverse (first ∷ second ∷ []))
    × (get_tx_buffers m' 1 ≡ ok ([], m'))
cycles-drain_example =
    cycles-drain manager (2 ∷ 3 ∷ []) 1 (omega arith)
      ((omega arith, omega arith), ((omega arith, omega arith), tt)) refl (omega arith)
      (omega arith)

read_lem_example :
    let (got, n, c') = Chunk.read first 9 in
    (n ≡ min 9 (first.bytes - first.offset))
    × (got ≡ take n (drop first.offset first.store))
    × (length got ≡ n)
    × (c' ≡ record first {
      offset = if leb 9 (first.bytes - first.offset) then first.offset + 9 else 0;
    })
    × IsValid c'
read_lem_example = read_lem first 9 first-IsValid

abbrev accepts : List RecvWr → RecvWr → Bool
accepts srq w = true

tx_buffers_posted_example :
    All (λ c. Mem (recv_wr c) (recv_wr first ∷ recv_wr second ∷ [])) (second ∷ [])
unfolding post_channel_cluster get_tx_buffers get_channel_buffers get_buffers post_all post_chunk
    take_loop num_chunks back pop_back
tx_buffers_posted_example =
    tx_buffers_posted accepts manager
      (record manager { channel = record { chunk_size = 4; free_chunks = first ∷ [] } }) []
      (recv_wr first ∷ recv_wr second ∷ []) 3 (second ∷ []) (omega arith) (omega arith)
      (omega arith) refl refl
