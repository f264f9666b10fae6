-- ===== src/Examples.antt =====
-- The theorems at concrete inputs: two chunks of four bytes, and what goes through them.
pub mod Memory
pub mod Socket
pub mod Wire
pub mod Connect
pub mod Backend
pub mod Stack
pub mod Setup
pub mod Programs
pub mod Sides
pub mod Door
use workd.Prelude.{ℕ, ◌≡◌, refl, true, none, List, [], ◌∷◌, All, arith}
use workd.Memory.Chunk.{Chunk}
use workd.Memory.Chunk.Laws.{IsValid, Ready}
use workd.Memory.Manager.{Manager}
use workd.Completion.{Wc}

abbrev pub first : Chunk
first = record { buffer = 100; bytes = 4; offset = 0; lkey = 7; store = 1 ∷ 2 ∷ 3 ∷ 4 ∷ [] }

abbrev pub second : Chunk
second = record { buffer = 104; bytes = 4; offset = 0; lkey = 8; store = 5 ∷ 6 ∷ 7 ∷ 8 ∷ [] }

abbrev pub manager : Manager
manager = record {
  channel = record { chunk_size = 4; free_chunks = first ∷ second ∷ [] };
  rdma = none;
  send = record { chunk_size = 4; free_chunks = [] };
}

-- Three bytes in the first chunk.
abbrev pub wc : Wc
wc = record { wr_id = first; success = true; byte_len = 3 }

pub first-IsValid : IsValid first
first-IsValid = record { cursor = omega arith; small = omega arith; sized = refl }

pub second-IsValid : IsValid second
second-IsValid = record { cursor = omega arith; small = omega arith; sized = refl }

pub chunks-Ready : All (Ready 4) manager.channel.free_chunks
chunks-Ready = ((first-IsValid, refl, refl), ((second-IsValid, refl, refl), tt))
