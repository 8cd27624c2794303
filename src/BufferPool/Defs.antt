-- ===== src/BufferPool/Defs.antt =====
-- buffer_pool.go: the pool's channel and its operations.
-- A buffer is its content: who has put a buffer back does not write to it any more.
use xun.Base.{ℕ, List, [], ◌∷◌, ◌++◌, Bytes, length, ltb, if◌then◌else◌}

-- The channel of buffers, oldest first, and its capacity.
pub record BufferPool : Type 0 where
  pub size : ℕ
  pub buffers : List Bytes

-- NewBufferPool
unfoldable pub new_buffer_pool : ℕ → BufferPool
new_buffer_pool size = record { size = size; buffers = [] }

abbrev pub get_from : ℕ → List Bytes → BufferPool × Bytes
get_from size [] = (record { size = size; buffers = [] }, [])
get_from size (b ∷ bs) = (record { size = size; buffers = bs }, b)

-- Get
unfoldable pub get : BufferPool → BufferPool × Bytes
get bp = get_from bp.size bp.buffers

-- Reset of a buffer
abbrev pub reset : Bytes → Bytes
reset b = []

-- Put
unfoldable pub put : BufferPool → Bytes → BufferPool
put bp b =
    if ltb (length bp.buffers) bp.size
    then record bp { buffers = bp.buffers ++ reset b ∷ [] }
    else bp
