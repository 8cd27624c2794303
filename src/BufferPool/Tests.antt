-- ===== src/BufferPool/Tests.antt =====
-- buffer_pool.go: a run, and the theorem at a concrete input.
use xun.Base.{◌≡◌, refl, ◌≤◌, [], ◌∷◌, codes, length}
use xun.BufferPool.Defs.{new_buffer_pool}
use xun.BufferPool.Clean.{gets, puts, run, run-new_buffer_pool}

-- The pool is full at its size: the third buffer put back is dropped.
pool_tests :
    (run
      (new_buffer_pool 2)
      (puts (codes "a") ∷ puts (codes "b") ∷ puts (codes "c") ∷ gets ∷ [])
      []).0.buffers
    ≡ [] ∷ []
unfolding run new_buffer_pool
pool_tests = refl

run-new_buffer_pool_example :
    length (run (new_buffer_pool 1) (puts (codes "a") ∷ puts (codes "b") ∷ []) []).0.buffers ≤ 1
run-new_buffer_pool_example = (run-new_buffer_pool 1 (puts (codes "a") ∷ puts (codes "b") ∷ [])).1
