-- ===== src/TaskManager/Manager/Size.antt =====
-- The number of threads of the pool.
use gitrpc.Prelude.{ℕ, ◌<◌, ◌≡◌, none, some, if◌then◌else◌, ltb, leb, arith}
use gitrpc.TaskManager.Manager.{clamped_size, pool_size}

-- The threads of a pool of the int that `size` stands for.
abbrev pub wanted : ℕ → ℕ → ℕ
wanted concurrency size =
    if ltb size 2147483648
    then (if leb size concurrency then size else concurrency)
    else concurrency

-- For every int InitializeThreadPool makes a pool of as many threads as it says and the hardware has, whichever is
-- less, and of as many as the hardware has if it is negative, -1 or not; it makes no pool if that number is
-- 0. The hardware has fewer than 2 ^ 31.
pool_size-wanted :
    (concurrency size : ℕ)
    → concurrency < 2147483648
    → size < 4294967296
    → pool_size concurrency size
      ≡ (if ltb 0 (wanted concurrency size) then some (wanted concurrency size) else none)
unfolding pool_size clamped_size
pool_size-wanted concurrency size small int = ground arith
