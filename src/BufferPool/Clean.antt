-- ===== src/BufferPool/Clean.antt =====
-- The pool hands out zeroed buffers only, and holds a bounded number of them.
use iog.Prelude.{
  ℕ, zero, suc, ◌-◌, ◌≤◌, ◌≡◌, refl, List, [], ◌∷◌, arith, length, replicate, All, length-replicate,
  Bool-cases, inl, inr,
}
use iog.Statistics.{buffer_size}
use iog.BufferPool.{
  Buffer, BufferPool, PooledBuffer, zeros, resize, new, default, pooled, pop, acquire, drop,
  pool_size,
}

-- All bytes are zero, and they fit the capacity.
pub record IsBlank (b : Buffer) : Type 0 where
  pub blank : All (λ x. x ≡ 0) b.bytes
  pub fits : length b.bytes ≤ b.capacity

abbrev pub IsClean : BufferPool → Type 0
IsClean p = All IsBlank p.buffers

All-replicate : (n : ℕ) → All (λ (x : ℕ). x ≡ 0) (replicate n 0)
All-replicate zero = tt
All-replicate (suc n) = (refl, All-replicate n)

zeros-IsBlank : (n : ℕ) → IsBlank (zeros n)
unfolding zeros
zeros-IsBlank n = record {
  blank = All-replicate n;
  fits = omega (arith, length-replicate n (zero));
}

-- What `drop` makes of a buffer: `size` zeros in the old or a larger allocation.
restore-IsBlank :
    (capacity size : ℕ) → IsBlank (resize (record { bytes = []; capacity = capacity }) size 0)
unfolding resize
restore-IsBlank capacity zero = record { blank = All-replicate (0 - 0); fits = omega arith }
restore-IsBlank capacity (suc n) = record {
  blank = All-replicate (suc n - 0);
  fits = ground (arith, length-replicate (suc n - 0) zero);
}

blanks-IsClean : (count size : ℕ) → All IsBlank (replicate count (zeros size))
blanks-IsClean zero size = tt
blanks-IsClean (suc count) size = (zeros-IsBlank size, blanks-IsClean count size)

new-IsClean : (count size : ℕ) → IsClean (new count size)
unfolding new
new-IsClean count size = blanks-IsClean count size

pop-IsClean :
    (bs : List Buffer) (fresh : Buffer)
    → All IsBlank bs
    → IsBlank fresh
    → IsBlank (pop bs fresh).0 × All IsBlank (pop bs fresh).1
pop-IsClean [] fresh c f = (f, c)
pop-IsClean (b ∷ bs) fresh c f = c

pop-length : (bs : List Buffer) (fresh : Buffer) → length (pop bs fresh).1 ≤ length bs
pop-length [] fresh = omega arith
pop-length (b ∷ bs) fresh = omega arith

-- A buffer taken from a clean pool is all zeros, and leaves the pool clean.
pub acquire-IsClean :
    (pool : BufferPool) → IsClean pool → IsBlank (acquire pool).0.buffer × IsClean (acquire pool).1
unfolding acquire pooled
acquire-IsClean pool c = elim (Bool-cases pool.poisoned) [
  | inl e ↦ rw (e, acquire) (zeros-IsBlank pool.size, c)
  | inr e ↦ rw (e, acquire) (pop-IsClean pool.buffers _ c (zeros-IsBlank pool.size))
]

drop-IsClean : (pool : BufferPool) (p : PooledBuffer) → IsClean pool → IsClean (drop pool p)
unfolding drop
drop-IsClean pool p c = ground (arith, restore-IsBlank p.buffer.capacity p.size)

-- What tasks do to the pool, in any order: take a buffer, or give one back whatever was read
-- into it.
pub data PoolOp : Type 0 where
  acquires : PoolOp
  drops : PooledBuffer → PoolOp

pub step : BufferPool → PoolOp → BufferPool
step pool acquires = (acquire pool).1
step pool (drops p) = drop pool p

pub run : BufferPool → List PoolOp → BufferPool
run pool [] = pool
run pool (op ∷ ops) = run (step pool op) ops

step-IsClean : (pool : BufferPool) (op : PoolOp) → IsClean pool → IsClean (step pool op)
unfolding step
step-IsClean pool acquires c = (acquire-IsClean pool c).1
step-IsClean pool (drops p) c = drop-IsClean pool p c

step-length :
    (pool : BufferPool) (op : PoolOp) (n : ℕ)
    → pool_size ≤ n
    → length pool.buffers ≤ n
    → length (step pool op).buffers ≤ n
unfolding step acquire drop
step-length pool acquires n k h = ground (arith, pop-length pool.buffers (zeros pool.size))
step-length pool (drops p) n k h = ground arith

default-length : length default.buffers ≤ pool_size
unfolding default
default-length = omega (arith, length-replicate pool_size (zeros buffer_size))

default-IsClean : IsClean default
unfolding default
default-IsClean = new-IsClean pool_size buffer_size

run_invariant :
    (pool : BufferPool) (ops : List PoolOp)
    → IsClean pool
    → length pool.buffers ≤ pool_size
    → IsClean (run pool ops) × (length (run pool ops).buffers ≤ pool_size)
unfolding run
run_invariant pool [] c h = (c, h)
run_invariant pool (op ∷ ops) c h =
    run_invariant (step pool op) ops (step-IsClean pool op c)
      (step-length pool op pool_size (omega arith) h)

-- After any history of the global pool, whatever was read into the buffers that came back: a
-- buffer that it hands out is all zeros, and it holds at most 100 buffers.
pub run-acquire :
    (ops : List PoolOp)
    → IsBlank (acquire (run default ops)).0.buffer × (length (run default ops).buffers ≤ pool_size)
run-acquire ops =
    let (c, h) = run_invariant default ops default-IsClean default-length in
    ((acquire-IsClean (run default ops) c).0, h)
