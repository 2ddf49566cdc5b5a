-- ===== src/BufferPool.antt =====
-- gateway/buffer_pool.rs: the pool of read buffers. A `Vec<u8>` is its contents and its capacity;
-- the head of `buffers` is the end of the vector, where `push` and `pop` work. `poisoned` tells
-- that `lock` fails because a thread panicked while it held the lock.
pub mod Clean
pub mod Growth
use iog.Prelude.{
  ℕ, zero, suc, ◌+◌, ◌-◌, ◌*◌, ◌≡◌, max, Bool, true, false, Option, none, some, List, [], ◌∷◌, ◌++◌,
  if◌then◌else◌, ltb, leb, length, take, replicate,
}
use iog.Statistics.{buffer_size}

abbrev pub pool_size : ℕ
pool_size = 100

pub record Buffer : Type 0 where
  pub bytes : List ℕ
  pub capacity : ℕ

-- `vec![0u8; n]`
unfoldable pub zeros : ℕ → Buffer
zeros n = record { bytes = replicate n 0; capacity = n }

-- `Vec::resize`: the capacity grows by doubling, to 8 at least, where the new size needs it.
unfoldable pub resize : Buffer → ℕ → ℕ → Buffer
resize b n value = record {
  bytes = take n b.bytes ++ replicate (n - length b.bytes) value;
  capacity = if leb n b.capacity then b.capacity else max 8 (max (b.capacity * 2) n);
}

-- `BufferPool` and its `BufferPoolInner` in one record.
pub record BufferPool : Type 0 where
  pub buffers : List Buffer
  pub poisoned : Bool
  pub size : ℕ

-- `size` is the source's `buffer_size`, the size to restore on `drop`.
pub record PooledBuffer : Type 0 where
  pub buffer : Buffer
  pub size : ℕ

unfoldable pub pooled : Buffer → PooledBuffer
pooled b = record { buffer = b; size = max b.capacity (length b.bytes) }

unfoldable pub new : ℕ → ℕ → BufferPool
unfolding zeros
new count size = record { buffers = replicate count (zeros size); poisoned = false; size = size }

unfoldable pub default : BufferPool
unfolding new
default = new pool_size buffer_size

abbrev pop : List Buffer → Buffer → Buffer × List Buffer
pop [] fresh = (fresh, [])
pop (b ∷ rest) fresh = (b, rest)

unfoldable pub acquire : BufferPool → PooledBuffer × BufferPool
unfolding zeros pooled
acquire pool =
    let (b, rest) = pop pool.buffers (zeros pool.size) in
    if pool.poisoned
    then (pooled (zeros pool.size), pool)
    else (pooled b, record pool { buffers = rest })

-- `Drop for PooledBuffer`: `clear` keeps the capacity, `resize` fills with zeros.
unfoldable pub drop : BufferPool → PooledBuffer → BufferPool
unfolding resize
drop pool p =
    let buffer = resize (record { bytes = []; capacity = p.buffer.capacity }) p.size 0 in
    if pool.poisoned
    then pool
    else if ltb (length pool.buffers) pool_size
    then record pool { buffers = buffer ∷ pool.buffers }
    else pool
