-- ===== src/BufferPool/Growth.antt =====
-- How large the buffers grow: tasks take buffers, resize them for a packet's payload, and give
-- them back, as `read_packet` of gateway/mod.rs does.
use iog.Prelude.{
  ℕ, zero, suc, ◌^◌, ◌≤◌, ◌<◌, ◌≡◌, refl, Option, none, some, List, [], ◌∷◌, arith, length,
  length-replicate, replicate, subst, sym, ◌-◌, All, Bool-cases, inl, inr,
}
use iog.Statistics.{buffer_size}
use iog.BufferPool.{
  Buffer, BufferPool, PooledBuffer, zeros, resize, new, default, pooled, pop, acquire, drop,
  pool_size,
}

-- The pool and the buffers that tasks hold.
pub record Lent : Type 0 where
  pub pool : BufferPool
  pub held : List PooledBuffer

pub data LentOp : Type 0 where
  takes : ℕ → LentOp
  returns : ℕ → List ℕ → LentOp

-- The list without the element at a place, and that element.
abbrev pub take_out : List PooledBuffer → ℕ → Option PooledBuffer × List PooledBuffer
take_out [] i = (none, [])
take_out (p ∷ ps) zero = (some p, ps)
take_out (p ∷ ps) (suc i) = ((take_out ps i).0, p ∷ (take_out ps i).1)

-- `acquire` and `resize(n, 0)`.
unfoldable pub lend : Lent → ℕ → Lent
unfolding acquire resize
lend s n =
    let (p, pool) = acquire s.pool in
    record { pool = pool; held = record p { buffer = resize p.buffer n 0 } ∷ s.held }

-- The `Drop` of a buffer with these contents.
abbrev pub give : BufferPool → Option PooledBuffer → List ℕ → BufferPool
give pool none contents = pool
give pool (some p) contents = drop pool (record p { buffer = record p.buffer { bytes = contents } })

abbrev pub step : Lent → LentOp → Lent
step s (takes n) = lend s n
step s (returns i contents) = record {
  pool = give s.pool (take_out s.held i).0 contents;
  held = (take_out s.held i).1;
}

abbrev pub run : Lent → List LentOp → Lent
run s [] = s
run s (op ∷ ops) = run (step s op) ops

-- Twice the largest capacity that a payload of 16 bits can outgrow.
abbrev pub largest : ℕ
largest = 131068

abbrev pub IsSmall : Buffer → Type 0
IsSmall b = (length b.bytes ≤ b.capacity) × (b.capacity ≤ largest)

abbrev pub IsHeld : PooledBuffer → Type 0
IsHeld p = (p.size ≤ p.buffer.capacity) × (p.buffer.capacity ≤ largest)

abbrev pub IsBounded : Lent → Type 0
IsBounded s = All IsSmall s.pool.buffers × All IsHeld s.held × (s.pool.size ≤ largest)

abbrev pub IsPayload : LentOp → Type 0
IsPayload (takes n) = n < 2 ^ 16
IsPayload (returns i contents) = Unit

All-map :
    {A : Type 0} {P Q : A → Type 0} (xs : List A) → ((x : A) → P x → Q x) → All P xs → All Q xs
All-map [] f h = tt
All-map (x ∷ xs) f h = (f x h.0, All-map xs f h.1)

resize-IsHeld :
    (b : Buffer) (n : ℕ)
    → n < 2 ^ 16
    → IsSmall b
    → IsHeld (record (pooled b) { buffer = resize b n 0 })
unfolding pooled resize
resize-IsHeld b n fits h = ground arith

zeros-IsSmall : (n : ℕ) → n ≤ largest → IsSmall (zeros n)
unfolding zeros
zeros-IsSmall n h = (omega (arith, length-replicate n zero), h)

restored-IsSmall :
    (capacity size : ℕ)
    → size ≤ capacity
    → capacity ≤ largest
    → IsSmall (resize (record { bytes = []; capacity = capacity }) size 0)
unfolding resize
restored-IsSmall capacity zero h b = ground arith
restored-IsSmall capacity (suc n) h b = ground (arith, length-replicate (suc n - 0) zero)

drop-IsSmall :
    (pool : BufferPool) (p : PooledBuffer)
    → IsHeld p
    → All IsSmall pool.buffers
    → All IsSmall (drop pool p).buffers × ((drop pool p).size ≡ pool.size)
unfolding drop
drop-IsSmall pool p h b = ground (arith, restored-IsSmall p.buffer.capacity p.size h.0 h.1)

give-IsSmall :
    (pool : BufferPool) (o : Option PooledBuffer) (contents : List ℕ)
    → ((p : PooledBuffer) → o ≡ some p → IsHeld p)
    → All IsSmall pool.buffers
    → All IsSmall (give pool o contents).buffers × ((give pool o contents).size ≡ pool.size)
give-IsSmall pool none contents h b = (b, refl)
give-IsSmall pool (some p) contents h b =
    drop-IsSmall pool (record p { buffer = record p.buffer { bytes = contents } }) (h p refl) b

take_out-IsHeld :
    (ps : List PooledBuffer) (i : ℕ)
    → All IsHeld ps
    → ((p : PooledBuffer) → (take_out ps i).0 ≡ some p → IsHeld p) × All IsHeld (take_out ps i).1
take_out-IsHeld [] i h = ((λ p e. cc), tt)
take_out-IsHeld (q ∷ ps) zero h = ((λ p e. let same : q ≡ p = cc in subst IsHeld same h.0), h.1)
take_out-IsHeld (q ∷ ps) (suc i) h =
    let (found, rest) = take_out-IsHeld ps i h.1 in (found, (h.0, rest))

pop-IsSmall :
    (bs : List Buffer) (fresh : Buffer)
    → All IsSmall bs
    → IsSmall fresh
    → IsSmall (pop bs fresh).0 × All IsSmall (pop bs fresh).1
pop-IsSmall [] fresh h f = (f, tt)
pop-IsSmall (b ∷ bs) fresh h f = h

-- What `acquire` hands out, with the size it is to have on its return.
acquire-IsSmall :
    (pool : BufferPool)
    → All IsSmall pool.buffers
    → pool.size ≤ largest
    → let (p, t) = acquire pool in
      (b : Buffer) × (p ≡ pooled b) × IsSmall b × All IsSmall t.buffers × (t.size ≡ pool.size)
unfolding acquire
acquire-IsSmall pool h size = elim (Bool-cases pool.poisoned) [
  | inl e ↦ rw (e, acquire) (zeros pool.size, refl, zeros-IsSmall pool.size size, h, refl)
  | inr e ↦
      let (small, rest) =
        pop-IsSmall pool.buffers (zeros pool.size) h (zeros-IsSmall pool.size size) in
      rw (e, acquire) ((pop pool.buffers (zeros pool.size)).0, refl, small, rest, refl)
]

step-IsBounded : (s : Lent) (op : LentOp) → IsPayload op → IsBounded s → IsBounded (step s op)
unfolding lend
step-IsBounded s (takes n) fits (small, held, size) =
    let (b, same, is_small, rest, kept) = acquire-IsSmall s.pool small size in
    (
      rest,
      (
        subst (λ p. IsHeld (record p { buffer = resize p.buffer n 0 })) (sym same)
            (resize-IsHeld b n fits is_small),
        held,
      ),
      ground arith,
    )
step-IsBounded s (returns i contents) fits (small, held, size) =
    let (found, rest) = take_out-IsHeld s.held i held in
    let (small', kept) = give-IsSmall s.pool (take_out s.held i).0 contents found small in
    (small', rest, ground arith)

run-IsBounded :
    (s : Lent) (ops : List LentOp) → All IsPayload ops → IsBounded s → IsBounded (run s ops)
run-IsBounded s [] fits h = h
run-IsBounded s (op ∷ ops) fits h =
    run-IsBounded (step s op) ops fits.1 (step-IsBounded s op fits.0 h)

replicate-IsSmall : (count n : ℕ) → n ≤ largest → All IsSmall (replicate count (zeros n))
replicate-IsSmall zero n h = tt
replicate-IsSmall (suc count) n h = (zeros-IsSmall n h, replicate-IsSmall count n h)

default-IsBounded : IsBounded (record { pool = default; held = [] })
unfolding default new
default-IsBounded = (replicate-IsSmall pool_size buffer_size (omega arith), tt, omega arith)

-- After any history of the global pool in which tasks take buffers, resize them for a payload whose
-- size has 16 bits, and give them back in any order and with any contents: no buffer, in the
-- pool or held by a task, has a capacity above 131068 bytes, twice the largest capacity that such a
-- payload can outgrow.
pub run-capacity :
    (ops : List LentOp)
    → All IsPayload ops
    → let s = run (record { pool = default; held = [] }) ops in
      All (λ b. b.capacity ≤ largest) s.pool.buffers × All (λ p. p.buffer.capacity ≤ largest) s.held
run-capacity ops fits =
    let (small, held, size) = run-IsBounded _ ops fits default-IsBounded in
    (All-map _ (λ b h. h.1) small, All-map _ (λ p h. h.1) held)
