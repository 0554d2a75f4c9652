-- ===== src/Memory/Free.antt =====
-- kernel/memory.cpp: what a caller may rely on after `free`, and where the allocator leaves its heap.
use first_os_build.Prelude.{
  ℕ, suc, ◌+◌, ◌-◌, ◌≤◌, ◌<◌, ◌≡◌, ◌≢◌, ◌⊎◌, refl, true, false, ◌&&◌, List, [], ◌∷◌, leb, arith,
  Bool-cases, inl, inr, length, Returns, subst, subst₂, ◌∙◌,
}
use first_os_build.Prelude.Maybe
use first_os_build.Memory.{
  null, header_size, heap_start_address, heap_size, Memory, memory_init, malloc, free,
}
use first_os_build.Memory.Blocks.{Block, On, Laid, first_fit, mark, merge, merge_from}
use first_os_build.Memory.Chain.{end, link}
use first_os_build.Memory.Allocate.{
  IsHeap, Laid-mark, given, blocks_after, end_after, malloc_refines,
}
use first_os_build.Memory.Release.{free_refines, length-mark}
use first_os_build.Memory.Laws.{mark-On_other, mark-On_self}

-- No two free blocks are neighbours.
abbrev pub Merged : List Block → Type 0
Merged [] = Unit
Merged (b ∷ []) = Unit
Merged (b ∷ c ∷ cs) = ((b.free ≡ false) ⊎ (c.free ≡ false)) × Merged (c ∷ cs)

-- The first block of a merged run is free as its first part was.
merge_from-head :
    (b : Block) (bs : List Block)
    → (c : Block) × (cs : List Block) × (merge_from b bs ≡ c ∷ cs) × (c.free ≡ b.free)
unfolding merge_from
merge_from-head b [] = (b, [], refl, refl)
merge_from-head b (c ∷ cs) = elim (Bool-cases (b.free && c.free)) [
  | inl both ↦ rw both (merge_from-head (record b { size = b.size + header_size + c.size }) cs)
  | inr apart ↦ rw apart (b, merge_from c cs, refl, refl)
]

merge_from-Merged : (b : Block) (bs : List Block) → Merged (merge_from b bs)
unfolding merge_from
merge_from-Merged b [] = tt
merge_from-Merged b (c ∷ cs) = elim (Bool-cases (b.free && c.free)) [
  | inl both ↦ rw both (merge_from-Merged (record b { size = b.size + header_size + c.size }) cs)
  | inr apart ↦
      let (d, ds, eq, f) = merge_from-head c cs in
      let rest : Merged (d ∷ ds) = subst Merged eq (merge_from-Merged c cs) in
      rw (apart, eq) (ground arith, rest)
]

merge-Merged : (bs : List Block) → Merged (merge bs)
unfolding merge
merge-Merged [] = tt
merge-Merged (b ∷ bs) = merge_from-Merged b bs

-- A block in use keeps its place.
merge_from-On :
    (x b : Block) (bs : List Block) → x.free ≡ false → On x (b ∷ bs) → On x (merge_from b bs)
unfolding merge_from
merge_from-On x b [] used o = o
merge_from-On x b (c ∷ cs) used (inl eq) =
    let apart : (b.free && c.free) ≡ false = ground arith in rw apart (inl eq)
merge_from-On x b (c ∷ cs) used (inr (inl eq)) =
    let apart : (b.free && c.free) ≡ false = ground arith in
    rw apart (inr (merge_from-On x c cs used (inl eq)))
merge_from-On x b (c ∷ cs) used (inr (inr o)) = elim (Bool-cases (b.free && c.free)) [
  | inl both ↦
      rw both (merge_from-On x (record b { size = b.size + header_size + c.size }) cs used (inr o))
  | inr apart ↦ rw apart (inr (merge_from-On x c cs used (inr o)))
]

merge-On : (x : Block) (bs : List Block) → x.free ≡ false → On x bs → On x (merge bs)
unfolding merge
merge-On x [] used o = o
merge-On x (b ∷ bs) used o = merge_from-On x b bs used o

length-merge_from : (b : Block) (bs : List Block) → length (merge_from b bs) ≤ suc (length bs)
unfolding merge_from
length-merge_from b [] = omega arith
length-merge_from b (c ∷ cs) = ground (
  arith,
  length-merge_from (record b { size = b.size + header_size + c.size }) cs,
  length-merge_from c cs,
)

length-merge : (bs : List Block) → length (merge bs) ≤ length bs
unfolding merge
length-merge [] = omega arith
length-merge (b ∷ bs) = length-merge_from b bs

-- The whole of the block `x`, its header included, is in a free block of the list.
abbrev pub IsFreed : Block → List Block → Type 0
IsFreed x bs =
    (c : Block) × On c bs
    × (c.free ≡ true)
    × (c.address ≤ x.address)
    × (x.address + header_size + x.size ≤ c.address + header_size + c.size)

IsFreed-cons : (x b : Block) (bs : List Block) → IsFreed x bs → IsFreed x (b ∷ bs)
IsFreed-cons x b bs (c, o, f, below, within) = (c, inr o, f, below, within)

-- What a block covers that grows by its successor, it covers still.
merge_from-covers :
    (x b : Block) (bs : List Block) (a e : ℕ)
    → Laid a (b ∷ bs) e
    → x.free ≡ true
    → (On x bs)
      ⊎ ((b.free ≡ true)
          × (b.address ≤ x.address)
          × (x.address + header_size + x.size ≤ b.address + header_size + b.size))
    → IsFreed x (merge_from b bs)
unfolding merge_from
merge_from-covers x b [] a e l f (inl o) = absurd o
merge_from-covers x b [] a e l f (inr (g, below, within)) = (b, inl refl, g, below, within)
merge_from-covers x b (c ∷ cs) a e (at, (next, l)) f o = elim (Bool-cases (b.free && c.free)) [
  | inl both ↦
      let wide = record b { size = b.size + header_size + c.size } in
      let laid : Laid a (wide ∷ cs) e = (at, subst (λ k. Laid k cs e) (omega arith) l) in
      rw both (
        merge_from-covers x wide cs a e laid f (elim o [
          | inl (inl eq) ↦ inr (ground arith)
          | inl (inr o') ↦ inl o'
          | inr (g, below, within) ↦ inr (g, below, omega arith)
        ]))
  | inr apart ↦ rw apart (elim o [
    | inl (inl eq) ↦
        IsFreed-cons x b (merge_from c cs)
          (merge_from-covers x c cs (a + header_size + b.size) e (next, l) f (inr (ground arith)))
    | inl (inr o') ↦
        IsFreed-cons x b (merge_from c cs)
          (merge_from-covers x c cs (a + header_size + b.size) e (next, l) f (inl o'))
    | inr (g, below, within) ↦ (b, inl refl, g, below, within)
  ])
]

merge-covers :
    (x : Block) (bs : List Block) (a e : ℕ)
    → Laid a bs e
    → x.free ≡ true
    → On x bs
    → IsFreed x (merge bs)
unfolding merge
merge-covers x [] a e l f o = absurd o
merge-covers x (b ∷ bs) a e l f (inl eq) = merge_from-covers x b bs a e l f (inr (ground arith))
merge-covers x (b ∷ bs) a e l f (inr o) = merge_from-covers x b bs a e l f (inl o)

-- In a heap that ends below 2 ^ 32, freeing the space of a block, on fuel for one round for each
-- block, always ends, in a heap of no more blocks where the whole of the block is in a free block, no two
-- free blocks are neighbours, and every other block in use is as it was; no byte changes.
pub free-Merged :
    (fuel : ℕ) {m : Memory} (b : Block) (bs : List Block) {e : ℕ}
    → IsHeap m bs e
    → On b bs
    → e ≤ 4294967295
    → length bs ≤ fuel
    → Returns
        (λ m'.
          (bs' : List Block) × IsHeap m' bs' e
          × IsFreed b bs'
          × Merged bs'
          × (length bs' ≤ length bs)
          × ((c : Block) → On c bs → c.free ≡ false → c.address ≢ b.address → On c bs')
          × (m'.byte ≡ m.byte))
        (free fuel (b.address + header_size) m)
free-Merged fuel b bs {e} h o small enough =
    let marked = mark b.address true bs in
    Maybe.mono (free_refines fuel b bs h o small enough) λ m' (heap, bytes). (
      merge marked,
      heap,
      merge-covers (record b { free = true }) marked heap_start_address e
          (Laid-mark b.address true bs heap_start_address e h.laid) refl
          (mark-On_self b true bs heap_start_address e h.laid o),
      merge-Merged marked,
      omega (arith, length-merge marked, length-mark b.address true bs),
      λ c oc used ne. merge-On c marked used (mark-On_other c b.address true bs oc ne),
      bytes,
    )

-- The heap that `memory_init` makes: one free block up to the end of the heap's megabyte.
abbrev pub whole : Block
whole = record { address = heap_start_address; size = heap_size - header_size; free = true }

pub memory_init-IsHeap :
    (m : Memory) → IsHeap (memory_init m) (whole ∷ []) (heap_start_address + heap_size)
unfolding memory_init
memory_init-IsHeap m = record {
  starts = refl;
  chain = link (omega arith) refl refl end;
  laid = (refl, refl);
}

-- Once the blocks reach the end of the heap's megabyte, a request that fits no free block is served
-- outside it: the size is positive, the addresses leave room below 2 ^ 32 for one more header, and
-- the fuel is for one round more than there are blocks.
pub malloc-past_heap :
    (fuel n : ℕ) {m : Memory} (bs : List Block) {e : ℕ}
    → IsHeap m bs e
    → heap_start_address + heap_size ≤ e
    → first_fit n bs ≡ null
    → n ≢ 0
    → e + header_size < 4294967296
    → length bs < fuel
    → Returns (λ (p, m'). heap_start_address + heap_size + header_size ≤ p) (malloc fuel n m)
unfolding given
malloc-past_heap fuel n bs h full none_fits ne small enough =
    Maybe.mono (malloc_refines fuel n bs h ne small enough)
      λ (p, m') (at, heap, bytes). ground arith

abbrev taken : Block
taken = record whole { free = false }

first_request :
    (n : ℕ)
    → n ≤ heap_size - header_size
    → (given n 2097152 (whole ∷ []) ≡ heap_start_address + header_size)
      × (blocks_after n 2097152 (whole ∷ []) ≡ taken ∷ [])
      × (end_after n 2097152 (whole ∷ []) ≡ 2097152)
unfolding given blocks_after end_after first_fit mark
first_request n h = let fits : leb n 1048564 ≡ true = ground arith in rw fits (refl, refl, refl)

-- After `memory_init`, the first request, of a positive size of at most the heap's, takes the whole
-- heap, since blocks are not split; the second, of whatever positive size, is served at the first
-- address behind the heap's megabyte. Fuel for two rounds is enough.
pub malloc-twice :
    (n k fuel : ℕ) (m : Memory)
    → n ≢ 0
    → n ≤ heap_size - header_size
    → k ≢ 0
    → 1 < fuel
    → Returns
        (λ (p, m').
          (p ≡ heap_start_address + header_size)
          × Returns
              (λ (q, m''). q ≡ heap_start_address + heap_size + header_size)
              (malloc fuel k m'))
        (malloc fuel n (memory_init m))
unfolding given first_fit
malloc-twice n k fuel m ne fits ne' enough =
    let (first, left, stop) = first_request n fits in
    Maybe.mono
      (malloc_refines fuel n (whole ∷ []) (memory_init-IsHeap m) ne (omega arith) (omega arith))
      λ (p, m') (at, heap, bytes).
        let heap' : IsHeap m' (taken ∷ []) 2097152 = subst₂ (IsHeap m') left stop heap in
        (
          at ∙ first,
          Maybe.mono (malloc_refines fuel k (taken ∷ []) heap' ne' (omega arith) (omega arith))
              λ (q, m'') (at', heap'', bytes'). at',
        )
