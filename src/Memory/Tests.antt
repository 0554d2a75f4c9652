-- ===== src/Memory/Tests.antt =====
-- The allocator at concrete inputs.
use first_os_build.Prelude.{
  length, ℕ, ◌+◌, ◌<◌, ◌≤◌, ◌==◌, if◌then◌else◌, ◌≡◌, ◌≢◌, ◌⊎◌, refl, true, false, none, some, List,
  [], ◌∷◌, arith, Returns, inl, inr,
}
use first_os_build.Memory.{
  Memory, header_size, heap_size, heap_start_address, memory_init, malloc, free,
}
use first_os_build.Memory.Blocks.{Block, On, mark, merge}
use first_os_build.Memory.Chain.{end, link}
use first_os_build.Memory.Allocate.{IsHeap, given, blocks_after, end_after, malloc_refines}
use first_os_build.Memory.Release.{free_refines}
use first_os_build.Memory.Laws.{Granted, malloc-Granted}
use first_os_build.Memory.Free.{
  Merged, IsFreed, whole, free-Merged, memory_init-IsHeap, malloc-twice,
}

abbrev blank_memory : Memory
blank_memory = record { heap_start = 0; header = λ p. none; byte = λ p. p }

abbrev first : Block
first = record { address = 0x100000; size = 100; free = false }

abbrev second : Block
second = record { address = 0x100070; size = 50; free = true }

abbrev third : Block
third = record { address = 0x1000AE; size = 0x100000; free = false }

abbrev blocks : List Block
blocks = first ∷ second ∷ third ∷ []

-- Three blocks: the second free, the third up to behind the heap's megabyte.
abbrev busy : Memory
busy = record {
  heap_start = 0x100000;
  header = λ p.
      if p == 0x100000
      then some (record { size = 100; next = 0x100070; is_free = false })
      else if p == 0x100070
      then some (record { size = 50; next = 0x1000AE; is_free = true })
      else if p == 0x1000AE
      then some (record { size = 0x100000; next = 0; is_free = false })
      else none;
  byte = λ p. p;
}

busy-IsHeap : IsHeap busy blocks 0x2000BA
busy-IsHeap = record {
  starts = refl;
  chain =
      link (omega arith) refl refl
        (link (omega arith) refl refl (link (omega arith) refl refl end));
  laid = (refl, (refl, (refl, refl)));
}

malloc_refines_example :
    Returns
      (λ (p, m').
        (p ≡ given 40 0x2000BA blocks)
        × IsHeap m' (blocks_after 40 0x2000BA blocks) (end_after 40 0x2000BA blocks)
        × (m'.byte ≡ busy.byte))
      (malloc 4 40 busy)
malloc_refines_example =
    malloc_refines 4 40 blocks busy-IsHeap (omega arith) (omega arith) (omega arith)

malloc-Granted_example :
    Returns
      (λ (p, m').
        (bs' : List Block) × (e' : ℕ) × IsHeap m' bs' e'
        × Granted 60 blocks bs' p
        × (p + 60 ≤ e')
        × (e' < 4294967296)
        × ((c : Block)
            → On c blocks
            → c.free ≡ false
            → (c.address + header_size + c.size ≤ p) ⊎ (p + 60 ≤ c.address)))
      (malloc 4 60 busy)
malloc-Granted_example =
    malloc-Granted 4 60 blocks busy-IsHeap (omega arith) (omega arith) (omega arith)

free_refines_example :
    Returns
      (λ m'. IsHeap m' (merge (mark first.address true blocks)) 0x2000BA × (m'.byte ≡ busy.byte))
      (free 3 (first.address + header_size) busy)
free_refines_example =
    free_refines 3 first blocks busy-IsHeap (inl refl) (omega arith) (omega arith)

free-Merged_example :
    Returns
      (λ m'.
        (bs' : List Block) × IsHeap m' bs' 0x2000BA
        × IsFreed third bs'
        × Merged bs'
        × (length bs' ≤ length blocks)
        × ((c : Block) → On c blocks → c.free ≡ false → c.address ≢ third.address → On c bs')
        × (m'.byte ≡ busy.byte))
      (free 3 (third.address + header_size) busy)
free-Merged_example =
    free-Merged 3 third blocks busy-IsHeap (inr (inr (inl refl))) (omega arith) (omega arith)

malloc-twice_example :
    Returns
      (λ (p, m').
        (p ≡ heap_start_address + header_size)
        × Returns (λ (q, m''). q ≡ heap_start_address + heap_size + header_size) (malloc 2 1 m'))
      (malloc 2 16 (memory_init blank_memory))
malloc-twice_example =
    malloc-twice 16 1 2 blank_memory (omega arith) (omega arith) (omega arith) (omega arith)

memory_init-IsHeap_example :
    IsHeap (memory_init blank_memory) (whole ∷ []) (heap_start_address + heap_size)
memory_init-IsHeap_example = memory_init-IsHeap blank_memory
