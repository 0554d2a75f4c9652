-- ===== src/Memory/Blocks.antt =====
-- kernel/memory.cpp: what the allocator promises, over the list of its blocks by rising address.
use first_os_build.Prelude.{ℕ, ◌+◌, ◌≡◌, Bool, ◌&&◌, List, [], ◌∷◌, ◌⊎◌, leb, ◌==◌, if◌then◌else◌}
use first_os_build.Memory.{Ptr, null, header_size}

pub record Block : Type 0 where
  pub address : Ptr
  pub size : ℕ
  pub free : Bool

-- The header of the first free block of at least `n` bytes, or null.
unfoldable pub first_fit : ℕ → List Block → Ptr
first_fit n [] = null
first_fit n (b ∷ bs) = if b.free && leb n b.size then b.address else first_fit n bs

-- The block before it, or the last block; `p` where there is none.
unfoldable pub before_fit : ℕ → Ptr → List Block → Ptr
before_fit n p [] = p
before_fit n p (b ∷ bs) = if b.free && leb n b.size then p else before_fit n b.address bs

unfoldable pub mark : Ptr → Bool → List Block → List Block
mark p f [] = []
mark p f (b ∷ bs) = if b.address == p then record b { free = f } ∷ bs else b ∷ mark p f bs

-- Each run of free blocks becomes one, its inner headers part of its space.
unfoldable pub merge_from : Block → List Block → List Block
merge_from b [] = b ∷ []
merge_from b (c ∷ cs) =
    let merged = merge_from (record b { size = b.size + header_size + c.size }) cs in
    let apart = b ∷ merge_from c cs in if b.free && c.free then merged else apart

unfoldable pub merge : List Block → List Block
merge [] = []
merge (b ∷ bs) = merge_from b bs

-- The blocks follow one another from `a` to `e` with no gap.
abbrev pub Laid : ℕ → List Block → ℕ → Type 0
Laid a [] e = a ≡ e
Laid a (b ∷ bs) e = (b.address ≡ a) × Laid (a + header_size + b.size) bs e

-- The block with its header at `p` is on the list.
abbrev pub On : Block → List Block → Type 0
On b [] = ⊥
On b (c ∷ cs) = (b ≡ c) ⊎ On b cs
