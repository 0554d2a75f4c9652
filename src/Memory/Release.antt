-- ===== src/Memory/Release.antt =====
-- kernel/memory.cpp: `free` and its coalescing loop against the list of blocks.
use first_os_build.Prelude.{
  ℕ, zero, suc, ◌+◌, ◌-◌, ◌%◌, ◌≤◌, ◌<◌, ◌≡◌, ◌≢◌, refl, Bool, true, false, ◌&&◌, List, [], ◌∷◌,
  ◌==◌, some, arith, Bool-cases, inl, inr, length, Returns, returns, subst, sym, ◌∙◌,
}
use first_os_build.Prelude.Maybe
use first_os_build.Memory.{
  Ptr, null, header_size, heap_start_address, Memory, set_header, coalesce, free,
}
use first_os_build.Memory.Blocks.{Block, On, Laid, mark, merge, merge_from}
use first_os_build.Memory.Chain.{
  Chain, end, link, meta_of, load-link, store-link, Laid-le, Laid-above, mark-Chain,
  frame-set_header,
}
use first_os_build.Memory.Allocate.{IsHeap, Laid-mark, Chain-nil}

-- What the loop leaves: the merged chain, and all that lies below its start.
record Coalesced (m : Memory) (p : Ptr) (bs : List Block) (m' : Memory) : Type 0 where
  chain : Chain m' p bs
  starts : m'.heap_start ≡ m.heap_start
  below : (q : Ptr) → q < p → m'.header q ≡ m.header q
  bytes : m'.byte ≡ m.byte

coalesce_loop :
    (fuel : ℕ) (m : Memory) (b : Block) (bs : List Block) (p e : ℕ)
    → Chain m p (b ∷ bs)
    → Laid p (b ∷ bs) e
    → e ≤ 4294967295
    → length bs < fuel
    → Returns (Coalesced m p (merge_from b bs)) (coalesce fuel p m)
unfolding coalesce merge_from
coalesce_loop zero m b bs p e ch l small enough = absurd (omega arith)
coalesce_loop (suc fuel) m b [] p e (link ne at eq end) l small enough =
    let here : (p == null) ≡ false = ground arith in
    rw (here, load-link m ne eq)
      (returns
        (record { chain = link ne at eq end; starts = refl; below = λ q h. refl; bytes = refl }))
coalesce_loop (suc fuel) m b (c ∷ cs) p e (link ne at eq (link {p = q} {next} ne' at' eq' ch))
      (la, (lb, l)) small enough =
    let here : (p == null) ≡ false = ground arith in
    let more : (q == null) ≡ false = ground arith in
    let upper = Laid-le cs (p + header_size + b.size + header_size + c.size) e l in
    let fits : (b.size + header_size + c.size) % 4294967296 ≡ b.size + header_size + c.size =
      omega (arith, upper) in
    rw (here, load-link m ne eq, more, load-link m ne' eq')
      (elim (Bool-cases (b.free && c.free)) [
        | inl both ↦
            let b' = record b { size = b.size + header_size + c.size } in
            let m' = set_header p (meta_of b' next) m in
            let far : p + header_size + b.size + header_size + c.size ≡ p + header_size + b'.size =
              omega arith in
            let l' : Laid (p + header_size + b'.size) cs e = subst (λ a. Laid a cs e) far l in
            rw (both, fits, store-link m (meta_of b' next) ne eq)
              (Maybe.mono
                (coalesce_loop fuel m' b' cs p e
                  (link ne at (ground arith) (
                    frame-set_header p (meta_of b' next) ch
                      (Laid-above cs (p + header_size + b'.size) e l' (omega arith))))
                  (la, l') small (omega arith))
                λ r done. record {
                  chain = done.chain;
                  starts = done.starts;
                  below = λ k lt. done.below k lt ∙ ground arith;
                  bytes = done.bytes;
                })
        | inr apart ↦
            let far : p + header_size + b.size + header_size + c.size ≡ q + header_size + c.size =
              ground arith in
            rw apart (
              Maybe.mono
                (coalesce_loop fuel m c cs q e (link ne' at' eq' ch)
                  (at', subst (λ a. Laid a cs e) far l) small (omega arith))
                λ r done. record {
                  chain = link ne at (done.below p (omega arith) ∙ eq) done.chain;
                  starts = done.starts;
                  below = λ k lt. done.below k (omega arith);
                  bytes = done.bytes;
                })
      ])

coalesce_refines :
    (fuel : ℕ) (m : Memory) (bs : List Block) (p e : ℕ)
    → Chain m p bs
    → Laid p bs e
    → e ≤ 4294967295
    → length bs ≤ fuel
    → p ≢ null
    → Returns (Coalesced m p (merge bs)) (coalesce fuel p m)
unfolding merge
coalesce_refines fuel m [] p e ch l small enough ne = absurd (ne (Chain-nil ch))
coalesce_refines fuel m (b ∷ bs) p e ch l small enough ne =
    coalesce_loop fuel m b bs p e ch l small (omega arith)

merge_from-Laid :
    (b : Block) (bs : List Block) (a e : ℕ) → Laid a (b ∷ bs) e → Laid a (merge_from b bs) e
unfolding merge_from
merge_from-Laid b [] a e l = l
merge_from-Laid b (c ∷ cs) a e (la, (lb, l)) =
    let far : a + header_size + b.size + header_size + c.size
        ≡ a + header_size + (b.size + header_size + c.size) =
      omega arith in
    elim (Bool-cases (b.free && c.free)) [
      | inl both ↦ rw both (
          merge_from-Laid (record b { size = b.size + header_size + c.size }) cs a e
            (la, subst (λ k. Laid k cs e) far l))
      | inr apart ↦ rw apart (la, merge_from-Laid c cs (a + header_size + b.size) e (lb, l))
    ]

pub merge-Laid : (bs : List Block) (a e : ℕ) → Laid a bs e → Laid a (merge bs) e
unfolding merge
merge-Laid [] a e l = l
merge-Laid (b ∷ bs) a e l = merge_from-Laid b bs a e l

pub length-mark : (q : Ptr) (f : Bool) (bs : List Block) → length (mark q f bs) ≡ length bs
unfolding mark
length-mark q f [] = refl
length-mark q f (b ∷ bs) = ground (arith, length-mark q f bs)

pub On-header :
    (b : Block) {m : Memory} {p : Ptr} {bs : List Block}
    → Chain m p bs
    → On b bs
    → (next : Ptr) × (m.header b.address ≡ some (meta_of b next)) × (b.address ≢ null)
On-header b end o = absurd o
On-header b (link {next} ne at eq ch) (inl e) = (next, ground arith, ground arith)
On-header b (link ne at eq ch) (inr o) = On-header b ch o

pub On-bounds :
    (b : Block) (bs : List Block) (a e : ℕ)
    → Laid a bs e
    → On b bs
    → (a ≤ b.address) × (b.address + header_size + b.size ≤ e)
On-bounds b [] a e l o = absurd o
On-bounds b (c ∷ cs) a e (at, l) (inl eq) =
    ground (arith, Laid-le cs (a + header_size + c.size) e l)
On-bounds b (c ∷ cs) a e (at, l) (inr o) =
    let (lo, hi) = On-bounds b cs (a + header_size + c.size) e l o in (omega arith, hi)

-- In a heap that ends below 2 ^ 32, freeing the space of a block ends within fuel for one round for
-- each block. It marks that block free, merges every run of free blocks, and changes no byte.
pub free_refines :
    (fuel : ℕ) {m : Memory} (b : Block) (bs : List Block) {e : ℕ}
    → IsHeap m bs e
    → On b bs
    → e ≤ 4294967295
    → length bs ≤ fuel
    → Returns
        (λ m'. IsHeap m' (merge (mark b.address true bs)) e × (m'.byte ≡ m.byte))
        (free fuel (b.address + header_size) m)
unfolding free
free_refines fuel {m} b bs {e} h o small enough =
    let (next, eq, ne) = On-header b h.chain o in
    let bounds = On-bounds b bs heap_start_address e h.laid o in
    let not_null : (b.address + header_size == null) ≡ false = ground arith in
    let back : (b.address + header_size + 4294967296 - header_size) % 4294967296 ≡ b.address =
      omega (arith, bounds) in
    let freed = meta_of (record b { free = true }) next in
    rw (not_null, back, load-link m ne eq, store-link m freed ne eq)
      (subst
        (λ q.
          Returns (λ m'. IsHeap m' (merge (mark b.address true bs)) e × (m'.byte ≡ m.byte))
            (coalesce fuel q (set_header b.address freed m)))
        (sym h.starts)
        (Maybe.mono
          (coalesce_refines fuel (set_header b.address freed m) (mark b.address true bs)
            heap_start_address e (mark-Chain b.address true heap_start_address e h.chain h.laid eq)
            (Laid-mark b.address true bs heap_start_address e h.laid) small
            (omega (arith, length-mark b.address true bs)) (omega arith))
          λ m' done. (
            record {
              starts = done.starts ∙ h.starts;
              chain = done.chain;
              laid =
                  merge-Laid (mark b.address true bs) heap_start_address e
                    (Laid-mark b.address true bs heap_start_address e h.laid);
            },
            done.bytes,
          )))
