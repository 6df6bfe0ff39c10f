-- ===== src/Cache/Blocks.antt =====
-- The entries that a cache holds: what stands in its memory and its descriptor table.
use fuzztruction_net.Base.{
  ℕ, zero, suc, ◌+◌, ◌-◌, ◌≤◌, ◌<◌, ◌≡◌, ◌⊎◌, refl, subst, true, false, ◌^◌, Option, none, some,
  List, [], ◌∷◌, ◌++◌, arith, ltb, leb, length, get_elem?, set, replicate,
}
use fuzztruction_net.Cache.{Sizes, Memory, Content, entry_at, entry_ref, entries_of, copy_entry}
use fuzztruction_net.Cache.EntryData.{Entry, size, size-pos}

-- The bytes of the entries.
abbrev pub total : ℕ → List Entry → ℕ
total m [] = 0
total m (e ∷ es) = size m e + total m es

-- Each byte of the entry stands in its place.
abbrev pub Block : Memory → ℕ → Entry → ℕ → Type 0
Block memory offset e n = (k : ℕ) → k < n → memory (offset + k) ≡ some (e, k)

-- From byte `low` on, the table's descriptors point to the blocks of the entries, in order, apart from each
-- other and below `high`.
abbrev pub Blocks : ℕ → Memory → ℕ → List (Option ℕ) → ℕ → List Entry → Type 0
Blocks m memory low [] high [] = low ≤ high
Blocks m memory low [] high (e ∷ es) = ⊥
Blocks m memory low (none ∷ tbl) high es = Blocks m memory low tbl high es
Blocks m memory low (some offset ∷ tbl) high [] = ⊥
Blocks m memory low (some offset ∷ tbl) high (e ∷ es) =
    (low ≤ offset)
    × Block memory offset e (size m e)
    × Blocks m memory (offset + size m e) tbl high es

-- The slots from slot `n` on are free.
abbrev pub FreeFrom : ℕ → List (Option ℕ) → Type 0
FreeFrom n [] = Unit {0}
FreeFrom zero (some offset ∷ tbl) = ⊥
FreeFrom zero (none ∷ tbl) = FreeFrom zero tbl
FreeFrom (suc n) (s ∷ tbl) = FreeFrom n tbl

-- The content holds the entries of the list, in order: all fit below the total size, and no slot behind
-- the next free one is taken, which is free itself unless it is the last.
abbrev pub Holds : Sizes → Content → List Entry → Type 0
Holds z s es =
    (s.next_free_slot < length s.entry_descriptor_tbl)
    × FreeFrom (suc s.next_free_slot) s.entry_descriptor_tbl
    × ((get_elem? s.entry_descriptor_tbl s.next_free_slot ≡ some none)
        ⊎ (suc s.next_free_slot ≡ z.max_entries))
    × Blocks z.metadata s.memory 0 s.entry_descriptor_tbl s.current_data_size es
    × (z.content + s.current_data_size ≤ s.total_size)
    × (s.total_size < 2 ^ 64)
    × (length s.entry_descriptor_tbl ≡ z.max_entries)

pub entries_of-Blocks :
    (m : ℕ) (memory : Memory) (low : ℕ) (tbl : List (Option ℕ)) (high : ℕ) (es : List Entry)
    → Blocks m memory low tbl high es
    → entries_of memory tbl ≡ some es
unfolding entries_of entry_ref entry_at
entries_of-Blocks m memory low [] high [] h = refl
entries_of-Blocks m memory low [] high (e ∷ es) h = elim h [ ]
entries_of-Blocks m memory low (none ∷ tbl) high es h = entries_of-Blocks m memory low tbl high es h
entries_of-Blocks m memory low (some offset ∷ tbl) high [] h = elim h [ ]
entries_of-Blocks m memory low (some offset ∷ tbl) high (e ∷ es) (l, b, r) =
    let p : memory (offset + 0) ≡ some (e, 0) = b 0 (size-pos m e) in
    let q : offset + 0 ≡ offset = omega arith in
    let p' : memory offset ≡ some (e, 0) = subst (λ k. memory k ≡ some (e, 0)) q p in
    rw p' (rw (entries_of-Blocks m memory (offset + size m e) tbl high es r) refl)

Blocks-weaken :
    (m : ℕ) (memory : Memory) (low : ℕ) (tbl : List (Option ℕ)) (high high' : ℕ) (es : List Entry)
    → high ≤ high'
    → Blocks m memory low tbl high es
    → Blocks m memory low tbl high' es
Blocks-weaken m memory low [] high high' [] l h = omega arith
Blocks-weaken m memory low [] high high' (e ∷ es) l h = h
Blocks-weaken m memory low (none ∷ tbl) high high' es l h =
    Blocks-weaken m memory low tbl high high' es l h
Blocks-weaken m memory low (some offset ∷ tbl) high high' [] l h = h
Blocks-weaken m memory low (some offset ∷ tbl) high high' (e ∷ es) l (a, b, r) =
    (a, b, Blocks-weaken m memory (offset + size m e) tbl high high' es l r)

pub Blocks-le :
    (m : ℕ) (memory : Memory) (low : ℕ) (tbl : List (Option ℕ)) (high : ℕ) (es : List Entry)
    → Blocks m memory low tbl high es
    → low + total m es ≤ high
Blocks-le m memory low [] high [] h = omega arith
Blocks-le m memory low [] high (e ∷ es) h = elim h [ ]
Blocks-le m memory low (none ∷ tbl) high es h = Blocks-le m memory low tbl high es h
Blocks-le m memory low (some offset ∷ tbl) high [] h = elim h [ ]
Blocks-le m memory low (some offset ∷ tbl) high (e ∷ es) (a, b, r) =
    omega (arith, Blocks-le m memory (offset + size m e) tbl high es r)

pub Blocks-length :
    (m : ℕ) (memory : Memory) (low : ℕ) (tbl : List (Option ℕ)) (high : ℕ) (es : List Entry)
    → Blocks m memory low tbl high es
    → length es ≤ length tbl
Blocks-length m memory low [] high [] h = omega arith
Blocks-length m memory low [] high (e ∷ es) h = elim h [ ]
Blocks-length m memory low (none ∷ tbl) high es h =
    omega (arith, Blocks-length m memory low tbl high es h)
Blocks-length m memory low (some offset ∷ tbl) high [] h = elim h [ ]
Blocks-length m memory low (some offset ∷ tbl) high (e ∷ es) (a, b, r) =
    omega (arith, Blocks-length m memory (offset + size m e) tbl high es r)

-- A copy behind all blocks leaves them as they are.
pub Blocks-copy_entry :
    (m : ℕ) (memory : Memory) (low : ℕ) (tbl : List (Option ℕ)) (high : ℕ) (es : List Entry)
    (e : Entry) (n : ℕ)
    → Blocks m memory low tbl high es
    → Blocks m (copy_entry e n high memory) low tbl high es
unfolding copy_entry
Blocks-copy_entry m memory low [] high [] e n h = h
Blocks-copy_entry m memory low [] high (x ∷ es) e n h = h
Blocks-copy_entry m memory low (none ∷ tbl) high es e n h =
    Blocks-copy_entry m memory low tbl high es e n h
Blocks-copy_entry m memory low (some offset ∷ tbl) high [] e n h = h
Blocks-copy_entry m memory low (some offset ∷ tbl) high (x ∷ es) e n (a, b, r) = (
  a,
  (λ k lt.
      let q : leb high (offset + k) ≡ false =
        ground (arith, Blocks-le m memory (offset + size m x) tbl high es r) in
      rw q (b k lt)),
  Blocks-copy_entry m memory (offset + size m x) tbl high es e n r,
)

Block-copy_entry :
    (memory : Memory) (e : Entry) (n high : ℕ) → Block (copy_entry e n high memory) high e n
unfolding copy_entry
Block-copy_entry memory e n high k lt =
    let q : leb high (high + k) ≡ true = ground arith in
    let r : ltb (high + k) (high + n) ≡ true = ground arith in
    let d : high + k - high ≡ k = omega arith in rw (q, r, d) refl

free_empty :
    (m : ℕ) (memory : Memory) (low : ℕ) (tbl : List (Option ℕ)) (high : ℕ) (x : Entry)
    (es : List Entry)
    → FreeFrom 0 tbl
    → Blocks m memory low tbl high (x ∷ es)
    → ⊥
free_empty m memory low [] high x es f h = h
free_empty m memory low (none ∷ tbl) high x es f h = free_empty m memory low tbl high x es f h
free_empty m memory low (some offset ∷ tbl) high x es f h = f

free-Blocks :
    (m : ℕ) (memory : Memory) (low : ℕ) (tbl : List (Option ℕ)) (high : ℕ)
    → FreeFrom 0 tbl
    → low ≤ high
    → Blocks m memory low tbl high []
free-Blocks m memory low [] high f h = h
free-Blocks m memory low (none ∷ tbl) high f h = free-Blocks m memory low tbl high f h
free-Blocks m memory low (some offset ∷ tbl) high f h = f

-- The block of an entry that was copied behind the others, and its descriptor in a free slot, add the entry.
pub Blocks-push :
    (m : ℕ) (memory : Memory) (low i : ℕ) (tbl : List (Option ℕ)) (high : ℕ) (es : List Entry)
    (e : Entry)
    → i < length tbl
    → FreeFrom i tbl
    → Blocks m memory low tbl high es
    → Blocks m
        (copy_entry e (size m e) high memory)
        low
        (set tbl i (some high))
        (high + size m e)
        (es ++ e ∷ [])
Blocks-push m memory low i [] high es e lt f h = elim lt [ ]
Blocks-push m memory low zero (some offset ∷ tbl) high es e lt f h = elim f [ ]
Blocks-push m memory low zero (none ∷ tbl) high (x ∷ es) e lt f h =
    absurd (free_empty m memory low tbl high x es f h)
Blocks-push m memory low zero (none ∷ tbl) high [] e lt f h =
    let l : low ≤ high = omega (arith, Blocks-le m memory low tbl high [] h) in
    let n : high + size m e ≤ high + size m e = omega arith in
    (
      l,
      Block-copy_entry memory e (size m e) high,
      free-Blocks m (copy_entry e (size m e) high memory) (high + size m e) tbl (high + size m e) f
          n,
    )
Blocks-push m memory low (suc i) (none ∷ tbl) high es e lt f h =
    Blocks-push m memory low i tbl high es e (omega arith) f h
Blocks-push m memory low (suc i) (some offset ∷ tbl) high [] e lt f h = elim h [ ]
Blocks-push m memory low (suc i) (some offset ∷ tbl) high (x ∷ es) e lt f (a, b, r) =
    let c =
      Blocks-copy_entry m memory low (some offset ∷ tbl) high (x ∷ es) e (size m e) (a, b, r) in
    (a, c.1, Blocks-push m memory (offset + size m x) i tbl high es e (omega arith) f r)

-- All slots are free in a filled table.
pub replicate-FreeFrom : (n k : ℕ) → FreeFrom n (replicate k none)
replicate-FreeFrom n zero = tt
replicate-FreeFrom zero (suc k) = replicate-FreeFrom zero k
replicate-FreeFrom (suc n) (suc k) = replicate-FreeFrom n k

-- A slot taken out of the table frees nothing behind it and takes no other.
pub FreeFrom-suc : (n : ℕ) (tbl : List (Option ℕ)) → FreeFrom n tbl → FreeFrom (suc n) tbl
FreeFrom-suc n [] f = tt
FreeFrom-suc zero (none ∷ tbl) f = f
FreeFrom-suc zero (some offset ∷ tbl) f = elim f [ ]
FreeFrom-suc (suc n) (s ∷ tbl) f = FreeFrom-suc n tbl f

pub FreeFrom-set :
    (n i : ℕ) (tbl : List (Option ℕ)) (v : Option ℕ)
    → i < n
    → FreeFrom n tbl
    → FreeFrom n (set tbl i v)
FreeFrom-set n i [] v lt f = f
FreeFrom-set zero i (s ∷ tbl) v lt f = elim lt [ ]
FreeFrom-set (suc n) zero (s ∷ tbl) v lt f = f
FreeFrom-set (suc n) (suc i) (s ∷ tbl) v lt f = FreeFrom-set n i tbl v (omega arith) f

pub FreeFrom-none : (n i : ℕ) (tbl : List (Option ℕ)) → FreeFrom n tbl → FreeFrom n (set tbl i none)
FreeFrom-none n i [] f = f
FreeFrom-none zero zero (none ∷ tbl) f = f
FreeFrom-none zero (suc i) (none ∷ tbl) f = FreeFrom-none zero i tbl f
FreeFrom-none zero i (some offset ∷ tbl) f = elim f [ ]
FreeFrom-none (suc n) zero (s ∷ tbl) f = f
FreeFrom-none (suc n) (suc i) (s ∷ tbl) f = FreeFrom-none n i tbl f

pub get_elem?-FreeFrom :
    (i : ℕ) (tbl : List (Option ℕ)) → i < length tbl → FreeFrom i tbl → get_elem? tbl i ≡ some none
get_elem?-FreeFrom i [] lt f = elim lt [ ]
get_elem?-FreeFrom zero (none ∷ tbl) lt f = refl
get_elem?-FreeFrom zero (some offset ∷ tbl) lt f = elim f [ ]
get_elem?-FreeFrom (suc i) (s ∷ tbl) lt f = get_elem?-FreeFrom i tbl (omega arith) f

pub FreeFrom-get_elem? :
    (i : ℕ) (tbl : List (Option ℕ))
    → get_elem? tbl i ≡ some none
    → FreeFrom (suc i) tbl
    → FreeFrom i tbl
FreeFrom-get_elem? i [] e f = tt
FreeFrom-get_elem? zero (none ∷ tbl) e f = f
FreeFrom-get_elem? zero (some offset ∷ tbl) e f = absurd (ground arith)
FreeFrom-get_elem? (suc i) (s ∷ tbl) e f = FreeFrom-get_elem? i tbl e f
