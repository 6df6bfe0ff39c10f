-- ===== src/IntegerSet.antt =====
-- scheduler/src/finite_integer_set.rs: `FiniteIntegerSet<U, N>`, a set of the integers from 0 to N
-- as a vector of bytes. The element type `U` converts to and from `usize`, and is its number here;
-- a panic is `none`; a `HashSet` is the list of what was inserted, in order.
pub mod Valid
pub mod Zip
pub mod Members
pub mod Entries
pub mod Subsets
pub mod Tests
use Prim.Native.Nat.{bit_and, bit_or}
use fuzztruction_net.Base.{
  ℕ, zero, suc, ◌+◌, ◌*◌, ◌/◌, ◌%◌, ◌^◌, Bool, true, false, not, ◌&&◌, ◌||◌, Option, none, some,
  List, [], ◌∷◌, ◌++◌, ltb, leb, ◌==◌, if◌then◌else◌, get_elem?, get_or, set, take, replicate,
  ◌>>=◌,
}
use fuzztruction_net.Bits.{bit_at, not_u8}

pub record IntegerSet : Type 0 where
  pub bytes : List ℕ
  pub max_val : ℕ

pub new : ℕ → IntegerSet
new n = record { bytes = replicate (n / 8 + 1) 0; max_val = n }

-- The byte and the bit of an element; an element out of bounds panics.
pub idx : IntegerSet → ℕ → Option (ℕ × ℕ)
idx s elem = if leb elem s.max_val then some (elem / 8, elem % 8) else none

-- The flag says whether the element is new.
pub insert : ℕ → IntegerSet → Option (IntegerSet × Bool)
unfolding idx
insert elem s = do
  (i, j) ← idx s elem
  byte ← get_elem? s.bytes i
  some (record s { bytes = set s.bytes i (bit_or byte (2 ^ j)) }, bit_and byte (2 ^ j) == 0)

pub remove : ℕ → IntegerSet → Option IntegerSet
unfolding idx
remove elem s = do
  (i, j) ← idx s elem
  byte ← get_elem? s.bytes i
  some (record s { bytes = set s.bytes i (bit_and byte (not_u8 (2 ^ j))) })

-- The loop over the zipped bytes: what the shorter side does not reach stays as it is on the left.
pub zip_bytes : (ℕ → ℕ → ℕ) → List ℕ → List ℕ → List ℕ
zip_bytes f [] ys = []
zip_bytes f (x ∷ xs) [] = x ∷ xs
zip_bytes f (x ∷ xs) (y ∷ ys) = f x y ∷ zip_bytes f xs ys

pub bitor : IntegerSet → IntegerSet → IntegerSet
bitor s rhs = record s { bytes = zip_bytes bit_or s.bytes rhs.bytes }

pub bitand : IntegerSet → IntegerSet → IntegerSet
bitand s rhs = record s { bytes = zip_bytes bit_and s.bytes rhs.bytes }

pub sub : IntegerSet → IntegerSet → IntegerSet
sub s rhs = record s { bytes = zip_bytes (λ x y. bit_and x (not_u8 y)) s.bytes rhs.bytes }

pub symm_diff : IntegerSet → IntegerSet → IntegerSet
symm_diff s other = let in_both = bitand s other in sub (bitor s other) in_both

any_pos : List ℕ → Bool
any_pos [] = false
any_pos (x ∷ xs) = ltb 0 x || any_pos xs

pub empty : IntegerSet → Bool
unfolding any_pos
empty s = not (any_pos s.bytes)

-- The bits `idx`, `idx + 1`, … of one byte: `rounds` of them are left.
size_bits : ℕ → ℕ → ℕ → ℕ → ℕ
size_bits zero bit b ret = ret
size_bits (suc rounds) bit b ret =
    size_bits rounds (suc bit) b (if ltb 0 (bit_and b (2 ^ bit)) then ret + 1 else ret)

size_bytes : List ℕ → ℕ → ℕ
unfolding size_bits
size_bytes [] ret = ret
size_bytes (b ∷ bs) ret = size_bytes bs (size_bits 8 0 b ret)

pub size : IntegerSet → ℕ
unfolding size_bytes
size s = size_bytes s.bytes 0

entries_bits : ℕ → ℕ → ℕ → ℕ → List ℕ
entries_bits zero bit_idx byte_idx byte = []
entries_bits (suc rounds) bit_idx byte_idx byte =
    let rest = entries_bits rounds (suc bit_idx) byte_idx byte in
    if ltb 0 (bit_and byte (2 ^ bit_idx)) then (byte_idx * 8 + bit_idx) ∷ rest else rest

entries_bytes : ℕ → List ℕ → List ℕ
unfolding entries_bits
entries_bytes byte_idx [] = []
entries_bytes byte_idx (byte ∷ bs) =
    entries_bits 8 0 byte_idx byte ++ entries_bytes (suc byte_idx) bs

pub entries : IntegerSet → List ℕ
unfolding entries_bytes
entries s = entries_bytes 0 s.bytes

-- Whether a list holds a number: `HashSet::contains`.
abbrev pub elem : ℕ → List ℕ → Bool
elem e [] = false
elem e (x ∷ xs) = x == e || elem e xs

pub contains : IntegerSet → ℕ → Bool
unfolding entries
contains s id = elem id (entries s)

same_bytes : List ℕ → List ℕ → Bool
same_bytes [] [] = true
same_bytes [] (y ∷ ys) = false
same_bytes (x ∷ xs) [] = false
same_bytes (x ∷ xs) (y ∷ ys) = x == y && same_bytes xs ys

-- `==` of two sets.
pub eq : IntegerSet → IntegerSet → Bool
unfolding same_bytes
eq s other = same_bytes s.bytes other.bytes && s.max_val == other.max_val

insert_all : List ℕ → IntegerSet → Option IntegerSet
insert_all [] s = some s
insert_all (v ∷ vs) s = do (s', new) ← insert v s; insert_all vs s'

-- `collect()` into a set with the bound `n`.
pub from_iter : ℕ → List ℕ → Option IntegerSet
unfolding insert_all
from_iter n vs = insert_all vs (new n)

-- What a digit of the representation says of an element: the abstract view of the set.
abbrev pub digit : IntegerSet → ℕ → ℕ
digit s e = bit_at (get_or s.bytes (e / 8) 0) (e % 8)

-- The random choices of the `rand` crate: `choose_multiple` takes `amount` of the values, or all
-- of them if there are fewer, and `shuffle` changes the order only.
pub record Rng : Type 0 where
  pub choose_multiple : List ℕ → ℕ → List ℕ
  pub shuffle : List ℕ → List ℕ

-- `choose_random` and `get_sub_set`, for a set with the bound `n`.
pub choose_random : Rng → ℕ → IntegerSet → ℕ → Option IntegerSet
unfolding entries from_iter
choose_random rng n s max = from_iter n (rng.shuffle (rng.choose_multiple (entries s) max))

pub get_sub_set : Rng → ℕ → IntegerSet → ℕ → Option IntegerSet
unfolding entries from_iter
get_sub_set rng n s max = from_iter n (take max (rng.shuffle (entries s)))
