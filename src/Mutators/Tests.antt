-- ===== src/Mutators/Tests.antt =====
-- scheduler/src/fuzzer/worker_impl/mutators.rs: the mutators on small buffers.
use fuzztruction_net.Base.{ℕ, ◌≡◌, true, some, List, [], ◌∷◌, arith}
use fuzztruction_net.Mutators.{visit}
use fuzztruction_net.Mutators.Visits.{steps}
use fuzztruction_net.Mutators.FlipBit
use fuzztruction_net.Mutators.Counter
use fuzztruction_net.Mutators.Havoc
use fuzztruction_net.Mutators.Havoc.Stacks
use fuzztruction_net.Mutators.Combine
use fuzztruction_net.Mutators.Once

abbrev two_bytes : List ℕ
two_bytes = 1 ∷ 130 ∷ []

flip_bits_example :
    (t : FlipBit.FlipBit) × (steps FlipBit.next (λ t. t.buffer) 10 (FlipBit.new (1 ∷ []))
      ≡ some (
        (0 ∷ [])
            ∷ (3 ∷ [])
            ∷ (5 ∷ [])
            ∷ (9 ∷ [])
            ∷ (17 ∷ [])
            ∷ (33 ∷ [])
            ∷ (65 ∷ [])
            ∷ (129 ∷ [])
            ∷ [],
        t,
      ))
    × (t.buffer ≡ 1 ∷ [])
    × (FlipBit.drop t ≡ some (1 ∷ []))
flip_bits_example = FlipBit.flip_bits (1 ∷ []) 1 (omega arith)

drop-count_bytes_example :
    (t : Counter.U8Counter) × (steps Counter.next (λ t. t.buffer) 3 (Counter.new two_bytes)
      ≡ some ((1 ∷ 130 ∷ []) ∷ (0 ∷ 130 ∷ []) ∷ (3 ∷ 130 ∷ []) ∷ [], t))
    × (Counter.steps_done t ≡ 0)
    × (Counter.drop t ≡ some two_bytes)
drop-count_bytes_example = Counter.drop-count_bytes two_bytes 3 (omega arith)

count_bytes_example :
    (t : Counter.U8Counter) × (steps Counter.next (λ t. t.buffer) 2 (Counter.new []) ≡ some ([], t))
    × (t.buffer ≡ [])
    × (Counter.drop t ≡ some [])
count_bytes_example = Counter.count_bytes [] 1

havoc_stacks_example :
    (t : Havoc.Havoc) × (visit Havoc.next
        (λ t. t.buffer)
        ((0, 9, 0) ∷ (1, 0, 0) ∷ (6, 1, 7) ∷ (7, 0, 0) ∷ (0, 0, 0) ∷ [])
        (Havoc.new two_bytes 2 2)
      ≡ some ((1 ∷ 128 ∷ []) ∷ (254 ∷ 128 ∷ []) ∷ (1 ∷ 7 ∷ []) ∷ (128 ∷ 128 ∷ []) ∷ [], t))
    × (t.buffer ≡ two_bytes)
    × (Havoc.drop t ≡ some two_bytes)
havoc_stacks_example =
    Stacks.havoc_stacks two_bytes 2 2 ((0, 9, 0) ∷ (1, 0, 0) ∷ (6, 1, 7) ∷ (7, 0, 0) ∷ []) (0, 0, 0)
      [] (omega arith) (omega arith) (omega arith)

combine_masks_example :
    (t : Combine.CombineMutator) × (steps Combine.next
        (λ t. t.buffer)
        3
        (Combine.new two_bytes ((7 ∷ []) ∷ (8 ∷ 9 ∷ 10 ∷ []) ∷ []) true)
      ≡ some ((8 ∷ 9 ∷ []) ∷ (7 ∷ 130 ∷ []) ∷ [], t))
    × (t.buffer ≡ two_bytes)
    × (Combine.drop t ≡ some two_bytes)
combine_masks_example = Combine.combine_masks two_bytes ((7 ∷ []) ∷ (8 ∷ 9 ∷ 10 ∷ []) ∷ []) true 0

flip_all_example :
    (t : Once.FlipOnce) × (steps Once.next (λ t. t.buffer) 2 (Once.new two_bytes)
      ≡ some ((254 ∷ 125 ∷ []) ∷ [], t))
    × (t.buffer ≡ 254 ∷ 125 ∷ [])
    × (Once.drop t ≡ some two_bytes)
    × (Once.drop (Once.new two_bytes) ≡ some two_bytes)
    × (Once.steps_done t ≡ Once.steps_total t)
flip_all_example = Once.flip_all two_bytes 0 (omega arith, (omega arith, tt))
