-- ===== src/MockDriver/Inputs.antt =====
-- The simulated inputs: what the two helper methods change.
use openaslc.Base.{
  ℕ, ◌≤◌, ◌<◌, ◌≡◌, refl, Bool, not, ◌&&◌, arith, ◌==◌, ltb, if◌then◌else◌, length, length-set,
  get_or, get_or-set, map, List, [], ◌∷◌, All-set, All-get_or, All, length-replicate, All-replicate,
}
use openaslc.Base.Bits.{
  test_bit, put_bit, flip_bit, test_bit-put_bit, test_bit-flip_bit, put_bit-lt, flip_bit-lt,
}
use openaslc.MemoryMap.{input_size, IsByte}
use openaslc.MockDriver.{
  MockDriver, create, initialize, set_mock_input_bit, toggle_mock_input_bit, IsValid,
}

-- The bit `n` of simulated input byte `j`.
abbrev pub mock_bit : MockDriver → ℕ → ℕ → Bool
mock_bit d j n = test_bit (get_or d.mock_inputs j 0) n

pub create-IsValid : (print_changes : Bool) → IsValid (create print_changes)
unfolding create
create-IsValid print_changes = record {
  inputs_length = length-replicate {A = ℕ} _ 0;
  outputs_length = length-replicate {A = ℕ} _ 0;
  inputs_bytes = All-replicate IsByte 512 0 (omega arith);
  outputs_bytes = All-replicate IsByte 512 0 (omega arith);
}

length-zeros : (xs : List ℕ) → length {A = ℕ} (map (λ _. 0) xs) ≡ length xs
length-zeros [] = refl
length-zeros (x ∷ xs) = omega (arith, length-zeros xs)

zeros-bytes : (xs : List ℕ) → All IsByte (map (λ _. 0) xs)
zeros-bytes [] = tt
zeros-bytes (x ∷ xs) = (omega arith, zeros-bytes xs)

pub initialize-IsValid : {d : MockDriver} → IsValid d → IsValid (initialize d).0
unfolding initialize
initialize-IsValid {d} v = record {
  inputs_length = v.inputs_length;
  outputs_length = omega (arith, v.outputs_length, length-zeros d.previous_outputs);
  inputs_bytes = v.inputs_bytes;
  outputs_bytes = zeros-bytes d.previous_outputs;
}

input-IsByte : {d : MockDriver} (j : ℕ) → IsValid d → get_or d.mock_inputs j 0 < 256
input-IsByte {d} j v = All-get_or IsByte d.mock_inputs j 0 (omega arith) v.inputs_bytes

pub set_mock_input_bit-IsValid :
    {d : MockDriver} (i k : ℕ) (value : Bool) → IsValid d → IsValid (set_mock_input_bit d i k value)
unfolding set_mock_input_bit
set_mock_input_bit-IsValid {d} i k value v =
    let w = put_bit (get_or d.mock_inputs i 0) k value in
    ground (
      arith,
      length-set d.mock_inputs i w,
      All-set IsByte d.mock_inputs i w (put_bit-lt (get_or d.mock_inputs i 0) k value)
          v.inputs_bytes,
    )

pub toggle_mock_input_bit-IsValid :
    {d : MockDriver} (i k : ℕ) → IsValid d → IsValid (toggle_mock_input_bit d i k)
unfolding toggle_mock_input_bit
toggle_mock_input_bit-IsValid {d} i k v =
    let w = flip_bit (get_or d.mock_inputs i 0) k in
    ground (
      arith,
      length-set d.mock_inputs i w,
      All-set IsByte d.mock_inputs i w (flip_bit-lt (get_or d.mock_inputs i 0) k) v.inputs_bytes,
    )

-- `set_mock_input_bit` sets that input bit and no other; at a byte or a bit that does not exist it
-- changes no input bit.
pub set_mock_input_bit_lem :
    {d : MockDriver} (i k : ℕ) (value : Bool) (j n : ℕ)
    → IsValid d
    → n ≤ 7
    → mock_bit (set_mock_input_bit d i k value) j n
      ≡ (if ltb i input_size && ((j == i) && (n == k)) then value else mock_bit d j n)
unfolding set_mock_input_bit
set_mock_input_bit_lem {d} i k value j n v hn = ground (
  arith,
  v.inputs_length,
  get_or-set d.mock_inputs i j (put_bit (get_or d.mock_inputs i 0) k value) 0,
  test_bit-put_bit (get_or d.mock_inputs i 0) k n value (input-IsByte i v),
)

pub toggle_mock_input_bit_lem :
    {d : MockDriver} (i k j n : ℕ)
    → IsValid d
    → n ≤ 7
    → mock_bit (toggle_mock_input_bit d i k) j n ≡ (
        if ltb i input_size && ((j == i) && (n == k)) then not (mock_bit d j n) else mock_bit d j n)
unfolding toggle_mock_input_bit
toggle_mock_input_bit_lem {d} i k j n v hn = ground (
  arith,
  v.inputs_length,
  get_or-set d.mock_inputs i j (flip_bit (get_or d.mock_inputs i 0) k) 0,
  test_bit-flip_bit (get_or d.mock_inputs i 0) k n (input-IsByte i v),
)

-- Toggling the same place twice gives every input bit back.
pub toggle_twice :
    {d : MockDriver} (i k j n : ℕ)
    → IsValid d
    → n ≤ 7
    → mock_bit (toggle_mock_input_bit (toggle_mock_input_bit d i k) i k) j n ≡ mock_bit d j n
toggle_twice {d} i k j n v hn = ground (
  arith,
  toggle_mock_input_bit_lem i k j n (toggle_mock_input_bit-IsValid i k v) hn,
  toggle_mock_input_bit_lem i k j n v hn,
)
