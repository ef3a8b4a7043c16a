-- ===== src/Hashlib/Feeder.antt =====
-- Sha1BlockFeeder: the blocks of 64 bytes that a text is hashed in.
use cpp_experiments.Common.{
  ℕ, zero, suc, ◌+◌, ◌-◌, ◌*◌, ◌/◌, ◌%◌, ◌^◌, Bool, true, false, Option, none, some, List, [], ◌∷◌,
  ◌++◌, ltb, leb, if◌then◌else◌, length, replicate, take, drop,
}
use cpp_experiments.Common.Bytes.{Bytes}

pub data FeederState : Type 0 where
  copy_bytes add_80 zero_pad write_len finished : FeederState

pub record Feeder : Type 0 where
  pub bytes : Bytes
  pub pos : ℕ
  pub state : FeederState

-- What a step of `nextBlock` leaves: the bytes that are filled, behind which the chunk is zero,
-- and the state.
abbrev pub Filled : Type 0
Filled = Bytes × FeederState

abbrev pub copy_step : Bytes → ℕ → FeederState → Filled
copy_step bytes pos copy_bytes =
    let filled = if leb (pos + 64) (length bytes) then 64 else length bytes - pos in
    (take filled (drop pos bytes), if leb (length bytes) (pos + filled) then add_80 else copy_bytes)
copy_step bytes pos state = ([], state)

abbrev pub add_step : Filled → Filled
add_step (chunk, add_80) =
    if ltb (length chunk) 64 then (chunk ++ 0x80 ∷ [], zero_pad) else (chunk, add_80)
add_step (chunk, state) = (chunk, state)

abbrev pub pad_step : Filled → Filled
pad_step (chunk, zero_pad) =
    if ltb (length chunk) 64
    then (
      chunk ++ replicate ((if leb (length chunk) 56 then 56 else 64) - length chunk) 0,
      write_len,
    )
    else (chunk, zero_pad)
pad_step (chunk, state) = (chunk, state)

-- The bytes of a number from the highest: `(bitLen >> (i * 8))` for i from 7 to 0.
unfoldable pub big_endian : ℕ → ℕ → Bytes
big_endian zero n = []
big_endian (suc k) n = (n / 256 ^ k % 256) ∷ big_endian k n

abbrev pub len_step : ℕ → Filled → Filled
len_step size (chunk, write_len) =
    if ltb (length chunk) 64
    then (chunk ++ big_endian 8 (size * 8 % 2 ^ 64), finished)
    else (chunk, write_len)
len_step size (chunk, state) = (chunk, state)

-- `chunk.fill(0)`: what is not filled is zero.
abbrev pub zero_filled : Bytes → Bytes
zero_filled chunk = chunk ++ replicate (64 - length chunk) 0

abbrev pub block_of : Feeder → Filled → Bytes × Feeder
block_of f (chunk, state) =
    (zero_filled chunk, record f { pos = f.pos + length chunk; state = state })

abbrev pub is_finished : FeederState → Bool
is_finished finished = true
is_finished state = false

-- nextBlock
unfoldable pub next_block : Feeder → Option (Bytes × Feeder)
unfolding big_endian
next_block f =
    if is_finished f.state
    then none
    else some (
        block_of f
          (len_step (length f.bytes) (pad_step (add_step (copy_step f.bytes f.pos f.state)))))

-- The blocks that the loop of `sha1` gets. A text of n bytes has at most n / 64 + 2.
unfoldable pub blocks : ℕ → Feeder → List Bytes
unfolding next_block
blocks zero f = []
blocks (suc fuel) f = elim (next_block f) [ none ↦ [] | some (chunk, g) ↦ chunk ∷ blocks fuel g ]

unfoldable pub all_blocks : Bytes → List Bytes
unfolding blocks
all_blocks bytes =
    blocks (length bytes / 64 + 3) (record { bytes = bytes; pos = 0; state = copy_bytes })
