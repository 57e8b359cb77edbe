-- ===== src/JrodonV3/SharedBuffer.antt =====
-- contenders/rust/jrodon-v3/src/shared_buffer.rs: the buffer of a part and the slices into which it
-- is split. A buffer has one `SharedBuf` and its live slices, so that the strong count of the `Arc`
-- is one more than the number of slices. Of a slice, its place is modelled, not its bytes.
pub mod Apart
use demo_s3_archiving.Prelude.{ℕ, ◌+◌, ◌-◌, ◌≤◌, ◌≡◌, List, [], ◌∷◌, ◌++◌, Option, none, some}
use demo_s3_archiving.Prelude.{length, ◌==◌, if◌then◌else◌}

pub record BufSlice : Type 0 where
  pub start_at : ℕ
  pub slice_length : ℕ

-- The length of the vector, and the slices that are alive.
pub record SharedBuf : Type 0 where
  pub len : ℕ
  pub slices : List BufSlice

unfoldable pub with_capacity : ℕ → SharedBuf
with_capacity len = record { len = len; slices = [] }

unfoldable pub strong_count : SharedBuf → ℕ
strong_count b = 1 + length b.slices

-- `SharedBuf::slice`; `none` is the error that a slice already exists.
unfoldable pub slice : SharedBuf → Option (BufSlice × SharedBuf)
unfolding strong_count
slice b =
    let whole : BufSlice = record { start_at = 0; slice_length = b.len } in
    if strong_count b == 1 then some (whole, record b { slices = whole ∷ b.slices }) else none

-- `SharedBuf::into_inner`: whether the vector is given back.
unfoldable pub into_inner : SharedBuf → Option ℕ
unfolding strong_count
into_inner b = if strong_count b == 1 then some b.len else none

-- `BufSlice::split`
unfoldable pub split : BufSlice → ℕ → BufSlice × BufSlice
split s at = (
  record { start_at = s.start_at; slice_length = at },
  record { start_at = s.start_at + at; slice_length = s.slice_length - at },
)

-- What is done with a buffer: a slice of it is asked for, one is split, or one is dropped. The caller
-- of `split` ensures that `at` is not behind the end.
pub data Step : SharedBuf → SharedBuf → Type 0 where
  sliced : (b b' : SharedBuf) (s : BufSlice) → slice b ≡ some (s, b') → Step b b'
  was_split :
      (b : SharedBuf) (front : List BufSlice) (s : BufSlice) (back : List BufSlice) (at : ℕ)
      → b.slices ≡ front ++ s ∷ back
      → at ≤ s.slice_length
      → Step b (record b { slices = front ++ (split s at).0 ∷ (split s at).1 ∷ back })
  dropped :
      (b : SharedBuf) (front : List BufSlice) (s : BufSlice) (back : List BufSlice)
      → b.slices ≡ front ++ s ∷ back
      → Step b (record b { slices = front ++ back })

pub data Reachable : SharedBuf → Type 0 where
  allocated : (len : ℕ) → Reachable (with_capacity len)
  stepped : {b b' : SharedBuf} → Reachable b → Step b b' → Reachable b'
