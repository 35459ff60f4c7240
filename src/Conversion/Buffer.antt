-- ===== src/Conversion/Buffer.antt =====
-- `int_to_bytes` of sigmadsp/helper/conversion.py on a buffer.
use sigmadsp.Prelude.{
  ℕ, ◌+◌, ◌^◌, ◌≤◌, ◌<◌, ◌≡◌, ap, sym, ◌∙◌, none, some, List, ◌++◌, append-nil, arith, length, take,
  drop, length-append, length-take, length-drop, take-append, drop-append, take_all, drop_all,
  drop-drop, lt→ltb,
}
use sigmadsp.Prelude.Int.{pos}
use sigmadsp.Prelude.Result.{ok}
use sigmadsp.Conversion.{
  to_bytes, length-to_bytes, from_bytes-to_bytes, bytes_to_int, splice, int_bytes, int_to_bytes,
  int16_to_bytes, int32_to_bytes,
}

-- A splice at the end of the buffer appends.
pub splice_end :
    (buffer piece : List ℕ) (offset n : ℕ)
    → offset ≡ length buffer
    → splice buffer offset n piece ≡ buffer ++ piece
unfolding splice
splice_end buffer piece offset n h =
    let past : length buffer ≤ offset + n = omega arith in
    rw (take_all offset buffer (omega arith), drop_all (offset + n) buffer past, append-nil)

module _ (buffer piece : List ℕ) (offset n : ℕ) where
  pub take-splice_before :
      offset ≤ length buffer → take offset (splice buffer offset n piece) ≡ take offset buffer
  unfolding splice
  take-splice_before h =
      take-append (take offset buffer) (piece ++ drop (offset + n) buffer) offset
        (omega (arith, length-take offset buffer))

  pub drop-splice_at :
      offset ≤ length buffer
      → drop offset (splice buffer offset n piece) ≡ piece ++ drop (offset + n) buffer
  unfolding splice
  drop-splice_at h =
      drop-append (take offset buffer) (piece ++ drop (offset + n) buffer) offset
        (omega (arith, length-take offset buffer))

  pub drop-splice_after :
      offset ≤ length buffer
      → length piece ≡ n
      → drop (offset + n) (splice buffer offset n piece) ≡ drop (offset + n) buffer
  drop-splice_after h e =
      sym (drop-drop n offset (offset + n) (splice buffer offset n piece) (omega arith))
      ∙ ap (drop n) (drop-splice_at h)
      ∙ drop-append piece (drop (offset + n) buffer) n (omega arith)

  pub length-splice :
      offset + n ≤ length buffer
      → length piece ≡ n
      → length (splice buffer offset n piece) ≡ length buffer
  unfolding splice
  length-splice h e = omega (
    arith,
    length-append (take offset buffer) (piece ++ drop (offset + n) buffer),
    length-append piece (drop (offset + n) buffer),
    length-take offset buffer,
    length-drop (offset + n) buffer,
  )

-- What `int_to_bytes` did to a buffer: the bytes before and after the field are as they were, the
-- length too, and the field reads as `v`.
pub record Wrote (buffer : List ℕ) (offset n v : ℕ) (result : List ℕ) : Type 0 where
  pub before : take offset result ≡ take offset buffer
  pub after : drop (offset + n) result ≡ drop (offset + n) buffer
  pub same_length : length result ≡ length buffer
  pub reads : bytes_to_int result offset (some n) ≡ v

-- A value that fits into `n` bytes is written into a buffer that has room for it, in place: it
-- reads back, and every other byte is unchanged.
pub int_to_bytes-Wrote :
    (buffer : List ℕ) (offset n v : ℕ)
    → offset + n ≤ length buffer
    → v < 256 ^ n
    → (result : List ℕ) × (int_to_bytes (pos v) (some buffer) offset n ≡ ok result)
      × Wrote buffer offset n v result
unfolding int_to_bytes bytes_to_int
int_to_bytes-Wrote buffer offset n v room fits =
    let piece = to_bytes n v in
    let starts : offset ≤ length buffer = omega arith in
    (
      splice buffer offset n piece,
      rw (lt→ltb v (256 ^ n) fits),
      record {
        before = take-splice_before buffer piece offset n starts;
        after = drop-splice_after buffer piece offset n starts (length-to_bytes n v);
        same_length = length-splice buffer piece offset n room (length-to_bytes n v);
        reads = rw (drop-splice_at buffer piece offset n starts) (
            rw (take-append piece (drop (offset + n) buffer) n (sym (length-to_bytes n v)))
              (from_bytes-to_bytes n v fits));
      },
    )

-- With no buffer, a value of at most 32 bits is written into four bytes of its own, and one of 16 bits
-- into two.
pub int32_to_bytes-new : (v : ℕ) → v < 256 ^ 4 → int32_to_bytes (pos v) none 0 ≡ ok (to_bytes 4 v)
unfolding int32_to_bytes splice int_bytes
int32_to_bytes-new v h = rw (lt→ltb v (256 ^ 4) h, append-nil)

pub int16_to_bytes-new : (v : ℕ) → v < 256 ^ 2 → int16_to_bytes (pos v) none 0 ≡ ok (to_bytes 2 v)
unfolding int16_to_bytes splice int_bytes
int16_to_bytes-new v h = rw (lt→ltb v (256 ^ 2) h, append-nil)
