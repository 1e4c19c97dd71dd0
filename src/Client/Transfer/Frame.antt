-- ===== src/Client/Transfer/Frame.antt =====
-- client/src/lib/transfer/protocol.ts: the binary frame of a chunk, [tag:1][shortId:4][index:4][iv:12]
-- and the ciphertext. A buffer is the list of its bytes.
pub mod RoundTrip
use misaka_network.Common.{
  List, Option, [], drop, get_or, if◌then◌else◌, leb, length, ltb, nat_eq, none, not, replicate,
  some, suc, take, zero, ℕ, ◌%◌, ◌*◌, ◌+◌, ◌/◌, ◌^◌, ◌∷◌,
}

abbrev pub chunk_frame_tag : ℕ
chunk_frame_tag = 0x01

abbrev pub chunk_frame_header_bytes : ℕ
chunk_frame_header_bytes = 21

-- Uint8Array.set at an offset, inside the buffer.
unfoldable pub write_at : ℕ → List ℕ → List ℕ → List ℕ
write_at zero [] buf = buf
write_at zero (x ∷ xs) [] = []
write_at zero (x ∷ xs) (b ∷ bs) = x ∷ write_at zero xs bs
write_at (suc n) src [] = []
write_at (suc n) src (b ∷ bs) = b ∷ write_at n src bs

-- DataView.setUint32 in big-endian order; `x >>> 0` wraps at 2 ^ 32.
abbrev pub u32_bytes : ℕ → List ℕ
u32_bytes x = let w = x % 2 ^ 32 in w / 2 ^ 24 ∷ w / 2 ^ 16 % 256 ∷ w / 2 ^ 8 % 256 ∷ w % 256 ∷ []

-- DataView.getUint32 in big-endian order.
abbrev pub u32_at : List ℕ → ℕ → ℕ
u32_at buf i =
    get_or buf i 0 * 2 ^ 24
    + get_or buf (i + 1) 0 * 2 ^ 16
    + get_or buf (i + 2) 0 * 2 ^ 8
    + get_or buf (i + 3) 0

-- None is the RangeError of an IV that does not fit.
unfoldable pub encode_chunk_frame : ℕ → ℕ → List ℕ → List ℕ → Option (List ℕ)
unfolding write_at
encode_chunk_frame short_id index iv ciphertext =
    let out = replicate (chunk_frame_header_bytes + length ciphertext) 0 in
    let tagged = write_at 0 (chunk_frame_tag ∷ []) out in
    let named = write_at 5 (u32_bytes index) (write_at 1 (u32_bytes short_id) tagged) in
    if ltb (length out) (9 + length iv)
    then none
    else some (write_at chunk_frame_header_bytes ciphertext (write_at 9 iv named))

-- The views of the IV and of the ciphertext are the bytes that they show.
pub record DecodedChunkFrame : Type 0 where
  pub short_id : ℕ
  pub index : ℕ
  pub iv : List ℕ
  pub ciphertext : List ℕ

unfoldable pub decode_chunk_frame : List ℕ → Option DecodedChunkFrame
decode_chunk_frame buf =
    if ltb (length buf) chunk_frame_header_bytes
    then none
    else if not (nat_eq (get_or buf 0 0) chunk_frame_tag)
    then none
    else some (record {
      short_id = u32_at buf 1;
      index = u32_at buf 5;
      iv = take 12 (drop 9 buf);
      ciphertext = drop chunk_frame_header_bytes buf;
    })
