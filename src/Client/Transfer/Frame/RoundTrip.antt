-- ===== src/Client/Transfer/Frame/RoundTrip.antt =====
-- A frame reads back as what was written.
use misaka_network.Common.{
  List, [], ap, arith, drop, false, length, length-append, length-replicate, ltb, refl, replicate,
  some, suc, sym, take, zero, ℕ, ◌%◌, ◌*◌, ◌++◌, ◌+◌, ◌/◌, ◌^◌, ◌∙◌, ◌∷◌, ◌≡◌,
}
use misaka_network.Client.Transfer.Frame.{
  write_at, u32_bytes, encode_chunk_frame, decode_chunk_frame, chunk_frame_tag,
  chunk_frame_header_bytes,
}

write_front :
    (src old post : List ℕ) → length old ≡ length src → write_at 0 src (old ++ post) ≡ src ++ post
unfolding write_at
write_front [] [] post e = refl
write_front [] (o ∷ old) post e = absurd (omega (arith, e))
write_front (x ∷ src) [] post e = absurd (omega (arith, e))
write_front (x ∷ src) (o ∷ old) post e =
    ap (λ l. x ∷ l) (write_front src old post (omega (arith, e)))

write_after :
    (pre src rest : List ℕ) (n : ℕ)
    → length pre ≡ n
    → write_at n src (pre ++ rest) ≡ pre ++ write_at 0 src rest
unfolding write_at
write_after [] src rest zero e = refl
write_after [] src rest (suc n) e = absurd (omega (arith, e))
write_after (x ∷ pre) src rest zero e = absurd (omega (arith, e))
write_after (x ∷ pre) src rest (suc n) e =
    ap (λ l. x ∷ l) (write_after pre src rest n (omega (arith, e)))

write_over : (src old : List ℕ) → length old ≡ length src → write_at 0 src old ≡ src
unfolding write_at
write_over [] [] e = refl
write_over [] (o ∷ old) e = absurd (omega (arith, e))
write_over (x ∷ src) [] e = absurd (omega (arith, e))
write_over (x ∷ src) (o ∷ old) e = ap (λ l. x ∷ l) (write_over src old (omega (arith, e)))

replicate-add : (m n : ℕ) → replicate {A = ℕ} (m + n) 0 ≡ replicate m 0 ++ replicate n 0
replicate-add zero n = let e : zero + n ≡ n = omega arith in rw e refl
replicate-add (suc m) n =
    let e : suc m + n ≡ suc (m + n) = omega arith in rw e (ap (λ l. 0 ∷ l) (replicate-add m n))

take-append : (xs ys : List ℕ) (n : ℕ) → length xs ≡ n → take n (xs ++ ys) ≡ xs
take-append [] ys zero e = refl
take-append [] ys (suc n) e = absurd (omega (arith, e))
take-append (x ∷ xs) ys zero e = absurd (omega (arith, e))
take-append (x ∷ xs) ys (suc n) e = ap (λ l. x ∷ l) (take-append xs ys n (omega (arith, e)))

drop-append : (xs ys : List ℕ) (n : ℕ) → length xs ≡ n → drop n (xs ++ ys) ≡ ys
drop-append [] ys zero e = refl
drop-append [] ys (suc n) e = absurd (omega (arith, e))
drop-append (x ∷ xs) ys zero e = absurd (omega (arith, e))
drop-append (x ∷ xs) ys (suc n) e = drop-append xs ys n (omega (arith, e))

abbrev header : ℕ → ℕ → List ℕ
header short_id index = chunk_frame_tag ∷ (u32_bytes short_id ++ u32_bytes index)

laid_out :
    (short_id index : ℕ) (iv ciphertext : List ℕ)
    → length iv ≡ 12
    → encode_chunk_frame short_id index iv ciphertext
      ≡ some (header short_id index ++ (iv ++ ciphertext))
unfolding encode_chunk_frame write_at
laid_out short_id index iv ciphertext twelve =
    let n = length ciphertext in
    let zeros : List ℕ = replicate n 0 in
    let size : ltb (length (replicate {A = ℕ} (chunk_frame_header_bytes + n) 0)) (9 + length iv)
        ≡ false =
      ground (arith, length-replicate {A = ℕ} (chunk_frame_header_bytes + n) 0) in
    let after_iv : write_at 0 iv (replicate 12 0 ++ zeros) ≡ iv ++ zeros =
      write_front iv (replicate 12 0) zeros (sym twelve) in
    let after_text : write_at 12 ciphertext (iv ++ zeros) ≡ iv ++ ciphertext =
      write_after iv ciphertext zeros 12 twelve
      ∙ ap (λ l. iv ++ l) (write_over ciphertext zeros (length-replicate n 0)) in
    rw size (rw (replicate-add 21 n) (rw after_iv (rw after_text refl)))

read_u32 :
    (x : ℕ)
    → let w = x % 2 ^ 32 in
      w / 2 ^ 24 * 2 ^ 24 + w / 2 ^ 16 % 256 * 2 ^ 16 + w / 2 ^ 8 % 256 * 2 ^ 8 + w % 256 ≡ w
read_u32 x = omega arith

-- What a frame with a 12-byte IV is written from is what its reader gets: the IV and the ciphertext
-- whole, of whatever length, and the two numbers as they are modulo 2 ^ 32.
pub decode-encode_chunk_frame :
    (short_id index : ℕ) (iv ciphertext : List ℕ)
    → length iv ≡ 12
    → (frame : List ℕ) × (encode_chunk_frame short_id index iv ciphertext ≡ some frame)
      × (decode_chunk_frame frame
          ≡ some (record {
            short_id = short_id % 2 ^ 32;
            index = index % 2 ^ 32;
            iv = iv;
            ciphertext = ciphertext;
          }))
unfolding decode_chunk_frame
decode-encode_chunk_frame short_id index iv ciphertext twelve =
    let frame = header short_id index ++ (iv ++ ciphertext) in
    let long : ltb (length frame) chunk_frame_header_bytes ≡ false =
      ground (arith, length-append iv ciphertext) in
    (
      frame,
      laid_out short_id index iv ciphertext twelve,
      rw
          (
            long,
            read_u32 short_id,
            read_u32 index,
            take-append iv ciphertext 12 twelve,
            drop-append iv ciphertext 12 twelve,
          )
          refl,
    )
