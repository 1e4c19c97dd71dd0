-- ===== src/Client/Bitmap/Indexes.antt =====
-- `bitmapToIndexes` lists exactly the set bits, in order, and `bitmapPopcount` counts them.
use misaka_network.Client.Bitmap.Bytes.{zero_byte, popcount_byte-length}
use misaka_network.Client.Bitmap.Sets.{IsBytes, IsIndex}
use misaka_network.Common.{
  All, Bool, Bool-cases, List, [], any, any-append, arith, false, get_or, if◌then◌else◌, inl, inr,
  leb, length, length-append, ltb, min, nat_eq, nat_eq_iff, refl, suc, sym, zero, ℕ, ◌%◌, ◌&&◌, ◌*◌,
  ◌++◌, ◌+◌, ◌-◌, ◌/◌, ◌<◌, ◌∙◌, ◌∷◌, ◌≡◌, ◌≤◌,
}
use native.Mathlib.Nat.{add_assoc}
use misaka_network.Client.Bitmap.{
  test_bit, byte_indexes, all_indexes, Bytes, bitmap_to_indexes, ◌∷◌, bitmap_has, bit_at,
  popcount_byte, bitmap_popcount, shr3,
}

any-byte_indexes :
    (n v base bit limit j : ℕ)
    → any (nat_eq j) (byte_indexes n v base bit limit)
      ≡ (leb (base + bit) j && ltb j (base + bit + n) && ltb j limit && test_bit v (j - base))
unfolding byte_indexes
any-byte_indexes zero v base bit limit j = ground arith
any-byte_indexes (suc n) v base bit limit j = elim (Bool-cases (nat_eq j (base + bit))) [
  | inl here ↦
      let e : j ≡ base + bit = (nat_eq_iff _ _).0 here in
      let f : j - base ≡ bit = omega arith in
      rw f (ground (arith, any-byte_indexes n v base (bit + 1) limit j))
  | inr there ↦ ground (arith, any-byte_indexes n v base (bit + 1) limit j)
]

-- The bit `k` places after the first bit of `buf`.
abbrev nth_bit : Bytes → ℕ → Bool
nth_bit buf k = ltb (k / 8) (length buf) && test_bit (get_or buf (k / 8) 0) (k % 8)

nth_bit-head : (v : ℕ) (buf : Bytes) (k : ℕ) → k < 8 → nth_bit (v ∷ buf) k ≡ test_bit v k
nth_bit-head v buf k h =
    let e : k / 8 ≡ 0 = omega arith in let f : k % 8 ≡ k = omega arith in rw (e, f) (ground arith)

nth_bit-tail : (v : ℕ) (buf : Bytes) (k : ℕ) → nth_bit (v ∷ buf) (k + 8) ≡ nth_bit buf k
nth_bit-tail v buf k =
    let e : (k + 8) / 8 ≡ suc (k / 8) = omega arith in
    let f : (k + 8) % 8 ≡ k % 8 = omega arith in rw (e, f) (ground arith)

any-byte :
    (v base limit j : ℕ)
    → v < 256
    → any (nat_eq j) (if nat_eq v 0 then [] else byte_indexes 8 v base 0 limit)
      ≡ (leb base j && ltb j (base + 8) && ltb j limit && test_bit v (j - base))
any-byte v base limit j h = elim (Bool-cases (nat_eq v 0)) [
  | inl empty ↦
      let e : v ≡ 0 = (nat_eq_iff _ _).0 empty in rw e (ground (arith, zero_byte (j - base)))
  | inr full ↦ ground (arith, any-byte_indexes 8 v base 0 limit j)
]

all_indexes-cons :
    (v : ℕ) (buf : Bytes) (base limit : ℕ)
    → all_indexes (v ∷ buf) base limit
      ≡ (if nat_eq v 0 then [] else byte_indexes 8 v base 0 limit)
        ++ all_indexes buf (base + 8) limit
unfolding all_indexes
all_indexes-cons v buf base limit = ground arith

any-all_indexes :
    (buf : Bytes) (base limit j : ℕ)
    → IsBytes buf
    → any (nat_eq j) (all_indexes buf base limit)
      ≡ (leb base j && ltb j limit && nth_bit buf (j - base))
any-all_indexes [] base limit j b = unfold all_indexes in ground arith
any-all_indexes (v ∷ buf) base limit j b =
    rw
      (
        all_indexes-cons v buf base limit,
        any-append (nat_eq j) (if nat_eq v 0 then [] else byte_indexes 8 v base 0 limit)
            (all_indexes buf (base + 8) limit),
        any-byte v base limit j b.0,
        any-all_indexes buf (base + 8) limit j b.1,
      )
      (elim (Bool-cases (ltb (j - base) 8)) [
        | inl near ↦ ground (arith, nth_bit-head v buf (j - base))
        | inr far ↦
            let e : j - base ≡ j - (base + 8) + 8 = ground arith in
            rw (e, nth_bit-tail v buf (j - (base + 8))) (ground arith)
      ])

-- The list holds exactly the set bits below `total`.
pub any-to_indexes :
    (buf : Bytes) (total j : ℕ)
    → IsBytes buf
    → IsIndex j
    → any (nat_eq j) (bitmap_to_indexes buf total) ≡ (ltb j total && bitmap_has buf j)
unfolding bitmap_to_indexes bitmap_has bit_at
any-to_indexes buf total j b h =
    let e : shr3 j ≡ j / 8 = omega arith in
    rw (any-all_indexes buf 0 (min total (length buf * 8)) j b, e) (ground arith)

pub any-to_indexes_out :
    (buf : Bytes) (total j : ℕ)
    → IsBytes buf
    → ltb j total ≡ false
    → any (nat_eq j) (bitmap_to_indexes buf total) ≡ false
unfolding bitmap_to_indexes
any-to_indexes_out buf total j b h =
    rw (any-all_indexes buf 0 (min total (length buf * 8)) j b) (ground arith)

-- Every entry is at least `lo` and above the entry before it.
abbrev pub Rising : ℕ → List ℕ → Type 0
Rising lo [] = Unit
Rising lo (x ∷ xs) = (lo ≤ x) × Rising (x + 1) xs

pub Rising-mono : (lo hi : ℕ) (xs : List ℕ) → lo ≤ hi → Rising hi xs → Rising lo xs
Rising-mono lo hi [] h r = tt
Rising-mono lo hi (x ∷ xs) h r = (omega arith, r.1)

Rising-append :
    (lo mid : ℕ) (xs ys : List ℕ)
    → Rising lo xs
    → All (λ x. x < mid) xs
    → lo ≤ mid
    → Rising mid ys
    → Rising lo (xs ++ ys)
Rising-append lo mid [] ys r b h s = Rising-mono lo mid ys h s
Rising-append lo mid (x ∷ xs) ys r b h s =
    (r.0, Rising-append (x + 1) mid xs ys r.1 b.1 (omega arith) s)

byte_indexes-Rising :
    (n v base bit limit : ℕ) → Rising (base + bit) (byte_indexes n v base bit limit)
unfolding byte_indexes
byte_indexes-Rising zero v base bit limit = tt
byte_indexes-Rising (suc n) v base bit limit =
    let rest : Rising (base + bit + 1) (byte_indexes n v base (bit + 1) limit) =
      rw add_assoc (byte_indexes-Rising n v base (bit + 1) limit) in
    ground (
      arith,
      rest,
      Rising-mono (base + bit) (base + bit + 1) (byte_indexes n v base (bit + 1) limit),
    )

byte_indexes-below :
    (n v base bit limit : ℕ) → All (λ x. x < base + bit + n) (byte_indexes n v base bit limit)
unfolding byte_indexes
byte_indexes-below zero v base bit limit = tt
byte_indexes-below (suc n) v base bit limit =
    let e : base + (bit + 1) + n ≡ base + bit + suc n = omega arith in
    let rest : All (λ x. x < base + bit + suc n) (byte_indexes n v base (bit + 1) limit) =
      rw e at (byte_indexes-below n v base (bit + 1) limit) in
    elim (Bool-cases (leb limit (base + bit))) [
      | inl out ↦ rw out tt
      | inr inside ↦ elim (Bool-cases (test_bit v bit)) [
        | inl one ↦ rw (inside, one) (omega arith, rest)
        | inr unset ↦ rw (inside, unset) rest
      ]
    ]

first-Rising :
    (v base limit : ℕ) → Rising base (if nat_eq v 0 then [] else byte_indexes 8 v base 0 limit)
first-Rising v base limit = elim (Bool-cases (nat_eq v 0)) [
  | inl empty ↦ rw empty tt
  | inr full ↦
      rw full (Rising-mono base (base + 0) _ (omega arith) (byte_indexes-Rising 8 v base 0 limit))
]

first-below :
    (v base limit : ℕ)
    → All (λ x. x < base + 8) (if nat_eq v 0 then [] else byte_indexes 8 v base 0 limit)
first-below v base limit = elim (Bool-cases (nat_eq v 0)) [
  | inl empty ↦ rw empty tt
  | inr full ↦
      let e : base + 0 + 8 ≡ base + 8 = omega arith in
      rw full (rw e at (byte_indexes-below 8 v base 0 limit))
]

all_indexes-Rising : (buf : Bytes) (base limit : ℕ) → Rising base (all_indexes buf base limit)
all_indexes-Rising [] base limit = unfold all_indexes in tt
all_indexes-Rising (v ∷ buf) base limit = rw (all_indexes-cons v buf base limit) (
    Rising-append base (base + 8) (if nat_eq v 0 then [] else byte_indexes 8 v base 0 limit)
      (all_indexes buf (base + 8) limit) (first-Rising v base limit) (first-below v base limit)
      (omega arith) (all_indexes-Rising buf (base + 8) limit))

-- They stand in rising order, so that none stands twice.
pub to_indexes-Rising : (buf : Bytes) (total : ℕ) → Rising 0 (bitmap_to_indexes buf total)
unfolding bitmap_to_indexes
to_indexes-Rising buf total = all_indexes-Rising buf 0 (min total (length buf * 8))

-- A whole byte has as many bits below `limit` wherever it stands.
length-byte_indexes :
    (n v base bit limit : ℕ)
    → bit + n ≤ 8
    → base + 8 ≤ limit
    → length (byte_indexes n v base bit limit) ≡ length (byte_indexes n v 0 bit 8)
unfolding byte_indexes
length-byte_indexes zero v base bit limit h k = refl
length-byte_indexes (suc n) v base bit limit h k =
    ground (arith, length-byte_indexes n v base (bit + 1) limit)

first-count :
    (v base limit : ℕ)
    → v < 256
    → base + 8 ≤ limit
    → length (if nat_eq v 0 then [] else byte_indexes 8 v base 0 limit) ≡ popcount_byte v
first-count v base limit h k = elim (Bool-cases (nat_eq v 0)) [
  | inl empty ↦ let e : v ≡ 0 = (nat_eq_iff _ _).0 empty in rw e (unfold popcount_byte in refl)
  | inr full ↦
      rw full
        (length-byte_indexes 8 v base 0 limit (omega arith) k ∙ sym (popcount_byte-length v h))
]

popcount-cons :
    (v : ℕ) (buf : Bytes) → bitmap_popcount (v ∷ buf) ≡ popcount_byte v + bitmap_popcount buf
unfolding bitmap_popcount
popcount-cons v buf = refl

length-all_indexes :
    (buf : Bytes) (base limit : ℕ)
    → IsBytes buf
    → base + length buf * 8 ≤ limit
    → length (all_indexes buf base limit) ≡ bitmap_popcount buf
length-all_indexes [] base limit b h = unfold all_indexes bitmap_popcount in refl
length-all_indexes (v ∷ buf) base limit b h = rw (all_indexes-cons v buf base limit) (
    omega (
      arith,
      length-append (if nat_eq v 0 then [] else byte_indexes 8 v base 0 limit)
          (all_indexes buf (base + 8) limit),
      length-all_indexes buf (base + 8) limit b.1 (omega arith),
      first-count v base limit b.0 (omega arith),
      popcount-cons v buf,
    ))

-- The parallel count is the number of the indexes that are listed, when `total` leaves out no bit.
pub popcount-length :
    (buf : Bytes) (total : ℕ)
    → IsBytes buf
    → length buf * 8 ≤ total
    → bitmap_popcount buf ≡ length (bitmap_to_indexes buf total)
unfolding bitmap_to_indexes
popcount-length buf total b h =
    sym (length-all_indexes buf 0 (min total (length buf * 8)) b (omega arith))
