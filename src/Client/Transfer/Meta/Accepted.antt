-- ===== src/Client/Transfer/Meta/Accepted.antt =====
-- What is known of a `meta` message that is accepted.
use misaka_network.Common.{
  Bool, Bool-cases, List, Option, [], ap, arith, count, false, filter, inl, inr, length, nat_eq,
  nat_eq_iff, none, not, refl, some, subst, suc, take, true, zero, ℕ, ◌&&◌, ◌<◌, ◌∷◌, ◌≡◌, ◌≤◌,
}
use misaka_network.Client.Transfer.Geometry.{expected_chunk_count}
use misaka_network.Client.Transfer.Meta.{
  other, MetaMessage, is_transfer_id, is_control, is_separator, every, sanitize_file_name, flatten,
  drop_while, drop_end, is_space, max_file_name_length, max_file_size, Field, MetaFailure,
  transfer_id_of, validate_meta_message, file_name_of, MetaResult, RawMeta, natural_up_to,
  text_or_empty, accepted, refuse_unless, text, is_meta, natural, negative, bad_transfer_id,
  bad_short_id, bad_file_name, bad_file_size, bad_chunk_count, max_total_chunks, check_count,
  meta_of,
}

-- A unit that no file name may have.
abbrev pub is_plain : ℕ → Bool
is_plain c = not (is_control c) && not (is_separator c)

abbrev pub starts_with_dot : List ℕ → Bool
starts_with_dot [] = false
starts_with_dot (c ∷ cs) = nat_eq c 0x2e

flatten-plain :
    (after : Bool) (cs : List ℕ)
    → every is_plain (flatten after (filter (λ c. not (is_control c)) cs)) ≡ true
unfolding flatten
flatten-plain after [] = refl
flatten-plain after (c ∷ cs) =
    ground (arith, flatten-plain (is_separator c) cs, flatten-plain after cs)

every-drop_while :
    (p q : ℕ → Bool) (xs : List ℕ) → every p xs ≡ true → every p (drop_while q xs) ≡ true
every-drop_while p q [] h = refl
every-drop_while p q (x ∷ xs) h = ground (arith, every-drop_while p q xs)

every-drop_end : (p q : ℕ → Bool) (xs : List ℕ) → every p xs ≡ true → every p (drop_end q xs) ≡ true
every-drop_end p q [] h = refl
every-drop_end p q (x ∷ xs) h = ground (arith, every-drop_end p q xs)

every-take : (p : ℕ → Bool) (n : ℕ) (xs : List ℕ) → every p xs ≡ true → every p (take n xs) ≡ true
every-take p zero xs h = refl
every-take p (suc n) [] h = refl
every-take p (suc n) (x ∷ xs) h = ground (arith, every-take p n xs)

length-take-le : (n : ℕ) (xs : List ℕ) → length (take n xs) ≤ n
length-take-le zero xs = omega arith
length-take-le (suc n) [] = omega arith
length-take-le (suc n) (x ∷ xs) = omega (arith, length-take-le n xs)

no_dot : (xs : List ℕ) → starts_with_dot (drop_while (λ c. nat_eq c 0x2e) xs) ≡ false
no_dot [] = refl
no_dot (x ∷ xs) = ground (arith, no_dot xs)

take-no_dot :
    (n : ℕ) (xs : List ℕ) → starts_with_dot xs ≡ false → starts_with_dot (take n xs) ≡ false
take-no_dot zero xs h = refl
take-no_dot (suc n) [] h = refl
take-no_dot (suc n) (x ∷ xs) h = h

-- A name that is safe to make an entry of: not empty, not too long, without separators and control
-- characters, and not hidden.
pub record SafeName (name : List ℕ) : Type 0 where
  pub filled : 0 < length name
  pub short : length name ≤ max_file_name_length
  pub plain : every is_plain name ≡ true
  pub visible : starts_with_dot name ≡ false

-- A message that is consistent, and bounded in all that it makes the receiver hold.
pub record SafeMeta (m : MetaMessage) : Type 0 where
  pub identified : is_transfer_id m.transfer_id ≡ true
  pub fits_frame : m.short_id ≤ 0xffff_ffff
  pub named : SafeName m.file_name
  pub bounded : m.file_size ≤ max_file_size
  pub counted : m.total_chunks ≡ expected_chunk_count m.file_size
  pub modest : m.total_chunks ≤ 66_577

sanitize-SafeName :
    (raw : List ℕ)
    → nat_eq (length (sanitize_file_name raw)) 0 ≡ false
    → SafeName (sanitize_file_name raw)
unfolding sanitize_file_name
sanitize-SafeName raw h =
    let flat = flatten false (filter (λ c. not (is_control c)) raw) in
    let trimmed = drop_end is_space (drop_while is_space flat) in
    let undotted = drop_while (λ c. nat_eq c 0x2e) trimmed in
    record {
      filled = ground arith;
      short = length-take-le max_file_name_length undotted;
      plain = every-take is_plain max_file_name_length undotted (
          every-drop_while is_plain (λ c. nat_eq c 0x2e) trimmed
            (every-drop_end is_plain is_space (drop_while is_space flat)
              (every-drop_while is_plain is_space flat (flatten-plain false raw))));
      visible = take-no_dot max_file_name_length undotted (no_dot trimmed);
    }

refuse_unless-accepted :
    {A : Type 0} (failure : MetaFailure) (o : Option A) (go : A → MetaResult) (m : MetaMessage)
    → refuse_unless failure o go ≡ accepted m
    → (a : A) × (o ≡ some a) × (go a ≡ accepted m)
refuse_unless-accepted failure none go m h = cc
refuse_unless-accepted failure (some a) go m h = (a, refl, h)

transfer_id_of-valid :
    (f : Field) (id : List ℕ) → transfer_id_of f ≡ some id → is_transfer_id id ≡ true
unfolding transfer_id_of
transfer_id_of-valid f id h = elim (Bool-cases (is_transfer_id (text_or_empty f))) [
  | inl valid ↦ ground (arith, valid, ap is_transfer_id)
  | inr bad ↦ ground (arith, bad)
]

natural_up_to-le : (limit : ℕ) (f : Field) (n : ℕ) → natural_up_to limit f ≡ some n → n ≤ limit
natural_up_to-le limit (text s) n h = cc
natural_up_to-le limit (natural k) n h = ground arith
natural_up_to-le limit (negative k) n h = cc
natural_up_to-le limit other n h = cc

file_name_of-SafeName : (f : Field) (name : List ℕ) → file_name_of f ≡ some name → SafeName name
unfolding file_name_of
file_name_of-SafeName f name h =
    let raw = text_or_empty f in
    elim (Bool-cases (nat_eq (length (sanitize_file_name raw)) 0)) [
      | inl blank ↦ absurd (ground (arith, blank))
      | inr filled ↦
          let same : sanitize_file_name raw ≡ name = ground (arith, filled) in
          subst (λ n. SafeName n) same (sanitize-SafeName raw filled)
    ]

count-modest : (file_size : ℕ) → file_size ≤ max_file_size → expected_chunk_count file_size ≤ 66_577
unfolding expected_chunk_count
count-modest file_size h = ground arith

counted-SafeMeta :
    (raw : RawMeta) (m : MetaMessage) (id : List ℕ) (short_id : ℕ) (name : List ℕ) (size count : ℕ)
    → is_transfer_id id ≡ true
    → short_id ≤ 0xffff_ffff
    → SafeName name
    → size ≤ max_file_size
    → check_count (meta_of raw id short_id name size count) ≡ accepted m
    → SafeMeta m
unfolding check_count
counted-SafeMeta raw m id short_id name size count valid fits safe small h =
    elim (Bool-cases (nat_eq count (expected_chunk_count size))) [
      | inr wrong ↦ absurd (ground (arith, wrong))
      | inl right ↦
          let same : meta_of raw id short_id name size count ≡ m = ground (arith, right) in
          let counted : count ≡ expected_chunk_count size =
            (nat_eq_iff count (expected_chunk_count size)).0 right in
          subst (λ x. SafeMeta x) same
            (record {
              identified = valid;
              fits_frame = fits;
              named = safe;
              bounded = small;
              counted = counted;
              modest = omega (arith, counted, count-modest size small);
            })
    ]

-- A peer's message that is accepted is safe to act on: its id has the allowed form; its short id
-- fits the frame; its file name is not empty, has at most 255 units and no separator or control
-- character, and does not start with a dot; its size is at most 16 GiB; its number of chunks is the
-- one that its size has, so that it is at most 66577, whatever the peer claimed.
pub validate_meta_message-SafeMeta :
    (raw : RawMeta) (m : MetaMessage) → validate_meta_message raw ≡ accepted m → SafeMeta m
unfolding validate_meta_message
validate_meta_message-SafeMeta raw m h = elim (Bool-cases (is_meta raw.type_of)) [
  | inr not_meta ↦ absurd (ground (arith, not_meta))
  | inl is ↦
      let (id, at_id, h1) =
        refuse_unless-accepted bad_transfer_id (transfer_id_of raw.transfer_id) _ m
          (rw (is, validate_meta_message) at h) in
      let (short_id, at_short, h2) =
        refuse_unless-accepted bad_short_id (natural_up_to 0xffff_ffff raw.short_id) _ m h1 in
      let (name, at_name, h3) =
        refuse_unless-accepted bad_file_name (file_name_of raw.file_name) _ m h2 in
      let (size, at_size, h4) =
        refuse_unless-accepted bad_file_size (natural_up_to max_file_size raw.file_size) _ m h3 in
      let (count, at_count, h5) =
        refuse_unless-accepted bad_chunk_count (natural_up_to max_total_chunks raw.total_chunks) _ m
          h4 in
      counted-SafeMeta raw m id short_id name size count
        (transfer_id_of-valid raw.transfer_id id at_id)
        (natural_up_to-le 0xffff_ffff raw.short_id short_id at_short)
        (file_name_of-SafeName raw.file_name name at_name)
        (natural_up_to-le max_file_size raw.file_size size at_size) h5
]
