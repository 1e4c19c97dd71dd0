-- ===== src/Client/Transfer/Meta.antt =====
-- client/src/lib/transfer/protocol.ts: the check of a peer's `meta` message. A text is the list of
-- its UTF-16 units.
pub mod Accepted
use misaka_network.Common.{
  Bool, List, Option, [], any, false, filter, if◌then◌else◌, leb, length, ltb, nat_eq, none, not,
  some, take, true, ℕ, ◌&&◌, ◌*◌, ◌++◌, ◌+◌, ◌||◌, ◌∷◌,
}
use misaka_network.Client.Transfer.Geometry.{expected_chunk_count}

-- What a field of the parsed message can be: a text, a natural number, the integer -(n + 1), or
-- any other value, a missing one and a fraction included.
pub data Field : Type 0 where
  text : List ℕ → Field
  natural negative : ℕ → Field
  other : Field

pub record RawMeta : Type 0 where
  pub type_of : Field
  pub transfer_id : Field
  pub short_id : Field
  pub file_name : Field
  pub file_size : Field
  pub file_hash : Field
  pub total_chunks : Field
  pub mime : Field
  pub version : Field

pub record MetaMessage : Type 0 where
  pub transfer_id : List ℕ
  pub short_id : ℕ
  pub file_name : List ℕ
  pub file_size : ℕ
  pub file_hash : List ℕ
  pub total_chunks : ℕ
  pub mime : List ℕ
  pub version : Field

pub data MetaFailure : Type 0 where
  malformed bad_transfer_id bad_short_id bad_file_name bad_file_size bad_chunk_count : MetaFailure

pub data MetaResult : Type 0 where
  accepted : MetaMessage → MetaResult
  rejected : MetaFailure → MetaResult

abbrev pub max_file_size : ℕ
max_file_size = 16 * 1024 * 1024 * 1024

abbrev pub max_file_name_length : ℕ
max_file_name_length = 255

abbrev pub max_total_chunks : ℕ
max_total_chunks = 0xffff_ffff

abbrev pub max_safe_integer : ℕ
max_safe_integer = 9007199254740991

abbrev pub in_range : ℕ → ℕ → ℕ → Bool
in_range lo hi c = leb lo c && leb c hi

-- [A-Za-z0-9._:-]
unfoldable pub is_id_char : ℕ → Bool
is_id_char c =
    in_range 0x41 0x5a c
    || in_range 0x61 0x7a c
    || in_range 0x30 0x39 c
    || any (λ x. nat_eq c x) (0x2e ∷ 0x5f ∷ 0x3a ∷ 0x2d ∷ [])

abbrev pub list_eq : List ℕ → List ℕ → Bool
list_eq [] [] = true
list_eq [] (y ∷ ys) = false
list_eq (x ∷ xs) [] = false
list_eq (x ∷ xs) (y ∷ ys) = nat_eq x y && list_eq xs ys

abbrev pub every : (ℕ → Bool) → List ℕ → Bool
every p [] = true
every p (x ∷ xs) = p x && every p xs

-- TRANSFER_ID_RE
unfoldable pub is_transfer_id : List ℕ → Bool
unfolding is_id_char
is_transfer_id id = every is_id_char id && in_range 1 128 (length id)

abbrev pub is_control : ℕ → Bool
is_control c = leb c 0x1f || nat_eq c 0x7f

abbrev pub is_separator : ℕ → Bool
is_separator c = nat_eq c 0x5c || nat_eq c 0x2f

-- What `trim` takes off.
abbrev pub is_space : ℕ → Bool
is_space c =
    in_range 0x09 0x0d c
    || in_range 0x2000 0x200a c
    || any (λ x. nat_eq c x)
        (0x20 ∷ 0xa0 ∷ 0x1680 ∷ 0x2028 ∷ 0x2029 ∷ 0x202f ∷ 0x205f ∷ 0x3000 ∷ 0xfeff ∷ [])

abbrev pub drop_while : (ℕ → Bool) → List ℕ → List ℕ
drop_while p [] = []
drop_while p (x ∷ xs) = let rest = drop_while p xs in if p x then rest else x ∷ xs

-- The text without what is at its end.
abbrev pub drop_end : (ℕ → Bool) → List ℕ → List ℕ
drop_end p [] = []
drop_end p (x ∷ xs) = if every p (x ∷ xs) then [] else x ∷ drop_end p xs

-- A run of separators becomes one underscore.
unfoldable pub flatten : Bool → List ℕ → List ℕ
flatten after [] = []
flatten after (c ∷ cs) =
    let more = flatten (is_separator c) cs in
    if is_separator c then (if after then more else 0x5f ∷ more) else c ∷ more

unfoldable pub sanitize_file_name : List ℕ → List ℕ
unfolding flatten
sanitize_file_name raw =
    let flat = flatten false (filter (λ c. not (is_control c)) raw) in
    take max_file_name_length
      (drop_while (λ c. nat_eq c 0x2e) (drop_end is_space (drop_while is_space flat)))

abbrev pub text_or_empty : Field → List ℕ
text_or_empty (text s) = s
text_or_empty (natural n) = []
text_or_empty (negative n) = []
text_or_empty other = []

abbrev pub legacy_protocol_version : ℕ
legacy_protocol_version = 1

-- Any integer; what it is worth is decided by `set_peer_protocol_version`.
abbrev pub version_of : Field → Field
version_of (text s) = natural legacy_protocol_version
version_of (natural n) = natural n
version_of (negative n) = negative n
version_of other = natural legacy_protocol_version

abbrev pub default_mime : List ℕ
default_mime =
    0x61 ∷ 0x70 ∷ 0x70 ∷ 0x6c ∷ 0x69 ∷ 0x63 ∷ 0x61 ∷ 0x74 ∷ 0x69 ∷ 0x6f ∷ 0x6e ∷ 0x2f ∷ 0x6f ∷ 0x63
    ∷ 0x74 ∷ 0x65 ∷ 0x74 ∷ 0x2d ∷ 0x73 ∷ 0x74 ∷ 0x72 ∷ 0x65 ∷ 0x61 ∷ 0x6d ∷ []

abbrev pub or_default : List ℕ → List ℕ
or_default [] = default_mime
or_default (c ∷ cs) = c ∷ cs

abbrev pub natural_up_to : ℕ → Field → Option ℕ
natural_up_to limit (text s) = none
natural_up_to limit (natural n) = if leb n limit then some n else none
natural_up_to limit (negative n) = none
natural_up_to limit other = none

unfoldable pub transfer_id_of : Field → Option (List ℕ)
unfolding is_transfer_id
transfer_id_of field = let id = text_or_empty field in if is_transfer_id id then some id else none

unfoldable pub file_name_of : Field → Option (List ℕ)
unfolding sanitize_file_name
file_name_of field =
    let raw = text_or_empty field in
    let name = sanitize_file_name raw in
    if nat_eq (length raw) 0 || ltb (max_file_name_length * 4) (length raw)
    then none
    else if nat_eq (length name) 0
    then none
    else some name

-- 'meta'
abbrev pub is_meta : Field → Bool
is_meta field = list_eq (text_or_empty field) (0x6d ∷ 0x65 ∷ 0x74 ∷ 0x61 ∷ [])

unfoldable pub mime_of : Field → List ℕ
mime_of field = or_default (take 128 (filter (λ c. not (is_control c)) (text_or_empty field)))

abbrev pub refuse_unless : {A : Type 0} → MetaFailure → Option A → (A → MetaResult) → MetaResult
refuse_unless failure none go = rejected failure
refuse_unless failure (some a) go = go a

abbrev pub meta_of : RawMeta → List ℕ → ℕ → List ℕ → ℕ → ℕ → MetaMessage
meta_of m transfer_id short_id file_name file_size total_chunks = record {
  transfer_id = transfer_id;
  short_id = short_id;
  file_name = file_name;
  file_size = file_size;
  file_hash = take 128 (text_or_empty m.file_hash);
  total_chunks = total_chunks;
  mime = mime_of m.mime;
  version = version_of m.version;
}

-- The last test: the number of chunks follows from the size.
unfoldable pub check_count : MetaMessage → MetaResult
unfolding expected_chunk_count
check_count m =
    if nat_eq m.total_chunks (expected_chunk_count m.file_size)
    then accepted m
    else rejected bad_chunk_count

-- validateMetaMessage, for an object.
unfoldable pub validate_meta_message : RawMeta → MetaResult
unfolding transfer_id_of file_name_of check_count mime_of
validate_meta_message m =
    if not (is_meta m.type_of)
    then rejected malformed
    else refuse_unless bad_transfer_id (transfer_id_of m.transfer_id) λ transfer_id.
      refuse_unless bad_short_id (natural_up_to 0xffff_ffff m.short_id) λ short_id.
        refuse_unless bad_file_name (file_name_of m.file_name) λ file_name.
          refuse_unless bad_file_size (natural_up_to max_file_size m.file_size) λ file_size.
            refuse_unless bad_chunk_count (natural_up_to max_total_chunks m.total_chunks)
              λ total_chunks.
                check_count (meta_of m transfer_id short_id file_name file_size total_chunks)
