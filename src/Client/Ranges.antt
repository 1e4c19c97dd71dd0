-- ===== src/Client/Ranges.antt =====
-- client/src/lib/chunk-bitmap.ts: runs of chunks, `[start, length]`, as they travel.
pub mod Scan
pub mod Normalize
pub mod RoundTrip
pub mod Tests
use misaka_network.Client.Bitmap.{Bytes, set_all, bit_at, new_bitmap}
use misaka_network.Common.{
  Bool, List, Option, [], any, false, filter, if◌then◌else◌, leb, length, ltb, map, max, min,
  nat_eq, none, some, suc, true, zero, ℕ, ◌&&◌, ◌*◌, ◌++◌, ◌+◌, ◌-◌, ◌||◌, ◌∷◌,
}

abbrev pub Range : Type 0
Range = ℕ × ℕ

-- Whether an index lies in one of the runs.
abbrev pub covers : List Range → ℕ → Bool
covers rs j = any (λ r. leb r.0 j && ltb j (r.0 + r.1)) rs

-- `runStart`, which is -1 outside a run.
abbrev next_run : Bool → Option ℕ → ℕ → Option ℕ
next_run true none idx = some idx
next_run true (some r) idx = some r
next_run false run idx = none

abbrev ended_run : Bool → Option ℕ → ℕ → List Range
ended_run true run idx = []
ended_run false none idx = []
ended_run false (some r) idx = (r, idx - r) ∷ []

-- The loop over the `n` indexes from `idx` on.
scan : (ℕ → Bool) → ℕ → ℕ → Option ℕ → List Range
scan is_set zero idx run = ended_run false run idx
scan is_set (suc n) idx run =
    ended_run (is_set idx) run idx ++ scan is_set n (idx + 1) (next_run (is_set idx) run idx)

pub bitmap_to_ranges : Bytes → ℕ → List Range
unfolding scan
bitmap_to_ranges buf total_chunks = scan (bit_at buf) (min total_chunks (length buf * 8)) 0 none

abbrev pub max_range_count : ℕ
max_range_count = 4096

-- A number off the wire, as `Number.isSafeInteger` and the tests for a sign tell numbers apart.
pub data WireNumber : Type 0 where
  not_safe : WireNumber
  negative : ℕ → WireNumber
  natural : ℕ → WireNumber

-- An entry off the wire: something that is no pair, or a pair of values.
pub data WireRange : Type 0 where
  no_pair : WireRange
  pair : WireNumber → WireNumber → WireRange

pub data WireRanges : Type 0 where
  no_array : WireRanges
  array : List WireRange → WireRanges

-- One round of the first loop: the entries that it pushes.
clamp : ℕ → WireRange → List Range
clamp total (pair (natural start) (natural len)) =
    if leb len 0
    then []
    else let lo = min start total in
      let end_of = min (start + len) total in
      if leb total lo || leb end_of lo then [] else (lo, end_of - lo) ∷ []
clamp total _ = []

clamp_all : ℕ → List WireRange → List Range
clamp_all total [] = []
clamp_all total (w ∷ ws) = clamp total w ++ clamp_all total ws

-- The order of the sort: by start, then by length.
abbrev before : Range → Range → Bool
before (s, l) (t, m) = ltb s t || (nat_eq s t && leb l m)

insert : Range → List Range → List Range
insert r [] = r ∷ []
insert r (q ∷ qs) = let rest = insert r qs in if before r q then r ∷ q ∷ qs else q ∷ rest

pub sort : List Range → List Range
unfolding insert
sort [] = []
sort (r ∷ rs) = insert r (sort rs)

-- The merging loop, with the current run `(cs, cl)`.
merge : ℕ → ℕ → List Range → List Range
merge cs cl [] = (cs, cl) ∷ []
merge cs cl ((s, l) ∷ rest) =
    let joined = merge cs (max (cs + cl) (s + l) - cs) rest in
    let apart = (cs, cl) ∷ merge s l rest in if leb s (cs + cl) then joined else apart

merge_all : List Range → List Range
unfolding merge
merge_all [] = []
merge_all ((s, l) ∷ rest) = merge s l rest

pub validate_and_normalize_ranges : WireRanges → ℕ → List Range
unfolding clamp clamp_all merge_all
validate_and_normalize_ranges no_array total = []
validate_and_normalize_ranges (array ws) total =
    if leb total 0 || ltb max_range_count (length ws)
    then []
    else merge_all (sort (clamp_all total ws))

-- for (let i = start; i < end; i++) bitmapSet(buf, i)
abbrev pub run_indexes : ℕ → ℕ → List ℕ
run_indexes start zero = []
run_indexes start (suc n) = start ∷ run_indexes (start + 1) n

set_runs : Bytes → List Range → Bytes
set_runs buf [] = buf
set_runs buf ((start, len) ∷ rest) = set_runs (set_all buf (run_indexes start len)) rest

-- Runs of our own, as a value off the wire.
abbrev pub to_wire : List Range → List WireRange
to_wire = map (λ r. pair (natural r.0) (natural r.1))

pub ranges_to_bitmap : List Range → ℕ → Bytes
unfolding set_runs
ranges_to_bitmap ranges total =
    set_runs (new_bitmap total) (validate_and_normalize_ranges (array (to_wire ranges)) total)

-- Numbers in rising order, without what is not below the total.
insert_index : ℕ → List ℕ → List ℕ
insert_index i [] = i ∷ []
insert_index i (j ∷ js) = let rest = insert_index i js in if leb i j then i ∷ j ∷ js else j ∷ rest

sort_indexes : List ℕ → List ℕ
unfolding insert_index
sort_indexes [] = []
sort_indexes (i ∷ is) = insert_index i (sort_indexes is)

-- The loop over the sorted indexes, with `runStart` and `prev`.
collect : ℕ → ℕ → List ℕ → List Range
collect run_start prev [] = (run_start, prev - run_start + 1) ∷ []
collect run_start prev (v ∷ vs) =
    let longer = collect run_start v vs in
    let apart = (run_start, prev - run_start + 1) ∷ collect v v vs in
    if nat_eq v (prev + 1) then longer else apart

collect_all : List ℕ → List Range
unfolding collect
collect_all [] = []
collect_all (i ∷ is) = collect i i is

pub set_to_ranges : List ℕ → ℕ → List Range
unfolding sort_indexes collect_all
set_to_ranges members total = collect_all (sort_indexes (filter (λ i. ltb i total) members))

pub prefer_ranges_over_indexes : ℕ → Bool
prefer_ranges_over_indexes set_size = ltb 1024 set_size
