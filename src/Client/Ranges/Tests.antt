-- ===== src/Client/Ranges/Tests.antt =====
-- Runs of a concrete bitmap, and a list of runs off the wire.
use misaka_network.Client.Ranges.{
  WireRange, covers, ranges_to_bitmap, bitmap_to_ranges, validate_and_normalize_ranges, pair,
  max_range_count, array, natural, no_pair, not_safe, Range,
}
use misaka_network.Common.{All, List, [], any, arith, leb, length, ltb, ◌&&◌, ◌+◌, ◌∷◌, ◌≡◌, ◌≤◌}
use misaka_network.Client.Bitmap.{Bytes, bitmap_has}
use misaka_network.Client.Ranges.Scan.{Apart}
use misaka_network.Client.Ranges.Normalize.{covers-normalize, normalize-Apart, wire_covers}
use misaka_network.Client.Ranges.RoundTrip.{bitmap_round_trip}

abbrev bitmap : Bytes
bitmap = 7 ∷ 192 ∷ []

abbrev runs : List Range
runs = (2, 3) ∷ (9, 1) ∷ []

abbrev off_wire : List WireRange
off_wire =
    pair (natural 8) (natural 9)
    ∷ pair (natural 0) (natural 4)
    ∷ no_pair
    ∷ pair not_safe (natural 1)
    ∷ pair (natural 4) (natural 2)
    ∷ []

covers-normalize_example :
    covers (validate_and_normalize_ranges (array off_wire) 12) 9
    ≡ (leb (length off_wire) max_range_count && ltb 9 12 && any (wire_covers 9) off_wire)
covers-normalize_example = covers-normalize off_wire 12 9

normalize-Apart_example :
    Apart 0 (validate_and_normalize_ranges (array off_wire) 12)
    × All (λ r. (1 ≤ r.1) × (r.0 + r.1 ≤ 12)) (validate_and_normalize_ranges (array off_wire) 12)
normalize-Apart_example = normalize-Apart (array off_wire) 12

bitmap_round_trip_example : bitmap_has (ranges_to_bitmap (bitmap_to_ranges bitmap 16) 16) 14 ≡ (
    leb (length (bitmap_to_ranges bitmap 16)) max_range_count && ltb 14 16 && bitmap_has bitmap 14)
bitmap_round_trip_example = bitmap_round_trip bitmap 16 14 (omega arith) (omega arith)
