-- ===== src/Client/Transfer/Tests.antt =====
-- The theorems on the transfer protocol at concrete messages and runs.
use misaka_network.Common.{
  List, [], arith, false, refl, some, suc, true, zero, ℕ, ◌%◌, ◌*◌, ◌+◌, ◌<◌, ◌^◌, ◌||◌, ◌∷◌, ◌≡◌,
  ◌≤◌,
}
use misaka_network.Client.Transfer.Frame.{encode_chunk_frame, decode_chunk_frame}
use misaka_network.Client.Transfer.Frame.RoundTrip.{decode-encode_chunk_frame}
use misaka_network.Client.Transfer.Geometry.{
  chunks_tile, sum_lengths, expected_chunk_count, expected_chunk_length, chunk_size,
}
use misaka_network.Client.Transfer.Meta.{
  text, natural, other, RawMeta, MetaMessage, validate_meta_message, default_mime,
}
use misaka_network.Client.Transfer.Meta.Accepted.{SafeMeta, validate_meta_message-SafeMeta}
use misaka_network.Client.Transfer.Buffer.{
  run_wait, wait_for_buffer, WaitEvent, poll, high_water_mark,
}
use misaka_network.Client.Transfer.Buffer.Settles.{is_settled, wait_for_buffer_ends}
use misaka_network.Client.Transfer.Signals.{
  Flow, pause, wait, hold, run, wait_while_paused, resume_transfer, cancel_transfer,
}
use misaka_network.Client.Transfer.Signals.Woken.{is_resolved, is_parked, no_wake_up_lost}

abbrev iv : List ℕ
iv = 1 ∷ 2 ∷ 3 ∷ 4 ∷ 5 ∷ 6 ∷ 7 ∷ 8 ∷ 9 ∷ 10 ∷ 11 ∷ 12 ∷ []

-- The first chunk of a transfer whose short id is past 2 ^ 32.
decode-encode_chunk_frame_example :
    (frame : List ℕ) × (encode_chunk_frame (2 ^ 32 + 258) 7 iv (97 ∷ 98 ∷ []) ≡ some frame)
    × (decode_chunk_frame frame
        ≡ some (record {
          short_id = (2 ^ 32 + 258) % 2 ^ 32;
          index = 7 % 2 ^ 32;
          iv = iv;
          ciphertext = 97 ∷ 98 ∷ [];
        }))
decode-encode_chunk_frame_example =
    decode-encode_chunk_frame (2 ^ 32 + 258) 7 iv (97 ∷ 98 ∷ []) refl

-- One byte more than three chunks.
chunks_tile_example :
    (sum_lengths 774145 (expected_chunk_count 774145) ≡ 774145)
    × (0 < expected_chunk_length 774145 3)
    × (3 * chunk_size + expected_chunk_length 774145 3 ≤ 774145)
unfolding misaka_network.Client.Transfer.Geometry.is_valid_chunk_index expected_chunk_count
chunks_tile_example = chunks_tile 774145 3 refl

-- { type: 'meta', transferId: 'a-1', shortId: 5, fileName: '../b', fileSize: 258049, totalChunks: 2 }
abbrev raw : RawMeta
raw = record {
  type_of = text (0x6d ∷ 0x65 ∷ 0x74 ∷ 0x61 ∷ []);
  transfer_id = text (0x61 ∷ 0x2d ∷ 0x31 ∷ []);
  short_id = natural 5;
  file_name = text (0x2e ∷ 0x2e ∷ 0x2f ∷ 0x62 ∷ []);
  file_size = natural 258049;
  file_hash = other;
  total_chunks = natural 2;
  mime = other;
  version = natural 3;
}

abbrev meta : MetaMessage
meta = record {
  transfer_id = 0x61 ∷ 0x2d ∷ 0x31 ∷ [];
  short_id = 5;
  file_name = 0x5f ∷ 0x62 ∷ [];
  file_size = 258049;
  file_hash = [];
  total_chunks = 2;
  mime = default_mime;
  version = natural 3;
}

validate_meta_message-SafeMeta_example : SafeMeta meta
unfolding validate_meta_message
validate_meta_message-SafeMeta_example = validate_meta_message-SafeMeta raw meta refl

-- The polls of a channel that stays a byte above the mark.
abbrev ticks : ℕ → ℕ → List WaitEvent
ticks zero now = []
ticks (suc n) now = poll (now + 50) true (high_water_mark + 1) ∷ ticks n (now + 50)

wait_for_buffer_ends_example :
    is_settled (run_wait 0 (wait_for_buffer 0 1000 true (high_water_mark + 1) false) (ticks 2 1000))
    ≡ true
wait_for_buffer_ends_example =
    wait_for_buffer_ends 0 1000 (high_water_mark + 1) true false (ticks 2 1000)
      (omega arith, omega arith) (omega arith)

abbrev idle : Flow
idle = record { transfer_signals = []; resolved = []; aborted = [] }

-- Two transfers are paused; a lane of the first waits, a lane of the second too.
no_wake_up_lost_example :
    let g =
      run
        (wait_while_paused (run idle (pause "t" ∷ pause "u" ∷ [])) "t" 1)
        (wait "u" 2 ∷ hold "t" 9 ∷ []) in
    ((is_resolved g 1 || is_parked g "t" 1) ≡ true)
    × (is_resolved (resume_transfer g "t") 1 ≡ true)
    × (is_resolved (cancel_transfer g "t") 1 ≡ true)
no_wake_up_lost_example =
    no_wake_up_lost (run idle (pause "t" ∷ pause "u" ∷ [])) "t" 1 (wait "u" 2 ∷ hold "t" 9 ∷ [])
      refl
