-- ===== src/Examples/Chunks.antt =====
-- A frame of two chunks, and messages from a hostile peer.
use mango_protocol.Codec.Reassembler.Messages.{encode_chunks-sizes}
use mango_protocol.Codec.Limits.{check_at_least}
use mango_protocol.Common.{All, length, ◌≤◌, some, List, [], ◌≡◌, refl, none, Bytes, ok, arith}
use mango_protocol.Wire.Frame.{Frame}
use mango_protocol.Validate.Checks.{validate}
use mango_protocol.Codec.Ndjson.{encode_frame_bytes}
use mango_protocol.Codec.Chunk.{
  new_reassembler, chunk_message, max_chunks_for, ChunkReassembler, reset, chunk_messages,
  encode_chunks,
}
use mango_protocol.Codec.Reassembler.{push_message}
use mango_protocol.Codec.Reassembler.Bounds.{IsSound, new_reassembler-IsSound, push_message-IsSound}
use mango_protocol.Codec.Reassembler.Delivery.{Delivers}
use mango_protocol.Codec.Reassembler.RoundTrip.{push_message-encode_chunks}
use mango_protocol.Examples.{toy_libs, toy_serde, toy_IsCompact, toy_ReadsBack-pong, pong_bytes}

abbrev waiting : ChunkReassembler
waiting = record {
  max_message_bytes = 2048;
  max_frame_bytes = 4096;
  count = none;
  next_index = 0;
  buffer = [];
}

made : new_reassembler 2048 4096 ≡ some waiting
unfolding new_reassembler check_at_least
made = refl

waiting-IsSound : IsSound waiting
waiting-IsSound = new_reassembler-IsSound 2048 4096 waiting made

push_message-IsSound_example : IsSound (push_message waiting (chunk_message pong_bytes 2039 2 0)).0
push_message-IsSound_example =
    push_message-IsSound waiting (chunk_message pong_bytes 2039 2 0) waiting-IsSound

abbrev two_messages : List Bytes
unfolding chunk_messages
two_messages = chunk_messages pong_bytes 2039 2 0 2

two_chunks : encode_chunks Frame.pong 2048 4096 ≡ ok two_messages
unfolding encode_chunks encode_frame_bytes validate pong_bytes max_chunks_for two_messages
    chunk_messages
two_chunks = refl

push_message-encode_chunks_example : Delivers Frame.pong waiting waiting two_messages
unfolding reset
push_message-encode_chunks_example =
    push_message-encode_chunks Frame.pong 2048 4096 two_messages waiting toy_IsCompact
      toy_ReadsBack-pong (omega arith) two_chunks refl refl

encode_chunks-sizes_example :
    All (λ m. length m ≤ 2048) two_messages × (length two_messages ≤ max_chunks_for 4096)
encode_chunks-sizes_example =
    encode_chunks-sizes Frame.pong 2048 4096 two_messages toy_IsCompact (omega arith) two_chunks
