-- ===== src/Examples/Records.antt =====
-- Records on a byte stream.
use mango_protocol.Common.{
  ◌≡◌, refl, [], ◌∷◌, ◌++◌, none, some, Bytes, ok, take, drop, Result, text_eq,
}
use mango_protocol.Wire.Error.{CodecError}
use mango_protocol.Wire.Frame.{Frame}
use mango_protocol.Validate.Checks.{validate}
use mango_protocol.Codec.Serde.{bad_data}
use mango_protocol.Codec.Ndjson.{
  strip_carriage_return, encode_frame_bytes, encode_line, decode_line, read_refusal, read_frame,
  is_blank,
}
use mango_protocol.Codec.Ndjson.RoundTrip.{decode_line-encode_frame_bytes}
use mango_protocol.Codec.Decoder.{
  LineDecoder, push, check_partial, drain, drain_line, finish, take_line, new_decoder,
}
use mango_protocol.Codec.Decoder.Bounds.{
  IsSettled, new_decoder-IsSettled, push-IsSettled, push_final,
}
use mango_protocol.Codec.Decoder.Pieces.{Agrees, push-append}
use mango_protocol.Codec.Decoder.Streams.{IsStream, line, done, push-IsStream}
use mango_protocol.Examples.{
  toy_libs, toy_serde, toy_IsCompact, toy_ReadsBack-ping, ping_bytes, pong_bytes,
}

abbrev decoder : LineDecoder
decoder = record { max_frame_bytes = 4096; buffer = []; failure = none }

made : new_decoder 4096 ≡ some decoder
unfolding new_decoder
made = refl

decoder-IsSettled : IsSettled decoder
decoder-IsSettled = new_decoder-IsSettled 4096 decoder made

encoded : encode_frame_bytes ⦃L = toy_libs⦄ Frame.ping 4096 ≡ ok ping_bytes
unfolding encode_frame_bytes validate ping_bytes
encoded = refl

decode_line-encode_frame_bytes_example : decode_line ⦃L = toy_libs⦄ ping_bytes 4096 ≡ ok Frame.ping
decode_line-encode_frame_bytes_example =
    decode_line-encode_frame_bytes Frame.ping 4096 ping_bytes toy_IsCompact toy_ReadsBack-ping
      encoded

-- A record that arrives in two pieces.
push-append_example :
    Agrees
      (push decoder (take 6 ping_bytes))
      (push (push decoder (take 6 ping_bytes)).0 (drop 6 ping_bytes ++ 10 ∷ []))
      (push decoder (take 6 ping_bytes ++ (drop 6 ping_bytes ++ 10 ∷ [])))
push-append_example = push-append decoder (take 6 ping_bytes) (drop 6 ping_bytes ++ 10 ∷ [])

push-IsSettled_example : IsSettled (push decoder (take 6 ping_bytes)).0
push-IsSettled_example = push-IsSettled decoder (take 6 ping_bytes) decoder-IsSettled

-- `x` on a line of its own is no frame.
abbrev refusal : CodecError
refusal = read_refusal (120 ∷ []) (record { category = bad_data; text = [] })

refused : (push decoder (120 ∷ 10 ∷ [])).1.error ≡ some refusal
unfolding push check_partial drain take_line drain_line strip_carriage_return is_blank decode_line
    read_frame text_eq ping_bytes pong_bytes
refused = refl

push_final_example :
    (push (push decoder (120 ∷ 10 ∷ [])).0 ping_bytes
      ≡ ((push decoder (120 ∷ 10 ∷ [])).0, record { frames = []; error = some refusal }))
    × (finish (push decoder (120 ∷ 10 ∷ [])).0
        ≡ ((push decoder (120 ∷ 10 ∷ [])).0, Result.err refusal))
push_final_example = push_final decoder (120 ∷ 10 ∷ []) ping_bytes refusal refused

abbrev line_bytes : Bytes
line_bytes = ping_bytes ++ 10 ∷ []

one_line : encode_line Frame.ping 4096 ≡ ok line_bytes
unfolding encode_line encode_frame_bytes validate ping_bytes
one_line = refl

two_lines : IsStream 4096 (Frame.ping ∷ Frame.ping ∷ []) (line_bytes ++ (line_bytes ++ []))
two_lines = line Frame.ping _ line_bytes _ one_line (line Frame.ping _ line_bytes _ one_line done)

push-IsStream_example :
    push decoder (line_bytes ++ (line_bytes ++ []))
    ≡ (decoder, record { frames = Frame.ping ∷ Frame.ping ∷ []; error = none })
push-IsStream_example =
    push-IsStream decoder (Frame.ping ∷ Frame.ping ∷ []) (line_bytes ++ (line_bytes ++ []))
      toy_IsCompact (toy_ReadsBack-ping, (toy_ReadsBack-ping, tt)) two_lines refl refl
