-- ===== src/Protocol/Frames/Transmit.antt =====
-- A value sent by `encodeFrame` of scripts/host-helper-protocol.mjs arrives through
-- `createFrameDecoder`.
use repo_assessment_kit.Prelude.{
  ℕ, ◌<◌, ◌≡◌, ◌∙◌, sym, ap, Option, some, List, [], ◌∷◌, ◌++◌, leb, length, arith, Bool-cases, inl,
  inr, leb→le,
}
use repo_assessment_kit.Prelude.Result.{ok}
use repo_assessment_kit.Json.{Number, Value}
use repo_assessment_kit.Protocol.Canonical.{canonical_json}
use repo_assessment_kit.Protocol.Responses.{max_frame_bytes}
use repo_assessment_kit.Protocol.Strict.RoundTrip.{
  sorted, IsNamed, canonical_json-ne-nil, parse_strict-canonical,
}
use repo_assessment_kit.Protocol.Frames.{write_length, encode_frame, new_decoder, feed_all}
use repo_assessment_kit.Protocol.Frames.Chunks.{flat, done, decode-chunks}

module _ (nearest : List ℕ → Number) (utf8_encode : List ℕ → List ℕ)
    (utf8_decode : List ℕ → Option (List ℕ)) where
  bytes-ne-nil :
      (text : List ℕ)
      → utf8_decode [] ≡ some []
      → utf8_decode (utf8_encode text) ≡ some text
      → 0 < length text
      → 0 < length (utf8_encode text)
  bytes-ne-nil text nothing decoded h = nonempty (utf8_encode text) decoded
    where
      nonempty : (bytes : List ℕ) → utf8_decode bytes ≡ some text → 0 < length bytes
      nonempty [] read = let same : text ≡ [] = cc in absurd (omega (arith, ap length same))
      nonempty (b ∷ bytes) read = omega arith

  -- A value that `encodeFrame` accepts arrives whole, and once, however the connection cuts the frame
  -- into chunks: the decoder delivers the value, with the members of its objects in the order of their
  -- names. No object of the value has two members of one name, a member `__proto__`, or one that is named
  -- by an array index. No bytes are decoded to no text, and the bytes of the value's canonical text to that
  -- text, which UTF-8 does where the text has no half of a surrogate pair alone.
  pub encode-decode :
      (v : Value) (text frame : List ℕ) (chunks : List (List ℕ))
      → IsNamed v
      → canonical_json v ≡ ok text
      → utf8_decode [] ≡ some []
      → utf8_decode (utf8_encode text) ≡ some text
      → encode_frame utf8_encode v ≡ ok frame
      → flat chunks ≡ frame
      → feed_all nearest utf8_decode new_decoder chunks ≡ ok (done, sorted v ∷ [])
  unfolding encode_frame
  encode-decode v text frame chunks named printed nothing decoded h cut =
      let body = utf8_encode text in
      elim (Bool-cases (leb (length body) max_frame_bytes)) [
        | inr long ↦ absurd (ground arith)
        | inl short ↦
            let whole : write_length (length body) ++ body ≡ frame = ground arith in
            decode-chunks nearest utf8_decode body (sorted v)
              (parse_strict-canonical nearest v text body utf8_decode named printed decoded)
              (bytes-ne-nil text nothing decoded
                (canonical_json-ne-nil nearest v text named printed))
              (leb→le (length body) max_frame_bytes short) chunks (cut ∙ sym whole)
      ]
