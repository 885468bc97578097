-- ===== src/Protocol/Frames.antt =====
-- `encodeFrame` and `createFrameDecoder` of scripts/host-helper-protocol.mjs. A frame is the length of
-- its body in four bytes, the highest first, and the body. What the decoder keeps after it has thrown
-- is left out: both ends close the connection then.
pub mod Chunks
pub mod Transmit
pub mod Tests
use repo_assessment_kit.Prelude.{
  ℕ, zero, suc, ◌+◌, ◌*◌, ◌/◌, ◌%◌, Bool, true, false, not, ◌&&◌, ◌||◌, Option, none, some, List,
  [], ◌∷◌, ◌++◌, ltb, leb, eqb, length, take, drop, if◌then◌else◌,
}
use repo_assessment_kit.Prelude.Result.{
  Result, ok, throws, require, resource_limit, auth_failed, thrown, ◌>>=◌, ◌>>◌,
}
use repo_assessment_kit.Json.{Number, Value}
use repo_assessment_kit.Protocol.Canonical.{canonical_json}
use repo_assessment_kit.Protocol.Responses.{max_frame_bytes}
use repo_assessment_kit.Protocol.Strict.{parse_strict_json_bytes}

-- `writeUInt32BE` and `readUInt32BE`.
unfoldable pub write_length : ℕ → List ℕ
write_length n = n / 16777216 % 256 ∷ n / 65536 % 256 ∷ n / 256 % 256 ∷ n % 256 ∷ []

unfoldable pub read_length : List ℕ → ℕ
read_length (a ∷ b ∷ c ∷ d ∷ bytes) = ((a * 256 + b) * 256 + c) * 256 + d
read_length _ = 0

-- `utf8_encode` is `Buffer.from(text, "utf8")`.
unfoldable pub encode_frame : (List ℕ → List ℕ) → Value → Result (List ℕ)
unfolding write_length
encode_frame utf8_encode v = do
  text ← canonical_json v
  let body = utf8_encode text
  require (leb (length body) max_frame_bytes) resource_limit
  ok (write_length (length body) ++ body)

-- The variables of the closure.
pub record Decoder : Type 0 where
  pub pending : List ℕ
  pub expected : Option ℕ
  pub frames : ℕ

abbrev pub new_decoder : Decoder
new_decoder = record { pending = []; expected = none; frames = 0 }

-- `expected === undefined ? HOST_HELPER_MAX_FRAME_BYTES + 4 : expected`.
abbrev pub permitted : Option ℕ → ℕ
permitted none = max_frame_bytes + 4
permitted (some n) = n

-- `decoder.finish`.
unfoldable pub is_finished : Decoder → Bool
is_finished d =
    eqb d.frames 1 && eqb (length d.pending) 0 && elim d.expected [ none ↦ true | some n ↦ false ]

module _ (nearest : List ℕ → Number) (utf8_decode : List ℕ → Option (List ℕ)) where
  -- The second part of a round of the loop, with `expected` known: nothing is delivered while the
  -- body is not there.
  unfoldable pub take_body : ℕ → List ℕ → ℕ → Result (Decoder × Option Value)
  take_body n pending frames =
      if ltb (length pending) n
      then ok (record { pending = pending; expected = some n; frames = frames }, none)
      else if not (eqb (frames + 1) 1) || not (eqb (length (drop n pending)) 0)
      then throws auth_failed
      else (parse_strict_json_bytes nearest utf8_decode (take n pending) >>= λ v.
          ok (record { pending = drop n pending; expected = none; frames = frames + 1 }, some v))

  -- A round of the loop.
  unfoldable pub read_header : List ℕ → ℕ → Result (Decoder × Option Value)
  read_header pending frames =
      if ltb (length pending) 4
      then ok (record { pending = pending; expected = none; frames = frames }, none)
      else if eqb (read_length pending) 0 || ltb max_frame_bytes (read_length pending)
      then throws resource_limit
      else take_body (read_length pending) (drop 4 pending) frames

  unfoldable pub decode_round : Decoder → Result (Decoder × Option Value)
  decode_round d = elim d.expected [
    | none ↦ read_header d.pending d.frames
    | some n ↦ take_body n d.pending d.frames
  ]

  -- The loop. A second round finds no byte left, so that two are enough.
  unfoldable pub decode_loop : ℕ → Decoder → Result (Decoder × List Value)
  unfolding decode_round
  decode_loop zero d = throws thrown
  decode_loop (suc rounds) d = do
    (d', out) ← decode_round d
    elim out [
      | none ↦ ok (d', [])
      | some v ↦ decode_loop rounds d' >>= λ (d'', vs). ok (d'', v ∷ vs)
    ]

  -- A chunk arrives; the values are those that `onFrame` is called with.
  unfoldable pub feed : Decoder → List ℕ → Result (Decoder × List Value)
  unfolding decode_loop
  feed d chunk = do
    require (leb (length d.pending + length chunk) (permitted d.expected)) resource_limit
    decode_loop 2 (record d { pending = d.pending ++ chunk })

  unfoldable pub feed_all : Decoder → List (List ℕ) → Result (Decoder × List Value)
  feed_all d [] = ok (d, [])
  feed_all d (chunk ∷ chunks) = do
    (d', vs) ← feed d chunk
    (d'', ws) ← feed_all d' chunks
    ok (d'', vs ++ ws)
