-- ===== src/Protocol/Frames/Chunks.antt =====
-- A frame of scripts/host-helper-protocol.mjs is decoded however the connection cuts it into chunks.
use mathlib.Core.List.{append_assoc, append-nil}
use repo_assessment_kit.Prelude.{
  ℕ, ◌+◌, ◌≤◌, ◌<◌, ◌≡◌, refl, sym, ap, ◌∙◌, false, ◌||◌, Option, none, some, List, [], ◌∷◌, ◌++◌,
  ltb, eqb, length, length-append, drop, take-length, drop-length, arith, Bool-cases, inl, inr,
  lt→ltb, ltb→lt, le→leb,
}
use repo_assessment_kit.Prelude.Result.{Result, ok}
use repo_assessment_kit.Json.{Number, Value}
use repo_assessment_kit.Protocol.Responses.{max_frame_bytes}
use repo_assessment_kit.Protocol.Strict.{parse_strict_json_bytes}
use repo_assessment_kit.Protocol.Frames.{
  write_length, read_length, Decoder, new_decoder, take_body, read_header, feed, feed_all,
}

abbrev pub flat : List (List ℕ) → List ℕ
flat [] = []
flat (chunk ∷ chunks) = chunk ++ flat chunks

abbrev pub done : Decoder
done = record { pending = []; expected = none; frames = 1 }

read_length-write_length :
    (n : ℕ) (bytes : List ℕ) → n ≤ max_frame_bytes → read_length (write_length n ++ bytes) ≡ n
unfolding read_length write_length
read_length-write_length n bytes h = omega arith

module _ (nearest : List ℕ → Number) (utf8_decode : List ℕ → Option (List ℕ)) (body : List ℕ)
    (v : Value) (parsed : parse_strict_json_bytes nearest utf8_decode body ≡ ok v)
    (some_byte : 0 < length body) (short : length body ≤ max_frame_bytes) where
  abbrev go : Decoder → List (List ℕ) → Result (Decoder × List Value)
  go = feed_all nearest utf8_decode

  -- Nothing is left to come: only empty chunks follow.
  feed-done : feed nearest utf8_decode done [] ≡ ok (done, [])
  unfolding feed read_header
  feed-done = refl

  after_frame : (chunks : List (List ℕ)) → flat chunks ≡ [] → go done chunks ≡ ok (done, [])
  unfolding feed_all
  after_frame [] e = refl
  after_frame ([] ∷ chunks) e = rw (feed-done, after_frame chunks e)
  after_frame ((c ∷ cs) ∷ chunks) e = cc

  -- The whole body is there.
  body_whole :
      (bytes : List ℕ)
      → bytes ≡ body
      → take_body nearest utf8_decode (length body) bytes 0 ≡ ok (done, some v)
  unfolding take_body
  body_whole bytes e =
      rw (e, take-length (length body) body refl, drop-length (length body) body refl, parsed)
        (ground arith)

  body_part :
      (bytes : List ℕ)
      → length bytes < length body
      → take_body nearest utf8_decode (length body) bytes 0
        ≡ ok (record { pending = bytes; expected = some (length body); frames = 0 }, none)
  unfolding take_body
  body_part bytes h = ground arith

  abbrev in_body : List ℕ → Decoder
  in_body bytes = record { pending = bytes; expected = some (length body); frames = 0 }

  abbrev in_header : List ℕ → Decoder
  in_header bytes = record { pending = bytes; expected = none; frames = 0 }

  -- One chunk of the body, after the bytes that came before.
  feed-body_part :
      (bytes chunk : List ℕ)
      → length (bytes ++ chunk) < length body
      → feed nearest utf8_decode (in_body bytes) chunk ≡ ok (in_body (bytes ++ chunk), [])
  unfolding feed
  feed-body_part bytes chunk h = rw (
    le→leb (length bytes + length chunk) (length body) (omega (arith, length-append bytes chunk)),
    body_part (bytes ++ chunk) h,
  )

  feed-body_whole :
      (bytes chunk : List ℕ)
      → bytes ++ chunk ≡ body
      → feed nearest utf8_decode (in_body bytes) chunk ≡ ok (done, v ∷ [])
  unfolding feed read_header
  feed-body_whole bytes chunk e = rw (
    le→leb (length bytes + length chunk) (length body)
        (omega (arith, length-append bytes chunk, ap length e)),
    body_whole (bytes ++ chunk) e,
  )

  feed-header_part :
      (bytes chunk : List ℕ)
      → length (bytes ++ chunk) < 4
      → feed nearest utf8_decode (in_header bytes) chunk ≡ ok (in_header (bytes ++ chunk), [])
  unfolding feed read_header
  feed-header_part bytes chunk h = rw (
    le→leb (length bytes + length chunk) (max_frame_bytes + 4)
        (omega (arith, length-append bytes chunk)),
    lt→ltb (length (bytes ++ chunk)) 4 h,
  )

  -- The first round, once the header is there, is the round for the body.
  abbrev frame_with : List ℕ → List ℕ
  frame_with bytes = write_length (length body) ++ bytes

  read_header-frame :
      (bytes : List ℕ)
      → read_header nearest utf8_decode (frame_with bytes) 0
        ≡ take_body nearest utf8_decode (length body) bytes 0
  unfolding read_header
  read_header-frame bytes =
      let size = read_length-write_length (length body) bytes short in
      let rest : drop 4 (frame_with bytes) ≡ bytes = unfold write_length in refl in
      let full : ltb (length (frame_with bytes)) 4 ≡ false = unfold write_length in ground arith in
      let valid : (eqb (length body) 0 || ltb max_frame_bytes (length body)) ≡ false =
        ground arith in
      rw (read_header, full, size, valid, rest)

  -- The chunk that completes the header, and perhaps the body.
  feed-header_body :
      (bytes chunk rest : List ℕ)
      → bytes ++ chunk ≡ frame_with rest
      → length rest < length body
      → feed nearest utf8_decode (in_header bytes) chunk ≡ ok (in_body rest, [])
  unfolding feed
  feed-header_body bytes chunk rest e h =
      let size : length (frame_with rest) ≡ 4 + length rest = unfold write_length in omega arith in
      rw (
        le→leb (length bytes + length chunk) (max_frame_bytes + 4)
            (omega (arith, length-append bytes chunk, ap length e)),
        e,
        read_header-frame rest,
        body_part rest h,
      )

  feed-header_frame :
      (bytes chunk rest : List ℕ)
      → bytes ++ chunk ≡ frame_with rest
      → rest ≡ body
      → feed nearest utf8_decode (in_header bytes) chunk ≡ ok (done, v ∷ [])
  unfolding feed
  feed-header_frame bytes chunk rest e h =
      let size : length (frame_with rest) ≡ 4 + length rest = unfold write_length in omega arith in
      rw
        (
          le→leb (length bytes + length chunk) (max_frame_bytes + 4)
              (omega (arith, length-append bytes chunk, ap length e, ap length h)),
          e,
          read_header-frame rest,
          body_whole rest h,
        )
        (unfold read_header in refl)

  -- What has come is all, if it is as long as all.
  all_here :
      (s t whole : List ℕ) → s ++ t ≡ whole → length whole ≤ length s → (t ≡ []) × (s ≡ whole)
  all_here s [] whole e h = (refl, sym (append-nil s) ∙ e)
  all_here s (c ∷ t) whole e h = absurd (omega (arith, length-append s (c ∷ t), ap length e))

  body_chunks :
      (chunks : List (List ℕ)) (bytes : List ℕ)
      → bytes ++ flat chunks ≡ body
      → length bytes < length body
      → go (in_body bytes) chunks ≡ ok (done, v ∷ [])
  unfolding feed_all
  body_chunks [] bytes e h = absurd (omega (arith, length-append bytes [], ap length e))
  body_chunks (chunk ∷ chunks) bytes e h =
      let e' : (bytes ++ chunk) ++ flat chunks ≡ body =
        append_assoc bytes chunk (flat chunks) ∙ e in
      elim (Bool-cases (ltb (length (bytes ++ chunk)) (length body))) [
        | inl part ↦ rw (
          feed-body_part bytes chunk (ltb→lt _ _ part),
          body_chunks chunks (bytes ++ chunk) e' (ltb→lt _ _ part),
        )
        | inr full ↦
            let (none_left, all) = all_here (bytes ++ chunk) (flat chunks) body e' (ground arith) in
            rw (feed-body_whole bytes chunk all, after_frame chunks none_left)
      ]

  -- Bytes at the front of a frame are the header's, as soon as there are four.
  header_front :
      (s t : List ℕ)
      → s ++ t ≡ frame_with body
      → 4 ≤ length s
      → (rest : List ℕ) × (s ≡ frame_with rest) × (rest ++ t ≡ body)
  unfolding write_length
  header_front [] t e h = absurd (omega arith)
  header_front (a ∷ []) t e h = absurd (omega arith)
  header_front (a ∷ b ∷ []) t e h = absurd (omega arith)
  header_front (a ∷ b ∷ c ∷ []) t e h = absurd (omega arith)
  header_front (a ∷ b ∷ c ∷ d ∷ rest) t e h = (rest, cc, cc)

  header_chunks :
      (chunks : List (List ℕ)) (bytes : List ℕ)
      → bytes ++ flat chunks ≡ frame_with body
      → length bytes < 4
      → go (in_header bytes) chunks ≡ ok (done, v ∷ [])
  unfolding feed_all
  header_chunks [] bytes e h =
      let size : length (frame_with body) ≡ 4 + length body = unfold write_length in omega arith in
      absurd (omega (arith, length-append bytes [], ap length e))
  header_chunks (chunk ∷ chunks) bytes e h =
      let e' : (bytes ++ chunk) ++ flat chunks ≡ frame_with body =
        append_assoc bytes chunk (flat chunks) ∙ e in
      elim (Bool-cases (ltb (length (bytes ++ chunk)) 4)) [
        | inl part ↦ rw (
          feed-header_part bytes chunk (ltb→lt _ _ part),
          header_chunks chunks (bytes ++ chunk) e' (ltb→lt _ _ part),
        )
        | inr full ↦
            let (rest, shape, e'') =
              header_front (bytes ++ chunk) (flat chunks) e' (ground arith) in
            elim (Bool-cases (ltb (length rest) (length body))) [
              | inl part ↦ rw (
                feed-header_body bytes chunk rest shape (ltb→lt _ _ part),
                body_chunks chunks rest e'' (ltb→lt _ _ part),
              )
              | inr whole ↦
                  let (none_left, all) = all_here rest (flat chunks) body e'' (ground arith) in
                  rw (feed-header_frame bytes chunk rest shape all, after_frame chunks none_left)
            ]
      ]

  -- However the connection cuts a frame into chunks, empty ones included, the decoder delivers exactly
  -- the value of its body, and then has a finished frame. (The body has a byte, is within the limit,
  -- and parses.)
  pub decode-chunks :
      (chunks : List (List ℕ))
      → flat chunks ≡ write_length (length body) ++ body
      → go new_decoder chunks ≡ ok (done, v ∷ [])
  decode-chunks chunks e = header_chunks chunks [] e (omega arith)
