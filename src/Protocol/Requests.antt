-- ===== src/Protocol/Requests.antt =====
-- Authentication of scripts/host-helper-protocol.mjs: `signHostRequest`, `signHostResponse`,
-- `verifyMac` and `validateHostRequest`.
--
-- `RegExp.prototype.test` and property access coerce their argument to a text, so that a field of a
-- request may be a number or an array whose text has the right form; the model keeps that. Times
-- are milliseconds since the least time of a `Date`.
pub mod Accepts
pub mod Signing
use Prim.Native.String
use repo_assessment_kit.Prelude.{
  ℕ, ◌+◌, String, Bool, true, false, not, ◌&&◌, ◌||◌, Option, none, some, List, [], ◌∷◌, ◌++◌,
  every, length, leb, ltb, eqb, if◌then◌else◌,
}
use repo_assessment_kit.Prelude.Dict.{lookup, erase, insert}
use repo_assessment_kit.Prelude.Result.{
  Result, ok, throws, require, auth_failed, unknown_registered_id, expired, protocol_version,
  thrown, ◌>>=◌, ◌>>◌,
}
use repo_assessment_kit.Json.{
  Value, str, obj, entries, fields_of, get, is_text, is_record, inherited,
}
use repo_assessment_kit.Json.Text.{to_text}
use repo_assessment_kit.Protocol.Grammar.{
  Platform, codes, matches_safe_id, matches_decimal, matches_digest, matches_hex64, text_and,
}
use repo_assessment_kit.Protocol.Shape.{same_keys}
use repo_assessment_kit.Protocol.Registry.{request_keys, operation_payload_keys}
use repo_assessment_kit.Protocol.Payload.{validate_operation_payload}
use repo_assessment_kit.Protocol.Canonical.{canonical_json}

-- `delete value[key]` on a clone.
unfoldable pub without : String → Value → Value
unfolding erase
without key (obj fs) = obj (fields_of (erase key (entries fs)))
without key v = v

-- `value[key] = item` on a clone.
unfoldable pub with_field : String → Value → Value → Value
unfolding insert
with_field key new (obj fs) = obj (fields_of (insert key new (entries fs)))
with_field key new v = v

module _ (node : Platform) where
  unfoldable pub digest_canonical : Value → Result String
  digest_canonical v = do text ← canonical_json v; ok (String.◌++◌ "sha256:" (node.sha256_hex text))

  unfoldable pub unsigned_request : Value → Value
  unsigned_request request = without "requestDigest" (without "mac" request)

  unfoldable pub mac_of : List ℕ → Value → Result String
  mac_of key v = do text ← canonical_json (without "mac" v); ok (node.hmac_hex key text)

  unfoldable pub sign_host_request : Value → List ℕ → Result Value
  sign_host_request input key = do
    require (eqb (length key) 32) auth_failed
    request_digest ← digest_canonical (unsigned_request input)
    let request = with_field "requestDigest" (str request_digest) input
    mac ← mac_of key request
    ok (with_field "mac" (str mac) request)

  unfoldable pub sign_host_response : Value → List ℕ → Result Value
  sign_host_response response key = do
    mac ← mac_of key response
    ok (with_field "mac" (str mac) response)

  -- `timingSafeEqual` of the two digests' bytes: both are 64 hexadecimal digits in lower case, so
  -- their bytes agree if and only if the texts do.
  unfoldable pub verify_mac : Value → List ℕ → Result Bool
  verify_mac v key =
      if text_and (λ s. matches_hex64 (codes s)) (get v "mac")
      then (do expected ← mac_of key v; ok (is_text (get v "mac") expected))
      else ok false

  -- The text of a field, as `RegExp.prototype.test` reads it.
  abbrev pub field_text : Value → String → String
  field_text request name = to_text (get request name)

  abbrev safe_id_field : Value → String → Bool
  safe_id_field request name = matches_safe_id (codes (field_text request name))

  -- The keys of the payload that the table gives for the operation. A name that every object
  -- inherits finds a function, and spreading that throws a `TypeError`.
  unfoldable pub payload_shape_ok : Value → Result (Unit {0})
  payload_shape_ok request = elim (lookup (field_text request "operation") operation_payload_keys) [
    | some expected ↦ require (same_keys (get request "payload") expected) unknown_registered_id
    | none ↦
        if inherited (field_text request "operation")
        then throws thrown
        else throws unknown_registered_id
  ]

  -- `Date.parse` of a field.
  abbrev pub date_field : Value → String → Option ℕ
  date_field request name = node.date_parse (field_text request name)

  unfoldable pub is_fresh : ℕ → Option ℕ → Option ℕ → Bool
  is_fresh now (some issued) (some expires) =
      leb issued (now + 5000)
      && ltb now expires
      && leb expires (issued + 60000)
      && leb now (issued + 60000)
  is_fresh now _ _ = false

  -- The fields before the payload.
  unfoldable pub header_ok : Value → Result (Unit {0})
  header_ok request = do
    require (same_keys request request_keys) auth_failed
    require (is_text (get request "protocolVersion") "1.0.0") protocol_version
    require
        (every (safe_id_field request) (
          "installationId" ∷ "requestId" ∷ "commandId" ∷ "runId" ∷ "attemptId" ∷ "idempotencyKey"
          ∷ "operation" ∷ []))
        auth_failed
    require
        (matches_decimal (codes (field_text request "fenceToken"))
          && matches_decimal (codes (field_text request "counter")))
        auth_failed
    require
        (matches_hex64 (codes (field_text request "nonce"))
          && matches_digest (codes (field_text request "requestDigest")))
        auth_failed
    require (is_record (get request "payload")) auth_failed

  -- `request.requestDigest !== digestCanonical(...) || !verifyMac(request, key)`.
  unfoldable pub authenticated : Value → List ℕ → Result (Unit {0})
  authenticated request key = do
    expected ← digest_canonical (unsigned_request request)
    require (is_text (get request "requestDigest") expected) auth_failed
    genuine ← verify_mac request key
    require genuine auth_failed

  -- The function returns a clone of the request; here it returns nothing.
  unfoldable pub validate_host_request : Value → List ℕ → ℕ → Result (Unit {0})
  validate_host_request request key now = do
    header_ok request
    payload_shape_ok request
    validate_operation_payload node (get request "operation") (get request "payload")
    require (is_fresh now (date_field request "issuedAt") (date_field request "expiresAt")) expired
    authenticated request key
