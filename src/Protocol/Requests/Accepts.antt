-- ===== src/Protocol/Requests/Accepts.antt =====
-- What `validateHostRequest` of scripts/host-helper-protocol.mjs has established when it accepts.
use repo_assessment_kit.Prelude.{
  ℕ, ◌+◌, ◌≤◌, ◌<◌, ◌≡◌, sym, ◌∙◌, ap, String, true, some, List, arith, eq_iff, Option-cases,
  Bool-cases, inl, inr,
}
use repo_assessment_kit.Prelude.Dict.{lookup}
use repo_assessment_kit.Prelude.Result.{ok, require, require-eq-ok, Result-cases, first_ok, expired}
use repo_assessment_kit.Json.{Value, str, get, is_text}
use repo_assessment_kit.Protocol.Grammar.{Platform, codes, matches_hex64, text_and}
use repo_assessment_kit.Protocol.Shape.{same_keys}
use repo_assessment_kit.Protocol.Registry.{operation_payload_keys}
use repo_assessment_kit.Protocol.Payload.{validate_operation_payload}
use repo_assessment_kit.Protocol.Requests.{
  digest_canonical, unsigned_request, mac_of, verify_mac, field_text, payload_shape_ok, date_field,
  is_fresh, header_ok, authenticated, validate_host_request,
}

pub eq-str_of_is_text : (v : Value) (s : String) → is_text v s ≡ true → v ≡ str s
eq-str_of_is_text (str t) s h = ap str ((eq_iff t s).0 h)
eq-str_of_is_text _ s h = cc

module _ (node : Platform) (request : Value) (key : List ℕ) where
  -- The digest and the keyed digest that the request carries are those of its own content.
  pub record IsAuthentic : Type 0 where
    pub request_digest : String
    pub digest_computed : digest_canonical node (unsigned_request node request) ≡ ok request_digest
    pub digest_carried : get request "requestDigest" ≡ str request_digest
    pub mac : String
    pub mac_computed : mac_of node key request ≡ ok mac
    pub mac_carried : get request "mac" ≡ str mac

  pub verify_mac-true :
      verify_mac node request key ≡ ok true
      → (mac : String) × (mac_of node key request ≡ ok mac) × (get request "mac" ≡ str mac)
  unfolding verify_mac
  verify_mac-true h =
      elim (Bool-cases (text_and (λ s. matches_hex64 (codes s)) (get request "mac"))) [
        | inr malformed ↦ absurd (ground arith)
        | inl formed ↦ elim (Result-cases (mac_of node key request)) [
          | inr (x, failed) ↦ absurd (ground arith)
          | inl (mac, computed) ↦
              (mac, computed, eq-str_of_is_text (get request "mac") mac (ground arith))
        ]
      ]

  pub authenticated-IsAuthentic : authenticated node request key ≡ ok tt → IsAuthentic
  unfolding authenticated
  authenticated-IsAuthentic h =
      elim (Result-cases (digest_canonical node (unsigned_request node request))) [
        | inr (x, failed) ↦ absurd (ground arith)
        | inl (expected, computed) ↦
            elim (Bool-cases (is_text (get request "requestDigest") expected)) [
              | inr other ↦ absurd (ground arith)
              | inl same ↦ elim (Result-cases (verify_mac node request key)) [
                | inr (x, failed) ↦ absurd (ground arith)
                | inl (genuine, verified) ↦
                    let (mac, mac_computed, mac_carried) = verify_mac-true (ground arith) in
                    record {
                      request_digest = expected;
                      digest_computed = computed;
                      digest_carried =
                          eq-str_of_is_text (get request "requestDigest") expected same;
                      mac = mac;
                      mac_computed = mac_computed;
                      mac_carried = mac_carried;
                    }
              ]
            ]
      ]

  -- The operation is registered, and the payload has exactly the fields that the table gives it.
  pub record IsRegistered : Type 0 where
    pub fields : List String
    pub registered :
        lookup (field_text node request "operation") operation_payload_keys ≡ some fields
    pub closed : same_keys (get request "payload") fields ≡ true

  payload_shape_ok-IsRegistered : payload_shape_ok node request ≡ ok tt → IsRegistered
  unfolding payload_shape_ok
  payload_shape_ok-IsRegistered h =
      elim (Option-cases (lookup (field_text node request "operation") operation_payload_keys)) [
        | inl absent ↦ absurd (ground arith)
        | inr (fields, found) ↦ record {
          fields = fields;
          registered = found;
          closed = ground arith;
        }
      ]

  -- The request was issued at most a minute ago, at most five seconds ahead of the clock, and has
  -- not expired; its lifetime is at most a minute.
  pub record IsFresh (now : ℕ) : Type 0 where
    pub issued : ℕ
    pub expires : ℕ
    pub issued_at : date_field node request "issuedAt" ≡ some issued
    pub expires_at : date_field node request "expiresAt" ≡ some expires
    pub not_ahead : issued ≤ now + 5000
    pub not_old : now ≤ issued + 60000
    pub not_expired : now < expires
    pub short : expires ≤ issued + 60000

  is_fresh-IsFresh :
      (now : ℕ)
      → is_fresh node now (date_field node request "issuedAt") (date_field node request "expiresAt")
        ≡ true
      → IsFresh now
  unfolding is_fresh
  is_fresh-IsFresh now h = elim (Option-cases (date_field node request "issuedAt")) [
    | inl absent ↦ absurd (ground arith)
    | inr (issued, i) ↦ elim (Option-cases (date_field node request "expiresAt")) [
      | inl absent ↦ absurd (ground arith)
      | inr (expires, e) ↦ record {
        issued = issued;
        expires = expires;
        issued_at = i;
        expires_at = e;
        not_ahead = ground arith;
        not_old = ground arith;
        not_expired = ground arith;
        short = ground arith;
      }
    ]
  ]

  pub record IsAccepted (now : ℕ) : Type 0 where
    pub header : header_ok node request ≡ ok tt
    pub registered : IsRegistered
    pub payload :
        validate_operation_payload node (get request "operation") (get request "payload") ≡ ok tt
    pub fresh : IsFresh now
    pub authentic : IsAuthentic

  -- A request is accepted only if its operation is registered and its payload has exactly the
  -- registered fields with valid values, it is fresh, and it carries the digest and the keyed digest
  -- of its own content under the key.
  pub validate_host_request-IsAccepted :
      (now : ℕ) → validate_host_request node request key now ≡ ok tt → IsAccepted now
  unfolding validate_host_request
  validate_host_request-IsAccepted now h =
      let (header, h₁) = first_ok (header_ok node request) _ h in
      let (shape, h₂) = first_ok (payload_shape_ok node request) _ h₁ in
      let (payload, h₃) =
        first_ok (validate_operation_payload node (get request "operation") (get request "payload"))
          _ h₂ in
      let fresh_test =
        is_fresh node now (date_field node request "issuedAt")
          (date_field node request "expiresAt") in
      let (fresh, h₄) = first_ok (require fresh_test expired) _ h₃ in
      record {
        header = header;
        registered = payload_shape_ok-IsRegistered shape;
        payload = payload;
        fresh = is_fresh-IsFresh now (require-eq-ok fresh_test expired fresh);
        authentic = authenticated-IsAuthentic h₄;
      }

  -- A request that is accepted at one time is never accepted 65 seconds later or after that: without
  -- the journal, a copy of it is of use for little more than a minute.
  pub accepted_window :
      (now later : ℕ)
      → validate_host_request node request key now ≡ ok tt
      → validate_host_request node request key later ≡ ok tt
      → later < now + 65000
  accepted_window now later first second =
      let a = (validate_host_request-IsAccepted now first).fresh in
      let b = (validate_host_request-IsAccepted later second).fresh in
      let issued : some a.issued ≡ some b.issued = sym a.issued_at ∙ b.issued_at in
      ground (arith, a.not_ahead, b.not_expired, b.short)
