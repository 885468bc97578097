-- ===== src/Protocol/Responses/Bound.antt =====
-- What `verifyHostResponse` of scripts/host-helper-protocol.mjs has established when it accepts.
use repo_assessment_kit.Prelude.{
  ℕ, ◌≤◌, ◌≡◌, refl, sym, ◌∙◌, ap, ◌⊎◌, inl, inr, String, true, false, List, [], ◌∷◌, every,
  includes, ◌==◌, leb→le, if◌then◌else◌, arith, &&-eq-true, eq_iff, Bool-cases,
}
use repo_assessment_kit.Prelude.Result.{ok, require, require-eq-ok, first_ok, bound_ok, auth_failed}
use repo_assessment_kit.Json.{Value, str, get, is_undefined, is_text, one_of}
use repo_assessment_kit.Json.Text.{to_text}
use repo_assessment_kit.Protocol.Grammar.{Platform}
use repo_assessment_kit.Protocol.Canonical.{canonical_json}
use repo_assessment_kit.Protocol.Shape.{same_keys}
use repo_assessment_kit.Protocol.Requests.{mac_of, verify_mac}
use repo_assessment_kit.Protocol.Requests.Accepts.{eq-str_of_is_text, verify_mac-true}
use repo_assessment_kit.Protocol.Results.{same_text, operation_result_ok}
use repo_assessment_kit.Protocol.Responses.{
  byte_length, success_keys, failure_keys, bound_fields, error_codes, response_states, failure_ok,
  binding_ok, success_ok, verify_host_response,
}

-- A field that holds the same text in both objects.
abbrev pub Shares : Value → Value → String → Type 0
Shares request response name =
    (s : String) × (get request name ≡ str s) × (get response name ≡ str s)

same_text-share : (v w : Value) → same_text v w ≡ true → (s : String) × (v ≡ str s) × (w ≡ str s)
same_text-share (str s) w h = (s, refl, eq-str_of_is_text w s h)
same_text-share _ w h = cc

one_of-text :
    (texts : List String) (v : Value)
    → one_of texts v ≡ true
    → (s : String) × (v ≡ str s) × (includes texts s ≡ true)
one_of-text texts (str s) h = (s, refl, h)
one_of-text texts _ h = cc

module _ (node : Platform) (response request : Value) (key : List ℕ) where
  -- The response is the answer to this request, and it carries the keyed digest of its own content.
  pub record IsBound : Type 0 where
    pub version : get response "protocolVersion" ≡ str "1.0.0"
    pub request_id : Shares request response "requestId"
    pub command_id : Shares request response "commandId"
    pub operation : Shares request response "operation"
    pub request_digest : Shares request response "requestDigest"
    pub mac : String
    pub mac_computed : mac_of node key response ≡ ok mac
    pub mac_carried : get response "mac" ≡ str mac

  binding_ok-IsBound : binding_ok node response request key ≡ ok tt → IsBound
  unfolding binding_ok
  binding_ok-IsBound h =
      let (keys, h₁) =
        first_ok
          (require
            (same_keys response
              (if is_undefined (get response "error") then success_keys else failure_keys))
            auth_failed)
          _ h in
      let (version, h₂) =
        first_ok (require (is_text (get response "protocolVersion") "1.0.0") auth_failed) _ h₁ in
      let same = every (λ name. same_text (get request name) (get response name)) bound_fields in
      let (command, h₃) = first_ok (require same auth_failed) _ h₂ in
      let all = require-eq-ok same auth_failed command in
      let (first, rest) = &&-eq-true _ _ all in
      let (second, rest') = &&-eq-true _ _ rest in
      let (third, rest₃) = &&-eq-true _ _ rest' in
      let (fourth, _) = &&-eq-true _ _ rest₃ in
      let (genuine, verified, h₄) = bound_ok (verify_mac node response key) _ h₃ in
      let truly : genuine ≡ true = require-eq-ok genuine auth_failed h₄ in
      let (mac, mac_computed, mac_carried) =
        verify_mac-true node response key (verified ∙ ap ok truly) in
      record {
        version =
            eq-str_of_is_text (get response "protocolVersion") "1.0.0"
              (require-eq-ok _ auth_failed version);
        request_id = same_text-share (get request "requestId") (get response "requestId") first;
        command_id = same_text-share (get request "commandId") (get response "commandId") second;
        operation = same_text-share (get request "operation") (get response "operation") third;
        request_digest =
            same_text-share (get request "requestDigest") (get response "requestDigest") fourth;
        mac = mac;
        mac_computed = mac_computed;
        mac_carried = mac_carried;
      }

  -- A failure: its code is one of the protocol's, and the state says that the command was refused or
  -- has failed.
  pub record IsFailure : Type 0 where
    pub stated : is_undefined (get response "error") ≡ false
    pub code : String
    pub code_is : get (get response "error") "code" ≡ str code
    pub code_known : includes error_codes code ≡ true
    pub state_is : (get response "state" ≡ str "REJECTED") ⊎ (get response "state" ≡ str "FAILED")

  -- A result: an object of at most half a frame that is a result of the operation that was asked for,
  -- in the state of the response.
  pub record IsSuccess : Type 0 where
    pub no_error : is_undefined (get response "error") ≡ true
    pub text : List ℕ
    pub printed : canonical_json (get response "result") ≡ ok text
    pub short : byte_length text ≤ 524288
    pub result_is :
        operation_result_ok node
          (to_text (get request "operation"))
          (get response "result")
          (to_text (get response "state"))
        ≡ true

  failed_state :
      (v : Value)
      → one_of ("REJECTED" ∷ "FAILED" ∷ []) v ≡ true
      → (v ≡ str "REJECTED") ⊎ (v ≡ str "FAILED")
  failed_state v h =
      let (s, e, member) = one_of-text ("REJECTED" ∷ "FAILED" ∷ []) v h in
      elim (Bool-cases ("REJECTED" == s)) [
        | inl same ↦ inl (e ∙ ap str (sym ((eq_iff "REJECTED" s).0 same)))
        | inr other ↦
            let same : ("FAILED" == s) ≡ true = ground arith in
            inr (e ∙ ap str (sym ((eq_iff "FAILED" s).0 same)))
      ]

  failure_ok-IsFailure :
      is_undefined (get response "error") ≡ false → failure_ok response ≡ true → IsFailure
  unfolding failure_ok
  failure_ok-IsFailure stated h =
      let (before, states) = &&-eq-true _ _ h in
      let (before', _) = &&-eq-true _ _ before in
      let (before₃, _) = &&-eq-true _ _ before' in
      let (before₄, _) = &&-eq-true _ _ before₃ in
      let (_, known) = &&-eq-true _ _ before₄ in
      let (code, code_is, member) =
        one_of-text error_codes (get (get response "error") "code") known in
      record {
        stated = stated;
        code = code;
        code_is = code_is;
        code_known = member;
        state_is = failed_state (get response "state") states;
      }

  success_ok-IsSuccess :
      is_undefined (get response "error") ≡ true
      → success_ok node response request ≡ ok tt
      → IsSuccess
  unfolding success_ok
  success_ok-IsSuccess absent h =
      let (object, h₁) = first_ok (require _ auth_failed) _ h in
      let (text, printed, h₂) = bound_ok (canonical_json (get response "result")) _ h₁ in
      let (short, h₃) = first_ok (require _ auth_failed) (require _ auth_failed) h₂ in
      record {
        no_error = absent;
        text = text;
        printed = printed;
        short = leb→le (byte_length text) 524288 (require-eq-ok _ auth_failed short);
        result_is = require-eq-ok _ auth_failed h₃;
      }

  -- A response is accepted only if it has the request's identifier, command, operation and digest and
  -- carries the keyed digest of its own content under the key; its state is one of the protocol's;
  -- and it holds either a failure, with a code of the protocol and the state REJECTED or FAILED, or no
  -- error and a result of the request's operation in the state of the response, of 512 KiB at most.
  pub verify_host_response-IsBound :
      verify_host_response node response request key ≡ ok tt
      → IsBound
        × ((state : String) × (get response "state" ≡ str state)
            × (includes response_states state ≡ true))
        × (IsFailure ⊎ IsSuccess)
  unfolding verify_host_response
  verify_host_response-IsBound h =
      let (bound, h₁) = first_ok (binding_ok node response request key) _ h in
      let content =
        if is_undefined (get response "error")
        then success_ok node response request
        else require (failure_ok response) auth_failed in
      let (states, h₂) = first_ok (require _ auth_failed) content h₁ in
      let both = require-eq-ok _ auth_failed states in
      (
        binding_ok-IsBound bound,
        one_of-text response_states (get response "state") (&&-eq-true _ _ both).0,
        elim (Bool-cases (is_undefined (get response "error"))) [
          | inl absent ↦ inr (success_ok-IsSuccess absent (rw absent at h₂))
          | inr stated ↦ inl (
              failure_ok-IsFailure stated
                (require-eq-ok (failure_ok response) auth_failed (rw stated at h₂)))
        ],
      )
