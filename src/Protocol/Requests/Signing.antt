-- ===== src/Protocol/Requests/Signing.antt =====
-- What `signHostRequest` of scripts/host-helper-protocol.mjs signs, `validateHostRequest` finds
-- authentic.
use repo_assessment_kit.Prelude.{
  ℕ, ◌≡◌, refl, sym, ap, ◌∙◌, ◌≢◌, String, true, List, [], ◌∷◌, arith, ◌==◌, eq_iff, eq_refl,
  if◌then◌else◌, Bool-cases, inl, inr, ==-false,
}
use repo_assessment_kit.Prelude.Dict.{insert, erase, lookup-insert}
use repo_assessment_kit.Prelude.Result.{ok, Result-cases}
use repo_assessment_kit.Json.{Value, Fields, str, obj, get, entries, fields_of}
use repo_assessment_kit.Protocol.Grammar.{Platform, codes, matches_hex64}
use repo_assessment_kit.Protocol.Canonical.{canonical_json}
use repo_assessment_kit.Protocol.Requests.{
  without, with_field, digest_canonical, unsigned_request, mac_of, sign_host_request, verify_mac,
  authenticated,
}

entries-fields_of : (l : List (String × Value)) → entries (fields_of l) ≡ l
entries-fields_of [] = refl
entries-fields_of ((k, v) ∷ l) = ap (λ r. (k, v) ∷ r) (entries-fields_of l)

module _ {ℓ} {V : Type ℓ} where
  erase-insert :
      (key : String) (new : V) (m : List (String × V)) → erase key (insert key new m) ≡ erase key m
  unfolding erase insert
  erase-insert key new [] = ground (arith, eq_refl key)
  erase-insert key new ((name, v) ∷ others) =
      ground (arith, erase-insert key new others, eq_refl key, eq_iff name key)

  erase_comm : (a b : String) (m : List (String × V)) → erase a (erase b m) ≡ erase b (erase a m)
  unfolding erase
  erase_comm a b [] = refl
  erase_comm a b ((name, v) ∷ others) =
      ground (arith, erase_comm a b others, eq_iff name a, eq_iff name b)

without-with_field :
    (key : String) (new : Value) (fs : Fields)
    → without key (with_field key new (obj fs)) ≡ without key (obj fs)
unfolding without with_field
without-with_field key new fs =
    rw entries-fields_of (ap (λ l. obj (fields_of l)) (erase-insert key new (entries fs)))

without_comm : (a b : String) (v : Value) → without a (without b v) ≡ without b (without a v)
unfolding without
without_comm a b (obj fs) = rw (entries-fields_of (erase b (entries fs))) (
    rw (entries-fields_of (erase a (entries fs)))
      (ap (λ l. obj (fields_of l)) (erase_comm a b (entries fs))))
without_comm a b _ = refl

get-with_field :
    (key name : String) (new : Value) (fs : Fields)
    → get (with_field key new (obj fs)) name ≡ (if key == name then new else get (obj fs) name)
unfolding get with_field
get-with_field key name new fs = rw entries-fields_of (
    rw (lookup-insert key name new (entries fs))
      (elim (Bool-cases (key == name)) [ inl same ↦ rw same | inr other ↦ rw other ]))

module _ (node : Platform) (fs : Fields) (key : List ℕ) where
  -- Signing gives the input a digest of its other fields, and a keyed digest of all but itself.
  record IsSigned (request : Value) : Type 0 where
    request_digest : String
    computed : digest_canonical node (unsigned_request node (obj fs)) ≡ ok request_digest
    middle : Fields
    middle_is : with_field "requestDigest" (str request_digest) (obj fs) ≡ obj middle
    mac : String
    mac_computed : mac_of node key (obj middle) ≡ ok mac
    request_is : request ≡ with_field "mac" (str mac) (obj middle)

  sign_host_request-IsSigned :
      (request : Value) → sign_host_request node (obj fs) key ≡ ok request → IsSigned request
  unfolding sign_host_request
  sign_host_request-IsSigned request h =
      elim (Result-cases (digest_canonical node (unsigned_request node (obj fs)))) [
        | inr (x, failed) ↦ absurd (ground arith)
        | inl (request_digest, computed) ↦
            let middle = fields_of (insert "requestDigest" (str request_digest) (entries fs)) in
            let same : with_field "requestDigest" (str request_digest) (obj fs) ≡ obj middle =
              unfold with_field in refl in
            elim (Result-cases (mac_of node key (obj middle))) [
              | inr (x, failed) ↦ absurd (ground arith)
              | inl (mac, mac_computed) ↦ record {
                request_digest = request_digest;
                computed = computed;
                middle = middle;
                middle_is = same;
                mac = mac;
                mac_computed = mac_computed;
                request_is = ground arith;
              }
            ]
      ]

  -- The digest and the keyed digest of the signed request are those of its parts.
  unsigned-signed :
      (request : Value) (s : IsSigned request)
      → unsigned_request node request ≡ unsigned_request node (obj fs)
  unfolding unsigned_request
  unsigned-signed request s =
      rw (s.request_is, without-with_field "mac" (str s.mac) s.middle)
        (without_comm "requestDigest" "mac" (obj s.middle)
          ∙ rw (← s.middle_is) (
              ap (without "mac") (without-with_field "requestDigest" (str s.request_digest) fs)
              ∙ without_comm "mac" "requestDigest" (obj fs)))

  mac_of-signed : (request : Value) (s : IsSigned request) → mac_of node key request ≡ ok s.mac
  unfolding mac_of
  mac_of-signed request s =
      rw (s.request_is, without-with_field "mac" (str s.mac) s.middle) s.mac_computed

  get-signed :
      (request : Value) (s : IsSigned request) (name : String)
      → get request name ≡ (
          if "mac" == name
          then str s.mac
          else if "requestDigest" == name
          then str s.request_digest
          else get (obj fs) name)
  get-signed request s name = rw s.request_is (
      rw (get-with_field "mac" name (str s.mac) s.middle)
        (rw (← s.middle_is) (rw (get-with_field "requestDigest" name (str s.request_digest) fs))))

  mac_formed :
      ((k t : List ℕ) → matches_hex64 (codes (node.hmac_hex k t)) ≡ true)
      → (request : Value) (s : IsSigned request) → matches_hex64 (codes s.mac) ≡ true
  unfolding mac_of
  mac_formed hex request s = elim (Result-cases (canonical_json (without "mac" (obj s.middle)))) [
    | inr (x, failed) ↦ absurd (ground (arith, s.mac_computed))
    | inl (text, computed) ↦
        let e : node.hmac_hex key text ≡ s.mac = ground (arith, s.mac_computed) in
        rw e at (hex key text)
  ]

  -- The request that `signHostRequest` returns passes the digest and the keyed-digest checks of
  -- `validateHostRequest` under the same key, and its other fields are those of the input. (The
  -- keyed digest is written in 64 lower-case hexadecimal digits.)
  pub sign-authenticated :
      (request : Value)
      → ((k t : List ℕ) → matches_hex64 (codes (node.hmac_hex k t)) ≡ true)
      → sign_host_request node (obj fs) key ≡ ok request
      → (authenticated node request key ≡ ok tt)
        × ((name : String)
            → name ≢ "mac"
            → name ≢ "requestDigest"
            → get request name ≡ get (obj fs) name)
  unfolding authenticated verify_mac
  sign-authenticated request hex h =
      let s = sign_host_request-IsSigned request h in
      let carried : get request "requestDigest" ≡ str s.request_digest =
        get-signed request s "requestDigest" in
      let mac_carried : get request "mac" ≡ str s.mac = get-signed request s "mac" in
      let formed : matches_hex64 (codes s.mac) ≡ true = mac_formed hex request s in
      let digest_computed : digest_canonical node (unsigned_request node request)
          ≡ ok s.request_digest =
        rw (unsigned-signed request s) s.computed in
      let mac_computed = mac_of-signed request s in
      (
        rw (
          digest_computed,
          carried,
          mac_carried,
          formed,
          mac_computed,
          eq_refl s.request_digest,
          eq_refl s.mac,
        ),
        λ name not_mac not_digest. rw (
          get-signed request s name,
          ==-false "mac" name (λ e. not_mac (sym e)),
          ==-false "requestDigest" name (λ e. not_digest (sym e)),
        ),
      )
