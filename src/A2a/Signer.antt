-- ===== src/A2a/Signer.antt =====
-- When crates/grokingclaw-daemon/src/a2a.rs takes a request to be signed by an agent of the daemon.
use grokingclawid.Common.{
  Bool-cases, Bytes, List, Option, Option-cases, Result, Result-cases, Text, [], ap, arith, ascii,
  err, inl, inr, invalid_signature, lookup, none, ok, or_else, refl, some, strip_prefix,
  strip_prefix_iff, sym, true, ◌++◌, ◌↔◌, ◌∙◌, ◌∷◌, ◌≡◌, ◌⊎◌,
}
use grokingclawid.Models.{AgentCard}
use grokingclawid.Crypto.{Primitives, mldsa_verify, verify}
use grokingclawid.Supervisor.{AgentProcess, Supervisor, get_agent, info_of}
use grokingclawid.A2a.Signed.{
  Header, HttpRequest, authority_of, callers_card, card_file, check_headers, check_pq, check_signed,
  header_text, opaque, readable, signature_b64, signature_base, strip_colon, to_str,
  verify_request_signature,
}

strip_colon_iff : (s t : Text) → (strip_colon s ≡ some t) ↔ (s ≡ t ++ ascii ":")
unfolding strip_colon
strip_colon_iff [] [] = (λ e. absurd (ground arith), λ e. absurd (ground arith))
strip_colon_iff [] (d ∷ t) = (λ e. absurd (ground arith), λ e. absurd (ground arith))
strip_colon_iff (c ∷ []) [] = (λ e. ground arith, λ e. ground arith)
strip_colon_iff (c ∷ []) (d ∷ []) = (λ e. absurd (ground arith), λ e. absurd (ground arith))
strip_colon_iff (c ∷ []) (d ∷ f ∷ t) = (λ e. absurd (ground arith), λ e. absurd (ground arith))
strip_colon_iff (c ∷ d ∷ s) [] = (
  λ e. elim (Option-cases (strip_colon (d ∷ s))) [
    | inl bad ↦ absurd (ground arith)
    | inr (t, good) ↦ absurd (ground arith)
  ],
  λ e. absurd (ground arith),
)
strip_colon_iff (c ∷ d ∷ s) (f ∷ t) =
    let iff = strip_colon_iff (d ∷ s) t in
    (
      λ e. elim (Option-cases (strip_colon (d ∷ s))) [
        | inl bad ↦ absurd (ground arith)
        | inr (u, good) ↦
            let same : u ≡ t = ground arith in
            let first : c ≡ f = ground arith in
            let rest = iff.0 (good ∙ ap some same) in ground arith
      ],
      λ e.
          let first : c ≡ f = ground arith in
          let rest : strip_colon (d ∷ s) ≡ some t = iff.1 (ground arith) in ground arith,
    )

signature_b64_iff :
    (value b64 : Text)
    → (signature_b64 value ≡ some b64) ↔ (value ≡ ascii "sig1=:" ++ (b64 ++ ascii ":"))
unfolding signature_b64
signature_b64_iff value b64 = (
  λ e. elim (Option-cases (strip_prefix (ascii "sig1=:") value)) [
    | inl bad ↦ absurd (ground arith)
    | inr (rest, good) ↦
        let stripped : strip_colon rest ≡ some b64 = rw (signature_b64, good) at e in
        let cut = (strip_prefix_iff (ascii "sig1=:") value rest).0 good in
        cut ∙ ap (λ r. ascii "sig1=:" ++ r) ((strip_colon_iff rest b64).0 stripped)
  ],
  λ e.
      let good = (strip_prefix_iff (ascii "sig1=:") value (b64 ++ ascii ":")).1 e in
      rw (signature_b64, good) ((strip_colon_iff (b64 ++ ascii ":") b64).1 refl),
)

-- The authority of the target, or else the text of the header `host`, or else nothing.
abbrev pub HasAuthority : Option Text → Option Header → Text → Type 0
HasAuthority target host authority =
    (target ≡ some authority)
    ⊎ (((target ≡ none) × (host ≡ some (readable authority)))
        ⊎ ((target ≡ none) × ((host ≡ none) ⊎ (host ≡ some opaque)) × (authority ≡ [])))

authority_iff :
    (target : Option Text) (host : Option Header) (authority : Text)
    → (or_else target (or_else (header_text host) []) ≡ authority)
      ↔ HasAuthority target host authority
unfolding or_else header_text
authority_iff (some t) host authority = (
  λ e. inl (ap some e),
  λ h. elim h [
    | inl e ↦ ground arith
    | inr (inl (e, f)) ↦ absurd (ground arith)
    | inr (inr (e, f, g)) ↦ absurd (ground arith)
  ],
)
authority_iff none none authority = (
  λ e. inr (inr (refl, inl refl, sym e)),
  λ h. elim h [
    | inl e ↦ absurd (ground arith)
    | inr (inl (e, f)) ↦ absurd (ground arith)
    | inr (inr (e, f, g)) ↦ sym g
  ],
)
authority_iff none (some opaque) authority = (
  λ e. inr (inr (refl, inr refl, sym e)),
  λ h. elim h [
    | inl e ↦ absurd (ground arith)
    | inr (inl (e, f)) ↦ absurd (ground arith)
    | inr (inr (e, f, g)) ↦ sym g
  ],
)
authority_iff none (some (readable t)) authority = (
  λ e. inr (inl (refl, ap (λ u. some (readable u)) e)),
  λ h. elim h [
    | inl e ↦ absurd (ground arith)
    | inr (inl (e, f)) ↦ ground arith
    | inr (inr (e, inl f, g)) ↦ absurd (ground arith)
    | inr (inr (e, inr f, g)) ↦ absurd (ground arith)
  ],
)

module _ (s : Supervisor) (cards : List (Text × Result AgentCard)) where
  -- The header names an agent that the daemon manages, and the agent's file holds the card.
  pub record IsCallersCard (agent : Option Header) (card : AgentCard) : Type 0 where
    pub name : Text
    pub process : AgentProcess
    pub named : agent ≡ some (readable name)
    pub managed : lookup name s.agents ≡ some process
    pub filed : lookup process.config.name cards ≡ some (ok card)

  callers_card-inv :
      (agent : Option Header) (card : AgentCard)
      → callers_card s cards (header_text agent) ≡ some (ok card)
      → IsCallersCard agent card
  unfolding callers_card header_text card_file get_agent info_of
  callers_card-inv none card e = absurd (ground arith)
  callers_card-inv (some opaque) card e = absurd (ground arith)
  callers_card-inv (some (readable name)) card e = elim (Option-cases (lookup name s.agents)) [
    | inl away ↦ absurd (ground arith)
    | inr (process, there) ↦ record {
      name = name;
      process = process;
      named = refl;
      managed = there;
      filed = rw (callers_card, get_agent, there, card_file) at e;
    }
  ]

  callers_card-found :
      (agent : Option Header) (card : AgentCard)
      → IsCallersCard agent card
      → callers_card s cards (header_text agent) ≡ some (ok card)
  unfolding callers_card header_text card_file get_agent info_of
  callers_card-found agent card h =
      rw (h.named, header_text, callers_card, get_agent, h.managed, card_file) h.filed

module _ (P : Primitives) where
  -- A post-quantum signature is not there, or no key to check it with, or it is one of the text.
  abbrev pub PqHolds : Option Header → Option Text → Text → Type 0
  PqHolds header pq_key base =
      (header ≡ none)
      ⊎ ((pq_key ≡ none)
          ⊎ ((pq_sig : Text) × (k : Text) × (header ≡ some (readable pq_sig))
              × (pq_key ≡ some k)
              × (mldsa_verify P k base pq_sig ≡ ok true)))

  check_pq_iff :
      (header : Option Header) (pq_key : Option Text) (base : Text)
      → (check_pq P header pq_key base ≡ ok tt) ↔ PqHolds header pq_key base
  unfolding check_pq to_str
  check_pq_iff none pq_key base = (λ e. inl refl, λ h. refl)
  check_pq_iff (some header) none base = (λ e. inr (inl refl), λ h. refl)
  check_pq_iff (some opaque) (some k) base = (
    λ e. absurd (ground arith),
    λ h. elim h [
      | inl e ↦ absurd (ground arith)
      | inr (inl e) ↦ absurd (ground arith)
      | inr (inr (g, q, e, f, good)) ↦ absurd (ground arith)
    ],
  )
  check_pq_iff (some (readable g)) (some k) base = (
    λ e. elim (Result-cases (mldsa_verify P k base g)) [
      | inl (why, bad) ↦ absurd (ground arith)
      | inr (valid, checked) ↦
          let same : valid ≡ true = ground arith in
          inr (inr (g, k, refl, refl, checked ∙ ap ok same))
    ],
    λ h. elim h [
      | inl e ↦ absurd (ground arith)
      | inr (inl e) ↦ absurd (ground arith)
      | inr (inr (g', k', e, f, good)) ↦
          let same_sig : g' ≡ g = ground arith in
          let same_key : k' ≡ k = ground arith in
          let checked : mldsa_verify P k base g ≡ ok true = rw (same_sig, same_key) at good in
          rw (check_pq, to_str, checked) refl
    ],
  )

check_signed_inv :
    (P : Primitives) (req : HttpRequest) (base : Text) (sig_bytes : Bytes)
    (file : Option (Result AgentCard))
    → check_signed P req base sig_bytes file ≡ ok true
    → (card : AgentCard) × (file ≡ some (ok card))
      × (verify P card.public_key base (P.base64_encode sig_bytes) ≡ ok true)
      × (check_pq P req.pq_signature card.pq_public_key base ≡ ok tt)
unfolding check_signed
check_signed_inv P req base sig_bytes none e = absurd (ground arith)
check_signed_inv P req base sig_bytes (some (err why)) e = absurd (ground arith)
check_signed_inv P req base sig_bytes (some (ok card)) e =
    elim (Result-cases (verify P card.public_key base (P.base64_encode sig_bytes))) [
      | inl (why, bad) ↦ absurd (ground arith)
      | inr (verified, good) ↦ elim (Bool-cases verified) [
        | inl valid ↦ elim (Result-cases (check_pq P req.pq_signature card.pq_public_key base)) [
          | inl (why, bad) ↦
              let no_result : err why ≡ ok true = rw (check_signed, good, valid, bad) at e in
              absurd (ground arith)
          | inr (done, fine) ↦ (card, refl, good ∙ ap ok valid, fine)
        ]
        | inr invalid ↦
            let no_result : err invalid_signature ≡ ok true =
              rw (check_signed, good, invalid) at e in
            absurd (ground arith)
      ]
    ]

module _ (P : Primitives) (s : Supervisor) (cards : List (Text × Result AgentCard))
    (req : HttpRequest) where
  -- What is signed: the method, the target, the authority and the parameters, each on its line.
  abbrev pub signed_text : Text → Text → Text
  signed_text authority input_value =
      ascii "\"@method\": "
      ++ (req.method
          ++ (10 ∷ ascii "\"@target-uri\": "
              ++ (req.uri
                  ++ (10 ∷ ascii "\"@authority\": "
                      ++ (authority ++ (10 ∷ ascii "\"@signature-params\": " ++ input_value))))))

  -- The request names an agent of this daemon, and its signature of the method, the target, the
  -- authority and the parameters is one under the key of that agent's card; so is the post-quantum
  -- one, if the request has one and the card a key for it.
  pub record IsSignedByAgent : Type 0 where
    pub sig_b64 : Text
    pub input_value : Text
    pub authority : Text
    pub sig_bytes : Bytes
    pub card : AgentCard
    pub has_signature : req.signature ≡ some (readable (ascii "sig1=:" ++ (sig_b64 ++ ascii ":")))
    pub has_input : req.signature_input ≡ some (readable input_value)
    pub has_authority : HasAuthority req.authority req.host authority
    pub decoded : P.base64_decode sig_b64 ≡ some sig_bytes
    pub callers : IsCallersCard s cards req.agent card
    pub signed :
        verify P card.public_key (signed_text authority input_value) (P.base64_encode sig_bytes)
        ≡ ok true
    pub pq_signed :
        PqHolds P req.pq_signature card.pq_public_key (signed_text authority input_value)

  headers_inv :
      (sig input : Option Header)
      → req.signature ≡ sig
      → req.signature_input ≡ input
      → check_headers P s cards req sig input ≡ ok true
      → IsSignedByAgent
  unfolding check_headers to_str signature_base authority_of
  headers_inv none input has_sig has_input e = absurd (ground arith)
  headers_inv (some sig) none has_sig has_input e = absurd (ground arith)
  headers_inv (some opaque) (some input) has_sig has_input e = absurd (ground arith)
  headers_inv (some (readable sig_value)) (some opaque) has_sig has_input e = absurd (ground arith)
  headers_inv (some (readable sig_value)) (some (readable input_value)) has_sig has_input e =
      elim (Option-cases (signature_b64 sig_value)) [
        | inl bad ↦ absurd (ground arith)
        | inr (b64, format) ↦ elim (Option-cases (P.base64_decode b64)) [
          | inl bad ↦ absurd (ground arith)
          | inr (bytes, decoded) ↦
              let file = callers_card s cards (header_text req.agent) in
              let (card, known, signed, pq_signed) =
                check_signed_inv P req (signature_base req input_value) bytes file
                  (rw (check_headers, format, decoded) at e) in
              record {
                sig_b64 = b64;
                input_value = input_value;
                authority = authority_of req;
                sig_bytes = bytes;
                card = card;
                has_signature =
                    has_sig
                    ∙ ap (λ v. some (readable v)) ((signature_b64_iff sig_value b64).0 format);
                has_input = has_input;
                has_authority = (authority_iff req.authority req.host (authority_of req)).0 refl;
                decoded = decoded;
                callers = callers_card-inv s cards req.agent card known;
                signed = signed;
                pq_signed =
                    (check_pq_iff P req.pq_signature card.pq_public_key
                        (signature_base req input_value)).0
                      pq_signed;
              }
        ]
      ]

  -- `verify_request_signature` gives true exactly when the request is signed by an agent of this
  -- daemon: its header names one that is managed here, the signature is one of the method, the target,
  -- the authority and the parameters under the key of that agent's card, and so is the post-quantum
  -- signature, if there is one and a key for it. The body of the request and its age do not matter.
  pub verify_request_signature_iff :
      (verify_request_signature P s cards req ≡ ok true) ↔ IsSignedByAgent
  unfolding verify_request_signature check_headers to_str check_signed signature_base authority_of
  verify_request_signature_iff = (
    λ e. headers_inv req.signature req.signature_input refl refl e,
    λ h.
        let format =
          (signature_b64_iff (ascii "sig1=:" ++ (h.sig_b64 ++ ascii ":")) h.sig_b64).1 refl in
        let known = callers_card-found s cards req.agent h.card h.callers in
        let base : signature_base req h.input_value ≡ signed_text h.authority h.input_value =
          ap (λ a. signed_text a h.input_value)
            ((authority_iff req.authority req.host h.authority).1 h.has_authority) in
        let pq =
          (check_pq_iff P req.pq_signature h.card.pq_public_key
              (signed_text h.authority h.input_value)).1
            h.pq_signed in
        rw
          (
            verify_request_signature, h.has_signature, h.has_input, check_headers, format,
            h.decoded, known, base, check_signed, h.signed, pq,
          )
          refl,
  )
