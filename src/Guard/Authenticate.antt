-- ===== src/Guard/Authenticate.antt =====
-- When `handle_authenticate` accepts a card.
use grokingclawid.Common.{
  All, Bool, List, Option, Option-cases, Result, Text, [], arith, err, false, if◌then◌else◌, inl,
  inr, leb_ℤ, none, ok, refl, some, true, ℤ, ◌<ℤ◌, ◌||◌, ◌↔◌, ◌≡◌, ◌⊎◌,
}
use grokingclawid.Models.{AgentCard, hybrid, scheme_eq}
use grokingclawid.Crypto.{Primitives, mldsa_verify, verify}
use grokingclawid.Cards.{revoked_in, unsigned}
use grokingclawid.Cards.Unrevoked.{Unrevoked, revoked_in_iff}
use grokingclawid.Guard.Conditions.{
  Grants, MayTry, scheme_eq-hybrid_iff, scopes_suffice_iff, throttle-IsAdmitted, throttle-some,
}
use grokingclawid.Guard.{
  Check, GuardState, Moment, Reader, authenticate_argument, authenticate_card, authenticate_text,
  check_card, conclude, ed_check, fail, handle_authenticate, pass, pq_check, pq_result, refuse,
  rejected, scopes_suffice, throttle, welcomed, ◌then_check◌,
}

then_check_iff : (a b : Check) → ((a then_check b) ≡ pass) ↔ ((a ≡ pass) × (b ≡ pass))
unfolding ◌then_check◌
then_check_iff pass b = (λ e. (refl, e), λ (p, q). q)
then_check_iff (refuse code) b = (λ e. absurd (ground arith), λ (p, q). absurd (ground arith))
then_check_iff (fail code) b = (λ e. absurd (ground arith), λ (p, q). absurd (ground arith))

ed_check_iff : (r : Result Bool) → (ed_check r ≡ pass) ↔ (r ≡ ok true)
unfolding ed_check
ed_check_iff (err why) = (λ e. absurd (ground arith), λ e. absurd (ground arith))
ed_check_iff (ok false) = (λ e. absurd (ground arith), λ e. absurd (ground arith))
ed_check_iff (ok true) = (λ e. refl, λ e. refl)

pq_result_iff : (r : Result Bool) → (pq_result r ≡ pass) ↔ (r ≡ ok true)
unfolding pq_result
pq_result_iff (err why) = (λ e. absurd (ground arith), λ e. absurd (ground arith))
pq_result_iff (ok false) = (λ e. absurd (ground arith), λ e. absurd (ground arith))
pq_result_iff (ok true) = (λ e. refl, λ e. refl)

-- A check behind a test passes exactly when the test fails, or the check passes.
if_pass_iff : (b : Bool) (c : Check) → ((if b then c else pass) ≡ pass) ↔ (b ≡ true → c ≡ pass)
if_pass_iff true c = (λ e h. e, λ f. f refl)
if_pass_iff false c = (λ e h. absurd (ground arith), λ f. refl)

module _ (P : Primitives) where
  -- The card carries an ML-DSA key and a signature of the payload under it.
  abbrev pub HasPq : AgentCard → Text → Type 0
  HasPq card payload =
      (k : Text) × (s : Text) × (card.pq_public_key ≡ some k)
      × (card.pq_signature ≡ some s)
      × (mldsa_verify P k payload s ≡ ok true)

  pq_check_iff :
      (card : AgentCard) (payload : Text)
      → (pq_check P card.pq_public_key card.pq_signature payload ≡ pass) ↔ HasPq card payload
  unfolding pq_check
  pq_check_iff card payload = (
    λ e. elim (Option-cases card.pq_public_key) [
      | inl bare ↦
          let no_key : refuse 32002 ≡ pass = rw (pq_check, bare) at e in absurd (ground arith)
      | inr (k, keyed) ↦ elim (Option-cases card.pq_signature) [
        | inl bare ↦
            let no_sig : refuse 32002 ≡ pass = rw (pq_check, keyed, bare) at e in
            absurd (ground arith)
        | inr (s, signed) ↦ (
          k,
          s,
          keyed,
          signed,
          (pq_result_iff (mldsa_verify P k payload s)).0 (rw (keyed, signed) at e),
        )
      ]
    ],
    λ (k, s, keyed, signed, good).
        rw (keyed, signed) ((pq_result_iff (mldsa_verify P k payload s)).1 good),
  )

  -- What the checks ask of a card that is shown at a moment, when the guard requires these scopes and
  -- perhaps ML-DSA: signatures of the payload under the card's keys, the ML-DSA one if the guard
  -- requires it or the card is hybrid; not expired; not revoked, as far as the registry opens; and for
  -- each scope that is required, that scope or one that stands for all.
  pub record IsVouched (allowed : List Text) (pq : Bool) (moment : Moment) (card : AgentCard)
      (payload : Text) : Type 0 where
    pub signed : verify P card.public_key payload card.signature ≡ ok true
    pub pq_signed : (pq ≡ true) ⊎ (card.crypto_scheme ≡ hybrid) → HasPq card payload
    pub live : moment.now <ℤ card.expires_at
    pub unrevoked : Unrevoked moment.registry card.id
    pub scoped : All (Grants card.scopes) allowed

  needs_pq_iff :
      (pq : Bool) (card : AgentCard)
      → ((pq || scheme_eq card.crypto_scheme hybrid) ≡ true)
        ↔ ((pq ≡ true) ⊎ (card.crypto_scheme ≡ hybrid))
  needs_pq_iff true card = (λ e. inl refl, λ h. refl)
  needs_pq_iff false card =
      let iff = scheme_eq-hybrid_iff card.crypto_scheme in
      (λ e. inr (iff.0 e), λ h. elim h [ inl e ↦ absurd (ground arith) | inr e ↦ iff.1 e ])

  pub check_card_iff :
      (state : GuardState) (moment : Moment) (card : AgentCard) (payload : Text)
      → (check_card P state moment card payload ≡ pass)
        ↔ IsVouched state.allowed_scopes state.require_pq moment card payload
  unfolding check_card
  check_card_iff state moment card payload =
      let pq = state.require_pq || scheme_eq card.crypto_scheme hybrid in
      let needs = needs_pq_iff state.require_pq card in
      let pq_c = pq_check P card.pq_public_key card.pq_signature payload in
      let ed_c = ed_check (verify P card.public_key payload card.signature) in
      let c2 : Check = if pq then pq_c else pass in
      let c3 : Check = if leb_ℤ card.expires_at moment.now then fail 32002 else pass in
      let c4 : Check = if revoked_in moment.registry card.id then refuse 32002 else pass in
      let c5 : Check =
        if scopes_suffice state.allowed_scopes card.scopes then pass else refuse 32003 in
      let registry = revoked_in_iff moment.registry card.id in
      let scopes = scopes_suffice_iff state.allowed_scopes card.scopes in
      (
        λ e.
            let (a, r1) =
              (then_check_iff ed_c (c2 then_check c3 then_check c4 then_check c5)).0 e in
            let (b, r2) = (then_check_iff c2 (c3 then_check c4 then_check c5)).0 r1 in
            let (c, r3) = (then_check_iff c3 (c4 then_check c5)).0 r2 in
            let (d, f) = (then_check_iff c4 c5).0 r3 in
            record {
              signed = (ed_check_iff (verify P card.public_key payload card.signature)).0 a;
              pq_signed =
                  λ h. (pq_check_iff card payload).0 ((if_pass_iff pq pq_c).0 b (needs.1 h));
              live = ground arith;
              unrevoked = registry.0 (ground arith);
              scoped = scopes.0 (ground arith);
            },
        λ v.
            let a = (ed_check_iff (verify P card.public_key payload card.signature)).1 v.signed in
            let b =
              (if_pass_iff pq pq_c).1
                (λ h. (pq_check_iff card payload).1 (v.pq_signed (needs.0 h))) in
            let live = v.live in
            let c : c3 ≡ pass = ground arith in
            let unrevoked = registry.1 v.unrevoked in
            let d : c4 ≡ pass = ground arith in
            let scoped = scopes.1 v.scoped in
            let f : c5 ≡ pass = ground arith in
            (then_check_iff ed_c (c2 then_check c3 then_check c4 then_check c5)).1 (
              a,
              (then_check_iff c2 (c3 then_check c4 then_check c5)).1 (
                b,
                (then_check_iff c3 (c4 then_check c5)).1 (c, (then_check_iff c4 c5).1 (d, f)),
              ),
            ),
      )

conclude_iff :
    (c : Check) (card : AgentCard) (instant : ℤ) (state : GuardState)
    → ((conclude c card instant state).1 ≡ welcomed) ↔ (c ≡ pass)
unfolding conclude
conclude_iff pass card instant state = (λ e. refl, λ e. refl)
conclude_iff (refuse code) card instant state =
    (λ e. absurd (ground arith), λ e. absurd (ground arith))
conclude_iff (fail code) card instant state =
    (λ e. absurd (ground arith), λ e. absurd (ground arith))

module _ (P : Primitives) (R : Reader) where
  -- The argument is the text of a card that is vouched for at the moment.
  pub record IsShown (allowed : List Text) (pq : Bool) (moment : Moment) (argument : Option Text)
      (card : AgentCard) : Type 0 where
    pub text : Text
    pub payload : Text
    pub given : argument ≡ some text
    pub parsed : R.card_of text ≡ some card
    pub serialized :
        R.to_string (record card { signature = []; pq_signature = none }) ≡ some payload
    pub vouched : IsVouched P allowed pq moment card payload

  -- An attempt is allowed, and what it shows is a card that is vouched for.
  abbrev pub IsAccepted : Moment → Option Text → GuardState → Type 0
  IsAccepted moment argument state =
      MayTry moment.instant state
      × ((card : AgentCard) × IsShown state.allowed_scopes state.require_pq moment argument card)

  -- An attempt that is let pass is welcomed for a card that is vouched for.
  pub argument_iff :
      (moment : Moment) (argument : Option Text) (state : GuardState)
      → ((authenticate_argument P R moment argument state).1 ≡ welcomed)
        ↔ ((card : AgentCard) × IsShown state.allowed_scopes state.require_pq moment argument card)
  unfolding authenticate_argument authenticate_text authenticate_card unsigned
  argument_iff moment argument state = (
    λ e. elim (Option-cases argument) [
      | inl bare ↦
          let no_card : rejected 32002 ≡ welcomed = rw (authenticate_argument, bare) at e in
          absurd (ground arith)
      | inr (text, given) ↦ elim (Option-cases (R.card_of text)) [
        | inl bad ↦
            let no_card : rejected 32002 ≡ welcomed = rw (authenticate_argument, given, bad) at e in
            absurd (ground arith)
        | inr (card, parsed) ↦ elim (Option-cases (R.to_string (unsigned card))) [
          | inl bad ↦
              let no_text : rejected 32002 ≡ welcomed =
                rw (authenticate_argument, given, parsed, bad) at e in
              absurd (ground arith)
          | inr (payload, serialized) ↦
              let c = check_card P state moment card payload in
              let passes =
                (conclude_iff c card moment.instant state).0
                  (rw (authenticate_argument, given, parsed, serialized) at e) in
              (
                card,
                record {
                  text = text;
                  payload = payload;
                  given = given;
                  parsed = parsed;
                  serialized = serialized;
                  vouched = (check_card_iff P state moment card payload).0 passes;
                },
              )
        ]
      ]
    ],
    λ (card, h).
        let passes = (check_card_iff P state moment card h.payload).1 h.vouched in
        rw
          (
            authenticate_argument, h.given, h.parsed, authenticate_text, h.serialized,
            authenticate_card,
          )
          ((conclude_iff (check_card P state moment card h.payload) card moment.instant state).1
            passes),
  )

  -- `handle_authenticate` welcomes an agent exactly when an attempt is allowed, with fewer than ten
  -- failures counted, no time of the last one, or a minute gone since, and the argument is the text of
  -- a card that is vouched for: signed, with ML-DSA where that is asked for, not expired, not revoked
  -- as far as the registry opens, and with the scopes that the guard requires.
  pub handle_authenticate_iff :
      (moment : Moment) (argument : Option Text) (state : GuardState)
      → ((handle_authenticate P R moment argument state).1 ≡ welcomed)
        ↔ IsAccepted moment argument state
  unfolding handle_authenticate
  handle_authenticate_iff moment argument state = (
    λ e. elim (Option-cases (throttle moment.instant state)) [
      | inl late ↦ absurd (ground arith)
      | inr (after, admitted) ↦
          let h = throttle-IsAdmitted moment.instant state after admitted in
          let (card, shown) =
            (argument_iff moment argument after).0 (rw (handle_authenticate, admitted) at e) in
          (h.may_try, (card, rw (h.same_scopes, h.same_pq) at shown))
    ],
    λ (may, shown).
        let (after, admitted) = throttle-some moment.instant state may in
        let h = throttle-IsAdmitted moment.instant state after admitted in
        rw (handle_authenticate, admitted)
          ((argument_iff moment argument after).1 (rw (h.same_scopes, h.same_pq) shown)),
  )
