-- ===== src/OAuth/Tests.antt =====
-- A registration with a child, a grandchild and an unrelated one.
use grokingclawid.Common.{
  Bytes, List, Memᴰ, Option, Text, [], any, arith, ascii, contains, if◌then◌else◌, length, none, ok,
  or_else, pos, refl, retain, some, text_eq, text_eq_iff, true, ℕ, ◌++◌, ◌<◌, ◌∷◌, ◌≡◌, ◌≤◌, ◌⊎◌,
}
use grokingclawid.OAuth.{
  OAuthRegistration, OAuthStore, RegisterParams, StoredOAuthTokens, cascade_remove, children,
  empty_store, has_registration, oauth_register, oauth_revoke, parent_eq, prune, register_provider,
  registration_of, remove_each, remove_registration, store_tokens,
}
use grokingclawid.OAuth.Revoke.{oauth_revoke-IsCut, oauth_revoke-none, oauth_revoke_total}
use grokingclawid.OAuth.Consistent.{IsConsistent, Reachable, Reachable-IsConsistent, Step}
use grokingclawid.OAuth.Sealed.{IsFaithful, Sealing, load, load-save, save}
use grokingclawid.OAuth.Cyclic.{Ranks, cascade_remove_total}
use grokingclawid.OAuth.Cascade.{Descends, IsCut}

abbrev params : Text → Option Text → RegisterParams
params id parent = record {
  registration_id = some id;
  provider = some (ascii "github");
  client_id = some (ascii "app");
  client_secret = none;
  authorization_url = none;
  token_url = none;
  revocation_url = none;
  device_authorization_url = none;
  scopes = some (ascii "repo" ∷ []);
  domain_bindings = some (ascii "api.github.com" ∷ []);
  grant_type = none;
  parent_registration_id = parent;
  max_scopes = none;
}

abbrev reg : Text → Option Text → OAuthRegistration
reg id parent = record {
  id = id;
  provider = ascii "github";
  client_id = ascii "app";
  client_secret = none;
  authorization_url = [];
  token_url = [];
  revocation_url = none;
  device_authorization_url = none;
  scopes = ascii "repo" ∷ [];
  domain_bindings = ascii "api.github.com" ∷ [];
  grant_type = ascii "authorization_code";
  created_at = pos 0;
  parent_registration_id = parent;
  max_scopes = none;
}

abbrev tokens_of : Text → StoredOAuthTokens
tokens_of id = record {
  registration_id = id;
  access_token = ascii "t";
  refresh_token = some (ascii "r");
  expires_at = pos 3_600_000_000_000;
  token_type = ascii "Bearer";
  granted_scopes = [];
  last_refreshed = pos 0;
}

abbrev store_of : List OAuthRegistration → List StoredOAuthTokens → OAuthStore
store_of registrations tokens = record {
  version = 1;
  agent_id = ascii "a";
  registrations = registrations;
  tokens = tokens;
}

abbrev top : OAuthRegistration
top = reg (ascii "p") none

abbrev other : OAuthRegistration
other = reg (ascii "o") none

abbrev family : OAuthStore
family =
    store_of
      (top ∷ reg (ascii "c") (some (ascii "p")) ∷ other ∷ reg (ascii "g") (some (ascii "c")) ∷ [])
      (tokens_of (ascii "g") ∷ tokens_of (ascii "o") ∷ [])

-- The parent ranks above its child, and the child above the grandchild.
abbrev rank : Text → ℕ
rank id = if text_eq id (ascii "p") then 2 else if text_eq id (ascii "c") then 1 else 0

cut_runs :
    cascade_remove 3 (ascii "p") family
    ≡ some (store_of (top ∷ other ∷ []) (tokens_of (ascii "o") ∷ []))
unfolding cascade_remove remove_each children prune parent_eq retain text_eq contains any
cut_runs = refl

ranked :
    (id p q : Text) (low high : ℕ)
    → rank id ≡ low
    → rank q ≡ high
    → low < high
    → parent_eq (some q) p ≡ true
    → rank id < rank p
unfolding parent_eq
ranked id p q low high a b less e =
    let same : q ≡ p = (text_eq_iff q p).0 e in
    let above : rank p ≡ high = rw same at b in rw (a, above) less

orphan :
    (r : OAuthRegistration) (p : Text)
    → r.parent_registration_id ≡ none
    → ¬ (parent_eq r.parent_registration_id p ≡ true)
unfolding parent_eq
orphan r p e h = let bad : parent_eq none p ≡ true = rw e at h in ground arith

family-Ranks : Ranks rank family.registrations
unfolding parent_eq text_eq
family-Ranks r p m under = elim m [
  | Memᴰ.head e ↦ absurd (orphan r p (rw e refl) under)
  | Memᴰ.tail k ↦ elim k [
    | Memᴰ.head e ↦
        rw e (ranked (ascii "c") p (ascii "p") 1 2 refl refl (omega arith) (rw e at under))
    | Memᴰ.tail l ↦ elim l [
      | Memᴰ.head e ↦ absurd (orphan r p (rw e refl) under)
      | Memᴰ.tail n ↦ elim n [
        | Memᴰ.head e ↦
            rw e (ranked (ascii "g") p (ascii "c") 0 1 refl refl (omega arith) (rw e at under))
        | Memᴰ.tail o ↦ elim o [ ]
      ]
    ]
  ]
]

cascade_remove_total_example : (t : OAuthStore) × (cascade_remove 3 (ascii "p") family ≡ some t)
unfolding text_eq
cascade_remove_total_example =
    cascade_remove_total rank 3 (ascii "p") family family-Ranks (omega arith)

oauth_revoke_total_test : (t : OAuthStore) × (oauth_revoke 3 (ascii "p") family ≡ some (ok t))
unfolding text_eq has_registration any
oauth_revoke_total_test =
    oauth_revoke_total rank 3 (ascii "p") family family-Ranks (omega arith) refl

revoke_runs :
    oauth_revoke 3 (ascii "p") family
    ≡ some (ok (store_of (other ∷ []) (tokens_of (ascii "o") ∷ [])))
unfolding oauth_revoke remove_registration has_registration cascade_remove remove_each children
    prune parent_eq retain text_eq contains any
revoke_runs = refl

oauth_revoke-IsCut_example :
    IsCut
      (λ r. (r.id ≡ ascii "p") ⊎ Descends family.registrations (ascii "p") r)
      family
      (store_of (other ∷ []) (tokens_of (ascii "o") ∷ []))
oauth_revoke-IsCut_example =
    oauth_revoke-IsCut 3 (ascii "p") family (store_of (other ∷ []) (tokens_of (ascii "o") ∷ []))
      revoke_runs

oauth_revoke-none_example :
    (t : OAuthStore) × (oauth_register (params (ascii "x") (some (ascii "x"))) [] (pos 0) family
      ≡ ok t)
    × ((fuel : ℕ) → oauth_revoke fuel (ascii "x") t ≡ none)
unfolding text_eq has_registration any
oauth_revoke-none_example =
    oauth_revoke-none (params (ascii "x") (some (ascii "x"))) [] (pos 0) (ascii "x") family refl
      refl refl

-- Two registrations and tokens for the second.
abbrev small : OAuthStore
small = store_of (top ∷ reg (ascii "c") (some (ascii "p")) ∷ []) (tokens_of (ascii "c") ∷ [])

small-Reachable : Reachable small
unfolding empty_store oauth_register register_provider registration_of has_registration store_tokens
    any retain text_eq or_else
small-Reachable =
    Reachable.next
      (Reachable.next
        (Reachable.next (Reachable.created (ascii "a"))
          (Step.registers (params (ascii "p") none) [] (pos 0) refl))
        (Step.registers (params (ascii "c") (some (ascii "p"))) [] (pos 0) refl))
      (Step.stores (tokens_of (ascii "c")) refl)

Reachable-IsConsistent_example : IsConsistent small
Reachable-IsConsistent_example = Reachable-IsConsistent small small-Reachable

-- A cipher that puts a byte before the text, and a format that knows one store.
abbrev open_text : Bytes → Bytes → Bytes → Option Bytes
open_text key nonce [] = none
open_text key nonce (x ∷ plain) = some plain

abbrev sealing : Sealing
sealing = record {
  hkdf = λ key context. key;
  encrypt = λ key nonce plain. some (1 ∷ plain);
  decrypt = open_text;
  to_vec = λ store. ascii "{}";
  from_slice = λ text. some small;
}

opens :
    (key nonce plain sealed : Bytes)
    → some (1 ∷ plain) ≡ some sealed
    → open_text key nonce sealed ≡ some plain
opens key nonce plain [] e = absurd (ground arith)
opens key nonce plain (x ∷ sealed) e = ground arith

longer : (plain sealed : Bytes) → some (1 ∷ plain) ≡ some sealed → 1 ≤ length sealed
longer plain [] e = absurd (ground arith)
longer plain (x ∷ sealed) e = omega arith

sealing-IsFaithful : IsFaithful sealing
sealing-IsFaithful = record {
  decrypt-encrypt = opens;
  encrypt-length = λ key nonce plain sealed e. longer plain sealed e;
}

load-save_test :
    load sealing (some (ascii "twelve bytes" ++ 1 ∷ ascii "{}")) (ascii "key") [] ≡ ok small
unfolding save
load-save_test =
    load-save sealing small (ascii "key") (ascii "twelve bytes")
      (ascii "twelve bytes" ++ 1 ∷ ascii "{}") [] sealing-IsFaithful refl refl saved
  where
    saved :
        save sealing small (ascii "key") (ascii "twelve bytes")
        ≡ ok (ascii "twelve bytes" ++ 1 ∷ ascii "{}")
    saved = refl
