-- ===== src/TokenCache/Domains.antt =====
-- Which domains a binding is for.
use grokingclawid.Common.{
  Bool-cases, Option-cases, Text, arith, ascii, ends_with, ends_with-append, ends_with_sound, inl,
  inr, length, length-append, lt→ltb, refl, strip_prefix, strip_prefix_iff, take, take-append,
  text_eq, text_eq_iff, true, ◌++◌, ◌+◌, ◌-◌, ◌<◌, ◌↔◌, ◌≡◌, ◌⊎◌,
}
use grokingclawid.TokenCache.{domain_matches, is_subdomain}

take-ends_with :
    (domain suffix p : Text)
    → domain ≡ p ++ suffix
    → take (length domain - length suffix) domain ≡ p
take-ends_with domain suffix p e =
    let n : length domain ≡ length p + length suffix = rw e (length-append p suffix) in
    rw (e) (
      take-append (length (p ++ suffix) - length suffix) p suffix
        (omega (arith, length-append p suffix)))

is_subdomain_iff :
    (suffix domain : Text)
    → (is_subdomain suffix domain ≡ true) ↔ ((p : Text) × (domain ≡ p ++ ascii "." ++ suffix))
unfolding is_subdomain
is_subdomain_iff suffix domain = (
  λ h.
      let ends : ends_with domain suffix ≡ true = ground arith in
      let (p, e) = ends_with_sound domain suffix ends in
      let taken = take-ends_with domain suffix p e in
      let dot : ends_with (take (length domain - length suffix) domain) (ascii ".") ≡ true =
        ground arith in
      let (q, k) = ends_with_sound p (ascii ".") (rw taken at dot) in (q, rw k at e),
  λ (p, e).
      let taken = take-ends_with domain suffix (p ++ ascii ".") e in
      let ends : ends_with domain suffix ≡ true = rw e (ends_with-append (p ++ ascii ".") suffix) in
      let longer : length suffix < length domain =
        rw e (omega (arith, length-append (p ++ ascii ".") suffix, length-append p (ascii "."))) in
      rw (is_subdomain, ends, lt→ltb (length suffix) (length domain) longer, taken)
        (ends_with-append p (ascii ".")),
)

-- A pattern is for the domain that it spells, and a pattern `*.suffix` for the domains that end in
-- `.suffix`, whatever stands before: several labels, or none at all.
pub domain_matches_iff :
    (pattern domain : Text)
    → (domain_matches pattern domain ≡ true) ↔ (
        (pattern ≡ domain)
        ⊎ ((suffix : Text) × (p : Text) × (pattern ≡ ascii "*." ++ suffix)
            × (domain ≡ p ++ ascii "." ++ suffix)))
unfolding domain_matches
domain_matches_iff pattern domain = (
  λ h. elim (Bool-cases (text_eq pattern domain)) [
    | inl same ↦ inl ((text_eq_iff pattern domain).0 same)
    | inr other ↦ elim (Option-cases (strip_prefix (ascii "*.") pattern)) [
      | inl plain ↦ absurd (ground arith)
      | inr (suffix, stripped) ↦
          let (p, e) = (is_subdomain_iff suffix domain).0 (rw (other, stripped) at h) in
          inr (suffix, p, (strip_prefix_iff (ascii "*.") pattern suffix).0 stripped, e)
    ]
  ],
  λ either. elim either [
    | inl same ↦ rw (domain_matches, (text_eq_iff pattern domain).1 same) refl
    | inr (suffix, p, e, f) ↦
        let stripped = (strip_prefix_iff (ascii "*.") pattern suffix).1 e in
        let under = (is_subdomain_iff suffix domain).1 (p, f) in
        elim (Bool-cases (text_eq pattern domain)) [
          | inl same ↦ rw (domain_matches, same) refl
          | inr other ↦ rw (domain_matches, other, stripped, under) refl
        ]
  ],
)
