-- ===== src/License/Tiers.antt =====
-- A higher tier allows everything that a lower one does.
use grokingclawid.Common.{Text, any, arith, none, ok, ℕ, ◌≡◌, ◌≤◌}
use grokingclawid.License.{
  LicenseFeature, LicenseState, LicenseTier, check_feature, check_limit, enterprise, feature_index,
  for_tier, free, has_feature, indie, team, under,
}

-- The tiers in the order of their prices.
abbrev pub rank : LicenseTier → ℕ
rank free = 0
rank indie = 1
rank team = 2
rank enterprise = 3

-- The state of a tier.
abbrev pub at_tier : LicenseTier → LicenseState
at_tier tier = record {
  tier = tier;
  limits = for_tier tier;
  licensee_email = none;
  issued_at = none;
}

-- Moving up in the tiers never takes a limit away: a number of agents, mesh nodes or proxies that one
-- tier allows every higher tier allows.
pub check_limit_mono :
    (t u : LicenseTier) (name : Text) (current : ℕ)
    → rank t ≤ rank u
    → check_limit name current (at_tier t) ≡ ok tt
    → check_limit name current (at_tier u) ≡ ok tt
unfolding check_limit for_tier under
check_limit_mono t u name current h e = ground arith

-- A feature that the licence of one tier has, the licence of every higher tier has too.
pub check_feature_mono :
    (t u : LicenseTier) (f : LicenseFeature)
    → rank t ≤ rank u
    → check_feature f (at_tier t) ≡ ok tt
    → check_feature f (at_tier u) ≡ ok tt
unfolding check_feature has_feature for_tier any feature_index
check_feature_mono t u f h e = ground arith
