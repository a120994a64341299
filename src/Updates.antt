-- ===== src/Updates.antt =====
-- crates/grokingclaw-daemon/src/updates.rs: which updates a check finds and which of them are
-- applied. What the registry answers for a name is an argument, none where the request fails or its
-- answer cannot be read; so is whether a template is installed.
pub mod Major
pub mod Applied
mod Tests
use grokingclawid.Common.{
  Bool, List, Option, Result, Text, [], ascii, false, if◌then◌else◌, ltb, none, not, retain, some,
  text_eq, true, unwrap_or, ℕ, ℤ, ◌&&◌, ◌++◌, ◌-◌, ◌==◌, ◌^◌, ◌∷◌,
}
use grokingclawid.Httpsig.Parse.{unsigned_i64}

pub data UpdateKind : Type 0 where
  template daemon : UpdateKind

pub record UpdateInfo : Type 0 where
  pub kind : UpdateKind
  pub name : Text
  pub current_version : Text
  pub latest_version : Text
  pub is_major : Bool
  pub changelog_url : Option Text
  pub checked_at : ℤ

pub record VersionResponse : Type 0 where
  pub version : Text
  pub changelog_url : Option Text

-- What `list_local` tells of a template that is used here.
pub record TemplateSummary : Type 0 where
  pub name : Text
  pub version : Text

-- `s.split('.').next()`
unfoldable pub first_part : Text → Text
first_part [] = []
first_part (c ∷ s) = if c == 46 then [] else c ∷ first_part s

-- `str::parse::<u32>()`
unfoldable pub parse_u32 : Text → Option ℕ
parse_u32 [] = none
parse_u32 (c ∷ s) =
    if c == 43 then unsigned_i64 (2 ^ 32 - 1) s else unsigned_i64 (2 ^ 32 - 1) (c ∷ s)

unfoldable pub is_later : Option ℕ → Option ℕ → Bool
is_later none latest = false
is_later (some c) none = false
is_later (some c) (some l) = ltb c l

unfoldable pub is_major_update : Text → Text → Bool
is_major_update current latest =
    is_later (parse_u32 (first_part current)) (parse_u32 (first_part latest))

-- The update that both checks make of an answer.
unfoldable pub update_to : UpdateKind → Text → Text → ℤ → VersionResponse → UpdateInfo
update_to kind name current now latest = record {
  kind = kind;
  name = name;
  current_version = current;
  latest_version = latest.version;
  is_major = is_major_update current latest.version;
  changelog_url = latest.changelog_url;
  checked_at = now;
}

unfoldable pub check_daemon_update : Text → ℤ → Option VersionResponse → List UpdateInfo
check_daemon_update current now none = []
check_daemon_update current now (some latest) =
    if text_eq latest.version current
    then []
    else update_to daemon (ascii "grokingclaw") current now latest ∷ []

unfoldable pub template_update : ℤ → TemplateSummary → Option VersionResponse → Option UpdateInfo
template_update now t none = none
template_update now t (some latest) =
    if text_eq t.version (ascii "unknown")
    then none
    else if text_eq latest.version t.version
    then none
    else some (update_to template t.name t.version now latest)

unfoldable pub push_some {ℓ} : {A : Type ℓ} → Option A → List A → List A
push_some none xs = xs
push_some (some x) xs = x ∷ xs

unfoldable pub check_template_updates :
    (Text → Option VersionResponse) → ℤ → List TemplateSummary → List UpdateInfo
check_template_updates answer now [] = []
check_template_updates answer now (t ∷ ts) =
    push_some (template_update now t (answer t.name)) (check_template_updates answer now ts)

-- The updates that `check` stores.
unfoldable pub check :
    Text
    → Option VersionResponse
    → (Text → Option VersionResponse)
    → ℤ
    → Result (List TemplateSummary)
    → List UpdateInfo
check current latest answer now local_templates =
    check_daemon_update current now latest
    ++ check_template_updates answer now (unwrap_or local_templates [])

unfoldable pub is_template : UpdateKind → Bool
is_template template = true
is_template daemon = false

-- The updates that are applied, of those that are stored.
unfoldable pub apply_template_updates : (Text → Text → Bool) → List UpdateInfo → List UpdateInfo
apply_template_updates installs available_updates =
    retain (λ u. installs u.name u.latest_version)
      (retain (λ u. is_template u.kind && not u.is_major) available_updates)
