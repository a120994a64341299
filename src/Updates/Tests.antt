-- ===== src/Updates/Tests.antt =====
-- Runs of the update check on concrete data.
use grokingclawid.Common.{
  Bool, Memᴰ, Option, Text, [], ascii, false, none, ok, pos, refl, retain, some, text_eq, true, ◌↔◌,
  ◌∷◌, ◌≡◌,
}
use grokingclawid.Httpsig.Parse.{digits, unsigned_i64}
use grokingclawid.Updates.{
  TemplateSummary, UpdateInfo, VersionResponse, apply_template_updates, check, check_daemon_update,
  check_template_updates, first_part, is_later, is_major_update, is_template, parse_u32, push_some,
  template, template_update, update_to,
}
use grokingclawid.Updates.Major.{IsLaterMajor}
use grokingclawid.Updates.Applied.{IsOutdated, apply_template_updates_iff, offered}

abbrev answer : Text → Option VersionResponse
answer name = some record { version = ascii "1.0.0"; changelog_url = none }

abbrev bot : TemplateSummary
bot = record { name = ascii "bot"; version = ascii "2.0.0" }

abbrev installs : Text → Text → Bool
installs name version = true

abbrev downgrade : UpdateInfo
downgrade = record {
  kind = template;
  name = ascii "bot";
  current_version = ascii "2.0.0";
  latest_version = ascii "1.0.0";
  is_major = false;
  changelog_url = none;
  checked_at = pos 5;
}

-- The cases of the repository's own test.
majors :
    (is_major_update (ascii "0.1.0") (ascii "1.0.0") ≡ true)
    × (is_major_update (ascii "1.5.2") (ascii "2.0.0") ≡ true)
    × (is_major_update (ascii "1.0.0") (ascii "1.1.0") ≡ false)
    × (is_major_update (ascii "2.0.0") (ascii "2.5.3") ≡ false)
unfolding is_major_update is_later parse_u32 first_part unsigned_i64 digits
majors = (refl, refl, refl, refl)

apply_template_updates_iff_example :
    Memᴰ downgrade
      (apply_template_updates installs (check (ascii "0.1.0") none answer (pos 5) (ok (bot ∷ []))))
    ↔ ((t : TemplateSummary) × (newest : VersionResponse) × Memᴰ t (bot ∷ [])
        × IsOutdated answer t newest
        × (offered false t newest (pos 5) ≡ downgrade)
        × ¬ IsLaterMajor t.version newest.version
        × (installs t.name newest.version ≡ true))
apply_template_updates_iff_example =
    apply_template_updates_iff installs (ascii "0.1.0") none answer (pos 5) (bot ∷ []) downgrade

-- The template in version 2.0.0 is replaced by its version 1.0.0.
downgraded :
    apply_template_updates installs (check (ascii "0.1.0") none answer (pos 5) (ok (bot ∷ [])))
    ≡ downgrade ∷ []
unfolding apply_template_updates check retain check_daemon_update check_template_updates push_some
    template_update text_eq is_template update_to is_major_update is_later parse_u32 first_part
    unsigned_i64 digits
downgraded = refl
