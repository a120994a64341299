-- ===== src/Updates/Applied.antt =====
-- crates/grokingclaw-daemon/src/updates.rs, what a check and the automatic update after it install.
use grokingclawid.Common.{
  Bool, Bool-cases, List, Memᴰ, Memᴰ-append, Memᴰ-only, Memᴰ-retain_iff, Option, Option-cases, Text,
  [], ap, append-Memᴰ, arith, ascii, false, inl, inr, none, not, ok, refl, retain, some, sym,
  text_eq, text_eq_iff, true, ℤ, ◌&&◌, ◌↔◌, ◌∙◌, ◌∷◌, ◌≡◌, ◌≢◌, ◌⊎◌,
}
use grokingclawid.Updates.Major.{IsLaterMajor, is_major_update-minor_iff}
use grokingclawid.Updates.{
  TemplateSummary, UpdateInfo, VersionResponse, apply_template_updates, check, check_daemon_update,
  check_template_updates, daemon, is_major_update, is_template, push_some, template,
  template_update, update_to,
}

-- The template is there in a version that is known, and the registry names another one.
pub record IsOutdated (answer : Text → Option VersionResponse) (t : TemplateSummary)
    (latest : VersionResponse) : Type 0 where
  pub answered : answer t.name ≡ some latest
  pub version_known : t.version ≢ ascii "unknown"
  pub is_other : latest.version ≢ t.version

text_eq-apart_iff : (a b : Text) → (text_eq a b ≡ false) ↔ (a ≢ b)
text_eq-apart_iff a b = (
  λ h e. let same = (text_eq_iff a b).1 e in ground arith,
  λ n. elim (Bool-cases (text_eq a b)) [
    | inl same ↦ absurd (n ((text_eq_iff a b).0 same))
    | inr apart ↦ apart
  ],
)

template_update_iff :
    (answer : Text → Option VersionResponse) (now : ℤ) (t : TemplateSummary) (u : UpdateInfo)
    → (template_update now t (answer t.name) ≡ some u) ↔ (
        (latest : VersionResponse) × IsOutdated answer t latest
        × (update_to template t.name t.version now latest ≡ u))
unfolding template_update
template_update_iff answer now t u = (
  λ e. elim (Option-cases (answer t.name)) [
    | inl silent ↦ absurd (ground arith)
    | inr (latest, answered) ↦ elim (Bool-cases (text_eq t.version (ascii "unknown"))) [
      | inl unknown ↦ absurd (ground arith)
      | inr known ↦ elim (Bool-cases (text_eq latest.version t.version)) [
        | inl same ↦ absurd (ground arith)
        | inr other ↦ (
          latest,
          record {
            answered = answered;
            version_known = (text_eq-apart_iff t.version (ascii "unknown")).0 known;
            is_other = (text_eq-apart_iff latest.version t.version).0 other;
          },
          ground arith,
        )
      ]
    ]
  ],
  λ (latest, h, e).
      let known = (text_eq-apart_iff t.version (ascii "unknown")).1 h.version_known in
      let other = (text_eq-apart_iff latest.version t.version).1 h.is_other in
      rw (h.answered, template_update, known, other) (ap some e),
)

Memᴰ-push_some_iff {ℓ} :
    {A : Type ℓ} (x : A) (o : Option A) (xs : List A)
    → Memᴰ x (push_some o xs) ↔ ((o ≡ some x) ⊎ Memᴰ x xs)
unfolding push_some
Memᴰ-push_some_iff x none xs =
    (λ m. inr m, λ h. elim h [ inl e ↦ absurd (ground arith) | inr m ↦ m ])
Memᴰ-push_some_iff x (some y) xs = (
  λ m. elim m [ Memᴰ.head e ↦ inl (ap some (sym e)) | Memᴰ.tail k ↦ inr k ],
  λ h. elim h [ inl e ↦ Memᴰ.head (ground arith) | inr k ↦ Memᴰ.tail k ],
)

-- A template is found to have an update exactly when it stands in another version, older or newer.
pub check_template_updates_iff :
    (answer : Text → Option VersionResponse) (now : ℤ) (ts : List TemplateSummary) (u : UpdateInfo)
    → Memᴰ u (check_template_updates answer now ts) ↔ (
        (t : TemplateSummary) × (latest : VersionResponse) × Memᴰ t ts
        × IsOutdated answer t latest
        × (update_to template t.name t.version now latest ≡ u))
unfolding check_template_updates
check_template_updates_iff answer now [] u = (λ m. elim m [ ], λ (t, latest, m, h, e). elim m [ ])
check_template_updates_iff answer now (s ∷ ts) u =
    let next = check_template_updates_iff answer now ts u in
    let this = template_update_iff answer now s u in
    let pushed =
      Memᴰ-push_some_iff u (template_update now s (answer s.name))
        (check_template_updates answer now ts) in
    (
      λ m. elim (pushed.0 m) [
        | inl e ↦ let (latest, h, same) = this.0 e in (s, latest, Memᴰ.head refl, h, same)
        | inr k ↦ let (t, latest, j, h, same) = next.0 k in (t, latest, Memᴰ.tail j, h, same)
      ],
      λ (t, latest, m, h, same). elim m [
        | Memᴰ.head e ↦ pushed.1 (inl (this.1 (latest, rw e at h, rw e at same)))
        | Memᴰ.tail k ↦ pushed.1 (inr (next.1 (t, latest, k, h, same)))
      ],
    )

-- No update of the daemon is among those that are applied.
check_daemon_update-kind :
    (current : Text) (now : ℤ) (latest : Option VersionResponse) (u : UpdateInfo)
    → Memᴰ u (check_daemon_update current now latest)
    → is_template u.kind ≡ false
unfolding check_daemon_update is_template update_to
check_daemon_update-kind current now none u m = elim m [ ]
check_daemon_update-kind current now (some latest) u m =
    elim (Bool-cases (text_eq latest.version current)) [
      | inl same ↦ elim (rw (check_daemon_update, same) at m) [ ]
      | inr other ↦
          let e : u ≡ update_to daemon (ascii "grokingclaw") current now latest =
            Memᴰ-only (rw (check_daemon_update, other) at m) in
          ap (λ v. is_template v.kind) e
    ]

-- The record of a change of a template to the version that the registry names.
abbrev pub offered : Bool → TemplateSummary → VersionResponse → ℤ → UpdateInfo
offered major t newest now = record {
  kind = template;
  name = t.name;
  current_version = t.version;
  latest_version = newest.version;
  is_major = major;
  changelog_url = newest.changelog_url;
  checked_at = now;
}

-- A check and the automatic update after it install a template exactly when the template is there
-- in a version that is known, the registry names another version, the installation succeeds, and it
-- is not so that the first parts of both versions are numbers and the new one is greater. So an older
-- version is installed as well, and one whose first part is no number.
pub apply_template_updates_iff :
    (installs : Text → Text → Bool) (current : Text) (latest : Option VersionResponse)
    (answer : Text → Option VersionResponse) (now : ℤ) (ts : List TemplateSummary) (u : UpdateInfo)
    → Memᴰ u (apply_template_updates installs (check current latest answer now (ok ts))) ↔ (
        (t : TemplateSummary) × (newest : VersionResponse) × Memᴰ t ts
        × IsOutdated answer t newest
        × (offered false t newest now ≡ u)
        × ¬ IsLaterMajor t.version newest.version
        × (installs t.name newest.version ≡ true))
unfolding apply_template_updates check update_to is_template
apply_template_updates_iff installs current latest answer now ts u =
    let chosen : UpdateInfo → Bool = λ v. is_template v.kind && not v.is_major in
    let installed : UpdateInfo → Bool = λ v. installs v.name v.latest_version in
    let found = check current latest answer now (ok ts) in
    let outer = Memᴰ-retain_iff installed u (retain chosen found) in
    let inner = Memᴰ-retain_iff chosen u found in
    let of_templates = check_template_updates_iff answer now ts u in
    (
      λ m.
          let (k, done) = outer.0 m in
          let (j, kept) = inner.0 k in
          elim (append-Memᴰ u (check_daemon_update current now latest)
            (check_template_updates answer now ts) j) [
              | inl of_daemon ↦
                  let no : is_template u.kind ≡ false =
                    check_daemon_update-kind current now latest u of_daemon in
                  absurd (ground arith)
              | inr i ↦
                  let (t, newest, at, h, same) = of_templates.0 i in
                  let minor : is_major_update t.version newest.version ≡ false =
                    ap (λ v. v.is_major) same ∙ ground arith in
                  (
                    t,
                    newest,
                    at,
                    h,
                    ap (λ b. offered b t newest now) (sym minor) ∙ same,
                    (is_major_update-minor_iff t.version newest.version).0 minor,
                    ap installed same ∙ done,
                  )
            ],
      λ (t, newest, at, h, plain, not_later, done).
          let minor = (is_major_update-minor_iff t.version newest.version).1 not_later in
          let same : update_to template t.name t.version now newest ≡ u =
            ap (λ b. offered b t newest now) minor ∙ plain in
          let i = of_templates.1 (t, newest, at, h, same) in
          let kept : chosen (update_to template t.name t.version now newest) ≡ true =
            rw minor refl in
          outer.1 (
            inner.1 (
              Memᴰ-append (check_daemon_update current now latest) i,
              ap chosen (sym same) ∙ kept,
            ),
            ap installed (sym same) ∙ done,
          ),
    )
