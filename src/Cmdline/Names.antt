-- ===== src/Cmdline/Names.antt =====
-- The names of the applications, `app_entries` and `string_to_app`.
use cloning_apps.Base.{
  ℕ, ◌≡◌, refl, Bool, true, List, [], ◌∷◌, ◌&&◌, if◌then◌else◌, Bool-cases, inl, inr, ◌⊎◌, bytes_eq,
  arith,
}
use cloning_apps.Globals.{App, app_none}
use cloning_apps.Cmdline.{app_entries, find_app, string_to_app}

-- That each entry's name is read back as its application, or as `app_none` if it is not configured.
abbrev pub ReadBack : (App → Bool) → List (List ℕ × App) → Type 0
ReadBack configured [] = Unit
ReadBack configured ((name, app) ∷ entries) =
    (string_to_app configured name ≡ (if configured app then app else app_none))
    × ReadBack configured entries

find_app-configured :
    (configured : App → Bool) (s : List ℕ) (entries : List (List ℕ × App))
    → (find_app configured s entries ≡ app_none)
      ⊎ (configured (find_app configured s entries) ≡ true)
unfolding find_app
find_app-configured configured s [] = inl refl
find_app-configured configured s ((name, app) ∷ entries) =
    elim (Bool-cases (bytes_eq s name && configured app)) [
      | inl e ↦ rw e (inr (ground arith))
      | inr e ↦ rw e (find_app-configured configured s entries)
    ]

-- Whatever applications a build includes, the name of each of the nine entries is read back as its
-- application if it is included and as `app_none` if it is not, and a text is read as an
-- application only if the build includes it.
pub string_to_app-names :
    (configured : App → Bool) (s : List ℕ)
    → ReadBack configured app_entries
      × ((string_to_app configured s ≡ app_none) ⊎ (configured (string_to_app configured s) ≡ true))
unfolding string_to_app
string_to_app-names configured s = (
  (refl, (refl, (refl, (refl, (refl, (refl, (refl, (refl, (refl, tt))))))))),
  find_app-configured configured s app_entries,
)
