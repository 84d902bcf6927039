-- ===== src/Drive/NamingTests.antt =====
-- Names of owners' files in an object that has some already.
use Prim.Native.String.{count as char_count}
use objekt_bernahme_automati.Prelude.{
  ◌≤◌, ◌≡◌, refl, true, none, some, List, [], ◌∷◌, String, prefix,
}
use objekt_bernahme_automati.Drive.Naming.{
  OwnerNameInput, OwnerFileNamingConfig, is_free, fit_length, resolve_collision,
}
use objekt_bernahme_automati.Drive.NameLength.{fit_length_bounded}
use objekt_bernahme_automati.Drive.Collisions.{resolve_collision_ends}

abbrev cfg : OwnerFileNamingConfig
cfg = record {
  name_separator = "-";
  name_max_names = 3;
  name_overflow_suffix = "ua";
  name_max_length = 12;
  collision_suffix_mode = "year_then_counter";
}

abbrev existing : List String
existing = "WE01_Meier" ∷ "WE01_Me_2024" ∷ "WE01_Meier_2" ∷ []

abbrev inp : OwnerNameInput
inp = record { valid_from = some 2024; existing_names_in_object = existing; current_name = none }

third : resolve_collision "WE01_Meier" inp cfg ≡ some "WE01_Meier_3"
unfolding resolve_collision prefix
third = refl

own_name :
    resolve_collision "WE01_Meier" (record inp { current_name = some "WE01_Me_2024" }) cfg
    ≡ some "WE01_Me_2024"
unfolding resolve_collision prefix
own_name = refl

-- The names do not fit, and neither does the first one with the suffix.
long_names : fit_length "WE01" ("Meier" ∷ "Schulze" ∷ []) cfg ≡ "WE01_Meier-u"
unfolding fit_length prefix
long_names = refl

long_token : fit_length "Unbekannte_WE" ("Meier" ∷ []) cfg ≡ "Unbekann_Mei"
unfolding fit_length prefix
long_token = refl

fit_length_bounded_example : char_count (fit_length "WE01" ("Meier" ∷ "Schulze" ∷ []) cfg) ≤ 12
fit_length_bounded_example = fit_length_bounded "WE01" ("Meier" ∷ "Schulze" ∷ []) cfg

resolve_collision_ends_example :
    (name : String) × (resolve_collision "WE01_Meier" inp cfg ≡ some name)
    × (is_free inp name ≡ true)
resolve_collision_ends_example = resolve_collision_ends "WE01_Meier" inp cfg
