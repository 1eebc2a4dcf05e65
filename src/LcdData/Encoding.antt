-- ===== src/LcdData/Encoding.antt =====
-- server/communication/data_structures_lcd_controller.py: the dataset that is built has five
-- profiles, and `encode_lcd_dataset_payload` writes it as it is.
use gaggia_esp_c3_mini_serve.Prelude.{
  ℕ, zero, suc, ◌+◌, Bool, true, false, Option, List, [], ◌∷◌, length, drop, get_or, ltb,
  if◌then◌else◌, All, ◌≡◌, refl, ap, ◌∙◌, arith,
}
use gaggia_esp_c3_mini_serve.Python.Text.{text, eq_text, Unicode}
use gaggia_esp_c3_mini_serve.Python.Integer.{ℤ}
use gaggia_esp_c3_mini_serve.Python.Object.{ok, >>=-ok, Numbers, Dict, dict, mem, to_int}
use gaggia_esp_c3_mini_serve.Python.Dict.{all_of, all_of-mem}
use gaggia_esp_c3_mini_serve.LcdData.Fields.{
  profile_field_order, settings_field_order, profile_kind, settings_kind, int_kind, max_profiles,
}
use gaggia_esp_c3_mini_serve.LcdData.Defaults.{default_profile, default_profile_items}
use gaggia_esp_c3_mini_serve.LcdData.Dataset.{normalize_lcd_profile, or_empty}
use gaggia_esp_c3_mini_serve.LcdData.Normalize.{normalize_int}
use gaggia_esp_c3_mini_serve.LcdData.Payload.{
  Dataset, as_raw, build_profiles, build_lcd_dataset_from_presets, payload_text,
  encode_lcd_dataset_payload,
}
use gaggia_esp_c3_mini_serve.LcdData.Typed.{convertible}
use gaggia_esp_c3_mini_serve.LcdData.Loop.{Convertible}
use gaggia_esp_c3_mini_serve.LcdData.Named.{IsProfile, default_id}
use gaggia_esp_c3_mini_serve.LcdData.Normal.{
  normalize_lcd_profile-IsProfile, normalize_lcd_profile-again,
}
use gaggia_esp_c3_mini_serve.LcdData.Settings.{
  IsSettings, normalize_lcd_settings-IsSettings, normalize_lcd_settings-again,
}

-- The values of a preset can be converted where the profile's fields ask for it.
pub record IsPreset (py : Numbers) (d : Dict py.Float) : Type 0 where
  pub id : convertible py int_kind (d (text "id")) ≡ true
  pub fields : Convertible py profile_kind profile_field_order d

-- Five normalized profiles, and normalized settings.
pub record IsDataset {F : Type 0} (d : Dataset F) : Type 0 where
  pub five : length d.profiles ≡ max_profiles
  pub all_profiles : All (λ p. IsProfile p) d.profiles
  pub normal : IsSettings d.settings

default-convertible :
    (py : Numbers) (index : ℕ)
    → all_of
        (λ key. convertible py (profile_kind key) (default_profile py index key))
        profile_field_order
      ≡ true
unfolding all_of profile_field_order profile_kind default_profile default_profile_items dict text
    eq_text mem
default-convertible py index = refl

default_profile-IsPreset : (py : Numbers) (index : ℕ) → IsPreset py (default_profile py index)
default_profile-IsPreset py index = record {
  id = ap (λ o. convertible py int_kind o) (default_id py index);
  fields = all_of-mem _ profile_field_order (default-convertible py index);
}

get_or-IsPreset :
    (py : Numbers) (presets : List (Dict py.Float)) (index : ℕ) (default : Dict py.Float)
    → All (λ p. IsPreset py p) presets
    → IsPreset py default
    → IsPreset py (get_or presets index default)
get_or-IsPreset py [] index default h d = d
get_or-IsPreset py (p ∷ presets) zero default (h, hs) d = h
get_or-IsPreset py (p ∷ presets) (suc index) default (h, hs) d =
    get_or-IsPreset py presets index default hs d

add_one : (n : ℕ) → n + 1 ≡ suc n
add_one n = omega arith

drop-cons {ℓ} :
    {A : Type ℓ} (i : ℕ) (xs : List A) (x : A) (rest : List A) (default : A)
    → drop i xs ≡ x ∷ rest
    → (ltb i (length xs) ≡ true) × (get_or xs i default ≡ x) × (drop (suc i) xs ≡ rest)
drop-cons zero [] x rest default h = cc
drop-cons zero (y ∷ xs) x rest default h = (ground arith, cc, cc)
drop-cons (suc i) [] x rest default h = cc
drop-cons (suc i) (y ∷ xs) x rest default h =
    let (a, b, c) = drop-cons i xs x rest default h in (ground arith, b, c)

module _ (py : Numbers) (u : Unicode) where
  build_profiles-IsProfile :
      (n index : ℕ) (presets : List (Dict py.Float))
      → All (λ p. IsPreset py p) presets
      → (ps : List (Dict py.Float)) × (build_profiles py u n index presets ≡ ok ps)
        × (length ps ≡ n)
        × All (λ p. IsProfile p) ps
  unfolding build_profiles
  build_profiles-IsProfile zero index presets h = ([], refl, refl, tt)
  build_profiles-IsProfile (suc n) index presets h =
      let source =
        if ltb index (length presets)
        then get_or presets index (default_profile py index)
        else default_profile py index in
      let preset = chosen-IsPreset (ltb index (length presets)) index presets h in
      let (p, made, is) =
        normalize_lcd_profile-IsProfile py u source index preset.id preset.fields in
      let (ps, rest, count, all) = build_profiles-IsProfile n (index + 1) presets h in
      (p ∷ ps, >>=-ok _ p made (>>=-ok _ ps rest refl), omega arith, (is, all))
    where
      chosen-IsPreset :
          (b : Bool) (index : ℕ) (presets : List (Dict py.Float))
          → All (λ p. IsPreset py p) presets
          → IsPreset py (
              if b
              then get_or presets index (default_profile py index)
              else default_profile py index)
      chosen-IsPreset true index presets h =
          get_or-IsPreset py presets index (default_profile py index) h
            (default_profile-IsPreset py index)
      chosen-IsPreset false index presets h = default_profile-IsPreset py index

  -- A dataset is built of any presets, more than five, fewer or none, whose values and those of the
  -- settings can be converted: it has the version asked for, five profiles and settings, all of the
  -- types that the payload demands, and an active profile from 1 to 5.
  pub build_lcd_dataset_from_presets-IsDataset :
      (presets : List (Dict py.Float)) (settings : Option (Dict py.Float)) (version : ℤ)
      → All (λ p. IsPreset py p) presets
      → Convertible py settings_kind settings_field_order (or_empty py u settings)
      → (d : Dataset py.Float) × (build_lcd_dataset_from_presets py u presets settings version
          ≡ ok d)
        × (d.version ≡ version)
        × IsDataset d
  unfolding build_lcd_dataset_from_presets
  build_lcd_dataset_from_presets-IsDataset presets settings version h hs =
      let (ps, made, count, all) = build_profiles-IsProfile max_profiles 0 presets h in
      let (s, read, normal) = normalize_lcd_settings-IsSettings py u settings hs in
      (
        record { version = version; settings = s; profiles = ps },
        >>=-ok _ ps made (>>=-ok _ s read refl),
        refl,
        record { five = count; all_profiles = all; normal = normal },
      )

  build_profiles-again :
      (n index : ℕ) (presets ps : List (Dict py.Float))
      → drop index presets ≡ ps
      → length ps ≡ n
      → All (λ p. IsProfile p) ps
      → build_profiles py u n index presets ≡ ok ps
  unfolding build_profiles
  build_profiles-again zero index presets [] at count all = refl
  build_profiles-again zero index presets (p ∷ ps) at count all = ground arith
  build_profiles-again (suc n) index presets [] at count all = ground arith
  build_profiles-again (suc n) index presets (p ∷ ps) at count (is, all) =
      let (inside, got, rest) = drop-cons index presets p ps (default_profile py index) at in
      >>=-ok _ p
        (ap
            (λ b.
              normalize_lcd_profile py u
                (if b
                  then get_or presets index (default_profile py index)
                  else default_profile py index)
                index)
            inside
          ∙ (ap (λ d. normalize_lcd_profile py u d index) got
              ∙ normalize_lcd_profile-again py u p index is))
        (>>=-ok _ ps
          (build_profiles-again n (index + 1) presets ps
            (ap (λ i. drop i presets) (add_one index) ∙ rest) (omega arith) all)
          refl)

  -- Encoding a dataset that was built changes none of its values: the second normalization of the
  -- settings and of the profiles is the identity, so that the text is that of the dataset itself.
  pub encode_lcd_dataset_payload-as_built :
      (presets : List (Dict py.Float)) (settings : Option (Dict py.Float)) (version : ℤ)
      → All (λ p. IsPreset py p) presets
      → Convertible py settings_kind settings_field_order (or_empty py u settings)
      → (d : Dataset py.Float) × (build_lcd_dataset_from_presets py u presets settings version
          ≡ ok d)
        × (encode_lcd_dataset_payload py u (as_raw d) ≡ payload_text py d)
  unfolding encode_lcd_dataset_payload build_lcd_dataset_from_presets normalize_int to_int
  encode_lcd_dataset_payload-as_built presets settings version h hs =
      let (d, built, same, is) =
        build_lcd_dataset_from_presets-IsDataset presets settings version h hs in
      let again = normalize_lcd_settings-again py u d.settings is.normal in
      let profiles =
        build_profiles-again max_profiles 0 d.profiles d.profiles refl is.five is.all_profiles in
      (
        d,
        built,
        >>=-ok _ d.settings again
            (>>=-ok _ d (>>=-ok _ d.profiles profiles (>>=-ok _ d.settings again refl)) refl),
      )
