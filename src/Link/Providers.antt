-- ===== src/Link/Providers.antt =====
-- server/sim/link_state_machine.py: what the display is answered when it asks for the profiles, from
-- the presets of the data manager to the payloads.
use gaggia_esp_c3_mini_serve.Prelude.{
  Bool, true, false, ◌||◌, List, [], ◌∷◌, length, leb, All, Option, none, some, if◌then◌else◌, ◌≡◌,
  refl, sym, ◌∙◌,
}
use mathlib.Core.Path.{subst}
use gaggia_esp_c3_mini_serve.Python.Text.{
  Text, text, strip, lower, starts_with, is_empty, eq_text, Unicode,
}
use gaggia_esp_c3_mini_serve.Python.Integer.{ℤ, pos}
use gaggia_esp_c3_mini_serve.Python.Object.{
  Value, Result, ok, ok_eq, >>=-ok, Numbers, Dict, item, mem,
}
use gaggia_esp_c3_mini_serve.Python.Dict.{eq_text_refl}
use gaggia_esp_c3_mini_serve.LcdData.Fields.{
  Kind, name_kind, bool_kind, float_kind, int_kind, max_profiles, schema_version, settings_kind,
  settings_field_order,
}
use gaggia_esp_c3_mini_serve.LcdData.Payload.{
  Dataset, build_lcd_dataset_from_presets, format_payload_scalar, settings_fields, payload_text,
}
use gaggia_esp_c3_mini_serve.LcdData.Summary.{ProfileSummary, build_profile_summaries_from_presets}
use gaggia_esp_c3_mini_serve.LcdData.Typed.{fits}
use gaggia_esp_c3_mini_serve.LcdData.Loop.{Convertible}
use gaggia_esp_c3_mini_serve.LcdData.Dataset.{or_empty}
use gaggia_esp_c3_mini_serve.LcdData.Encoding.{
  IsPreset, IsDataset, build_lcd_dataset_from_presets-IsDataset,
  encode_lcd_dataset_payload-as_built,
}
use gaggia_esp_c3_mini_serve.LcdData.Summaries.{
  IsSource, build_profile_summaries_from_presets-length,
}
use gaggia_esp_c3_mini_serve.LcdProtocol.{
  init_ack, profile_catalog, profile_dataset, handle_client_text_command,
}
use gaggia_esp_c3_mini_serve.Downlink.State.{Manager}
use gaggia_esp_c3_mini_serve.Link.PayloadManager.{named, catalog, dataset_text}

fits-some :
    {F : Type 0} (kind : Kind) (o : Option (Value F))
    → fits kind o ≡ true
    → (v : Value F) × (o ≡ some v)
fits-some kind (some v) h = (v, refl)
fits-some name_kind none h = cc
fits-some bool_kind none h = cc
fits-some float_kind none h = cc
fits-some int_kind none h = cc

here : (key : Text) (names : List Text) → mem key (key ∷ names) ≡ true
unfolding mem
here key names = rw (eq_text_refl key) refl

there : (a b : Bool) → b ≡ true → (a || b) ≡ true
there true b h = refl
there false b h = h

module _ (py : Numbers) where
  -- A dict with all the fields of the settings is written without a KeyError.
  settings_fields-ok :
      (names : List Text) (d : Dict py.Float)
      → ((key : Text) → mem key names ≡ true → fits (settings_kind key) (d key) ≡ true)
      → (fields : List Text) × (settings_fields py names d ≡ ok fields)
  unfolding settings_fields mem item
  settings_fields-ok [] d h = ([], refl)
  settings_fields-ok (key ∷ names) d h =
      let (v, at) = fits-some (settings_kind key) (d key) (h key (here key names)) in
      let (fields, rest) =
        settings_fields-ok names d (λ other m. h other (there (eq_text other key) _ m)) in
      (format_payload_scalar py v ∷ fields, rw at (>>=-ok _ fields rest refl))

  payload_text-ok :
      (d : Dataset py.Float) → IsDataset d → (encoded : Text) × (payload_text py d ≡ ok encoded)
  unfolding payload_text
  payload_text-ok d is =
      let (fields, e) = settings_fields-ok settings_field_order d.settings is.normal.fields in
      (_, >>=-ok _ fields e refl)

All-IsPreset :
    (py : Numbers) (u : Unicode) (presets : List (Dict py.Float))
    → All (λ p. IsSource py u p) presets
    → All (λ p. IsPreset py p) presets
All-IsPreset py u [] h = tt
All-IsPreset py u (p ∷ presets) (h, hs) = (h.preset, All-IsPreset py u presets hs)

not_empty : (s : Text) → starts_with s (text "lcdprotoinit") ≡ true → is_empty s ≡ false
unfolding starts_with text
not_empty [] h = cc
not_empty (c ∷ s) h = refl

module _ (py : Numbers) (u : Unicode) where
  catalog-ok :
      (m : Manager py.Float) (ss : List (ProfileSummary py.Float))
      → build_profile_summaries_from_presets py u m.profile_presets ≡ ok ss
      → catalog py u m ≡ ok (named ss)
  catalog-ok m ss e = >>=-ok _ ss e refl

  dataset_text-ok :
      (m : Manager py.Float)
      → All (λ p. IsPreset py p) m.profile_presets
      → Convertible py settings_kind settings_field_order (or_empty py u (some m.lcd_settings))
      → (d : Dataset py.Float) × (encoded : Text) × (build_lcd_dataset_from_presets py u
            m.profile_presets
            (some m.lcd_settings)
            (pos schema_version)
          ≡ ok d)
        × (payload_text py d ≡ ok encoded)
        × (dataset_text py u m ≡ ok encoded)
  dataset_text-ok m h hs =
      let (d, built, told) =
        encode_lcd_dataset_payload-as_built py u m.profile_presets (some m.lcd_settings)
          (pos schema_version) h hs in
      let (d', built', same, is) =
        build_lcd_dataset_from_presets-IsDataset py u m.profile_presets (some m.lcd_settings)
          (pos schema_version) h hs in
      let (encoded, e) =
        payload_text-ok py d (subst (λ d. IsDataset d) (ok_eq (sym built' ∙ built)) is) in
      (d, encoded, built, e, >>=-ok _ d built (told ∙ e))

  answers :
      (payload : Text) (catalog : Result (List (ℤ × Text))) (encoded : Result Text)
      (items : List (ℤ × Text))
      → starts_with (lower u (strip payload)) (text "lcdprotoinit") ≡ true
      → catalog ≡ ok items
      → handle_client_text_command u true catalog (some encoded) payload
        ≡ some (ok (init_ack items) ∷ encoded ∷ ok (profile_catalog items) ∷ [])
  unfolding handle_client_text_command profile_dataset
  answers payload catalog encoded items init e = rw (not_empty _ init, init, e) refl

  -- Where the values of the presets and the settings can be converted, the command `LCDProtoInit` of
  -- the display is answered by three payloads, of which none fails: the acknowledgement with the
  -- number of profiles, which is that of the presets up to five, the text of the dataset as it was
  -- built of the presets, and the catalog of the same profiles.
  pub lcd_init-answered :
      (m : Manager py.Float) (payload : Text)
      → All (λ p. IsSource py u p) m.profile_presets
      → Convertible py settings_kind settings_field_order (or_empty py u (some m.lcd_settings))
      → starts_with (lower u (strip payload)) (text "lcdprotoinit") ≡ true
      → (ss : List (ProfileSummary py.Float)) × (d : Dataset py.Float) × (encoded : Text)
        × (build_profile_summaries_from_presets py u m.profile_presets ≡ ok ss)
        × (length ss ≡ (
            if leb max_profiles (length m.profile_presets)
            then max_profiles
            else length m.profile_presets))
        × (build_lcd_dataset_from_presets py u m.profile_presets
              (some m.lcd_settings)
              (pos schema_version)
            ≡ ok d)
        × (payload_text py d ≡ ok encoded)
        × (handle_client_text_command u true (catalog py u m) (some (dataset_text py u m)) payload
            ≡ some (ok (init_ack (named ss)) ∷ ok encoded ∷ ok (profile_catalog (named ss)) ∷ []))
  lcd_init-answered m payload h hs init =
      let (ss, made, count, all) =
        build_profile_summaries_from_presets-length py u m.profile_presets h in
      let (d, encoded, built, text_of, told) =
        dataset_text-ok m (All-IsPreset py u m.profile_presets h) hs in
      (
        ss,
        d,
        encoded,
        made,
        count,
        built,
        text_of,
        rw told
            (answers payload (catalog py u m) (ok encoded) (named ss) init (catalog-ok m ss made)),
      )
