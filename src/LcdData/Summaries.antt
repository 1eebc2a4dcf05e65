-- ===== src/LcdData/Summaries.antt =====
-- server/communication/data_structures_lcd_controller.py: what the profile summaries are.
use gaggia_esp_c3_mini_serve.Prelude.{
  ℕ, suc, ◌+◌, ◌-◌, ◌≤◌, ◌<◌, true, false, List, [], ◌∷◌, length, take, leb, Option, none, some,
  All, if◌then◌else◌, ◌≡◌, refl, sym, ap, ◌∙◌, arith, Bool-cases, inl, inr, length-take,
}
use gaggia_esp_c3_mini_serve.Python.Text.{Text, text, eq_text, Unicode}
use gaggia_esp_c3_mini_serve.Python.Integer.{pos, max_int}
use gaggia_esp_c3_mini_serve.Python.Object.{
  ok, >>=-ok, Numbers, Value, integer, floating, string, boolean, nothing, object, Dict, get, mem,
  to_int, to_float, or_value,
}
use gaggia_esp_c3_mini_serve.LcdData.Fields.{
  max_profiles, profile_name_length, profile_kind, profile_field_order, Kind, float_kind,
}
use gaggia_esp_c3_mini_serve.LcdData.Normalize.{normalize_float}
use gaggia_esp_c3_mini_serve.LcdData.Typed.{fits, convertible, normalize_float_lem}
use gaggia_esp_c3_mini_serve.LcdData.Loop.{get-some, or_value-convertible}
use gaggia_esp_c3_mini_serve.LcdData.Named.{IsProfile}
use gaggia_esp_c3_mini_serve.LcdData.Normal.{normalize_lcd_profile-IsProfile}
use gaggia_esp_c3_mini_serve.LcdData.Dataset.{normalize_lcd_profile}
use gaggia_esp_c3_mini_serve.LcdData.Encoding.{IsPreset}
use gaggia_esp_c3_mini_serve.LcdData.Summary.{
  ProfileSummary, target, summarize, summaries_from, build_profile_summaries_from_presets,
}

-- The values of a preset and its targets can be converted, and so can its setpoint, once it is an
-- integer: that is in the range of `float`.
pub record IsSource (py : Numbers) (u : Unicode) (p : Dict py.Float) : Type 0 where
  pub preset : IsPreset py p
  pub pressure : convertible py float_kind (p (text "target_pressure_bar")) ≡ true
  pub flow : convertible py float_kind (p (text "target_flow_ml_sec")) ≡ true
  pub setpoint :
      (index : ℕ) (d : Dict py.Float)
      → normalize_lcd_profile py u p index ≡ ok d
      → convertible py float_kind (d (text "setpoint")) ≡ true
  pub shot : convertible py float_kind (p (text "shot_target_g")) ≡ true

pub record IsSummary {F : Type 0} (s : ProfileSummary F) : Type 0 where
  pub id : max_int (pos 1) s.profile_id ≡ s.profile_id
  pub name : length s.profile_name ≤ profile_name_length

float_value :
    {F : Type 0} (o : Option (Value F))
    → fits float_kind o ≡ true
    → (x : F) × (o ≡ some (floating x))
float_value (some (floating x)) h = (x, refl)
float_value (some (boolean b)) h = cc
float_value (some (integer n)) h = cc
float_value (some (string s)) h = cc
float_value (some nothing) h = cc
float_value (some (object b t)) h = cc
float_value none h = cc

typed_field :
    {F : Type 0} (d : Dict F) (key : Text) (kind : Kind)
    → IsProfile d
    → (mem key profile_field_order ≡ true) × (profile_kind key ≡ kind)
    → fits kind (d key) ≡ true
typed_field d key kind is (m, k) = ap (λ kind. fits kind (d key)) (sym k) ∙ is.fields key m

pressure_field :
    (mem (text "tp_profiling_finish") profile_field_order ≡ true)
    × (profile_kind (text "tp_profiling_finish") ≡ float_kind)
unfolding mem profile_field_order profile_kind eq_text text
pressure_field = (refl, refl)

flow_field :
    (mem (text "mf_profile_end") profile_field_order ≡ true)
    × (profile_kind (text "mf_profile_end") ≡ float_kind)
unfolding mem profile_field_order profile_kind eq_text text
flow_field = (refl, refl)

shot_field :
    (mem (text "shot_stop_on_custom_weight") profile_field_order ≡ true)
    × (profile_kind (text "shot_stop_on_custom_weight") ≡ float_kind)
unfolding mem profile_field_order profile_kind eq_text text
shot_field = (refl, refl)

take-le : (n : ℕ) (s : Text) → length (take n s) ≤ n
take-le n s = omega (arith, length-take n s)

stop_count :
    (made n : ℕ)
    → made < max_profiles
    → leb max_profiles (made + 1) ≡ true
    → 1 ≡ (if leb (max_profiles - made) (suc n) then max_profiles - made else suc n)
stop_count made n h e = ground arith

more_count :
    (made n k : ℕ)
    → leb max_profiles (made + 1) ≡ false
    → k ≡ (if leb (max_profiles - (made + 1)) n then max_profiles - (made + 1) else n)
    → suc k ≡ (if leb (max_profiles - made) (suc n) then max_profiles - made else suc n)
more_count made n k e h = ground arith

module _ (py : Numbers) (u : Unicode) where
  target-ok :
      (p d : Dict py.Float) (key other : Text) (x : py.Float)
      → d other ≡ some (floating x)
      → convertible py float_kind (p key) ≡ true
      → (y : py.Float) × (target py u p key d other ≡ ok y)
  unfolding target get normalize_float to_float
  target-ok p d key other x at h =
      let (y, e) =
        normalize_float_lem py (or_value (p key) (floating x)) x
          (or_value-convertible py float_kind (p key) (floating x) refl h) in
      (y, rw at e)

  or_value-convertible_float :
      (o : Option (Value py.Float)) (default : py.Float)
      → convertible py float_kind o ≡ true
      → convertible py float_kind (some (or_value o (floating default))) ≡ true
  or_value-convertible_float none default h = refl
  or_value-convertible_float (some v) default h = h

  summarize-IsSummary :
      (p : Dict py.Float) (index made : ℕ)
      → IsSource py u p
      → (s : ProfileSummary py.Float) × (summarize py u p index made ≡ ok s) × IsSummary s
  unfolding summarize to_int
  summarize-IsSummary p index made src =
      let (d, normal, is) =
        normalize_lcd_profile-IsProfile py u p index src.preset.id src.preset.fields in
      let (n, at_id, least) = is.id in
      let (setpoint, at_setpoint) =
        normalize_float_lem py (get d (text "setpoint") (floating (py.decimal 930 0)))
          (py.decimal 930 0)
          (or_value-convertible_float (d (text "setpoint")) (py.decimal 930 0)
            (src.setpoint index d normal)) in
      let (x, at_x) =
        float_value (d (text "tp_profiling_finish"))
          (typed_field d (text "tp_profiling_finish") float_kind is pressure_field) in
      let (y, at_y) =
        float_value (d (text "mf_profile_end"))
          (typed_field d (text "mf_profile_end") float_kind is flow_field) in
      let (z, at_z) =
        float_value (d (text "shot_stop_on_custom_weight"))
          (typed_field d (text "shot_stop_on_custom_weight") float_kind is shot_field) in
      let (pressure, at_pressure) =
        target-ok p d (text "target_pressure_bar") (text "tp_profiling_finish") x at_x
          src.pressure in
      let (flow, at_flow) =
        target-ok p d (text "target_flow_ml_sec") (text "mf_profile_end") y at_y src.flow in
      let (shot, at_shot) =
        target-ok p d (text "shot_target_g") (text "shot_stop_on_custom_weight") z at_z src.shot in
      (
        _,
        >>=-ok _ d normal (
            >>=-ok _ n
              (ap (λ v. to_int py v)
                (get-some d (text "id") (integer n) (integer (pos (made + 1))) at_id))
              (>>=-ok _ setpoint at_setpoint (
                >>=-ok _ pressure at_pressure
                  (>>=-ok _ flow at_flow (>>=-ok _ shot at_shot refl))))),
        record { id = least; name = take-le _ _ },
      )

  summaries_from-length :
      (presets : List (Dict py.Float)) (index made : ℕ)
      → made < max_profiles
      → All (λ p. IsSource py u p) presets
      → (ss : List (ProfileSummary py.Float)) × (summaries_from py u presets index made ≡ ok ss)
        × (length ss ≡ (
            if leb (max_profiles - made) (length presets)
            then max_profiles - made
            else length presets))
        × All (λ s. IsSummary s) ss
  unfolding summaries_from
  summaries_from-length [] index made room src = ([], refl, ground arith, tt)
  summaries_from-length (p ∷ presets) index made room (h, hs) =
      let (s, at, is) = summarize-IsSummary p index made h in
      elim (Bool-cases (leb max_profiles (made + 1))) [
        | inl full ↦ (
          s ∷ [],
          >>=-ok _ s at (rw full refl),
          stop_count made (length presets) room full,
          (is, tt),
        )
        | inr left ↦
            let (ss, rest, count, all) =
              summaries_from-length presets (index + 1) (made + 1) (ground arith) hs in
            (
              s ∷ ss,
              >>=-ok _ s at (rw left (>>=-ok _ ss rest refl)),
              more_count made (length presets) (length ss) left count,
              (is, all),
            )
      ]

  -- The summaries of any presets whose values can be converted: one for each preset up to five, each with an id of at least 1 and a name of at most 25
  -- characters.
  pub build_profile_summaries_from_presets-length :
      (presets : List (Dict py.Float))
      → All (λ p. IsSource py u p) presets
      → (ss : List (ProfileSummary py.Float)) × (build_profile_summaries_from_presets py u presets
          ≡ ok ss)
        × (length ss ≡ (if leb max_profiles (length presets) then max_profiles else length presets))
        × All (λ s. IsSummary s) ss
  unfolding build_profile_summaries_from_presets
  build_profile_summaries_from_presets-length presets h =
      summaries_from-length presets 0 0 (omega arith) h
