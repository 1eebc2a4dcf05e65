-- ===== src/LcdData/Settings.antt =====
-- server/communication/data_structures_lcd_controller.py: the settings are normalized, once and for
-- all, and name one of the five profiles.
use gaggia_esp_c3_mini_serve.Prelude.{
  ℕ, ◌≤◌, ◌≢◌, leb, Bool, true, false, Option, none, some, map, if◌then◌else◌, ◌≡◌, refl, sym, ap,
  ◌∙◌, arith, Bool-cases, inl, inr,
}
use mathlib.Core.Path.{fun_ext}
use gaggia_esp_c3_mini_serve.Python.Text.{Text, text, eq_text, Unicode}
use gaggia_esp_c3_mini_serve.Python.Integer.{ℤ, pos, negsuc, max_int, min_int}
use gaggia_esp_c3_mini_serve.Python.Object.{
  ok, >>=-ok, Numbers, Value, boolean, integer, floating, string, nothing, object, Dict, dict, set,
  mem, to_int,
}
use gaggia_esp_c3_mini_serve.Python.Dict.{
  eq_text_refl, eq_text_sound, set-same, set-other, all_of, all_of-mem, dict-absent, mem-differs,
}
use gaggia_esp_c3_mini_serve.LcdData.Fields.{
  name_kind, bool_kind, float_kind, int_kind, settings_kind, settings_field_order,
  settings_bool_fields, settings_float_fields, max_profiles,
}
use gaggia_esp_c3_mini_serve.LcdData.Defaults.{default_settings, default_settings_items}
use gaggia_esp_c3_mini_serve.LcdData.Dataset.{normalize_lcd_settings, or_empty}
use gaggia_esp_c3_mini_serve.LcdData.Typed.{fits, ready}
use gaggia_esp_c3_mini_serve.LcdData.Loop.{
  IsReady, IsFilled, Convertible, normalize_fields-IsFilled, normalize_fields-copies, item-some,
}

-- `max(1, min(LCD_CONTROLLER_MAX_PROFILES, n))`
abbrev clamped : ℤ → ℤ
clamped n = max_int (pos 1) (min_int (pos max_profiles) n)

-- Each field has its type, the active profile is one of the five, and there is no other field.
pub record IsSettings {F : Type 0} (d : Dict F) : Type 0 where
  pub fields :
      (key : Text) → mem key settings_field_order ≡ true → fits (settings_kind key) (d key) ≡ true
  pub active :
      (n : ℕ) × (d (text "active_profile") ≡ some (integer (pos n))) × (1 ≤ n) × (n ≤ max_profiles)
  pub closed : (key : Text) → mem key settings_field_order ≡ false → d key ≡ none

settings-no_name : (key : Text) → settings_kind key ≢ name_kind
unfolding settings_kind
settings-no_name key = cases (mem key settings_bool_fields) (mem key settings_float_fields)
  where
    cases : (a b : Bool) → (if a then bool_kind else if b then float_kind else int_kind) ≢ name_kind
    cases true b h = cc
    cases false true h = cc
    cases false false h = cc

default-ready :
    (py : Numbers)
    → all_of (λ key. ready (settings_kind key) (default_settings py key)) settings_field_order
      ≡ true
unfolding all_of settings_field_order settings_kind default_settings default_settings_items dict
    text eq_text mem
default-ready py = refl

names_of_default :
    (py : Numbers) → map (λ i. i.0) (default_settings_items py) ≡ settings_field_order
unfolding default_settings_items settings_field_order
names_of_default py = refl

default-absent :
    (py : Numbers) (key : Text)
    → mem key settings_field_order ≡ false
    → default_settings py key ≡ none
unfolding default_settings
default-absent py key m =
    dict-absent (default_settings_items py) key
      (ap (λ names. mem key names) (names_of_default py) ∙ m)

default-IsReady : (py : Numbers) → IsReady settings_kind settings_field_order (default_settings py)
default-IsReady py = record {
  named = λ key is_name. elim (settings-no_name key is_name) [ ];
  fields = all_of-mem _ settings_field_order (default-ready py);
}

active_field : mem (text "active_profile") settings_field_order ≡ true
unfolding mem settings_field_order eq_text text
active_field = refl

active_int : settings_kind (text "active_profile") ≡ int_kind
unfolding settings_kind mem settings_bool_fields settings_float_fields eq_text text
active_int = refl

clamped-range : (n : ℤ) → (m : ℕ) × (clamped n ≡ pos m) × (1 ≤ m) × (m ≤ max_profiles)
unfolding max_int min_int
clamped-range (pos n) = elim (Bool-cases (leb 5 n)) [
  | inl e ↦ (5, rw e refl, omega arith, omega arith)
  | inr e ↦ elim (Bool-cases (leb n 1)) [
    | inl e' ↦ (1, rw (e, e') refl, omega arith, omega arith)
    | inr e' ↦ (n, rw (e, e') refl, ground arith, ground arith)
  ]
]
clamped-range (negsuc n) = (1, refl, omega arith, omega arith)

clamped-same : (m : ℕ) → 1 ≤ m → m ≤ max_profiles → clamped (pos m) ≡ pos m
unfolding max_int min_int
clamped-same m h h' = ground arith

int_value :
    {F : Type 0} (o : Option (Value F)) → fits int_kind o ≡ true → (n : ℤ) × (o ≡ some (integer n))
int_value (some (integer n)) h = (n, refl)
int_value (some (boolean b)) h = cc
int_value (some (floating x)) h = cc
int_value (some (string s)) h = cc
int_value (some nothing) h = cc
int_value (some (object b t)) h = cc
int_value none h = cc

clamp_set :
    {F : Type 0} (d d' : Dict F) (n : ℤ)
    → IsFilled settings_kind settings_field_order d d'
    → ((key : Text) → mem key settings_field_order ≡ false → d key ≡ none)
    → IsSettings (set (text "active_profile") (integer (clamped n)) d')
clamp_set d d' n filled absent =
    let name = text "active_profile" in
    let v = integer (clamped n) in
    let (m, e, low, high) = clamped-range n in
    record {
      fields = λ key mk. elim (Bool-cases (eq_text key name)) [
        | inl is ↦
            ap (λ o. fits (settings_kind key) o) (set-same name key v d' is)
            ∙ (ap (λ k. fits (settings_kind k) (some v)) (eq_text_sound key name is)
                ∙ ap (λ kind. fits kind (some v)) active_int)
        | inr is ↦
            ap (λ o. fits (settings_kind key) o) (set-other name key v d' is) ∙ filled.typed key mk
      ];
      active = (
        m,
        set-same name name v d' (eq_text_refl name) ∙ ap (λ i. some (integer i)) e,
        low,
        high,
      );
      closed = λ key mk.
          set-other name key v d' (mem-differs key name settings_field_order mk active_field)
          ∙ (filled.others key mk ∙ absent key mk);
    }

-- Settings whose values can be converted are normalized, also where there are none: each field has
-- the type that its place in the payload demands and the active profile is from 1 to 5.
pub normalize_lcd_settings-IsSettings :
    (py : Numbers) (u : Unicode) (settings : Option (Dict py.Float))
    → Convertible py settings_kind settings_field_order (or_empty py u settings)
    → (d : Dict py.Float) × (normalize_lcd_settings py u settings ≡ ok d) × IsSettings d
unfolding normalize_lcd_settings to_int
normalize_lcd_settings-IsSettings py u settings h =
    let (d, loops, filled) =
      normalize_fields-IsFilled py u settings_kind
        (λ key is_name. elim (settings-no_name key is_name) [ ]) settings_field_order
        (or_empty py u settings) (default_settings py) (default-IsReady py) h in
    let (n, at) = int_value (d (text "active_profile")) (
      ap (λ kind. fits kind (d (text "active_profile"))) (sym active_int)
      ∙ filled.typed (text "active_profile") active_field) in
    (
      set (text "active_profile") (integer (clamped n)) d,
      >>=-ok _ d loops
          (>>=-ok _ (integer n) (item-some (text "active_profile") d (integer n) at) refl),
      clamp_set (default_settings py) d n filled (default-absent py),
    )

refilled :
    (py : Numbers) (d : Dict py.Float)
    → IsSettings d
    → (key : Text)
    → (if mem key settings_field_order then d key else default_settings py key) ≡ d key
refilled py d p key = elim (Bool-cases (mem key settings_field_order)) [
  | inl e ↦ rw e refl
  | inr e ↦ rw e (default-absent py key e ∙ sym (p.closed key e))
]

set-again :
    {F : Type 0} (name : Text) (v : Value F) (d : Dict F)
    → d name ≡ some v
    → (key : Text) → set name v d key ≡ d key
set-again name v d at key = elim (Bool-cases (eq_text key name)) [
  | inl e ↦ set-same name key v d e ∙ sym (ap d (eq_text_sound key name e) ∙ at)
  | inr e ↦ set-other name key v d e
]

-- Normalized settings are normalized to themselves.
pub normalize_lcd_settings-again :
    (py : Numbers) (u : Unicode) (d : Dict py.Float)
    → IsSettings d
    → normalize_lcd_settings py u (some d) ≡ ok d
unfolding normalize_lcd_settings or_empty to_int
normalize_lcd_settings-again py u d p =
    let name = text "active_profile" in
    let (n, at, low, high) = p.active in
    >>=-ok _ d
      (normalize_fields-copies py u settings_kind
          (λ key is_name. elim (settings-no_name key is_name) [ ]) settings_field_order d
          (default_settings py) (default-IsReady py) p.fields
        ∙ ap ok (fun_ext (λ key. refilled py d p key)))
      (>>=-ok _ (integer (pos n)) (item-some name d (integer (pos n)) at) (
        ap (λ i. ok (set name (integer i) d)) (clamped-same n low high)
        ∙ ap ok (fun_ext (λ key. set-again name (integer (pos n)) d at key))))
