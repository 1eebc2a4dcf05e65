-- ===== src/LcdData/Named.antt =====
-- server/communication/data_structures_lcd_controller.py: the profile from which the loop of
-- `normalize_lcd_profile` starts, and what a normalized profile is.
use gaggia_esp_c3_mini_serve.Prelude.{ℕ, ◌+◌, true, false, none, some, ◌∷◌, map, ◌≡◌, refl, ap, ◌∙◌}
use gaggia_esp_c3_mini_serve.Python.Text.{Text, text, eq_text, is_empty, Unicode}
use gaggia_esp_c3_mini_serve.Python.Integer.{ℤ, pos, max_int}
use gaggia_esp_c3_mini_serve.Python.Object.{
  ok, >>=-ok, Numbers, integer, string, Dict, dict, get, set, mem, to_int,
}
use gaggia_esp_c3_mini_serve.Python.Dict.{
  eq_text_refl, set-same, set-other, all_of, all_of-mem, dict-absent, mem_cons, mem-differs,
}
use gaggia_esp_c3_mini_serve.LcdData.Fields.{name_kind, profile_kind, profile_field_order}
use gaggia_esp_c3_mini_serve.LcdData.Normalize.{normalize_int, normalize_name, profile_name}
use gaggia_esp_c3_mini_serve.LcdData.Defaults.{default_profile, default_profile_items}
use gaggia_esp_c3_mini_serve.LcdData.Dataset.{named_profile}
use gaggia_esp_c3_mini_serve.LcdData.Typed.{fits, ready}
use gaggia_esp_c3_mini_serve.LcdData.Loop.{IsReady, item-some}

-- The id is an integer of at least 1, each field of the payload has its type, and there is no other.
pub record IsProfile {F : Type 0} (d : Dict F) : Type 0 where
  pub id : (n : ℤ) × (d (text "id") ≡ some (integer n)) × (max_int (pos 1) n ≡ n)
  pub fields :
      (key : Text) → mem key profile_field_order ≡ true → fits (profile_kind key) (d key) ≡ true
  pub closed : (key : Text) → mem key (text "id" ∷ profile_field_order) ≡ false → d key ≡ none

-- The profile that the loop starts from.
abbrev pub renamed : (py : Numbers) → ℕ → ℤ → Text → Dict py.Float
renamed py index id name =
    set (text "name") (string name) (set (text "id") (integer id) (default_profile py index))

pub name_is : profile_kind (text "name") ≡ name_kind
unfolding profile_kind text eq_text
name_is = refl

renamed-ready :
    (py : Numbers) (index : ℕ) (id : ℤ) (name : Text)
    → all_of (λ key. ready (profile_kind key) (renamed py index id name key)) profile_field_order
      ≡ true
unfolding all_of profile_field_order profile_kind set default_profile default_profile_items dict
    text eq_text mem
renamed-ready py index id name = refl

names_of_default :
    (py : Numbers) (index : ℕ)
    → map (λ i. i.0) (default_profile_items py index) ≡ text "id" ∷ profile_field_order
unfolding default_profile_items profile_field_order
names_of_default py index = refl

pub default_id :
    (py : Numbers) (index : ℕ)
    → default_profile py index (text "id") ≡ some (integer (pos (index + 1)))
unfolding default_profile default_profile_items dict text eq_text
default_id py index = refl

pub default_name :
    (py : Numbers) (index : ℕ)
    → (s : Text) × (default_profile py index (text "name") ≡ some (string s))
unfolding default_profile default_profile_items dict text eq_text
default_name py index = (_, refl)

pub profile_name-is_empty : (n : ℤ) → is_empty (profile_name n) ≡ false
unfolding profile_name text
profile_name-is_empty n = refl

-- `named_profile` at an id and a name that are read.
pub named_as :
    (py : Numbers) (u : Unicode) (profile : Dict py.Float) (index : ℕ) (n : ℤ) (s : Text)
    → default_profile py index (text "name") ≡ some (string s)
    → normalize_int py (get profile (text "id") (integer (pos (index + 1)))) (pos (index + 1))
      ≡ ok n
    → named_profile py u profile index
      ≡ ok (
          renamed py index (max_int (pos 1) n) (
            normalize_name py
              (get profile (text "name") (string s))
              (profile_name (max_int (pos 1) n))))
unfolding named_profile to_int
named_as py u profile index n s at_name reads =
    >>=-ok _ (integer (pos (index + 1)))
      (item-some (text "id") (default_profile py index) _ (default_id py index))
      (>>=-ok _ n reads
        (>>=-ok _ (string s) (item-some (text "name") (default_profile py index) _ at_name) refl))

pub renamed-IsReady :
    (py : Numbers) (index : ℕ) (id : ℤ) (name : Text)
    → fits {F = py.Float} name_kind (some (string name)) ≡ true
    → IsReady profile_kind profile_field_order (renamed py index id name)
renamed-IsReady py index id name f = record {
  named = λ key is_name.
      ap (λ o. fits name_kind o)
        (set-same (text "name") (text "name") (string name)
          (set (text "id") (integer id) (default_profile py index)) (eq_text_refl (text "name")))
      ∙ f;
  fields = all_of-mem _ profile_field_order (renamed-ready py index id name);
}

pub id_no_field : mem (text "id") profile_field_order ≡ false
unfolding mem profile_field_order eq_text text
id_no_field = refl

pub renamed-id :
    (py : Numbers) (index : ℕ) (id : ℤ) (name : Text)
    → renamed py index id name (text "id") ≡ some (integer id)
unfolding set eq_text text
renamed-id py index id name = refl

pub name_is_field : mem (text "name") profile_field_order ≡ true
unfolding mem profile_field_order eq_text text
name_is_field = refl

-- No key but the 56 is in the dict.
pub renamed-closed :
    (py : Numbers) (index : ℕ) (id : ℤ) (name key : Text)
    → mem key (text "id" ∷ profile_field_order) ≡ false
    → renamed py index id name key ≡ none
unfolding default_profile
renamed-closed py index id name key m =
    let (not_id, no_field) = mem_cons key (text "id") profile_field_order m in
    let not_name = mem-differs key (text "name") profile_field_order no_field name_is_field in
    set-other (text "name") key (string name)
      (set (text "id") (integer id) (default_profile py index)) not_name
    ∙ (set-other (text "id") key (integer id) (default_profile py index) not_id
        ∙ dict-absent (default_profile_items py index) key
            (ap (λ names. mem key names) (names_of_default py index) ∙ m))
