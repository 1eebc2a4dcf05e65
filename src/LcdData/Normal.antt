-- ===== src/LcdData/Normal.antt =====
-- server/communication/data_structures_lcd_controller.py: every profile is normalized, once and for
-- all.
use gaggia_esp_c3_mini_serve.Prelude.{
  ℕ, ◌+◌, true, some, if◌then◌else◌, ◌≡◌, refl, sym, ap, ◌∙◌, Bool-cases, inl, inr,
}
use mathlib.Core.Path.{fun_ext}
use gaggia_esp_c3_mini_serve.Python.Text.{Text, text, eq_text, Unicode}
use gaggia_esp_c3_mini_serve.Python.Integer.{ℤ, pos, max_int, max_int-fixed}
use gaggia_esp_c3_mini_serve.Python.Object.{
  ok, >>=-ok, Numbers, integer, string, Dict, get, mem, to_int,
}
use gaggia_esp_c3_mini_serve.Python.Dict.{eq_text_sound, mem_cons, mem_neither}
use gaggia_esp_c3_mini_serve.LcdData.Fields.{name_kind, int_kind, profile_kind, profile_field_order}
use gaggia_esp_c3_mini_serve.LcdData.Normalize.{normalize_int, normalize_name, profile_name}
use gaggia_esp_c3_mini_serve.LcdData.Dataset.{normalize_lcd_profile}
use gaggia_esp_c3_mini_serve.LcdData.Typed.{
  fits, convertible, normalize_int_lem, normalize_name-fits, normalize_name-same, named_text,
}
use gaggia_esp_c3_mini_serve.LcdData.Loop.{
  Convertible, normalize_fields-IsFilled, normalize_fields-copies, get-some, or_value-convertible,
}
use gaggia_esp_c3_mini_serve.LcdData.Named.{
  IsProfile, renamed, name_is, renamed-IsReady, default_name, profile_name-is_empty, named_as,
  id_no_field, name_is_field, renamed-id, renamed-closed,
}

-- Every profile whose values can be converted is normalized, whatever it leaves out: to a dict with
-- an id of at least 1, a name of 1 to 25 characters and each field of the payload in its own type.
pub normalize_lcd_profile-IsProfile :
    (py : Numbers) (u : Unicode) (profile : Dict py.Float) (index : ℕ)
    → convertible py int_kind (profile (text "id")) ≡ true
    → Convertible py profile_kind profile_field_order profile
    → (d : Dict py.Float) × (normalize_lcd_profile py u profile index ≡ ok d) × IsProfile d
unfolding normalize_lcd_profile
normalize_lcd_profile-IsProfile py u profile index h hs =
    let (s, at_name) = default_name py index in
    let (n, reads) =
      normalize_int_lem py (get profile (text "id") (integer (pos (index + 1)))) (pos (index + 1)) (
        or_value-convertible py int_kind (profile (text "id")) (integer (pos (index + 1))) refl
          h) in
    let id = max_int (pos 1) n in
    let name = normalize_name py (get profile (text "name") (string s)) (profile_name id) in
    let f =
      normalize_name-fits py (get profile (text "name") (string s)) (profile_name id)
        (profile_name-is_empty id) in
    let (d, loops, filled) =
      normalize_fields-IsFilled py u profile_kind (λ key is_name. name_is) profile_field_order
        profile (renamed py index id name) (renamed-IsReady py index id name f) hs in
    (
      d,
      >>=-ok _ (renamed py index id name) (named_as py u profile index n s at_name reads) loops,
      record {
        id = (
          id,
          filled.others (text "id") id_no_field ∙ renamed-id py index id name,
          max_int-fixed (pos 1) n,
        );
        fields = filled.typed;
        closed = λ key m.
            filled.others key (mem_cons key (text "id") profile_field_order m).1
            ∙ renamed-closed py index id name key m;
      },
    )

name_field : {F : Type 0} (d : Dict F) → IsProfile d → fits name_kind (d (text "name")) ≡ true
name_field d p =
    ap (λ kind. fits kind (d (text "name"))) (sym name_is) ∙ p.fields (text "name") name_is_field

integer_read : (py : Numbers) (n default : ℤ) → normalize_int py (integer n) default ≡ ok n
unfolding normalize_int to_int
integer_read py n default = refl

rebuilt :
    (py : Numbers) (index : ℕ) (n : ℤ) (name : Text) (d : Dict py.Float)
    → IsProfile d
    → d (text "id") ≡ some (integer n)
    → (key : Text)
    → (if mem key profile_field_order then d key else renamed py index n name key) ≡ d key
rebuilt py index n name d p at_id key = elim (Bool-cases (mem key profile_field_order)) [
  | inl e ↦ rw e refl
  | inr e ↦ rw e (elim (Bool-cases (eq_text key (text "id"))) [
    | inl i ↦
        ap (λ k. renamed py index n name k) (eq_text_sound key (text "id") i)
        ∙ (renamed-id py index n name ∙ (sym at_id ∙ sym (ap d (eq_text_sound key (text "id") i))))
    | inr i ↦
        renamed-closed py index n name key (mem_neither key (text "id") profile_field_order i e)
        ∙ sym (p.closed key (mem_neither key (text "id") profile_field_order i e))
  ])
]

-- A normalized profile is normalized to itself, in whatever place of the dataset it stands.
pub normalize_lcd_profile-again :
    (py : Numbers) (u : Unicode) (d : Dict py.Float) (index : ℕ)
    → IsProfile d
    → normalize_lcd_profile py u d index ≡ ok d
unfolding normalize_lcd_profile
normalize_lcd_profile-again py u d index p =
    let (n, at_id, least) = p.id in
    let (s, at_name) = default_name py index in
    let (name, named, nonempty) = named_text (d (text "name")) (name_field d p) in
    let f = ap (λ o. fits name_kind o) (sym named) ∙ name_field d p in
    >>=-ok _ (renamed py index n name)
      (named_as py u d index n s at_name (
          ap (λ v. normalize_int py v (pos (index + 1))) (get-some d (text "id") _ _ at_id)
          ∙ integer_read py n (pos (index + 1)))
        ∙ ap ok (
            ap
              (λ id. renamed py index id (
                normalize_name py (get d (text "name") (string s))
                  (profile_name (max_int (pos 1) n))))
              least
            ∙ ap (λ name. renamed py index n name)
                (ap (λ v. normalize_name py v (profile_name (max_int (pos 1) n)))
                    (get-some d (text "name") (string name) (string s) named)
                  ∙ normalize_name-same py name (profile_name (max_int (pos 1) n)) f)))
      (normalize_fields-copies py u profile_kind (λ key is_name. name_is) profile_field_order d
          (renamed py index n name) (renamed-IsReady py index n name f) p.fields
        ∙ ap ok (fun_ext (λ key. rebuilt py index n name d p at_id key)))
