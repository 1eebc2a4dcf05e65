-- ===== src/LcdData/Loop.antt =====
-- server/communication/data_structures_lcd_controller.py: the loops over the fields of a profile and
-- of the settings.
use gaggia_esp_c3_mini_serve.Prelude.{
  true, false, Option, none, some, List, [], ◌∷◌, if◌then◌else◌, ◌≡◌, refl, sym, ap, ◌∙◌, arith,
  Bool-cases, inl, inr,
}
use mathlib.Core.Path.{fun_ext}
use gaggia_esp_c3_mini_serve.Python.Text.{Text, text, eq_text, Unicode}
use gaggia_esp_c3_mini_serve.Python.Object.{
  ok, Numbers, Value, boolean, integer, floating, string, Dict, get, or_value, or_raise, key_error,
  >>=-ok, item, set, mem, to_int, to_float,
}
use gaggia_esp_c3_mini_serve.Python.Dict.{eq_text_refl, eq_text_sound, set-same, set-other}
use gaggia_esp_c3_mini_serve.LcdData.Fields.{Kind, name_kind, bool_kind, float_kind, int_kind}
use gaggia_esp_c3_mini_serve.LcdData.Normalize.{
  normalize_bool, normalize_int, normalize_float, normalize_field, normalize_fields,
}
use gaggia_esp_c3_mini_serve.LcdData.Typed.{
  fits, ready, convertible, normalize_field_lem, named_text, normalize_name-same,
}

-- What the loop needs of the dict that it fills, for the fields `order` that are left.
pub record IsReady {F : Type 0} (kind : Text → Kind) (order : List Text) (d : Dict F) : Type 0 where
  pub named : (key : Text) → kind key ≡ name_kind → fits name_kind (d (text "name")) ≡ true
  pub fields : (key : Text) → mem key order ≡ true → ready (kind key) (d key) ≡ true

-- What it leaves of `d`: the fields `order` have their types, the others are as before.
pub record IsFilled {F : Type 0} (kind : Text → Kind) (order : List Text) (d d' : Dict F)
    : Type 0 where
  pub typed : (key : Text) → mem key order ≡ true → fits (kind key) (d' key) ≡ true
  pub others : (key : Text) → mem key order ≡ false → d' key ≡ d key

abbrev pub Convertible : (py : Numbers) → (Text → Kind) → List Text → Dict py.Float → Type 0
Convertible py kind order source =
    (key : Text) → mem key order ≡ true → convertible py (kind key) (source key) ≡ true

pub present :
    {F : Type 0} (kind : Kind) (o : Option (Value F))
    → ready kind o ≡ true
    → (v : Value F) × (o ≡ some v)
present kind (some v) h = (v, refl)
present name_kind none h = cc
present bool_kind none h = cc
present float_kind none h = cc
present int_kind none h = cc

pub fits-ready :
    {F : Type 0} (kind : Kind) (v : Value F)
    → fits kind (some v) ≡ true
    → ready kind (some v) ≡ true
fits-ready name_kind (string s) h = refl
fits-ready bool_kind (boolean b) h = refl
fits-ready float_kind (floating x) h = refl
fits-ready int_kind (integer n) h = refl
fits-ready _ _ h = cc

pub head_mem : (key : Text) (order : List Text) → mem key (key ∷ order) ≡ true
unfolding mem
head_mem key order = rw (eq_text_refl key)

pub tail_mem :
    (k key : Text) (order : List Text) → mem key order ≡ true → mem key (k ∷ order) ≡ true
unfolding mem
tail_mem k key order h = ground arith

pub set-IsReady :
    {F : Type 0} (kind : Text → Kind) (k : Text) (order : List Text) (d : Dict F) (v : Value F)
    → ((key : Text) → kind key ≡ name_kind → kind (text "name") ≡ name_kind)
    → IsReady kind (k ∷ order) d
    → fits (kind k) (some v) ≡ true
    → IsReady kind order (set k v d)
set-IsReady kind k order d v name_is r f = record {
  named = λ key is_name. elim (Bool-cases (eq_text (text "name") k)) [
    | inl e ↦
        ap (λ o. fits name_kind o) (set-same k (text "name") v d e)
        ∙ (ap (λ c. fits c (some v))
              (sym (name_is key is_name) ∙ ap kind (eq_text_sound (text "name") k e))
            ∙ f)
    | inr e ↦ ap (λ o. fits name_kind o) (set-other k (text "name") v d e) ∙ r.named key is_name
  ];
  fields = λ key m. elim (Bool-cases (eq_text key k)) [
    | inl e ↦
        ap (λ o. ready (kind key) o) (set-same k key v d e)
        ∙ (ap (λ name. ready (kind name) (some v)) (eq_text_sound key k e)
            ∙ fits-ready (kind k) v f)
    | inr e ↦
        ap (λ o. ready (kind key) o) (set-other k key v d e) ∙ r.fields key (tail_mem k key order m)
  ];
}

-- The source's value, or the default that is ready.
pub or_value-convertible :
    (py : Numbers) (kind : Kind) (o : Option (Value py.Float)) (old : Value py.Float)
    → ready kind (some old) ≡ true
    → convertible py kind o ≡ true
    → convertible py kind (some (or_value o old)) ≡ true
or_value-convertible py kind (some v) old r h = h
or_value-convertible py name_kind none old r h = refl
or_value-convertible py bool_kind none (boolean b) r h = refl
or_value-convertible py float_kind none (boolean b) r h = refl
or_value-convertible py float_kind none (floating x) r h = refl
or_value-convertible py int_kind none (integer n) r h = refl
or_value-convertible py _ none _ r h = cc

pub item-some : {F : Type 0} (k : Text) (d : Dict F) (v : Value F) → d k ≡ some v → item d k ≡ ok v
unfolding item
item-some k d v e = ap (λ o. or_raise key_error o) e

set-IsFilled :
    {F : Type 0} (kind : Text → Kind) (k : Text) (order : List Text) (d d' : Dict F) (v : Value F)
    → fits (kind k) (some v) ≡ true
    → IsFilled kind order (set k v d) d'
    → IsFilled kind (k ∷ order) d d'
unfolding mem
set-IsFilled kind k order d d' v f filled = record {
  typed = λ key m. elim (Bool-cases (mem key order)) [
    | inl e ↦ filled.typed key e
    | inr e ↦
        ap (λ o. fits (kind key) o) (filled.others key e ∙ set-same k key v d (grind arith))
        ∙ (ap (λ name. fits (kind name) (some v)) (eq_text_sound key k (grind arith)) ∙ f)
  ];
  others = λ key m. filled.others key (grind arith) ∙ set-other k key v d (grind arith);
}

module _ (py : Numbers) (u : Unicode) (kind : Text → Kind)
    (name_is : (key : Text) → kind key ≡ name_kind → kind (text "name") ≡ name_kind) where
  pub normalize_fields-IsFilled :
      (order : List Text) (source d : Dict py.Float)
      → IsReady kind order d
      → Convertible py kind order source
      → (d' : Dict py.Float) × (normalize_fields py u kind order source d ≡ ok d')
        × IsFilled kind order d d'
  unfolding normalize_fields
  normalize_fields-IsFilled [] source d r h =
      (d, refl, record { typed = λ key m. cc; others = λ key m. refl })
  normalize_fields-IsFilled (k ∷ order) source d r h =
      let (old, at) = present (kind k) (d k) (r.fields k (head_mem k order)) in
      let old_ready = ap (λ o. ready (kind k) o) (sym at) ∙ r.fields k (head_mem k order) in
      let (v, reads, f) =
        normalize_field_lem py u (kind k) d (get source k old) old (r.named k) old_ready
          (or_value-convertible py (kind k) (source k) old old_ready (h k (head_mem k order))) in
      let (d', loops, filled) =
        normalize_fields-IsFilled order source (set k v d)
          (set-IsReady kind k order d v name_is r f) (λ key m. h key (tail_mem k key order m)) in
      (
        d',
        >>=-ok _ old (item-some k d old at) (>>=-ok _ v reads loops),
        set-IsFilled kind k order d d' v f filled,
      )

pub get-some :
    {F : Type 0} (d : Dict F) (k : Text) (v old : Value F) → d k ≡ some v → get d k old ≡ v
unfolding get
get-some d k v old e = ap (λ o. or_value o old) e

fits_opt-ready :
    {F : Type 0} (kind : Kind) (o : Option (Value F)) → fits kind o ≡ true → ready kind o ≡ true
fits_opt-ready kind (some v) h = fits-ready kind v h
fits_opt-ready name_kind none h = cc
fits_opt-ready bool_kind none h = cc
fits_opt-ready float_kind none h = cc
fits_opt-ready int_kind none h = cc

copied_at :
    {F : Type 0} (k : Text) (order : List Text) (source d : Dict F) (v : Value F) (key : Text)
    → source k ≡ some v
    → (if mem key order then source key else set k v d key)
      ≡ (if mem key (k ∷ order) then source key else d key)
unfolding mem set
copied_at k order source d v key given = elim (Bool-cases (eq_text key k)) [
  | inl e ↦ rw e (elim (Bool-cases (mem key order)) [
    | inl m ↦ rw m refl
    | inr m ↦ rw m (sym (ap source (eq_text_sound key k e) ∙ given))
  ])
  | inr e ↦ rw e refl
]

-- The loop over values of the right types copies them.
copy_field :
    (py : Numbers) (u : Unicode) (kind : Kind) (d : Dict py.Float) (v old : Value py.Float)
    → (kind ≡ name_kind → fits name_kind (d (text "name")) ≡ true)
    → ready kind (some old) ≡ true
    → fits kind (some v) ≡ true
    → normalize_field py u kind d v old ≡ ok v
unfolding normalize_field item normalize_bool normalize_float normalize_int to_int to_float
copy_field py u name_kind d (string s) old named r f =
    let (held, e, nonempty) = named_text (d (text "name")) (named refl) in
    rw e (ap (λ t. ok (string t)) (normalize_name-same py s held f))
copy_field py u bool_kind d (boolean b) old named r f = refl
copy_field py u float_kind d (floating x) (boolean b) named r f = refl
copy_field py u float_kind d (floating x) (floating y) named r f = refl
copy_field py u int_kind d (integer n) (integer m) named r f = refl
copy_field py u _ d _ _ named r f = cc

module _ (py : Numbers) (u : Unicode) (kind : Text → Kind)
    (name_is : (key : Text) → kind key ≡ name_kind → kind (text "name") ≡ name_kind) where
  pub normalize_fields-copies :
      (order : List Text) (source d : Dict py.Float)
      → IsReady kind order d
      → ((key : Text) → mem key order ≡ true → fits (kind key) (source key) ≡ true)
      → normalize_fields py u kind order source d
        ≡ ok (λ key. if mem key order then source key else d key)
  unfolding normalize_fields
  normalize_fields-copies [] source d r h = refl
  normalize_fields-copies (k ∷ order) source d r h =
      let (old, at) = present (kind k) (d k) (r.fields k (head_mem k order)) in
      let old_ready = ap (λ o. ready (kind k) o) (sym at) ∙ r.fields k (head_mem k order) in
      let (v, given) =
        present (kind k) (source k) (fits_opt-ready (kind k) (source k) (h k (head_mem k order))) in
      let f = ap (λ o. fits (kind k) o) (sym given) ∙ h k (head_mem k order) in
      let copies =
        normalize_fields-copies order source (set k v d) (set-IsReady kind k order d v name_is r f)
          (λ key m. h key (tail_mem k key order m)) in
      >>=-ok _ old (item-some k d old at) (
        >>=-ok _ v
          (ap (λ raw. normalize_field py u (kind k) d raw old) (get-some source k v old given)
            ∙ copy_field py u (kind k) d v old (r.named k) old_ready f)
          (copies ∙ ap ok (fun_ext (λ key. copied_at k order source d v key given))))
