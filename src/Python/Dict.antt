-- ===== src/Python/Dict.antt =====
-- Lookups in the dicts of Python/Object.antt.
use gaggia_esp_c3_mini_serve.Prelude.{
  Bool, true, false, ◌&&◌, none, some, List, [], ◌∷◌, map, ◌≡◌, refl, sym, ap, arith, Bool-cases,
  inl, inr,
}
use gaggia_esp_c3_mini_serve.Python.Text.{Text, eq_text}
use gaggia_esp_c3_mini_serve.Python.Object.{Value, Dict, dict, set, mem}

pub eq_text_refl : (s : Text) → eq_text s s ≡ true
unfolding eq_text
eq_text_refl [] = refl
eq_text_refl (c ∷ s) = grind (arith, eq_text_refl s)

pub eq_text_sound : (s t : Text) → eq_text s t ≡ true → s ≡ t
unfolding eq_text
eq_text_sound [] [] h = refl
eq_text_sound [] (d ∷ t) h = cc
eq_text_sound (c ∷ s) [] h = cc
eq_text_sound (c ∷ s) (d ∷ t) h = grind (arith, eq_text_sound s t)

unfoldable pub all_of : (Text → Bool) → List Text → Bool
all_of p [] = true
all_of p (key ∷ keys) = p key && all_of p keys

pub all_of-mem :
    (p : Text → Bool) (keys : List Text)
    → all_of p keys ≡ true
    → (key : Text) → mem key keys ≡ true
    → p key ≡ true
unfolding all_of mem
all_of-mem p [] h key m = cc
all_of-mem p (k ∷ keys) h key m = elim (Bool-cases (eq_text key k)) [
  | inl e ↦ grind (arith, eq_text_sound key k)
  | inr e ↦ all_of-mem p keys (grind arith) key (grind arith)
]

pub mem_cons :
    (key k : Text) (keys : List Text)
    → mem key (k ∷ keys) ≡ false
    → (eq_text key k ≡ false) × (mem key keys ≡ false)
unfolding mem
mem_cons key k keys h = ground arith

pub mem_neither :
    (key k : Text) (keys : List Text)
    → eq_text key k ≡ false
    → mem key keys ≡ false
    → mem key (k ∷ keys) ≡ false
unfolding mem
mem_neither key k keys h m = rw (h, m)

pub mem-differs :
    (key k : Text) (keys : List Text)
    → mem key keys ≡ false
    → mem k keys ≡ true
    → eq_text key k ≡ false
mem-differs key k keys h m = elim (Bool-cases (eq_text key k)) [
  | inl e ↦ cc (sym h, ap (λ key. mem key keys) (eq_text_sound key k e), m)
  | inr e ↦ e
]

module _ {F : Type 0} where
  pub dict-absent :
      (items : List (Text × Value F)) (key : Text)
      → mem key (map (λ i. i.0) items) ≡ false
      → dict items key ≡ none
  unfolding dict mem
  dict-absent [] key h = refl
  dict-absent ((name, v) ∷ items) key h = grind (arith, dict-absent items key)

  pub set-same :
      (name key : Text) (v : Value F) (d : Dict F)
      → eq_text key name ≡ true
      → set name v d key ≡ some v
  unfolding set
  set-same name key v d h = rw h

  pub set-other :
      (name key : Text) (v : Value F) (d : Dict F)
      → eq_text key name ≡ false
      → set name v d key ≡ d key
  unfolding set
  set-other name key v d h = rw h
