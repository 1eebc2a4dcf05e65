-- ===== src/Downlink/Choice.antt =====
-- server/sim/data_payload.py: which preset `_resolve_profile_locked` chooses, and which samples of its
-- tables a packet reads.
use gaggia_esp_c3_mini_serve.Prelude.{
  ℕ, ◌<◌, Bool, true, false, List, [], ◌∷◌, length, Option, if◌then◌else◌, ◌≡◌, refl, ap, ◌∙◌,
  arith, Bool-cases, inl, inr, ◌⊎◌,
}
use gaggia_esp_c3_mini_serve.Python.Integer.{ℤ, pos, negsuc, eq_int}
use gaggia_esp_c3_mini_serve.Python.Object.{ok, >>=-ok, Numbers, Dict, or_value}
use gaggia_esp_c3_mini_serve.Downlink.State.{Manager}
use gaggia_esp_c3_mini_serve.Downlink.Profiles.{profile_id, find_profile, resolve_profile}
use gaggia_esp_c3_mini_serve.Downlink.Channels.{Tables, sample_count, history_index}

-- The ids of the presets can be read as integers.
abbrev pub AreRead : (py : Numbers) → List (Dict py.Float) → List ℤ → Type 0
AreRead py [] [] = Unit
AreRead py (p ∷ ps) (id ∷ ids) = (profile_id py p ≡ ok id) × AreRead py ps ids
AreRead py _ _ = ⊥

abbrev pub first_with : {A : Type 0} → ℤ → A → List A → List ℤ → A
first_with desired first (p ∷ ps) (id ∷ ids) =
    if eq_int id desired then p else first_with desired first ps ids
first_with desired first _ _ = first

find_profile-first :
    (py : Numbers) (desired : ℤ) (first : Dict py.Float) (ps : List (Dict py.Float)) (ids : List ℤ)
    → AreRead py ps ids
    → find_profile py desired first ps ≡ ok (first_with desired first ps ids)
unfolding find_profile
find_profile-first py desired first [] [] h = refl
find_profile-first py desired first [] (id ∷ ids) h = elim h [ ]
find_profile-first py desired first (p ∷ ps) [] h = elim h [ ]
find_profile-first py desired first (p ∷ ps) (id ∷ ids) (at, h) =
    >>=-ok _ id at (elim (Bool-cases (eq_int id desired)) [
      | inl e ↦ rw e refl
      | inr e ↦ rw e (find_profile-first py desired first ps ids h)
    ])

abbrev holds_id : ℤ → List ℤ → Bool
holds_id desired [] = false
holds_id desired (id ∷ ids) = if eq_int id desired then true else holds_id desired ids

eq_int_sound : (a b : ℤ) → eq_int a b ≡ true → a ≡ b
eq_int_sound (pos a) (pos b) h = ap pos (ground arith)
eq_int_sound (pos a) (negsuc b) h = cc
eq_int_sound (negsuc a) (pos b) h = cc
eq_int_sound (negsuc a) (negsuc b) h = ap negsuc (ground arith)

first_with-id :
    (py : Numbers) (desired : ℤ) (first : Dict py.Float) (ps : List (Dict py.Float)) (ids : List ℤ)
    → AreRead py ps ids
    → ((holds_id desired ids ≡ true)
        × (profile_id py (first_with desired first ps ids) ≡ ok desired))
      ⊎ ((holds_id desired ids ≡ false) × (first_with desired first ps ids ≡ first))
first_with-id py desired first [] [] h = inr (refl, refl)
first_with-id py desired first [] (id ∷ ids) h = elim h [ ]
first_with-id py desired first (p ∷ ps) [] h = elim h [ ]
first_with-id py desired first (p ∷ ps) (id ∷ ids) (at, h) = elim (Bool-cases (eq_int id desired)) [
  | inl e ↦ rw e (inl (refl, at ∙ ap ok (eq_int_sound id desired e)))
  | inr e ↦ rw e (first_with-id py desired first ps ids h)
]

-- The choice of a profile: with presets whose ids can be read, it is one with the id that is asked
-- for, or with the selected id where none is, if there is one with it; otherwise the first preset.
pub resolve_profile-id :
    (py : Numbers) (requested : Option ℤ) (m : Manager py.Float) (first : Dict py.Float)
    (presets : List (Dict py.Float)) (ids : List ℤ)
    → m.profile_presets ≡ first ∷ presets
    → AreRead py (first ∷ presets) ids
    → let desired = or_value requested m.selected_profile_id in
      (p : Dict py.Float) × (resolve_profile py requested m ≡ ok p)
      × (((holds_id desired ids ≡ true) × (profile_id py p ≡ ok desired))
          ⊎ ((holds_id desired ids ≡ false) × (p ≡ first)))
unfolding resolve_profile
resolve_profile-id py requested m first presets ids e h =
    let desired = or_value requested m.selected_profile_id in
    (
      first_with desired first (first ∷ presets) ids,
      rw e (find_profile-first py desired first (first ∷ presets) ids h),
      first_with-id py desired first (first ∷ presets) ids h,
    )

-- The samples that a packet reads lie in all four tables, wherever the cursor stands and whichever of
-- the five samples is read, if each of the tables has a value.
pub history_index-lt :
    {F : Type 0} (t : Tables F) (cursor i : ℕ)
    → 0 < sample_count t
    → (history_index cursor (sample_count t) i < length t.pressure_bar)
      × (history_index cursor (sample_count t) i < length t.flow_ml_s)
      × (history_index cursor (sample_count t) i < length t.temperature_c)
      × (history_index cursor (sample_count t) i < length t.weight_g)
unfolding history_index sample_count
history_index-lt t cursor i h = ground arith
