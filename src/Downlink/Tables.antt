-- ===== src/Downlink/Tables.antt =====
-- server/sim/data_payload.py: the tables of samples that are built for a profile have one length, so
-- that a packet of a brew reads inside of them.
use gaggia_esp_c3_mini_serve.Prelude.{
  ℕ, zero, suc, ◌≤◌, ◌<◌, List, [], ◌∷◌, map, length, ◌≡◌, refl, sym, ap, ◌∙◌, arith, Bool-cases,
  inl, inr,
}
use mathlib.Core.Path.{subst}
use gaggia_esp_c3_mini_serve.Python.Text.{text}
use gaggia_esp_c3_mini_serve.Python.Object.{ok, >>=-inv, ok_eq, Numbers, Dict, floating}
use gaggia_esp_c3_mini_serve.LcdData.Summary.{max_float}
use gaggia_esp_c3_mini_serve.Downlink.Profiles.{float_of}
use gaggia_esp_c3_mini_serve.Downlink.Channels.{
  Tables, range_from, sample_count, natural, history_index,
}
use gaggia_esp_c3_mini_serve.Downlink.Choice.{history_index-lt}
use gaggia_esp_c3_mini_serve.Downlink.Samples.{
  Curves, set_last, last_of, sample_dt, weights, all_weights, scaled_weights, sample_tables,
  at_least_two, build_profile_samples,
}

length-set_last {ℓ} : {A : Type ℓ} (x : A) (xs : List A) → length (set_last x xs) ≡ length xs
length-set_last x [] = refl
length-set_last x (y ∷ []) = refl
length-set_last x (y ∷ (z ∷ ys)) = ap suc (length-set_last x (z ∷ ys))

length-map {ℓ κ} :
    {A : Type ℓ} {B : Type κ} (f : A → B) (xs : List A) → length (map f xs) ≡ length xs
length-map f [] = refl
length-map f (x ∷ xs) = ap suc (length-map f xs)

length-range_from : (i n : ℕ) → length (range_from i n) ≡ n
unfolding range_from
length-range_from i zero = refl
length-range_from i (suc n) = ap suc (length-range_from (suc i) n)

module _ (py : Numbers) where
  length-weights :
      (total : py.Float) (fs : List py.Float) → length (weights py total fs) ≡ length fs
  unfolding weights
  length-weights total [] = refl
  length-weights total (f ∷ fs) =
      ap suc (length-weights (py.add total (py.mul f (sample_dt py))) fs)

  length-all_weights : (fs : List py.Float) → length (all_weights py fs) ≡ length fs
  unfolding all_weights
  length-all_weights [] = refl
  length-all_weights (f ∷ fs) = ap suc (length-weights _ fs)

  length-scaled_weights :
      (shot : py.Float) (ws : List py.Float) → length (scaled_weights py shot ws) ≡ length ws
  unfolding scaled_weights
  length-scaled_weights shot ws =
      elim (Bool-cases (py.less (py.decimal 0 0) (last_of (py.decimal 0 0) ws))) [
        | inl e ↦ rw e (length-set_last _ _ ∙ length-map _ ws)
        | inr e ↦ rw e refl
      ]

-- All four tables have `n` samples.
pub record HaveLength {F : Type 0} (n : ℕ) (t : Tables F) : Type 0 where
  pub pressure : length t.pressure_bar ≡ n
  pub flow : length t.flow_ml_s ≡ n
  pub temperature : length t.temperature_c ≡ n
  pub weight : length t.weight_g ≡ n

module _ (py : Numbers) where
  sampled : (f : ℕ → py.Float) (n : ℕ) → length (map f (range_from 0 n)) ≡ n
  sampled f n = length-map f (range_from 0 n) ∙ length-range_from 0 n

  sample_tables-HaveLength :
      (n : ℕ) (pressure flow temperature shot : py.Float) (curves : Curves py.Float)
      → HaveLength n (sample_tables py n pressure flow temperature shot curves)
  unfolding sample_tables
  sample_tables-HaveLength n pressure flow temperature shot curves = record {
    pressure = length-set_last _ _ ∙ sampled _ n;
    flow = length-set_last _ _ ∙ sampled _ n;
    temperature = length-set_last _ _ ∙ sampled _ n;
    weight = length-scaled_weights py shot _ ∙ (length-all_weights py _ ∙ sampled _ n);
  }

  sample_count-HaveLength : (n : ℕ) (t : Tables py.Float) → HaveLength n t → sample_count t ≡ n
  unfolding sample_count
  sample_count-HaveLength n t h = ground arith

  at_least_two-le : (n : ℕ) → 2 ≤ at_least_two py n
  at_least_two-le n = ground arith

  -- The tables that are built for a profile have at least two samples, all four the same number, and
  -- each sample of a packet, wherever the cursor stands, is read inside of them.
  pub build_profile_samples-HaveLength :
      (profile : Dict py.Float) (curves : Curves py.Float) (t : Tables py.Float) (cursor i : ℕ)
      → build_profile_samples py profile curves ≡ ok t
      → (n : ℕ) × (2 ≤ n) × HaveLength n t × (history_index cursor (sample_count t) i < n)
  unfolding build_profile_samples
  build_profile_samples-HaveLength profile curves t cursor i e =
      let (time, _, e1) =
        >>=-inv (float_of py profile (text "brew_time_sec") (floating (py.decimal 30 0))) _ e in
      let (count, _, e2) =
        >>=-inv (py.rounded (py.div (max_float py (sample_dt py) time) (sample_dt py))) _ e1 in
      let (pressure, _, e3) =
        >>=-inv (float_of py profile (text "target_pressure_bar") (floating (py.decimal 9 0))) _
          e2 in
      let (flow, _, e4) =
        >>=-inv (float_of py profile (text "target_flow_ml_sec") (floating (py.decimal 22 1))) _
          e3 in
      let (temperature, _, e5) =
        >>=-inv (float_of py profile (text "target_temperature_c") (floating (py.decimal 93 0))) _
          e4 in
      let (shot, _, e6) =
        >>=-inv (float_of py profile (text "shot_target_g") (floating (py.decimal 36 0))) _ e5 in
      let n = at_least_two py (natural count) in
      let h =
        subst (λ t. HaveLength n t) (ok_eq e6)
          (sample_tables-HaveLength n pressure flow temperature shot curves) in
      let two = at_least_two-le (natural count) in
      (
        n,
        two,
        h,
        subst (λ k. history_index cursor (sample_count t) i < k) h.pressure
            (history_index-lt t cursor i
              (subst (λ k. 0 < k) (sym (sample_count-HaveLength n t h)) (omega (arith, two)))).0,
      )
