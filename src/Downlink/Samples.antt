-- ===== src/Downlink/Samples.antt =====
-- server/sim/data_payload.py: `_piecewise_curve_value` and `_build_profile_sample_library`, the tables
-- of samples of one profile. The three curves of a profile, lists of pairs, are an argument.
use gaggia_esp_c3_mini_serve.Prelude.{
  ℕ, ◌+◌, ◌-◌, Bool, ◌||◌, List, [], ◌∷◌, map, if◌then◌else◌, leb,
}
use gaggia_esp_c3_mini_serve.Python.Text.{text}
use gaggia_esp_c3_mini_serve.Python.Object.{Result, ok, ◌>>=◌, Numbers, Dict, floating}
use gaggia_esp_c3_mini_serve.LcdData.Summary.{max_float, min_float}
use gaggia_esp_c3_mini_serve.Downlink.Profiles.{float_of}
use gaggia_esp_c3_mini_serve.Downlink.Channels.{Tables, range_from, natural}

abbrev Curve : Type 0 → Type 0
Curve F = List (F × F)

pub record Curves (F : Type 0) : Type 0 where
  pub pressure : Curve F
  pub flow : Curve F
  pub temperature : Curve F

-- `xs[-1] = x`, of a list that is not empty
abbrev pub set_last {ℓ} : {A : Type ℓ} → A → List A → List A
set_last x [] = []
set_last x (y ∷ []) = x ∷ []
set_last x (y ∷ (z ∷ ys)) = y ∷ set_last x (z ∷ ys)

abbrev pub last_of {ℓ} : {A : Type ℓ} → A → List A → A
last_of d [] = d
last_of d (x ∷ xs) = last_of x xs

module _ (py : Numbers) where
  -- `BREW_PROFILE_SAMPLE_DT_SEC`
  unfoldable pub sample_dt : py.Float
  sample_dt = py.div (py.div (py.decimal 100 0) (py.decimal 1000 0)) (py.decimal 5 0)

  -- `x <= y`
  at_most : py.Float → py.Float → Bool
  at_most x y = py.less x y || py.equal x y

  -- The segments behind the point (x0, y0)
  on_segments : py.Float → py.Float → py.Float → Curve py.Float → py.Float
  unfolding at_most
  on_segments p x0 y0 [] = y0
  on_segments p x0 y0 ((x1, y1) ∷ points) =
      let later = on_segments p x1 y1 points in
      let span = py.sub x1 x0 in
      if at_most p x1
      then (if at_most span (py.decimal 1 6)
          then y1
          else py.add y0 (py.mul (py.sub y1 y0) (py.div (py.sub p x0) span)))
      else later

  unfoldable pub piecewise_curve_value : py.Float → Curve py.Float → py.Float
  unfolding on_segments at_most max_float min_float
  piecewise_curve_value progress [] = py.decimal 0 0
  piecewise_curve_value progress ((x, y) ∷ points) =
      let p = max_float py (py.decimal 0 0) (min_float py (py.decimal 1 0) progress) in
      let behind = on_segments p x y points in if at_most p x then y else behind

  -- `max(0.0, x)`
  above_zero : py.Float → py.Float
  unfolding max_float
  above_zero x = max_float py (py.decimal 0 0) x

  -- The running weight, from the flow of each sample but the first
  unfoldable pub weights : py.Float → List py.Float → List py.Float
  unfolding above_zero sample_dt
  weights total [] = []
  weights total (flow ∷ flows) =
      let total = py.add total (py.mul flow sample_dt) in above_zero total ∷ weights total flows

  unfoldable pub all_weights : List py.Float → List py.Float
  unfolding weights above_zero
  all_weights [] = []
  all_weights (flow ∷ flows) = above_zero (py.decimal 0 0) ∷ weights (py.decimal 0 0) flows

  -- The weights brought to the shot target
  unfoldable pub scaled_weights : py.Float → List py.Float → List py.Float
  unfolding above_zero
  scaled_weights shot ws =
      let total = last_of (py.decimal 0 0) ws in
      if py.less (py.decimal 0 0) total
      then (let scale = py.div (above_zero shot) total in
          set_last (above_zero shot) (map (λ w. above_zero (py.mul w scale)) ws))
      else ws

  -- The tables of `count` samples, from the targets of a profile
  unfoldable pub sample_tables :
      ℕ → py.Float → py.Float → py.Float → py.Float → Curves py.Float → Tables py.Float
  unfolding range_from piecewise_curve_value above_zero all_weights scaled_weights max_float
      min_float
  sample_tables count pressure flow temperature shot curves =
      let at = λ (i : ℕ). py.div (py.decimal i 0) (py.decimal (count - 1) 0) in
      let samples = range_from 0 count in
      let start = max_float py (py.decimal 20 0) (py.sub temperature (py.decimal 8 0)) in
      let flows =
        map (λ i. above_zero (py.mul flow (above_zero (piecewise_curve_value (at i) curves.flow))))
          samples in
      record {
        pressure_bar = set_last (above_zero pressure) (
            map
              (λ i.
                above_zero
                  (py.mul pressure (above_zero (piecewise_curve_value (at i) curves.pressure))))
              samples);
        flow_ml_s = set_last (above_zero (last_of (py.decimal 0 0) flows)) flows;
        temperature_c = set_last temperature (
            map
              (λ i. py.add start (
                py.mul (py.sub temperature start) (
                  above_zero (
                    min_float py (py.decimal 1 0)
                      (piecewise_curve_value (at i) curves.temperature)))))
              samples);
        weight_g = scaled_weights shot (all_weights flows);
      }

  -- `max(2, n + 1)`
  abbrev pub at_least_two : ℕ → ℕ
  at_least_two n = if leb 2 (n + 1) then n + 1 else 2

  -- One row of the library
  unfoldable pub build_profile_samples : Dict py.Float → Curves py.Float → Result (Tables py.Float)
  unfolding float_of sample_tables sample_dt max_float
  build_profile_samples profile curves = do
    time ← float_of py profile (text "brew_time_sec") (floating (py.decimal 30 0))
    count ← py.rounded (py.div (max_float py sample_dt time) sample_dt)
    pressure ← float_of py profile (text "target_pressure_bar") (floating (py.decimal 9 0))
    flow ← float_of py profile (text "target_flow_ml_sec") (floating (py.decimal 22 1))
    temperature ← float_of py profile (text "target_temperature_c") (floating (py.decimal 93 0))
    shot ← float_of py profile (text "shot_target_g") (floating (py.decimal 36 0))
    ok (sample_tables (at_least_two (natural count)) pressure flow temperature shot curves)
