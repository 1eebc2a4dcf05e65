-- ===== src/LcdData/Slots.antt =====
-- server/communication/data_structures_lcd_controller.py: the integers of the packet keep the live
-- values in their ranges.
use gaggia_esp_c3_mini_serve.Prelude.{
  ℕ, ◌*◌, ◌≤◌, ◌^◌, true, List, length, get_or, ◌≡◌, refl, arith, Bool-cases, inl, inr,
}
use gaggia_esp_c3_mini_serve.Python.Integer.{ℤ, pos}
use gaggia_esp_c3_mini_serve.Python.Object.{Result, ok, >>=-ok, Numbers}
use gaggia_esp_c3_mini_serve.LcdData.Summary.{
  BrewHomeState, max_float, min_float, scaled, scaled_within, brew_home_state_to_legacy_int_slots,
}

-- A product of two whole numbers is exact as long as it and both numbers are at most 2 ^ 53, and the
-- rounding of a product keeps the order below such a bound: both hold of the 64-bit `float`.
pub record IsRounding (py : Numbers) : Type 0 where
  pub between :
      (limit factor : ℕ) (x : py.Float)
      → limit ≤ 2 ^ 53
      → factor ≤ 2 ^ 53
      → limit * factor ≤ 2 ^ 53
      → py.less (py.decimal 0 0) x ≡ true
      → py.less x (py.decimal limit 0) ≡ true
      → (n : ℕ) × (py.rounded (py.mul x (py.decimal factor 0)) ≡ ok (pos n)) × (n ≤ limit * factor)
  pub exact :
      (a factor : ℕ)
      → a ≤ 2 ^ 53
      → factor ≤ 2 ^ 53
      → a * factor ≤ 2 ^ 53
      → py.rounded (py.mul (py.decimal a 0) (py.decimal factor 0)) ≡ ok (pos (a * factor))

abbrev Within : ℕ → Result ℤ → Type 0
Within bound r = (n : ℕ) × (r ≡ ok (pos n)) × (n ≤ bound)

module _ (py : Numbers) (rounding : IsRounding py) where
  -- Whatever the value is, a NaN or an infinity included, it is written within its limit.
  scaled_within-lt :
      (limit factor : ℕ) (x : py.Float)
      → limit ≤ 2 ^ 53
      → factor ≤ 2 ^ 53
      → limit * factor ≤ 2 ^ 53
      → Within (limit * factor) (scaled_within py limit x factor)
  unfolding scaled_within scaled max_float min_float
  scaled_within-lt limit factor x a b small = elim (Bool-cases (py.less x (py.decimal limit 0))) [
    | inl below ↦ elim (Bool-cases (py.less (py.decimal 0 0) x)) [
      | inl above ↦
          let (n, e, h) = rounding.between limit factor x a b small above below in
          (n, rw (below, above) e, h)
      | inr above ↦ (
        0 * factor,
        rw (below, above) (rounding.exact 0 factor (omega arith) b (omega arith)),
        omega arith,
      )
    ]
    | inr below ↦ elim (Bool-cases (py.less (py.decimal 0 0) (py.decimal limit 0))) [
      | inl above ↦
          (limit * factor, rw (below, above) (rounding.exact limit factor a b small), omega arith)
      | inr above ↦ (
        0 * factor,
        rw (below, above) (rounding.exact 0 factor (omega arith) b (omega arith)),
        omega arith,
      )
    ]
  ]

  -- If the three target values can be rounded, 20 integers are written, and those of the live values
  -- are in the ranges that the display expects: a water level of at most 100.0 %, a weight and a
  -- shot target of at most 200.00 g, an uptime of at most 100000.0 minutes and a pressure of at most
  -- 20.000 bar, also where the value is a NaN, an infinity or below 0.
  pub brew_home_state_to_legacy_int_slots-le :
      (state : BrewHomeState py.Float) (pressure flow temperature : ℤ)
      → scaled py state.target_pressure_bar 1000 ≡ ok pressure
      → scaled py state.target_flow_ml_s 1000 ≡ ok flow
      → scaled py state.target_temperature_c 1000 ≡ ok temperature
      → (slots : List ℤ) × (water weight uptime shot_target live_pressure : ℕ)
        × (brew_home_state_to_legacy_int_slots py state ≡ ok slots)
        × (length slots ≡ 20)
        × (get_or slots 7 (pos 0) ≡ pos water)
        × (water ≤ 1000)
        × (get_or slots 8 (pos 0) ≡ pos weight)
        × (weight ≤ 20000)
        × (get_or slots 11 (pos 0) ≡ pos uptime)
        × (uptime ≤ 1000000)
        × (get_or slots 12 (pos 0) ≡ pos shot_target)
        × (shot_target ≤ 20000)
        × (get_or slots 13 (pos 0) ≡ pos live_pressure)
        × (live_pressure ≤ 20000)
  unfolding brew_home_state_to_legacy_int_slots
  brew_home_state_to_legacy_int_slots-le state pressure flow temperature p f t =
      let (water, at_water, le_water) =
        scaled_within-lt 100 10 state.live_water_level_pct (omega arith) (omega arith)
          (omega arith) in
      let (weight, at_weight, le_weight) =
        scaled_within-lt 200 100 state.live_weight_g (omega arith) (omega arith) (omega arith) in
      let (uptime, at_uptime, le_uptime) =
        scaled_within-lt 100000 10 state.uptime_minutes (omega arith) (omega arith) (omega arith) in
      let (shot, at_shot, le_shot) =
        scaled_within-lt 200 100 state.shot_target_preview_g (omega arith) (omega arith)
          (omega arith) in
      let (live, at_live, le_live) =
        scaled_within-lt 20 1000 state.live_pressure_bar (omega arith) (omega arith)
          (omega arith) in
      (
        _,
        water,
        weight,
        uptime,
        shot,
        live,
        >>=-ok _ pressure p (
            >>=-ok _ flow f (
              >>=-ok _ temperature t (
                >>=-ok _ (pos water) at_water (
                  >>=-ok _ (pos weight) at_weight (
                    >>=-ok _ (pos uptime) at_uptime
                      (>>=-ok _ (pos shot) at_shot (>>=-ok _ (pos live) at_live refl))))))),
        refl,
        refl,
        le_water,
        refl,
        le_weight,
        refl,
        le_uptime,
        refl,
        le_shot,
        refl,
        le_live,
      )
