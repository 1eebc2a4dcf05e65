-- ===== src/Downlink/Home.antt =====
-- server/sim/data_payload.py: the values of the Home page that `_generate_and_send` computes.
use gaggia_esp_c3_mini_serve.Prelude.{
  ℕ, Bool, false, List, [], ◌∷◌, length, get_or, leb, Option, none, some, if◌then◌else◌,
}
use gaggia_esp_c3_mini_serve.Python.Object.{Numbers, or_value}
use gaggia_esp_c3_mini_serve.LcdData.Summary.{max_float, min_float}
use gaggia_esp_c3_mini_serve.Downlink.State.{Home}
use gaggia_esp_c3_mini_serve.Downlink.Turn.{Turn, at_least}
use gaggia_esp_c3_mini_serve.Downlink.Channels.{Tables, Channels}

abbrev last_or {ℓ} : {A : Type ℓ} → List A → A → A
last_or [] d = d
last_or (x ∷ xs) d = last_or xs x

module _ (py : Numbers) where
  unfoldable pub nought : py.Float
  nought = py.decimal 0 0

  sum_from : py.Float → List py.Float → py.Float
  sum_from acc [] = acc
  sum_from acc (x ∷ xs) = sum_from (py.add acc x) xs

  none_below : py.Float → py.Float
  unfolding max_float nought
  none_below x = max_float py nought x

  -- `default_weight_g` and `default_shot_target_g` where there is no table of weights
  by_flow : Turn py.Float → Channels py.Float → py.Float × py.Float
  unfolding none_below sum_from nought
  by_flow t c =
      let average = none_below (py.div (sum_from nought c.flow) (py.decimal (length c.flow) 0)) in
      (
        none_below (py.mul average t.elapsed_sec),
        none_below (py.mul t.target_flow_ml_sec t.time_sec),
      )

  -- The two where there is one, `weights`
  by_table : ℕ → List py.Float → py.Float × py.Float → py.Float × py.Float
  unfolding none_below max_float nought
  by_table cursor [] flow = flow
  by_table cursor (w ∷ ws) flow = (
    none_below (get_or (w ∷ ws) (if leb cursor (length ws) then cursor else length ws) nought),
    max_float py flow.1 (last_or ws w),
  )

  weights_of : Option (Tables py.Float) → List py.Float
  weights_of none = []
  weights_of (some row) = row.weight_g

  -- The weight kept in step with the time of the brew
  in_step : Turn py.Float → py.Float × py.Float → py.Float × py.Float
  unfolding none_below min_float at_least nought
  in_step t (weight, shot) =
      let progress = none_below (min_float py (py.div t.elapsed_sec t.time_sec) (py.decimal 1 0)) in
      if py.less nought t.time_sec
      then (
        if at_least py t.elapsed_sec t.time_sec
            then shot
            else min_float py weight (py.mul shot progress),
        shot,
      )
      else (weight, shot)

  brew_weights : Turn py.Float → Channels py.Float → Option (Tables py.Float) → py.Float × py.Float
  unfolding in_step by_table by_flow weights_of
  brew_weights t c tables = in_step t (by_table c.cursor (weights_of tables) (by_flow t c))

  water_level : py.Float → py.Float
  unfolding none_below min_float
  water_level weight = none_below (
      min_float py (py.decimal 100 0) (py.sub (py.decimal 100 0) (py.mul weight (py.decimal 45 2))))

  -- `max(0.0, (time.monotonic() - home_started_monotonic) / 60.0)`
  uptime : py.Float → Turn py.Float → py.Float
  unfolding none_below
  uptime later t =
      or_value t.overrides.uptime_minutes
        (none_below (py.div (py.sub later t.home_started_monotonic) (py.decimal 60 0)))

  -- `default_temperature_c < (brew_target_temperature_c - 0.6)`
  warming : Turn py.Float → py.Float → Bool
  warming t temperature = py.less temperature (py.sub t.target_temperature_c (py.decimal 6 1))

  -- The values of the Home page in a brew: no override holds but those of shot target and steam.
  unfoldable pub brew_home :
      py.Float → Turn py.Float → Channels py.Float → Option (Tables py.Float) → Home py.Float
  unfolding brew_weights water_level uptime warming
  brew_home later t c tables =
      let temperature = last_or c.temperature t.target_temperature_c in
      let (weight, shot) = brew_weights t c tables in
      record {
        temperature_c = temperature;
        pressure_bar = last_or c.pressure (py.decimal 2 1);
        water_level_pct = water_level weight;
        weight_g = weight;
        shot_target_g = or_value t.overrides.shot_target_g shot;
        warmup_on = warming t temperature;
        steam_on = or_value t.overrides.steam false;
        uptime_minutes = uptime later t;
      }

  -- Those outside a brew, in which each override holds.
  unfoldable pub sine_home : py.Float → Turn py.Float → Home py.Float
  unfolding water_level uptime warming none_below nought
  sine_home later t =
      let temperature =
        py.add (py.sub t.target_temperature_c (py.decimal 1 0))
          (py.mul (py.decimal 15 2) (py.sin t.phase_rad)) in
      record {
        temperature_c = or_value t.overrides.temperature_c temperature;
        pressure_bar = py.decimal 2 1;
        water_level_pct = or_value t.overrides.water_level_pct (water_level nought);
        weight_g = or_value t.overrides.weight_g nought;
        shot_target_g =
            or_value t.overrides.shot_target_g
              (none_below (py.mul t.target_flow_ml_sec t.time_sec));
        warmup_on = or_value t.overrides.warmup (warming t temperature);
        steam_on = or_value t.overrides.steam false;
        uptime_minutes = uptime later t;
      }
