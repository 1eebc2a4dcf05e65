-- ===== src/Downlink/Channels.antt =====
-- server/sim/data_payload.py: the samples of a packet, `_build_brew_channels` and the part of
-- `_generate_and_send` that reads the profile's tables.
use gaggia_esp_c3_mini_serve.Prelude.{
  ℕ, zero, suc, ◌-◌, ◌==◌, List, [], ◌∷◌, ◌++◌, length, get_or, map, replicate, take, drop, leb,
  Option, none, some, if◌then◌else◌,
}
use gaggia_esp_c3_mini_serve.Python.Integer.{ℤ, pos, negsuc}
use gaggia_esp_c3_mini_serve.Python.Object.{Result, ok, ◌>>=◌, Numbers}
use gaggia_esp_c3_mini_serve.LcdData.Summary.{max_float, min_float}
use gaggia_esp_c3_mini_serve.Downlink.Packet.{data_size_floats}
use gaggia_esp_c3_mini_serve.Downlink.Turn.{Turn, at_least}

abbrev pub brew_samples_per_channel : ℕ
brew_samples_per_channel = 5

-- A row of `PROFILE_SAMPLE_LIBRARY`, the tables of one profile; `dt` is its sampling period.
pub record Tables (F : Type 0) : Type 0 where
  pub pressure_bar : List F
  pub flow_ml_s : List F
  pub temperature_c : List F
  pub weight_g : List F

pub record Library (F : Type 0) : Type 0 where
  pub dt : F
  pub tables : ℤ → Option (Tables F)

-- The samples of the four channels; `cursor` is `sample_cursor`.
pub record Channels (F : Type 0) : Type 0 where
  pub pressure : List F
  pub flow : List F
  pub temperature : List F
  pub weight : List F
  pub cursor : ℕ

abbrev pub min_nat : ℕ → ℕ → ℕ
min_nat a b = if leb a b then a else b

-- `range(n)` from `i` on
unfoldable pub range_from : ℕ → ℕ → List ℕ
range_from i zero = []
range_from i (suc n) = i ∷ range_from (suc i) n

unfoldable pub sample_count : {F : Type 0} → Tables F → ℕ
sample_count t =
    min_nat (min_nat (length t.pressure_bar) (length t.flow_ml_s))
      (min_nat (length t.temperature_c) (length t.weight_g))

-- `max(0, min(cursor - (4 - i), count - 1))`
unfoldable pub history_index : ℕ → ℕ → ℕ → ℕ
history_index cursor count i = min_nat (cursor - (brew_samples_per_channel - 1 - i)) (count - 1)

-- `int(x)` of a number that is not below 0
abbrev pub natural : ℤ → ℕ
natural (pos n) = n
natural (negsuc n) = 0

module _ (py : Numbers) where
  unfoldable pub history : List py.Float → ℕ → ℕ → List py.Float
  unfolding history_index range_from
  history table cursor count =
      map (λ i. get_or table (history_index cursor count i) (py.decimal 0 0))
        (range_from 0 brew_samples_per_channel)

  unfoldable pub sample_cursor : Turn py.Float → py.Float → ℕ → Result ℕ
  unfolding at_least max_float
  sample_cursor t dt count = if at_least py t.elapsed_sec t.time_sec then ok (count - 1) else do
    n ← py.truncated (max_float py (py.decimal 0 0) (py.div t.elapsed_sec dt))
    ok (min_nat (natural n) (count - 1))

  unfoldable pub table_channels :
      Turn py.Float → py.Float → Tables py.Float → Result (Channels py.Float)
  unfolding sample_cursor history sample_count
  table_channels t dt tables = do
    let count = sample_count tables
    cursor ← sample_cursor t dt count
    ok (record {
      pressure = history tables.pressure_bar cursor count;
      flow = history tables.flow_ml_s cursor count;
      temperature = history tables.temperature_c cursor count;
      weight = history tables.weight_g cursor count;
      cursor = cursor;
    })

  progress : Turn py.Float → py.Float → ℕ → py.Float
  unfolding max_float min_float
  progress t sample_dt_sec i = max_float py (py.decimal 0 0) (
      min_float py
        (py.div (py.add t.elapsed_sec (py.mul sample_dt_sec (py.decimal i 0)))
          (max_float py (py.decimal 1 3) t.time_sec))
        (py.decimal 1 0))

  -- `_build_brew_channels`, and the weights that its caller adds
  unfoldable pub built_channels : Turn py.Float → py.Float → Channels py.Float
  unfolding progress range_from max_float
  built_channels t packet_interval_s =
      let sample_dt_sec = py.div packet_interval_s (py.decimal brew_samples_per_channel 0) in
      let temp_start =
        max_float py (py.decimal 20 0) (py.sub t.target_temperature_c (py.decimal 8 0)) in
      let shot_target_estimate_g =
        max_float py (py.decimal 0 0) (py.mul t.target_flow_ml_sec t.time_sec) in
      let samples = range_from 0 brew_samples_per_channel in
      let at = progress t sample_dt_sec in
      let none_below = max_float py (py.decimal 0 0) in
      record {
        pressure = map (λ i. none_below (py.mul t.target_pressure_bar (at i))) samples;
        flow = map (λ i. none_below (py.mul t.target_flow_ml_sec (at i))) samples;
        temperature =
            map (λ i. py.add temp_start (py.mul (py.sub t.target_temperature_c temp_start) (at i)))
              samples;
        weight = map (λ i. none_below (py.mul shot_target_estimate_g (at i))) samples;
        cursor = brew_samples_per_channel - 1;
      }

  -- The tables of the profile, if it has all four; the ramp otherwise.
  unfoldable pub brew_channels :
      Library py.Float → Turn py.Float → py.Float → Result (Channels py.Float)
  unfolding table_channels built_channels sample_count
  brew_channels library t packet_interval_s = channels_of (library.tables t.profile_id)
    where
      channels_of : Option (Tables py.Float) → Result (Channels py.Float)
      channels_of none = ok (built_channels t packet_interval_s)
      channels_of (some tables) =
          if sample_count tables == 0
          then ok (built_channels t packet_interval_s)
          else table_channels t library.dt tables

  -- The first twenty floats in brew mode, with the eighty zeros behind them
  unfoldable pub brew_floats : Channels py.Float → List py.Float
  brew_floats c =
      c.pressure
      ++ c.flow
      ++ c.temperature
      ++ c.weight
      ++ replicate (data_size_floats - 20) (py.decimal 0 0)

  unfoldable pub sine_floats : Turn py.Float → List py.Float
  unfolding range_from
  sine_floats t =
      map
        (λ i.
          py.mul t.amplitude (py.sin (py.add t.phase_rad (py.mul t.phase_step (py.decimal i 0)))))
        (range_from 0 data_size_floats)

  -- Outside brew mode the temperature slots hold the Home temperature and the weight slots -1.0.
  unfoldable pub mark_home : py.Float → List py.Float → List py.Float
  mark_home temperature floats =
      take 10 floats
      ++ replicate brew_samples_per_channel temperature
      ++ replicate brew_samples_per_channel (py.sub (py.decimal 0 0) (py.decimal 1 0))
      ++ drop 20 floats
