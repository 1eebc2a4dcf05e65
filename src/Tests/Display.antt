-- ===== src/Tests/Display.antt =====
-- server/sim/link_state_machine.py: what the display is answered, with six presets.
use gaggia_esp_c3_mini_serve.Prelude.{List, [], ◌∷◌, length, true, some, ◌≡◌, refl}
use gaggia_esp_c3_mini_serve.Python.Text.{Text, text, strip, lower, starts_with, ascii_only}
use gaggia_esp_c3_mini_serve.Python.Object.{ok}
use gaggia_esp_c3_mini_serve.Python.Integer.{pos}
use gaggia_esp_c3_mini_serve.LcdData.Fields.{schema_version}
use gaggia_esp_c3_mini_serve.LcdData.Payload
use gaggia_esp_c3_mini_serve.LcdData.Payload.{Dataset, build_lcd_dataset_from_presets}
use gaggia_esp_c3_mini_serve.LcdData.Summary.{ProfileSummary, build_profile_summaries_from_presets}
use gaggia_esp_c3_mini_serve.LcdProtocol.{init_ack, profile_catalog, handle_client_text_command}
use gaggia_esp_c3_mini_serve.Link.Providers.{lcd_init-answered}
use gaggia_esp_c3_mini_serve.Downlink.State.{Manager}
use gaggia_esp_c3_mini_serve.Link.PayloadManager.{named, catalog, dataset_text}
use gaggia_esp_c3_mini_serve.Tests.Downlink.{brewing}
use gaggia_esp_c3_mini_serve.Tests.LcdData.{presets, settings, presets-IsSource, settings_read}
use gaggia_esp_c3_mini_serve.Tests.Numbers.{Milli, thousandths}

-- The manager with six presets, asked `LCDProtoInit`
abbrev stocked : Manager Milli
stocked = record brewing { profile_presets = presets; lcd_settings = settings }

abbrev asked : Text
unfolding text
asked = text "LCDProtoInit"

lcd_init-answered_example :
    (ss : List (ProfileSummary Milli)) × (d : Dataset Milli) × (encoded : Text)
    × (build_profile_summaries_from_presets thousandths ascii_only presets ≡ ok ss)
    × (length ss ≡ 5)
    × (build_lcd_dataset_from_presets thousandths ascii_only presets
          (some settings)
          (pos schema_version)
        ≡ ok d)
    × (Payload.payload_text thousandths d ≡ ok encoded)
    × (handle_client_text_command ascii_only true
          (catalog thousandths ascii_only stocked)
          (some (dataset_text thousandths ascii_only stocked))
          asked
        ≡ some (ok (init_ack (named ss)) ∷ ok encoded ∷ ok (profile_catalog (named ss)) ∷ []))
unfolding asked text lower strip starts_with
lcd_init-answered_example =
    lcd_init-answered thousandths ascii_only stocked asked presets-IsSource settings_read refl
