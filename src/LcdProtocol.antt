-- ===== src/LcdProtocol.antt =====
-- server/communication/protocol_lcd_controller.py: `LCDControllerProtocolBridge`. The callbacks are
-- the arguments: the profiles and the dataset's text that the providers give, or their failure. The
-- payloads that the send hook is called with are the result, in order; each is made when the one
-- before it is sent, so that a failure stands in the place of the payload that it prevents.
use gaggia_esp_c3_mini_serve.Prelude.{
  Bool, not, Option, none, some, List, [], ◌∷◌, ◌++◌, length, if◌then◌else◌,
}
use gaggia_esp_c3_mini_serve.Python.Text.{
  Text, text, strip, lower, starts_with, is_empty, show, Unicode,
}
use gaggia_esp_c3_mini_serve.Python.Integer.{ℤ, show_int}
use gaggia_esp_c3_mini_serve.Python.Object.{Result, ok, ◌>>=◌}

join_items : List (ℤ × Text) → Text
join_items [] = []
join_items ((i, name) ∷ []) = show_int i ++ (text ":" ++ name)
join_items ((i, name) ∷ p ∷ ps) =
    show_int i ++ (text ":" ++ (name ++ (text "|" ++ join_items (p ∷ ps))))

-- `_emit_init_ack`
pub init_ack : List (ℤ × Text) → Text
init_ack profiles = text "LCDProtoAck;schema=brew_home_v1;profiles=" ++ show (length profiles)

-- `_emit_profile_catalog`
pub profile_catalog : List (ℤ × Text) → Text
unfolding join_items
profile_catalog profiles =
    text "LCDProtoProfileCatalog;count="
    ++ (show (length profiles) ++ (text ";items=" ++ join_items profiles))

-- `_emit_profile_dataset`; `none` is an empty dataset.
unfoldable pub profile_dataset : Option (Result Text) → Result Text
profile_dataset none = ok (text "LCDProtoProfileDataset;schema=0;count=0;settings=;profiles=")
profile_dataset (some encoded) = encoded

-- `handle_client_text_command`: the payloads sent, or `none` where it returns False.
unfoldable pub handle_client_text_command :
    Unicode
    → Bool
    → Result (List (ℤ × Text))
    → Option (Result Text)
    → Text
    → Option (List (Result Text))
unfolding init_ack profile_catalog profile_dataset
handle_client_text_command u initialized profiles dataset payload =
    let ack = profiles >>= (λ profiles. ok (init_ack profiles)) in
    let catalog = profiles >>= (λ profiles. ok (profile_catalog profiles)) in
    let normalized = lower u (strip payload) in
    if not initialized
    then none
    else if is_empty normalized
    then none
    else if starts_with normalized (text "lcdprotoinit")
    then some (ack ∷ profile_dataset dataset ∷ catalog ∷ [])
    else if starts_with normalized (text "lcdprotoprofiledatasetget")
    then some (profile_dataset dataset ∷ [])
    else if starts_with normalized (text "lcdprotoprofilecatalogget")
    then some (catalog ∷ [])
    else none
