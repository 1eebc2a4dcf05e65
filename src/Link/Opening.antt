-- ===== src/Link/Opening.antt =====
-- server/sim/link_state_machine.py: opening the port with retries.
use gaggia_esp_c3_mini_serve.Prelude.{
  ℕ, zero, suc, ◌+◌, Bool, false, not, ◌&&◌, ◌||◌, Option, none, some, List, [], ◌∷◌, ltb,
  if◌then◌else◌,
}
use gaggia_esp_c3_mini_serve.Python.Text.{
  Text, text, strip, lower, contains, is_empty, or_else, Unicode,
}
use gaggia_esp_c3_mini_serve.Link.Interfaces.{Transport}

abbrev pub serial_open_retry_limit : ℕ
serial_open_retry_limit = 4

abbrev transient_tokens : List Text
transient_tokens =
    text "semaphore timeout"
    ∷ text "cannot configure port"
    ∷ text "access is denied"
    ∷ text "device not functioning"
    ∷ text "i/o error"
    ∷ text "resource busy"
    ∷ text "permission denied"
    ∷ text "clearcommerror failed"
    ∷ []

abbrev force_release_tokens : List Text
force_release_tokens =
    text "semaphore timeout"
    ∷ text "cannot configure port"
    ∷ text "access is denied"
    ∷ text "permission denied"
    ∷ text "resource busy"
    ∷ []

any_token : Text → List Text → Bool
any_token s [] = false
any_token s (token ∷ tokens) = contains s token || any_token s tokens

-- `_is_transient_serial_open_error`
unfoldable pub is_transient : Unicode → Text → Bool
unfolding any_token
is_transient u cause =
    let normalized = lower u (strip cause) in
    not (is_empty normalized) && any_token normalized transient_tokens

-- `_should_force_release_on_open_error`
unfoldable pub should_force_release : Unicode → Text → Bool
unfolding any_token
should_force_release u cause =
    let normalized = lower u (strip cause) in
    not (is_empty normalized) && any_token normalized force_release_tokens

-- What the loop returns: the attempt that opened the port, 0 if none did, and the last error.
pub record Opened (S : Type 0) : Type 0 where
  pub attempts : ℕ
  pub cause : Text
  pub serial : S

module _ (t : Transport) where
  -- The hard release that stands before a retry.
  unfoldable pub before_retry : Unicode → Text → t.State → t.State
  unfolding should_force_release
  before_retry u cause s = if should_force_release u cause then (t.force_release_port s).1 else s

  -- What follows an attempt; `again` is the next round of the loop.
  unfoldable pub after_open :
      Unicode → ℕ → (Text → t.State → Opened t.State) → Option Text × t.State → Opened t.State
  unfolding before_retry is_transient
  after_open u attempt again (none, s) = record { attempts = attempt; cause = []; serial = s }
  after_open u attempt again (some e, s) =
      let cause = or_else (strip e) (text "generic unknown failure") in
      if is_transient u cause && ltb attempt serial_open_retry_limit
      then again cause (before_retry u cause s)
      else record { attempts = 0; cause = cause; serial = s }

  -- `for attempt in range(1, SERIAL_OPEN_RETRY_LIMIT + 1)`, by the number of attempts left
  unfoldable pub open_loop : Unicode → ℕ → ℕ → Text → t.State → Opened t.State
  unfolding after_open
  open_loop u zero attempt last s = record { attempts = 0; cause = last; serial = s }
  open_loop u (suc left) attempt last s =
      after_open u attempt (open_loop u left (attempt + 1)) (t.open_port s)

  -- `_open_transport_with_retry`
  unfoldable pub open_with_retry : Unicode → t.State → Opened t.State
  unfolding open_loop
  open_with_retry u s = open_loop u serial_open_retry_limit 1 [] s
