-- ===== src/Downlink/Steps.antt =====
-- server/sim/data_payload.py: what `_generate_and_send` does, call by call, and what happens where a
-- brew is started while the last packet of another is on its way.
use gaggia_esp_c3_mini_serve.Prelude.{
  ℕ, ◌+◌, ◌%◌, ◌^◌, Bool, true, false, not, ◌&&◌, ◌||◌, Option, none, some, ◌≡◌, refl, sym, ap, ◌∙◌,
  arith, Bool-cases, if_true, if_false, inl, inr, ◌⊎◌,
}
use mathlib.Core.Path.{subst}
use gaggia_esp_c3_mini_serve.Prelude.Bytes.{Bytes}
use gaggia_esp_c3_mini_serve.Python.Text.{text}
use gaggia_esp_c3_mini_serve.Python.Integer.{ℤ}
use gaggia_esp_c3_mini_serve.Python.Object.{Result, ok, err, >>=-inv, ok_eq, Numbers}
use gaggia_esp_c3_mini_serve.Downlink.State.{Manager, Home}
use gaggia_esp_c3_mini_serve.Downlink.Profiles.{start_brew, resolve_and_apply}
use gaggia_esp_c3_mini_serve.Downlink.Turn.{Turn, take_turn, brew_turn, sine_turn, after_send}
use gaggia_esp_c3_mini_serve.Downlink.Channels.{Library}
use gaggia_esp_c3_mini_serve.Downlink.Generate.{
  generate_and_send, hand_over, use_turn, build_packet, Sent,
}

module _ (py : Numbers) where
  start_brew-active :
      (now : py.Float) (id : Option ℤ) (interval : Option ℕ) (m m' : Manager py.Float)
      → start_brew py now id interval m ≡ ok m'
      → (m'.brew.active ≡ true) × (m'.simulation_enabled ≡ false)
  unfolding start_brew
  start_brew-active now id interval m m' e =
      let (n, at, f) = >>=-inv (resolve_and_apply py id m) _ e in
      (ap (λ m. m.brew.active) (sym (ok_eq f)), ap (λ m. m.simulation_enabled) (sym (ok_eq f)))

  abbrev ModeOf : Option (Turn py.Float) → Type 0
  ModeOf none = Unit
  ModeOf (some t) = t.brew_complete_after_send ≡ true → t.brew_mode ≡ true

  take_turn-ModeOf :
      (now interval : py.Float) (m : Manager py.Float) → ModeOf (take_turn py now interval m).0
  unfolding take_turn brew_turn sine_turn
  take_turn-ModeOf now interval m =
      elim (Bool-cases (not m.callback_set || (not m.simulation_enabled && not m.brew.active))) [
        | inl e ↦ rw e tt
        | inr e ↦ elim (Bool-cases m.brew.active) [
          | inl a ↦ rw e (rw a (λ c. refl))
          | inr a ↦ rw e (rw a (λ c. cc))
        ]
      ]

  take_turn_complete :
      (now interval : py.Float) (m n : Manager py.Float) (t : Turn py.Float)
      → take_turn py now interval m ≡ (some t, n)
      → t.brew_complete_after_send ≡ true
      → t.brew_mode ≡ true
  take_turn_complete now interval m n t e c =
      subst (λ r. ModeOf r.0) e (take_turn-ModeOf now interval m) c

  -- A brew that is started while the packet that completes another one is being sent is ended by it:
  -- once the callback has returned, the new brew is not active and the event is BrewComplete.
  pub after_send-ends_new_brew :
      (t : Turn py.Float) (h : Home py.Float) (before now period : py.Float) (id : Option ℤ)
      (interval : Option ℕ) (m n m' : Manager py.Float)
      → take_turn py before period m ≡ (some t, n)
      → t.brew_complete_after_send ≡ true
      → start_brew py now id interval n ≡ ok m'
      → (m'.brew.active ≡ true)
        × ((after_send py t h m').brew.active ≡ false)
        × ((after_send py t h m').last_control_event ≡ text "BrewComplete")
  unfolding after_send
  after_send-ends_new_brew t h before now period id interval m n m' turn c e =
      let b = take_turn_complete before period m n t turn c in
      let a = (start_brew-active now id interval n m' e).0 in
      (a, rw (b, c, a) refl, rw (b, c, a) refl)

  -- One of the modes is on, and there is a callback.
  abbrev has_work : Manager py.Float → Bool
  has_work m = m.callback_set && (m.simulation_enabled || m.brew.active)

  take_turn-cases :
      (now interval : py.Float) (m : Manager py.Float)
      → ((has_work m ≡ false) × (take_turn py now interval m ≡ (none, m)))
        ⊎ ((t : Turn py.Float) × (n : Manager py.Float) × (has_work m ≡ true)
            × (take_turn py now interval m ≡ (some t, n))
            × (n.dl_seq ≡ (m.dl_seq + 1) % 2 ^ 32)
            × (n.dl_tx_count ≡ m.dl_tx_count))
  unfolding take_turn brew_turn sine_turn
  take_turn-cases now interval m =
      elim (Bool-cases (not m.callback_set || (not m.simulation_enabled && not m.brew.active))) [
        | inl e ↦ inl (ground arith, rw e refl)
        | inr e ↦ elim (Bool-cases m.brew.active) [
          | inl a ↦ inr (
            (brew_turn py now m).0,
            (brew_turn py now m).1,
            ground arith,
            if_false _ _ e ∙ if_true _ _ a,
            refl,
            refl,
          )
          | inr a ↦ inr (
            (sine_turn py interval m).0,
            (sine_turn py interval m).1,
            ground arith,
            if_false _ _ e ∙ if_false _ _ a,
            refl,
            refl,
          )
        ]
      ]

  -- What a call does to the counters, from the state `m` before its turn and `n` behind it
  abbrev Counts : (Bytes → Bool) → Manager py.Float → Sent py.Float → Type 0
  Counts cb m s =
      ((has_work m ≡ true)
        × (s.state.dl_seq ≡ (m.dl_seq + 1) % 2 ^ 32)
        × (((payload : Bytes) × (s.payload ≡ some payload)
              × (cb payload ≡ true)
              × (s.state.dl_tx_count ≡ m.dl_tx_count + 1))
            ⊎ (s.state.dl_tx_count ≡ m.dl_tx_count)))
      ⊎ ((has_work m ≡ false) × (s.payload ≡ none) × (s.state ≡ m))

  hand_over-Counts :
      (cb : Bytes → Bool) (t : Turn py.Float) (m n : Manager py.Float)
      (r : Result (Bytes × Home py.Float))
      → has_work m ≡ true
      → n.dl_seq ≡ (m.dl_seq + 1) % 2 ^ 32
      → n.dl_tx_count ≡ m.dl_tx_count
      → Counts cb m (hand_over py cb t n r)
  unfolding hand_over after_send
  hand_over-Counts cb t m n (err e) busy seq tx = inl (busy, seq, inr tx)
  hand_over-Counts cb t m n (ok (payload, h)) busy seq tx = elim (Bool-cases (cb payload)) [
    | inl e ↦ rw e (inl (busy, seq, inl (payload, refl, e, ap (λ k. k + 1) tx)))
    | inr e ↦ rw e (inl (busy, seq, inr tx))
  ]

  -- The sequence numbers: each call in one of the modes takes the next one modulo 2^32, also where the
  -- packet is not built or the callback raises, and the packet counter moves only with a packet that
  -- the callback takes; a call in no mode, or without a callback, changes nothing.
  pub generate_and_send-Counts :
      (library : Library py.Float) (cb : Bytes → Bool) (now later interval : py.Float)
      (m : Manager py.Float)
      → Counts cb m (generate_and_send py library cb now later interval m)
  unfolding generate_and_send use_turn
  generate_and_send-Counts library cb now later interval m = elim (take_turn-cases now interval m) [
    | inl (idle, at) ↦
        subst (λ r. Counts cb m (use_turn py library cb later interval r.0 r.1)) (sym at)
          (inr (idle, refl, refl))
    | inr (t, n, busy, at, seq, tx) ↦
        subst (λ r. Counts cb m (use_turn py library cb later interval r.0 r.1)) (sym at)
          (hand_over-Counts cb t m n (build_packet py library later interval t) busy seq tx)
  ]
