-- ===== src/Uplink/Queue.antt =====
-- server/sim/data_payload.py: the queue of uplink packets keeps the last ten, in order.
use gaggia_esp_c3_mini_serve.Prelude.{
  ℕ, zero, suc, ◌+◌, ◌-◌, ◌≤◌, ◌≡◌, refl, sym, ap, ◌∙◌, true, false, none, some, List, [], ◌∷◌,
  ◌++◌, length, drop, length-drop, length-append, leb, if◌then◌else◌, Bool-cases, Option-cases, inl,
  inr, arith,
}
use mathlib.Core.List.{append_assoc, append-nil}
use gaggia_esp_c3_mini_serve.Prelude.Bytes.{Bytes}
use gaggia_esp_c3_mini_serve.Uplink.{
  Packet, Uplink, fifo_depth, push, accept, receive_uplink, decode_uplink, empty_uplink,
}

-- The payloads that are packets, decoded.
pub accepted : List Bytes → List Packet
accepted [] = []
accepted (b ∷ bs) = elim (decode_uplink b) [ none ↦ accepted bs | some p ↦ p ∷ accepted bs ]

pub receive_all : List Bytes → Uplink → Uplink
receive_all [] u = u
receive_all (b ∷ bs) u = receive_all bs (receive_uplink b u)

-- The last ten of a list.
abbrev pub last_ten : List Packet → List Packet
last_ten ps = drop (length ps - fifo_depth) ps

drop-one : (n : ℕ) (ps : List Packet) → drop 1 (drop n ps) ≡ drop (suc n) ps
drop-one zero [] = refl
drop-one zero (p ∷ ps) = refl
drop-one (suc n) [] = refl
drop-one (suc n) (p ∷ ps) = drop-one n ps

drop-snoc : (n : ℕ) (ps qs : List Packet) → n ≤ length ps → drop n (ps ++ qs) ≡ drop n ps ++ qs
drop-snoc zero ps qs h = refl
drop-snoc (suc n) [] qs h = absurd (omega arith)
drop-snoc (suc n) (p ∷ ps) qs h = drop-snoc n ps qs (omega arith)

push-last_ten : (ps : List Packet) (p : Packet) → push p (last_ten ps) ≡ last_ten (ps ++ (p ∷ []))
unfolding push
push-last_ten ps p =
    let n : ℕ = length ps - fifo_depth in
    let grown = length-append {0} ps (p ∷ []) in
    elim (Bool-cases (leb fifo_depth (length (last_ten ps)))) [
      | inl e ↦ rw e (
          ap (λ qs. qs ++ (p ∷ [])) (drop-one n ps)
          ∙ (sym (
                drop-snoc (suc n) ps (p ∷ [])
                  (full n (length ps) (length (last_ten ps)) e (length-drop {0} n ps) refl).0)
              ∙ ap (λ k. drop k (ps ++ (p ∷ [])))
                  ((full n (length ps) (length (last_ten ps)) e (length-drop {0} n ps) refl).1
                    ∙ ap (λ k. k - fifo_depth) (sym grown))))
      | inr e ↦ rw e (
          sym (drop-snoc n ps (p ∷ []) (omega arith))
          ∙ ap (λ k. drop k (ps ++ (p ∷ [])))
              (short n (length ps) (length (last_ten ps)) e (length-drop {0} n ps) refl
                ∙ ap (λ k. k - fifo_depth) (sym grown)))
    ]
  where
    full :
        (n size kept : ℕ)
        → leb fifo_depth kept ≡ true
        → kept ≡ size - n
        → n ≡ size - fifo_depth
        → (suc n ≤ size) × (suc n ≡ size + 1 - fifo_depth)
    full n size kept e k h = ground arith

    short :
        (n size kept : ℕ)
        → leb fifo_depth kept ≡ false
        → kept ≡ size - n
        → n ≡ size - fifo_depth
        → n ≡ size + 1 - fifo_depth
    short n size kept e k h = ground arith

-- The queue and its counters after the packets `ps`, with none taken out.
pub record Follows (ps : List Packet) (u : Uplink) : Type 0 where
  pub keeps : u.fifo ≡ last_ten ps
  pub counts : u.rx_count ≡ length ps
  pub drops : u.drop_count ≡ length ps - fifo_depth

accept-Follows :
    (ps : List Packet) (p : Packet) (u : Uplink)
    → Follows ps u
    → Follows (ps ++ (p ∷ [])) (accept p u)
unfolding accept
accept-Follows ps p u h = record {
  keeps = rw h.keeps (push-last_ten ps p);
  counts = omega (arith, h.counts, length-append {0} ps (p ∷ []));
  drops = rw h.keeps (
      dropped (length ps) (length (last_ten ps)) u.drop_count h.drops
        (length-drop {0} (length ps - fifo_depth) ps)
      ∙ ap (λ k. k - fifo_depth) (sym (length-append {0} ps (p ∷ []))));
}
  where
    dropped :
        (size kept d : ℕ)
        → d ≡ size - fifo_depth
        → kept ≡ size - (size - fifo_depth)
        → (if leb fifo_depth kept then d + 1 else d) ≡ size + 1 - fifo_depth
    dropped size kept d h k = ground arith

receive_all-from :
    (bs : List Bytes) (ps : List Packet) (u : Uplink)
    → Follows ps u
    → Follows (ps ++ accepted bs) (receive_all bs u)
unfolding receive_uplink accepted receive_all
receive_all-from [] ps u h = rw (append-nil ps) h
receive_all-from (b ∷ bs) ps u h = elim (Option-cases (decode_uplink b)) [
  | inl e ↦ rw (e, accepted, receive_uplink) (receive_all-from bs ps u h)
  | inr (p, e) ↦
      rw (e, accepted, receive_uplink)
        (rw⁻¹ (append_assoc ps (p ∷ []) (accepted bs))
          (receive_all-from bs (ps ++ (p ∷ [])) (accept p u) (accept-Follows ps p u h)))
]

-- After any payloads, with none taken out, the queue holds the last ten of those that are uplink
-- packets, oldest first; all of these are counted as received, and all but ten as dropped.
pub receive_all-Follows : (bs : List Bytes) → Follows (accepted bs) (receive_all bs empty_uplink)
unfolding empty_uplink
receive_all-Follows bs =
    receive_all-from bs [] empty_uplink (record { keeps = refl; counts = refl; drops = refl })
