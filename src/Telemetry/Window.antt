-- ===== src/Telemetry/Window.antt =====
-- What a subscriber that falls behind finds in its channel.
use gu_gu_manager.Base.{
  ℕ, ◌-◌, ◌≤◌, ◌≡◌, sym, ap, subst, ◌∙◌, inl, inr, List, [], ◌∷◌, ◌++◌, arith, ltb, Bool-cases,
  length, drop, keep_last, keep_last-append, length-keep_last, length-append, drop-append,
}
use mathlib.Core.List.{append_assoc, append-nil}
use gu_gu_manager.Telemetry.Console.{ConsoleLine}
use gu_gu_manager.Telemetry.Hub.{offer, offer_all}

offer-keep_last :
    (buffered : ℕ) (channel : List ConsoleLine) (line : ConsoleLine)
    → 1 ≤ buffered
    → length channel ≤ buffered
    → offer buffered channel line ≡ keep_last buffered (channel ++ line ∷ [])
unfolding offer
offer-keep_last buffered channel line room fits =
    elim (Bool-cases (ltb (length channel) buffered)) [
      | inl free ↦
          let whole : 0 ≡ length (channel ++ line ∷ []) - buffered =
            ground (arith, length-append channel (line ∷ [])) in
          rw (offer, free) (ap (λ k. drop k (channel ++ line ∷ [])) whole)
      | inr full ↦
          let one : 1 ≡ length (channel ++ line ∷ []) - buffered =
            ground (arith, length-append channel (line ∷ [])) in
          rw (offer, full)
            (sym (drop-append 1 channel (line ∷ []) (ground arith))
              ∙ ap (λ k. drop k (channel ++ line ∷ [])) one)
    ]

-- A channel with room for a line, which holds no more lines than it has room for and which nobody
-- reads, holds after any published lines the last of the old and new lines together, as many as it
-- has room for.
pub offer_all-keep_last :
    (buffered : ℕ) (channel lines : List ConsoleLine)
    → 1 ≤ buffered
    → length channel ≤ buffered
    → offer_all buffered channel lines ≡ keep_last buffered (channel ++ lines)
unfolding offer_all
offer_all-keep_last buffered channel [] room fits =
    let whole : 0 ≡ length (channel ++ []) - buffered = omega (arith, length-append channel []) in
    sym (append-nil channel) ∙ ap (λ k. drop k (channel ++ [])) whole
offer_all-keep_last buffered channel (line ∷ lines) room fits =
    let step = offer-keep_last buffered channel line room fits in
    let still : length (offer buffered channel line) ≤ buffered =
      subst (λ c. length c ≤ buffered) (sym step)
        (omega (arith, length-keep_last buffered (channel ++ line ∷ []))) in
    offer_all-keep_last buffered (offer buffered channel line) lines room still
    ∙ ap (λ c. keep_last buffered (c ++ lines)) step
    ∙ keep_last-append buffered (channel ++ line ∷ []) lines
    ∙ ap (keep_last buffered) (append_assoc channel (line ∷ []) lines)
