-- ===== src/Domain/Diagnostic/Shape.antt =====
-- What a bounded diagnostic looks like (src/domain/error.rs).
use wallet_engine.Base.{
  ℕ, zero, suc, ◌≤◌, ◌≡◌, refl, Bool, true, not, [], ◌∷◌, map, take, length, all_of, arith,
  length-take, take_of_le,
}
use wallet_engine.Types.Texts.{Text, is_control, trim}
use wallet_engine.Types.Texts.Trim.{trim_idem, trim-all_of, length-trim}
use wallet_engine.Domain.Diagnostic.{without_control, bounded_diagnostic}

abbrev is_visible : ℕ → Bool
is_visible c = not (is_control c)

without_control-is_visible : (c : ℕ) → is_visible (without_control c) ≡ true
unfolding without_control is_control
without_control-is_visible c = ground arith

without_control_of_visible : (c : ℕ) → is_visible c ≡ true → without_control c ≡ c
unfolding without_control
without_control_of_visible c h = ground arith

map-is_visible : (s : Text) → all_of is_visible (map without_control s) ≡ true
map-is_visible [] = refl
map-is_visible (c ∷ s) = ground (arith, without_control-is_visible c, map-is_visible s)

map_of_visible : (s : Text) → all_of is_visible s ≡ true → map without_control s ≡ s
map_of_visible [] h = refl
map_of_visible (c ∷ s) h = ground (arith, without_control_of_visible c, map_of_visible s)

take-all_of : (p : ℕ → Bool) (n : ℕ) (s : Text) → all_of p s ≡ true → all_of p (take n s) ≡ true
take-all_of p zero s h = refl
take-all_of p (suc n) [] h = refl
take-all_of p (suc n) (c ∷ s) h = ground (arith, take-all_of p n s)

-- A published diagnostic has at most 512 characters, none of them a control character, and no
-- white space at either end.
pub bounded_diagnostic_shape :
    (s : Text)
    → (length (bounded_diagnostic s) ≤ 512)
      × (all_of (λ c. not (is_control c)) (bounded_diagnostic s) ≡ true)
      × (trim (bounded_diagnostic s) ≡ bounded_diagnostic s)
unfolding bounded_diagnostic
bounded_diagnostic_shape s =
    let kept = take 512 (map without_control s) in
    (
      omega (arith, length-trim kept, length-take 512 (map without_control s)),
      trim-all_of is_visible kept (take-all_of is_visible 512 _ (map-is_visible s)),
      trim_idem kept,
    )

-- Bounding a diagnostic twice, as `send_failed_error` and `fail_send` do, is bounding it once.
bounded_diagnostic_idem :
    (s : Text) → bounded_diagnostic (bounded_diagnostic s) ≡ bounded_diagnostic s
unfolding bounded_diagnostic
bounded_diagnostic_idem s =
    let (short, visible, trimmed) = bounded_diagnostic_shape s in
    rw (map_of_visible _ visible, take_of_le 512 _ short) trimmed
