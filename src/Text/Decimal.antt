-- ===== src/Text/Decimal.antt =====
-- `{}` of an unsigned integer: its decimal digits.
use Prim.Native.Nat.{◌/◌, ◌%◌}
use nyanpasu_service.Prelude.{ℕ, zero, suc, ◌+◌, ltb, [], ◌∷◌, if◌then◌else◌}
use nyanpasu_service.Text.{Text}

-- The digits in front of `acc`; the number itself is fuel enough.
unfoldable pub digits_onto : ℕ → ℕ → Text → Text
digits_onto zero n acc = acc
digits_onto (suc fuel) n acc =
    let more = digits_onto fuel (n / 10) ((b'0' + n % 10) ∷ acc) in
    if ltb n 10 then (b'0' + n) ∷ acc else more

unfoldable pub show_ℕ : ℕ → Text
unfolding digits_onto
show_ℕ n = digits_onto (suc n) n []
