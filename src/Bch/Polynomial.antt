-- ===== src/Bch/Polynomial.antt =====
-- Binary polynomials as lists of coefficients, the constant one first: sum, multiple and product.
use open_vlsnr.Prelude.{ℕ, ◌*◌, ◌≤◌, bit_xor, List, [], ◌∷◌, map}

abbrev pub IsBit : ℕ → Type 0
IsBit b = b ≤ 1

unfoldable pub add : List ℕ → List ℕ → List ℕ
add [] q = q
add (a ∷ p) [] = a ∷ p
add (a ∷ p) (b ∷ q) = bit_xor a b ∷ add p q

abbrev pub scale : ℕ → List ℕ → List ℕ
scale c p = map (λ (a : ℕ). c * a) p

-- The product, by the constant coefficient of the left factor and the rest of it.
unfoldable pub mul : List ℕ → List ℕ → List ℕ
mul [] g = []
mul (c ∷ q) g = add (scale c g) (0 ∷ mul q g)
