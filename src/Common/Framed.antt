-- ===== src/Common/Framed.antt =====
-- Texts written one after the other, each after its length and a colon, as what is signed is
-- (auth/tokens.go, links.go).
use Prim.Native.Nat.{suc}
use mathlib.Core.Path.{◌≡◌, refl, sym, ap, subst}
use mathlib.Core.Bool.{true, ◌&&◌}
use mathlib.Core.List.{List, [], ◌∷◌, ◌++◌}
use native.Mathlib.Omega.{arith}
use tug.Common.Tests.{leb}
use tug.Common.Lists.{length, length-append}
use tug.Common.Text.{Bytes, itoa, itoa_injective, all_digits, all_digits-itoa}

unfoldable pub framed : List Bytes → Bytes
framed [] = []
framed (part ∷ parts) = itoa (length part) ++ 58 ∷ (part ++ framed parts)

-- A colon is not a digit.
digits-cancel :
    (a b x y : Bytes)
    → all_digits a ≡ true
    → all_digits b ≡ true
    → a ++ 58 ∷ x ≡ b ++ 58 ∷ y
    → (a ≡ b) × (x ≡ y)
unfolding all_digits
digits-cancel [] [] x y p q e = (refl, cc)
digits-cancel [] (d ∷ b) x y p q e =
    let same : 58 ≡ d = cc in
    let colon = subst (λ k. (leb 48 k && (leb k 57 && all_digits b)) ≡ true) (sym same) q in
    ground arith
digits-cancel (c ∷ a) [] x y p q e =
    let same : c ≡ 58 = cc in
    let colon = subst (λ k. (leb 48 k && (leb k 57 && all_digits a)) ≡ true) same p in ground arith
digits-cancel (c ∷ a) (d ∷ b) x y p q e =
    let first : c ≡ d = cc in
    let (same, rest) = digits-cancel a b x y (ground arith) (ground arith) cc in
    (rw (first, same) refl, rest)

sized-cancel : (a b x y : Bytes) → length a ≡ length b → a ++ x ≡ b ++ y → (a ≡ b) × (x ≡ y)
sized-cancel [] [] x y l e = (refl, e)
sized-cancel [] (d ∷ b) x y l e = let no_way : 0 ≡ suc (length b) = l in absurd (omega arith)
sized-cancel (c ∷ a) [] x y l e = let no_way : suc (length a) ≡ 0 = l in absurd (omega arith)
sized-cancel (c ∷ a) (d ∷ b) x y l e =
    let first : c ≡ d = cc in
    let (same, rest) = sized-cancel a b x y (omega arith) cc in (rw (first, same) refl, rest)

-- No two lists of texts read the same.
pub framed_injective : (ps qs : List Bytes) → framed ps ≡ framed qs → ps ≡ qs
unfolding framed
framed_injective [] [] e = refl
framed_injective [] (q ∷ qs) e =
    let sizes = ap (λ x. length x) e in
    absurd (omega (arith, length-append (itoa (length q)) (58 ∷ (q ++ framed qs))))
framed_injective (p ∷ ps) [] e =
    let sizes = ap (λ x. length x) e in
    absurd (omega (arith, length-append (itoa (length p)) (58 ∷ (p ++ framed ps))))
framed_injective (p ∷ ps) (q ∷ qs) e =
    let (sizes, rest) =
      digits-cancel (itoa (length p)) (itoa (length q)) _ _ (all_digits-itoa _) (all_digits-itoa _)
        e in
    let (first, later) = sized-cancel p q _ _ (itoa_injective _ _ sizes) rest in
    rw (first, framed_injective ps qs later) refl
