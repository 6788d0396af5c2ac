-- ===== src/Extranonce/Bytes.antt =====
-- mujina-miner/src/job_source/extranonce.rs: the bytes that an extranonce was made from.
use native.Mathlib.Nat.{add-mul-div_left, div-eq_of_lt, mul-le-mul_right, pow-suc}
use mujina.Common.{
  ℕ, zero, suc, ◌+◌, ◌-◌, ◌*◌, ◌/◌, ◌%◌, ◌^◌, ◌≤◌, ◌<◌, ◌≡◌, refl, ap, ◌∙◌, subst, arith,
}
use mujina.Common.{min, Bool, true, false, ◌&&◌, leb, if◌then◌else◌, List, [], ◌∷◌, ◌++◌, All}
use mujina.Common.{
  IsByte, ok, err, ◌>>=◌, length, take, drop, replicate, take-append-drop, length-take,
}
use mujina.Common.{length-drop}
use mujina.Extranonce.{Extranonce, ExtranonceError, check_width, any_nonzero, be_value, be_digits}
use mujina.Extranonce.{from_bytes, bytes}

be_value_acc : (acc : ℕ) (bs : List ℕ) → be_value acc bs ≡ acc * (2 ^ 8) ^ length bs + be_value 0 bs
unfolding be_value
be_value_acc acc [] = omega arith
be_value_acc acc (b ∷ bs) =
    let lead : 0 * 2 ^ 8 + b ≡ b = omega arith in
    let power = ap (λ t. acc * t) (pow-suc (2 ^ 8) (length bs)) in
    omega (
      arith,
      power,
      ap (λ n. be_value n bs) lead,
      be_value_acc (acc * 2 ^ 8 + b) bs,
      be_value_acc b bs,
    )

be_value-lt : (bs : List ℕ) → All IsByte bs → be_value 0 bs < (2 ^ 8) ^ length bs
unfolding be_value
be_value-lt [] h = omega arith
be_value-lt (b ∷ bs) (hb, hs) =
    let lead : 0 * 2 ^ 8 + b ≡ b = omega arith in
    let rest = be_value-lt bs hs in
    let top : b * (2 ^ 8) ^ length bs ≤ 255 * (2 ^ 8) ^ length bs =
      mul-le-mul_right ((2 ^ 8) ^ length bs) (omega arith) in
    omega (
      arith,
      pow-suc (2 ^ 8) (length bs),
      ap (λ n. be_value n bs) lead,
      be_value_acc b bs,
      rest,
      top,
    )

be_digits-be_value :
    (acc : ℕ) (bs : List ℕ) → All IsByte bs → be_digits (length bs) (be_value acc bs) ≡ bs
unfolding be_value be_digits
be_digits-be_value acc [] h = refl
be_digits-be_value acc (b ∷ bs) (hb, hs) =
    let n = length bs in
    let small = be_value-lt bs hs in
    let pos : 0 < (2 ^ 8) ^ n = omega (arith, small) in
    let split : be_value (acc * 2 ^ 8 + b) bs ≡ be_value 0 bs + (2 ^ 8) ^ n * (acc * 2 ^ 8 + b) =
      omega (arith, be_value_acc (acc * 2 ^ 8 + b) bs) in
    let top : be_value (acc * 2 ^ 8 + b) bs / (2 ^ 8) ^ n % 2 ^ 8 ≡ b =
      ap (λ t. t / (2 ^ 8) ^ n % 2 ^ 8) split
      ∙ ap (λ t. t % 2 ^ 8) (add-mul-div_left (be_value 0 bs) (acc * 2 ^ 8 + b) pos)
      ∙ ap (λ t. (t + (acc * 2 ^ 8 + b)) % 2 ^ 8) (div-eq_of_lt small)
      ∙ omega arith in
    rw (top, be_digits-be_value (acc * 2 ^ 8 + b) bs hs) refl

drop-be_digits : (k t w : ℕ) → drop k (be_digits (k + t) w) ≡ be_digits t w
unfolding be_digits
drop-be_digits zero t w = ap (λ n. be_digits n w) (omega arith)
drop-be_digits (suc k) t w =
    let count : suc k + t ≡ suc (k + t) = omega arith in
    ap (λ n. drop (suc k) (be_digits n w)) count ∙ drop-be_digits k t w

be_value-replicate : (k : ℕ) (bs : List ℕ) → be_value 0 (replicate k 0 ++ bs) ≡ be_value 0 bs
unfolding be_value
be_value-replicate zero bs = refl
be_value-replicate (suc k) bs = be_value-replicate k bs

any_nonzero-replicate : (bs : List ℕ) → any_nonzero bs ≡ false → replicate (length bs) 0 ≡ bs
unfolding any_nonzero
any_nonzero-replicate [] h = refl
any_nonzero-replicate (b ∷ bs) h =
    rw (any_nonzero-replicate bs (ground arith)) (ap (λ n. n ∷ bs) (ground arith))

drop-IsByte : (n : ℕ) (bs : List ℕ) → All IsByte bs → All IsByte (drop n bs)
drop-IsByte zero bs h = h
drop-IsByte (suc n) [] h = tt
drop-IsByte (suc n) (b ∷ bs) (hb, hs) = drop-IsByte n bs hs

-- What acceptance says of the two tests.
accepted :
    (small bad : Bool) (x y : ExtranonceError) (width counter : ℕ) (e : Extranonce)
    → ((if small then ok width else err x) >>= λ w.
        if bad then err y else ok (record { counter = counter; width = w }))
      ≡ ok e
    → (small ≡ true) × (bad ≡ false) × (record { counter = counter; width = width } ≡ e)
accepted true true x y width counter e h = absurd (ground arith)
accepted true false x y width counter e h = (refl, refl, ground arith)
accepted false bad x y width counter e h = absurd (ground arith)

padding_back :
    (bs : List ℕ) (width : ℕ)
    → width ≡ length bs
    → any_nonzero (take (length bs - 8) bs) ≡ false
    → replicate (width - min width 8) 0 ≡ take (length bs - 8) bs
padding_back bs width e zeros =
    let len = length-take (length bs - 8) bs in
    let count : width - min width 8 ≡ length (take (length bs - 8) bs) = omega arith in
    ap (λ n. replicate n 0) count ∙ any_nonzero-replicate (take (length bs - 8) bs) zeros

tail_back :
    (tail : List ℕ) (k : ℕ)
    → All IsByte tail
    → 8 ≡ k + length tail
    → drop k (be_digits 8 (be_value 0 (replicate (8 - length tail) 0 ++ tail))) ≡ tail
tail_back tail k h e =
    let counter = be_value 0 (replicate (8 - length tail) 0 ++ tail) in
    ap (λ n. drop k (be_digits n counter)) e
    ∙ drop-be_digits k (length tail) counter
    ∙ ap (be_digits (length tail)) (be_value-replicate (8 - length tail) tail)
    ∙ be_digits-be_value 0 tail h

-- Bytes that are accepted as an extranonce are what the extranonce is written as.
pub bytes-from_bytes :
    (bs : List ℕ) (e : Extranonce) → All IsByte bs → from_bytes bs ≡ ok e → bytes e ≡ bs
unfolding from_bytes bytes check_width
bytes-from_bytes bs e h made =
    let padding = take (length bs - 8) bs in
    let tail = drop (length bs - 8) bs in
    let counter = be_value 0 (replicate (8 - length tail) 0 ++ tail) in
    let (small, zeros, same) =
      accepted (leb 1 (length bs) && leb (length bs) 32) (any_nonzero padding) _ _
        (length bs % 2 ^ 8) counter e made in
    let width : length bs % 2 ^ 8 ≡ length bs = ground arith in
    let len = length-drop (length bs - 8) bs in
    let cut : 8 ≡ (8 - min (length bs % 2 ^ 8) 8) + length tail = omega arith in
    subst (λ x. bytes x ≡ bs) same
      (ap (λ p. p ++ drop (8 - min (length bs % 2 ^ 8) 8) (be_digits 8 counter))
          (padding_back bs (length bs % 2 ^ 8) width zeros)
        ∙ ap (λ t. padding ++ t)
            (tail_back tail (8 - min (length bs % 2 ^ 8) 8) (drop-IsByte (length bs - 8) bs h) cut)
        ∙ take-append-drop (length bs - 8) bs)
