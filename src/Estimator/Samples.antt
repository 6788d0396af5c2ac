-- ===== src/Estimator/Samples.antt =====
-- mujina-miner/src/types/hashrate_estimator.rs: samples cut by their time and by their number.
use mujina.Common.{ℕ, zero, suc, ◌+◌, ◌-◌, ◌^◌, ◌≤◌, ◌<◌, ◌≡◌, refl, sym, ap, ◌∙◌, arith}
use mujina.Common.{
  List, [], ◌∷◌, ◌++◌, ltb, leb, if◌then◌else◌, length, drop, length-append, length-drop,
  Bool-cases, inl, inr, All,
}
use mujina.Estimator.{sub_assign, prune, enforce}

-- The shares recorded, in the order of their times.
unfoldable pub Ordered : List (ℕ × ℕ) → Type 0
Ordered [] = Unit {0}
Ordered ((t, work) ∷ rest) = All (λ s. t ≤ s.0) rest × Ordered rest

-- The work of samples, in all.
unfoldable pub work_of : List (ℕ × ℕ) → ℕ
work_of [] = 0
work_of ((t, work) ∷ rest) = work + work_of rest

-- The samples from `cutoff` on.
unfoldable pub since : ℕ → List (ℕ × ℕ) → List (ℕ × ℕ)
since cutoff [] = []
since cutoff ((t, work) ∷ rest) =
    let later = since cutoff rest in if leb cutoff t then (t, work) ∷ later else later

-- The last `n` samples.
unfoldable pub newest : ℕ → List (ℕ × ℕ) → List (ℕ × ℕ)
newest n samples = drop (length samples - n) samples

sub_assign_sum : (work rest : ℕ) → work + rest < 2 ^ 256 → sub_assign (work + rest) work ≡ rest
unfolding sub_assign
sub_assign_sum work rest h = omega arith

All-since : (cutoff : ℕ) (xs : List (ℕ × ℕ)) → All (λ s. cutoff ≤ s.0) xs → since cutoff xs ≡ xs
unfolding since
All-since cutoff [] h = refl
All-since cutoff ((t, w) ∷ xs) (le, h) = ground (arith, All-since cutoff xs h)

All-trans : (a b : ℕ) (xs : List (ℕ × ℕ)) → a ≤ b → All (λ s. b ≤ s.0) xs → All (λ s. a ≤ s.0) xs
All-trans a b [] h all = tt
All-trans a b ((t, w) ∷ xs) h (le, all) = (omega arith, All-trans a b xs h all)

pub prune-since :
    (cutoff : ℕ) (xs : List (ℕ × ℕ))
    → Ordered xs
    → work_of xs < 2 ^ 256
    → prune cutoff xs (work_of xs) ≡ (since cutoff xs, work_of (since cutoff xs))
unfolding prune since work_of Ordered
prune-since cutoff [] ord lt = refl
prune-since cutoff ((t, w) ∷ xs) (first, ord) lt = elim (Bool-cases (leb cutoff t)) [
  | inl h ↦ rw (h, All-since cutoff xs (All-trans cutoff t xs (ground arith) first)) refl
  | inr h ↦ rw (h, sub_assign_sum w (work_of xs) lt) (prune-since cutoff xs ord (omega arith))
]

pub work_of-since : (cutoff : ℕ) (xs : List (ℕ × ℕ)) → work_of (since cutoff xs) ≤ work_of xs
unfolding work_of since
work_of-since cutoff [] = omega arith
work_of-since cutoff ((t, w) ∷ xs) = ground (arith, work_of-since cutoff xs)

pub since_again : (c d : ℕ) (xs : List (ℕ × ℕ)) → c ≤ d → since d (since c xs) ≡ since d xs
unfolding since
since_again c d [] le = refl
since_again c d ((t, w) ∷ xs) le = ground (arith, since_again c d xs le)

pub since-append : (c : ℕ) (xs ys : List (ℕ × ℕ)) → since c (xs ++ ys) ≡ since c xs ++ since c ys
unfolding since
since-append c [] ys = refl
since-append c ((t, w) ∷ xs) ys = ground (arith, since-append c xs ys)

-- How many samples are older than `cutoff`.
pub early : ℕ → List (ℕ × ℕ) → ℕ
early c [] = 0
early c ((t, w) ∷ xs) = let rest = early c xs in if leb c t then rest else suc rest

early_none : (c : ℕ) (xs : List (ℕ × ℕ)) → All (λ s. c ≤ s.0) xs → early c xs ≡ 0
unfolding early
early_none c [] all = refl
early_none c ((t, w) ∷ xs) (le, all) = ground (arith, early_none c xs all)

early_le : (c : ℕ) (xs : List (ℕ × ℕ)) → early c xs ≤ length xs
unfolding early
early_le c [] = omega arith
early_le c ((t, w) ∷ xs) = ground (arith, early_le c xs)

pub since-early : (c : ℕ) (xs : List (ℕ × ℕ)) → Ordered xs → since c xs ≡ drop (early c xs) xs
unfolding since early Ordered
since-early c [] ord = refl
since-early c ((t, w) ∷ xs) (first, ord) = elim (Bool-cases (leb c t)) [
  | inl h ↦
      let all = All-trans c t xs (ground arith) first in
      rw (h, All-since c xs all, early_none c xs all) refl
  | inr h ↦ rw h (since-early c xs ord)
]

pub Ordered-drop : (n : ℕ) (xs : List (ℕ × ℕ)) → Ordered xs → Ordered (drop n xs)
unfolding Ordered
Ordered-drop zero xs ord = ord
Ordered-drop (suc n) [] ord = tt
Ordered-drop (suc n) ((t, w) ∷ xs) (first, ord) = Ordered-drop n xs ord

early-drop : (c n : ℕ) (xs : List (ℕ × ℕ)) → Ordered xs → early c (drop n xs) ≡ early c xs - n
unfolding early Ordered
early-drop c zero xs ord = omega arith
early-drop c (suc n) [] ord = omega arith
early-drop c (suc n) ((t, w) ∷ xs) (first, ord) = elim (Bool-cases (leb c t)) [
  | inl h ↦
      let all = All-trans c t xs (ground arith) first in
      rw (h, early-drop c n xs ord, early_none c xs all) (omega arith)
  | inr h ↦ rw (h, early-drop c n xs ord) (omega arith)
]

pub drop_nil : (n : ℕ) → drop {A = ℕ × ℕ} n [] ≡ []
drop_nil zero = refl
drop_nil (suc n) = refl

drop-drop : (m n : ℕ) (xs : List (ℕ × ℕ)) → drop m (drop n xs) ≡ drop (n + m) xs
drop-drop m zero xs = ap (λ k. drop k xs) (omega arith)
drop-drop m (suc n) [] = drop_nil m ∙ sym (drop_nil (suc n + m))
drop-drop m (suc n) (x ∷ xs) =
    let e : suc (n + m) ≡ suc n + m = omega arith in drop-drop m n xs ∙ ap (λ k. drop k (x ∷ xs)) e

pub drop-append_one :
    (n : ℕ) (xs ys : List (ℕ × ℕ)) → n ≤ length xs → drop n (xs ++ ys) ≡ drop n xs ++ ys
drop-append_one zero xs ys le = refl
drop-append_one (suc n) [] ys le = absurd (omega arith)
drop-append_one (suc n) (x ∷ xs) ys le = drop-append_one n xs ys (omega arith)

-- Cutting by time and cutting to the newest may change places.
pub newest-since :
    (c n : ℕ) (xs : List (ℕ × ℕ)) → Ordered xs → newest n (since c xs) ≡ since c (newest n xs)
unfolding newest
newest-since c n xs ord =
    let short = early_le c xs in
    let k = length xs - n in
    let d = length xs - early c xs - n in
    rw
      (
        since-early c xs ord,
        since-early c (drop k xs) (Ordered-drop k xs ord),
        early-drop c k xs ord,
        length-drop (early c xs) xs,
        drop-drop d (early c xs) xs,
        drop-drop (early c xs - k) k xs,
      )
      (ap (λ m. drop m xs) (omega arith))

pub newest_again :
    (n : ℕ) (xs : List (ℕ × ℕ)) (y : ℕ × ℕ)
    → newest n (newest n xs ++ y ∷ []) ≡ newest n (xs ++ y ∷ [])
unfolding newest
newest_again n xs y =
    let k = length xs - n in
    let same : drop k xs ++ y ∷ [] ≡ drop k (xs ++ y ∷ []) =
      sym (drop-append_one k xs (y ∷ []) (omega arith)) in
    let len : length (xs ++ y ∷ []) ≡ length xs + 1 = length-append xs (y ∷ []) in
    rw (same, length-drop k (xs ++ y ∷ []), len, drop-drop (length xs + 1 - k - n) k (xs ++ y ∷ []))
      (ap (λ m. drop m (xs ++ y ∷ [])) (omega arith))

pub enforce-newest :
    (n : ℕ) (xs : List (ℕ × ℕ))
    → work_of xs < 2 ^ 256
    → enforce n xs (work_of xs) ≡ (newest n xs, work_of (newest n xs))
unfolding enforce newest work_of
enforce-newest n [] lt = rw (drop_nil (0 - n)) refl
enforce-newest n ((t, w) ∷ xs) lt = elim (Bool-cases (ltb n (suc (length xs)))) [
  | inl h ↦
      let cut : suc (length xs) - n ≡ suc (length xs - n) = ground arith in
      rw (h, cut, sub_assign_sum w (work_of xs) lt) (enforce-newest n xs (omega arith))
  | inr h ↦ let cut : suc (length xs) - n ≡ 0 = ground arith in rw (h, cut) refl
]

pub work_of-drop : (n : ℕ) (xs : List (ℕ × ℕ)) → work_of (drop n xs) ≤ work_of xs
unfolding work_of
work_of-drop zero xs = omega arith
work_of-drop (suc n) [] = omega arith
work_of-drop (suc n) ((t, w) ∷ xs) = omega (arith, work_of-drop n xs)

pub work_of-append : (xs ys : List (ℕ × ℕ)) → work_of (xs ++ ys) ≡ work_of xs + work_of ys
unfolding work_of
work_of-append [] ys = omega arith
work_of-append ((t, w) ∷ xs) ys = omega (arith, work_of-append xs ys)
