-- ===== src/Common/Masks.antt =====
-- Words put together from fields with disjoint masks, and the fields read back.
use Prim.Native.Nat.{ℕ, zero, suc, ◌-◌, ◌*◌, ◌/◌, ◌%◌, ◌^◌, ◌≤◌, ◌<◌, bit_and, bit_or}
use mathlib.Core.Path.{◌≡◌, refl, sym, ap, subst, ◌∙◌}
use mathlib.Core.List.{List, [], ◌∷◌}
use mathlib.Core.Bool.{Bool, true, false}
use mathlib.Core.Option.{some}
use native.Mathlib.Nat.{mod-eq_of_lt, mod-lt, one-le-pow}
use native.Mathlib.Omega.{arith}
use mujina.Common.Tests.{◌==◌, from_bool, IsU32}
use mujina.Common.Lists.{All, get_elem?}
use mujina.Common.Bits.{
  bit_and_low, bit_and-shift, bit_and_assoc, bit_or-bit_and, bit_and-zero, bit_or-zero, zero-bit_or,
  zero-bit_and, bit_or_eq_zero, bit_or_assoc, bit_and_self, bit_and_shr, bit_or-lt,
  bit_and-le_right,
}

-- A value in its place in the word, and the mask of that place.
pub record Field : Type 0 where
  pub value : ℕ
  pub mask : ℕ

abbrev pub Fits : Field → Type 0
Fits f = bit_and f.value f.mask ≡ f.value

-- `a | b | c`, as Rust reads it.
abbrev or_from : ℕ → List Field → ℕ
or_from acc [] = acc
or_from acc (f ∷ fs) = or_from (bit_or acc f.value) fs

abbrev pub word : List Field → ℕ
word [] = 0
word (f ∷ fs) = or_from f.value fs

abbrev join : List Field → ℕ
join [] = 0
join (f ∷ fs) = bit_or f.value (join fs)

or_from-join : (acc : ℕ) (fs : List Field) → or_from acc fs ≡ bit_or acc (join fs)
or_from-join acc [] = sym (bit_or-zero acc)
or_from-join acc (f ∷ fs) =
    or_from-join (bit_or acc f.value) fs ∙ bit_or_assoc acc f.value (join fs)

word-join : (fs : List Field) → word fs ≡ join fs
word-join [] = refl
word-join (f ∷ fs) = or_from-join f.value fs

abbrev pub masks : List Field → ℕ
masks [] = 0
masks (f ∷ fs) = bit_or f.mask (masks fs)

abbrev pub field : ℕ → ℕ → Field
field v m = record { value = v; mask = m }

pub low_Fits : (k v : ℕ) → v < 2 ^ k → Fits (field v (2 ^ k - 1))
low_Fits k v h = bit_and_low k v ∙ mod-eq_of_lt h

pub shift-Fits : (k v m : ℕ) → Fits (field v m) → Fits (field (v * 2 ^ k) (m * 2 ^ k))
shift-Fits k v m h = bit_and-shift k v m ∙ ap (λ t. t * 2 ^ k) h

pub bool_Fits : (b : Bool) → Fits (field (from_bool b) 1)
bool_Fits true = refl
bool_Fits false = refl

-- What fits one mask has nothing under a disjoint one.
clear : (f : Field) (k : ℕ) → Fits f → bit_and f.mask k ≡ 0 → bit_and f.value k ≡ 0
clear f k h d =
    ap (λ t. bit_and t k) (sym h)
    ∙ bit_and_assoc f.value f.mask k
    ∙ ap (bit_and f.value) d
    ∙ bit_and-zero f.value

join-clear :
    (fs : List Field) (k : ℕ) → All Fits fs → bit_and (masks fs) k ≡ 0 → bit_and (join fs) k ≡ 0
join-clear [] k h d = zero-bit_and k
join-clear (f ∷ fs) k (hf, h) d =
    let (d1, d2) = bit_or_eq_zero _ _ (sym (bit_or-bit_and f.mask (masks fs) k) ∙ d) in
    rw (bit_or-bit_and, clear f k hf d1, join-clear fs k h d2) (zero-bit_or 0)

abbrev pub without : ℕ → List Field → List Field
without n [] = []
without zero (f ∷ fs) = fs
without (suc n) (f ∷ fs) = f ∷ without n fs

pick_join :
    (n : ℕ) (fs : List Field) (f : Field)
    → get_elem? fs n ≡ some f
    → All Fits fs
    → bit_and (masks (without n fs)) f.mask ≡ 0
    → bit_and (join fs) f.mask ≡ f.value
pick_join n [] f e h d = cc
pick_join zero (g ∷ fs) f e (hg, h) d =
    let same : g ≡ f = ground arith in
    let fits : bit_and g.value f.mask ≡ f.value =
      subst (λ x. bit_and g.value x.mask ≡ x.value) same hg in
    rw (bit_or-bit_and, fits, join-clear fs f.mask h d) (bit_or-zero f.value)
pick_join (suc n) (g ∷ fs) f e (hg, h) d =
    let (d1, d2) =
      bit_or_eq_zero _ _ (sym (bit_or-bit_and g.mask (masks (without n fs)) f.mask) ∙ d) in
    rw (bit_or-bit_and, clear g f.mask hg d1, pick_join n fs f e h d2) (zero-bit_or f.value)

-- A field is read back from a word whose other fields lie under other masks.
pub pick :
    (n : ℕ) (fs : List Field) {f : Field}
    → All Fits fs
    → get_elem? fs n ≡ some f
    → bit_and (masks (without n fs)) f.mask ≡ 0
    → bit_and (word fs) f.mask ≡ f.value
pick n fs {f} h e d = rw (word-join fs) (pick_join n fs f e h d)

join-lt : (k : ℕ) (fs : List Field) → All Fits fs → All (λ f. f.mask < 2 ^ k) fs → join fs < 2 ^ k
join-lt k [] h b = one-le-pow k 2 (omega arith)
join-lt k (f ∷ fs) (hf, h) (bf, b) =
    bit_or-lt k f.value (join fs) (rw (← hf) (omega (arith, bit_and-le_right f.value f.mask)))
      (join-lt k fs h b)

-- The word has no bits but those of the masks.
pub word-lt :
    (k : ℕ) (fs : List Field) → All Fits fs → All (λ f. f.mask < 2 ^ k) fs → word fs < 2 ^ k
word-lt k fs h b = rw (word-join fs) (join-lt k fs h b)

-- A field taken out of a word by shift and remainder, and put back in its place.
pub place : (k n w : ℕ) → w / 2 ^ k % 2 ^ n * 2 ^ k ≡ bit_and w ((2 ^ n - 1) * 2 ^ k)
place k n w = ap (λ t. t * 2 ^ k) (sym (bit_and_low n (w / 2 ^ k))) ∙ bit_and_shr k w (2 ^ n - 1)

bit : (x : ℕ) → x < 2 → from_bool (x == 1) ≡ x
bit x h = ground arith

pub place_flag : (k w : ℕ) → from_bool (bit_and (w / 2 ^ k) 1 == 1) * 2 ^ k ≡ bit_and w (1 * 2 ^ k)
place_flag k w =
    ap (λ t. t * 2 ^ k) (bit _ (omega (arith, bit_and_low 1 (w / 2 ^ k)))) ∙ bit_and_shr k w 1

pub whole : (w : ℕ) → IsU32 w → bit_and w 0xffff_ffff ≡ w
whole w h = bit_and_low 32 w ∙ mod-eq_of_lt h

-- A flag is read back by comparing its bit with 1.
pub flag : (x : ℕ) (b : Bool) → x ≡ from_bool b → (x == 1) ≡ b
flag x true e = ground arith
flag x false e = ground arith

-- A mask applies once.
pub masked_again : (w m : ℕ) → bit_and (bit_and w m) m ≡ bit_and w m
masked_again w m = bit_and_assoc w m m ∙ ap (bit_and w) (bit_and_self m)

-- `(w & m) as uK`, for a mask `m` of K bits at most.
pub narrow : (k n w : ℕ) → 2 ^ n ≤ 2 ^ k → bit_and w (2 ^ n - 1) % 2 ^ k ≡ bit_and w (2 ^ n - 1)
narrow k n w h =
    mod-eq_of_lt (rw bit_and_low (omega (arith, mod-lt w (one-le-pow n 2 (omega arith)))))

pub place_masked :
    (k n w : ℕ)
    → 2 ^ n ≤ 2 ^ 8
    → bit_and (w / 2 ^ k) (2 ^ n - 1) % 2 ^ 8 * 2 ^ k ≡ bit_and w ((2 ^ n - 1) * 2 ^ k)
place_masked k n w h = ap (λ t. t * 2 ^ k) (narrow 8 n (w / 2 ^ k) h) ∙ bit_and_shr k w (2 ^ n - 1)

pub place_low_flag : (w : ℕ) → from_bool (bit_and w 1 == 1) ≡ bit_and w 1
place_low_flag w = bit _ (omega (arith, bit_and_low 1 w))

pub masked-lt : (n w : ℕ) → bit_and w (2 ^ n - 1) < 2 ^ n
masked-lt n w = rw bit_and_low (mod-lt w (one-le-pow n 2 (omega arith)))
