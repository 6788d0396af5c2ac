-- ===== src/Extranonce/Split.antt =====
-- mujina-miner/src/job_source/extranonce.rs: what `split` makes of a range.
use mujina.Common.{ℕ, zero, suc, ◌+◌, ◌-◌, ◌*◌, ◌/◌, ◌%◌, ◌^◌, ◌≤◌, ◌<◌, ◌≡◌, refl, ap, subst}
use mujina.Common.{
  arith, List, [], ◌∷◌, Option, some, none, length, All, ltb, ◌==◌, ◌||◌, from_bool, Bool-cases,
}
use native.Mathlib.Nat.{div-add-mod, mod-lt, le-div_iff_mul-le}
use mujina.Common.{Bool, inl, inr, ◌⊎◌, true, false}
use mujina.Extranonce.{ExtranonceRange, split_parts, split, range_len}

-- The ranges follow each other without gap or overlap from `lo` to just below `hi`, none empty, and
-- all of the given width.
unfoldable pub Tiles : ℕ → ℕ → ℕ → List ExtranonceRange → Type 0
Tiles width lo hi [] = lo ≡ hi
Tiles width lo hi (p ∷ ps) =
    (p.first ≡ lo) × (p.first ≤ p.last) × (p.width ≡ width) × Tiles width (p.last + 1) hi ps

-- Ranges of a length or of one more.
unfoldable pub Even : ℕ → List ExtranonceRange → Type 0
Even base ps = All (λ p. (range_len p ≡ base) ⊎ (range_len p ≡ base + 1)) ps

length-split_parts :
    (width base extra k i first : ℕ) → length (split_parts width base extra k i first) ≡ k
unfolding split_parts
length-split_parts width base extra zero i first = refl
length-split_parts width base extra (suc k) i first =
    ap suc (length-split_parts width base extra k (suc i) _)

-- One more part in front.
tile :
    (width lo last next hi : ℕ) (ps : List ExtranonceRange)
    → lo ≤ last
    → next ≡ last + 1
    → Tiles width next hi ps
    → Tiles width lo hi (record { first = lo; last = last; width = width } ∷ ps)
unfolding Tiles
tile width lo last next hi ps le e h = (refl, le, refl, subst (λ n. Tiles width n hi ps) e h)

one_more : (i extra : ℕ) → from_bool (ltb i extra) + (extra - suc i) ≡ extra - i
one_more i extra = elim (Bool-cases (ltb i extra)) [
  | inl h ↦ rw h (ground arith)
  | inr h ↦ rw h (ground arith)
]

-- Without wrapping: the end of a part that is not the last one, and where the next one starts.
part_last :
    (base one k rest left first : ℕ)
    → 0 < base
    → one + left ≡ rest
    → first + suc (suc k) * base + rest ≤ 2 ^ 64
    → (first + (base + one - 1) % 2 ^ 64) % 2 ^ 64 ≡ first + base + one - 1
part_last base one k rest left first pos e bound = omega arith

part_next :
    (base one k rest left first : ℕ)
    → 0 < base
    → one + left ≡ rest
    → first + suc (suc k) * base + rest ≤ 2 ^ 64
    → ((first + (base + one - 1) % 2 ^ 64) % 2 ^ 64 + 1) % 2 ^ 64 ≡ first + base + one
part_next base one k rest left first pos e bound =
    rw (part_last base one k rest left first pos e bound) (omega arith)

split_parts-Tiles :
    (width base extra k i first : ℕ)
    → 0 < base
    → extra ≤ i + k
    → first + k * base + (extra - i) ≤ 2 ^ 64
    → Tiles width first (first + k * base + (extra - i)) (split_parts width base extra k i first)
unfolding split_parts Tiles
split_parts-Tiles width base extra zero i first pos le bound = omega arith
split_parts-Tiles width base extra (suc zero) i first pos le bound =
    elim (Bool-cases (ltb i extra)) [ inl h ↦ rw h (ground arith) | inr h ↦ rw h (ground arith) ]
split_parts-Tiles width base extra (suc (suc k)) i first pos le bound =
    let one = from_bool (ltb i extra) in
    let left = one_more i extra in
    let last = (first + (base + one - 1) % 2 ^ 64) % 2 ^ 64 in
    let hi = first + suc (suc k) * base + (extra - i) in
    let e = part_last base one k (extra - i) (extra - suc i) first pos left bound in
    let f = part_next base one k (extra - i) (extra - suc i) first pos left bound in
    let ends : (last + 1) % 2 ^ 64 + suc k * base + (extra - suc i) ≡ hi = omega arith in
    let ps = split_parts width base extra (suc k) (suc i) ((last + 1) % 2 ^ 64) in
    tile width first last ((last + 1) % 2 ^ 64) hi ps (omega arith) (omega arith) (
      subst (λ h. Tiles width ((last + 1) % 2 ^ 64) h ps) ends
        (split_parts-Tiles width base extra (suc k) (suc i) ((last + 1) % 2 ^ 64) pos (omega arith)
          (omega arith)))

part_len :
    (base one first last : ℕ) (b : Bool)
    → from_bool b ≡ one
    → 0 < base
    → last ≡ first + base + one - 1
    → (last - first + 1 ≡ base) ⊎ (last - first + 1 ≡ base + 1)
part_len base one first last true e pos f = inr (omega arith)
part_len base one first last false e pos f = inl (omega arith)

split_parts-Even :
    (width base extra k i first : ℕ)
    → 0 < base
    → extra ≤ i + k
    → first + k * base + (extra - i) ≤ 2 ^ 64
    → Even base (split_parts width base extra k i first)
unfolding split_parts Even range_len
split_parts-Even width base extra zero i first pos le bound = tt
split_parts-Even width base extra (suc zero) i first pos le bound =
    elim (Bool-cases (ltb i extra)) [
      | inl h ↦ rw h (inr (ground arith), tt)
      | inr h ↦ rw h (inl (ground arith), tt)
    ]
split_parts-Even width base extra (suc (suc k)) i first pos le bound =
    let one = from_bool (ltb i extra) in
    let left = one_more i extra in
    let last = (first + (base + one - 1) % 2 ^ 64) % 2 ^ 64 in
    let e = part_last base one k (extra - i) (extra - suc i) first pos left bound in
    let f = part_next base one k (extra - i) (extra - suc i) first pos left bound in
    (
      part_len base one first last (ltb i extra) refl pos e,
      split_parts-Even width base extra (suc k) (suc i) ((last + 1) % 2 ^ 64) pos (omega arith)
          (omega arith),
    )

-- A range of the code: in order, and within the counter.
pub record IsRange (range : ExtranonceRange) : Type 0 where
  pub ordered : range.first ≤ range.last
  pub bounded : range.last < 2 ^ 64

-- What `split` promises: nothing for no parts or for more parts than extranonces, else `n` parts
-- that tile the range and differ in length by one at most.
unfoldable pub SplitOk : ExtranonceRange → ℕ → Option (List ExtranonceRange) → Type 0
SplitOk range n none = (n ≡ 0) ⊎ (range_len range < n)
SplitOk range n (some ps) =
    (length ps ≡ n)
    × Tiles range.width range.first (range.last + 1) ps
    × Even (range_len range / n) ps

range_len_is : (range : ExtranonceRange) → range_len range ≡ range.last - range.first + 1
unfolding range_len
range_len_is range = refl

base_pos : (len n : ℕ) → 0 < n → n ≤ len → 0 < len / n
base_pos len n pos le =
    let iff = le-div_iff_mul-le {k = n} {x = 1} {y = len} pos in
    let one : 1 ≤ len / n = iff.1 (omega arith) in omega arith

split_ok :
    (range : ExtranonceRange) (n : ℕ)
    → IsRange range
    → 0 < n
    → n ≤ range_len range
    → SplitOk range n
        (some (split_parts range.width (range_len range / n) (range_len range % n) n 0 range.first))
unfolding SplitOk
split_ok range n ok pos le =
    let base = range_len range / n in
    let extra = range_len range % n in
    let base_is_pos = base_pos (range_len range) n pos le in
    let few = mod-lt (range_len range) pos in
    let whole = div-add-mod (range_len range) n in
    let len = range_len_is range in
    let end : range.first + n * base + (extra - 0) ≡ range.last + 1 = omega arith in
    let bound : range.first + n * base + (extra - 0) ≤ 2 ^ 64 = omega arith in
    (
      length-split_parts range.width base extra n 0 range.first,
      subst
          (λ hi.
            Tiles range.width range.first hi (split_parts range.width base extra n 0 range.first))
          end
          (split_parts-Tiles range.width base extra n 0 range.first base_is_pos (omega arith)
            bound),
      split_parts-Even range.width base extra n 0 range.first base_is_pos (omega arith) bound,
    )

-- Of a range in order and within the counter, `split` gives nothing exactly for no parts or more parts than extranonces; else it gives `n` parts
-- that follow each other from the first extranonce of the range to its last, without gap or overlap,
-- all of the range's width, with lengths that differ by one at most.
pub split-SplitOk :
    (range : ExtranonceRange) (n : ℕ) → IsRange range → SplitOk range n (split range n)
unfolding split SplitOk
split-SplitOk range n ok = elim (Bool-cases ((n == 0) || ltb (range_len range) n)) [
  | inl h ↦ rw (h, split, SplitOk) (ground arith)
  | inr h ↦ rw (h, split) (split_ok range n ok (ground arith) (ground arith))
]
