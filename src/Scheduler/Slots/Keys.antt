-- ===== src/Scheduler/Slots/Keys.antt =====
-- The slot maps of mujina-miner/src/scheduler.rs: which keys they have after each operation.
use mujina.Common.{
  ℕ, ◌<◌, ◌≡◌, refl, sym, ap, ◌∙◌, subst, arith, Bool, true, false, not, ◌||◌, ◌&&◌, List, [], ◌∷◌,
  ◌++◌, some, ◌==◌, All, map, Bool-cases, inl, inr,
}
use mujina.Scheduler.Slots.{
  SlotMap, contains, keep, insert, find, get, put_in, put, filter_entries, retain, each, keys,
}

module _ {A : Type 0} where
  pub All-append :
      (P : A → Type 0) (xs : List A) (ys : List A) → All P xs → All P ys → All P (xs ++ ys)
  All-append P [] ys h k = k
  All-append P (x ∷ xs) ys (p, h) k = (p, All-append P xs ys h k)

  pub All-map : (P Q : A → Type 0) (xs : List A) → ((x : A) → P x → Q x) → All P xs → All Q xs
  All-map P Q [] f h = tt
  All-map P Q (x ∷ xs) f (p, h) = (f x p, All-map P Q xs f h)

  pub All-both : (P Q : A → Type 0) (xs : List A) → All P xs → All Q xs → All (λ x. P x × Q x) xs
  All-both P Q [] h k = tt
  All-both P Q (x ∷ xs) (p, h) (q, k) = ((p, q), All-both P Q xs h k)

pub contains-append :
    (xs ys : List ℕ) (k : ℕ) → contains (xs ++ ys) k ≡ contains xs k || contains ys k
unfolding contains
contains-append [] ys k = refl
contains-append (x ∷ xs) ys k = ground (arith, contains-append xs ys k)

pub contains_left : (xs ys : List ℕ) (k : ℕ) → contains xs k ≡ true → contains (xs ++ ys) k ≡ true
contains_left xs ys k h = rw (contains-append xs ys k, h) refl

pub contains_new : (xs : List ℕ) (k : ℕ) → contains (xs ++ k ∷ []) k ≡ true
unfolding contains
contains_new [] k = ground arith
contains_new (x ∷ xs) k = ground (arith, contains_new xs k)

pub All-self : (xs : List ℕ) → All (λ k. contains xs k ≡ true) xs
unfolding contains
All-self [] = tt
All-self (x ∷ xs) = (
  ground arith,
  All-map (λ k. contains xs k ≡ true) (λ k. (x == k) || contains xs k ≡ true) xs
      (λ k c. ground arith) (All-self xs),
)

-- What holds of all keys holds of one among them.
pub All-member : (P : ℕ → Type 0) (xs : List ℕ) (k : ℕ) → All P xs → contains xs k ≡ true → P k
unfolding contains
All-member P [] k h c = absurd (ground arith)
All-member P (x ∷ xs) k (p, h) c = elim (Bool-cases (x == k)) [
  | inl b ↦ let same : x ≡ k = ground arith in subst P same p
  | inr b ↦ All-member P xs k h (ground arith)
]

pub contains-keep :
    (p : ℕ → Bool) (xs : List ℕ) (k : ℕ) → contains (keep p xs) k ≡ p k && contains xs k
unfolding contains keep
contains-keep p [] k = ground arith
contains-keep p (x ∷ xs) k =
    let rest = contains-keep p xs k in
    elim (Bool-cases (x == k)) [
      | inl h ↦
          (let same : p x ≡ p k = ap p (ground arith) in
            rw (same, h)
              (elim (Bool-cases (p k)) [
                | inl q ↦ rw q (ground arith)
                | inr q ↦ rw q (rest ∙ ap (λ b. b && contains xs k) q)
              ]))
      | inr h ↦ ground (arith, rest)
    ]

-- No key twice.
unfoldable pub Distinct : List ℕ → Type 0
Distinct [] = Unit {0}
Distinct (k ∷ ks) = (contains ks k ≡ false) × Distinct ks

Distinct-append_one :
    (ks : List ℕ) (key : ℕ) → contains ks key ≡ false → Distinct ks → Distinct (ks ++ key ∷ [])
unfolding Distinct contains
Distinct-append_one [] key away d = (refl, tt)
Distinct-append_one (k ∷ ks) key away (first, d) =
    (contains-append ks (key ∷ []) k ∙ ground arith, Distinct-append_one ks key (ground arith) d)

module _ {V : Type 0} where
  keys_of : List (ℕ × V) → List ℕ
  keys_of entries = map (λ e. e.0) entries

  keys_of-append : (xs ys : List (ℕ × V)) → keys_of (xs ++ ys) ≡ keys_of xs ++ keys_of ys
  unfolding keys_of
  keys_of-append [] ys = refl
  keys_of-append (x ∷ xs) ys = ap (◌∷◌ x.0) (keys_of-append xs ys)

  pub keys-insert : (m : SlotMap V) (v : V) → keys (insert m v).0 ≡ keys m ++ m.issued ∷ []
  unfolding keys insert keys_of
  keys-insert m v = keys_of-append m.entries ((m.issued, v) ∷ [])

  keys_of-put_in :
      (entries : List (ℕ × V)) (key : ℕ) (v : V) → keys_of (put_in entries key v) ≡ keys_of entries
  unfolding put_in keys_of
  keys_of-put_in [] key v = refl
  keys_of-put_in ((k, u) ∷ rest) key v = elim (Bool-cases (k == key)) [
    | inl h ↦ rw h (ap (◌∷◌ k) (keys_of-put_in rest key v))
    | inr h ↦ rw h (ap (◌∷◌ k) (keys_of-put_in rest key v))
  ]

  pub keys-put : (m : SlotMap V) (key : ℕ) (v : V) → keys (put m key v) ≡ keys m
  unfolding keys put keys_of
  keys-put m key v = keys_of-put_in m.entries key v

  keys_of-map :
      (f : V → V) (entries : List (ℕ × V))
      → keys_of (map (λ e. (e.0, f e.1)) entries) ≡ keys_of entries
  unfolding keys_of
  keys_of-map f [] = refl
  keys_of-map f (e ∷ rest) = ap (◌∷◌ e.0) (keys_of-map f rest)

  pub keys-each : (f : V → V) (m : SlotMap V) → keys (each f m) ≡ keys m
  unfolding keys each keys_of
  keys-each f m = keys_of-map f m.entries

  -- Of what satisfies a property, what is retained satisfies it and the test.
  pub All-filter_entries :
      (P : ℕ × V → Type 0) (p : ℕ → V → Bool) (entries : List (ℕ × V))
      → All P entries
      → All (λ e. P e × (p e.0 e.1 ≡ true)) (filter_entries p entries)
  unfolding filter_entries
  All-filter_entries P p [] h = tt
  All-filter_entries P p ((k, v) ∷ rest) (q, h) = elim (Bool-cases (p k v)) [
    | inl b ↦ rw b ((q, b), All-filter_entries P p rest h)
    | inr b ↦ rw b (All-filter_entries P p rest h)
  ]

  -- A value is found at one of the keys, and satisfies what all do.
  pub All-find :
      (P : ℕ × V → Type 0) (entries : List (ℕ × V)) (key : ℕ) {v : V}
      → All P entries
      → find entries key ≡ some v
      → P (key, v)
  unfolding find
  All-find P [] key h e = cc
  All-find P ((k, u) ∷ rest) key {v} (q, h) e = elim (Bool-cases (k == key)) [
    | inl b ↦
        let same : k ≡ key = ground arith in
        let value : u ≡ v = ground arith in
        subst (λ x. P (key, x)) value (subst (λ x. P (x, u)) same q)
    | inr b ↦ All-find P rest key h (ground arith)
  ]

  contains-find :
      (entries : List (ℕ × V)) (key : ℕ) {v : V}
      → find entries key ≡ some v
      → contains (keys_of entries) key ≡ true
  unfolding find contains keys_of
  contains-find [] key e = cc
  contains-find ((k, u) ∷ rest) key {v} e = elim (Bool-cases (k == key)) [
    | inl b ↦ rw b refl
    | inr b ↦ rw b (contains-find rest key {v = v} (ground arith))
  ]

  pub contains-get :
      (m : SlotMap V) (key : ℕ) {v : V} → get m key ≡ some v → contains (keys m) key ≡ true
  unfolding get keys keys_of
  contains-get m key e = contains-find m.entries key e

  contains-filter_entries :
      (p : V → Bool) (entries : List (ℕ × V)) (key : ℕ)
      → contains (keys_of entries) key
        ≡ contains (keys_of (filter_entries (λ id v. p v) entries)) key
          || contains (keys_of (filter_entries (λ id v. not (p v)) entries)) key
  unfolding filter_entries contains keys_of
  contains-filter_entries p [] key = refl
  contains-filter_entries p ((k, v) ∷ rest) key =
      let tail = contains-filter_entries p rest key in
      elim (Bool-cases (p v)) [ inl b ↦ rw b (ground arith) | inr b ↦ rw b (ground arith) ]

  -- Every key is retained by a test or by its opposite.
  pub contains-retain :
      (p : V → Bool) (m : SlotMap V) (key : ℕ)
      → contains (keys m) key
        ≡ contains (keys (retain (λ id v. p v) m)) key
          || contains (keys (retain (λ id v. not (p v)) m)) key
  unfolding keys retain keys_of
  contains-retain p m key = contains-filter_entries p m.entries key

  contains-keys_of :
      (entries : List (ℕ × V)) → All (λ e. contains (keys_of entries) e.0 ≡ true) entries
  unfolding keys_of contains
  contains-keys_of [] = tt
  contains-keys_of (e ∷ rest) = (
    ground arith,
    All-map (λ d. contains (keys_of rest) d.0 ≡ true)
        (λ d. (e.0 == d.0) || contains (keys_of rest) d.0 ≡ true) rest (λ d c. ground arith)
        (contains-keys_of rest),
  )

  pub contains-entries : (m : SlotMap V) → All (λ e. contains (keys m) e.0 ≡ true) m.entries
  unfolding keys keys_of
  contains-entries m = contains-keys_of m.entries

  -- A test of the keys.
  keys_of-filter_entries :
      (p : ℕ → Bool) (entries : List (ℕ × V))
      → keys_of (filter_entries (λ id v. p id) entries) ≡ keep p (keys_of entries)
  unfolding keys_of filter_entries keep
  keys_of-filter_entries p [] = refl
  keys_of-filter_entries p ((k, v) ∷ rest) = elim (Bool-cases (p k)) [
    | inl b ↦ rw b (ap (◌∷◌ k) (keys_of-filter_entries p rest))
    | inr b ↦ rw b (keys_of-filter_entries p rest)
  ]

  pub keys-retain :
      (p : ℕ → Bool) (m : SlotMap V) → keys (retain (λ id v. p id) m) ≡ keep p (keys m)
  unfolding keys retain keys_of
  keys-retain p m = keys_of-filter_entries p m.entries

  -- An insertion loses no key, and its key is there.
  pub contains-insert :
      (m : SlotMap V) (v : V) (key : ℕ)
      → contains (keys m) key ≡ true
      → contains (keys (insert m v).0) key ≡ true
  contains-insert m v key h =
      ap (λ ks. contains ks key) (keys-insert m v) ∙ contains_left (keys m) (m.issued ∷ []) key h

  pub contains-insert_key : (m : SlotMap V) (v : V) → contains (keys (insert m v).0) m.issued ≡ true
  contains-insert_key m v =
      ap (λ ks. contains ks m.issued) (keys-insert m v) ∙ contains_new (keys m) m.issued

  find-contains :
      (entries : List (ℕ × V)) (key : ℕ)
      → contains (keys_of entries) key ≡ true
      → (v : V) × (find entries key ≡ some v)
  unfolding find contains keys_of
  find-contains [] key h = absurd (ground arith)
  find-contains ((k, u) ∷ rest) key h = elim (Bool-cases (k == key)) [
    | inl b ↦ rw b (u, refl)
    | inr b ↦ rw b (find-contains rest key (ground arith))
  ]

  pub get-contains :
      (m : SlotMap V) (key : ℕ) → contains (keys m) key ≡ true → (v : V) × (get m key ≡ some v)
  unfolding get keys keys_of
  get-contains m key h = find-contains m.entries key h

  absent_above :
      (entries : List (ℕ × V)) (key : ℕ)
      → All (λ e. e.0 < key) entries
      → contains (keys_of entries) key ≡ false
  unfolding keys_of contains
  absent_above [] key h = refl
  absent_above ((k, v) ∷ rest) key (lt, h) = ground (arith, absent_above rest key h)

  keys_absent :
      (m : SlotMap V) (key : ℕ) → All (λ e. e.0 < key) m.entries → contains (keys m) key ≡ false
  unfolding keys keys_of
  keys_absent m key h = absent_above m.entries key h

  pub insert-Distinct :
      (m : SlotMap V) (v : V)
      → All (λ e. e.0 < m.issued) m.entries
      → Distinct (keys m)
      → Distinct (keys (insert m v).0)
  insert-Distinct m v below d =
      subst Distinct (sym (keys-insert m v))
        (Distinct-append_one (keys m) m.issued (keys_absent m m.issued below) d)

  filter_entries-absent :
      (p : ℕ → V → Bool) (entries : List (ℕ × V)) (key : ℕ)
      → contains (keys_of entries) key ≡ false
      → contains (keys_of (filter_entries p entries)) key ≡ false
  unfolding filter_entries keys_of contains
  filter_entries-absent p [] key h = refl
  filter_entries-absent p ((k, v) ∷ rest) key h =
      let tail = filter_entries-absent p rest key (ground arith) in
      elim (Bool-cases (p k v)) [ inl b ↦ rw b (ground arith) | inr b ↦ rw b tail ]

  filter_entries-Distinct :
      (p : ℕ → V → Bool) (entries : List (ℕ × V))
      → Distinct (keys_of entries)
      → Distinct (keys_of (filter_entries p entries))
  unfolding filter_entries keys_of Distinct
  filter_entries-Distinct p [] d = tt
  filter_entries-Distinct p ((k, v) ∷ rest) (first, d) = elim (Bool-cases (p k v)) [
    | inl b ↦ rw b (filter_entries-absent p rest k first, filter_entries-Distinct p rest d)
    | inr b ↦ rw b (filter_entries-Distinct p rest d)
  ]

  pub retain-Distinct :
      (p : ℕ → V → Bool) (m : SlotMap V) → Distinct (keys m) → Distinct (keys (retain p m))
  unfolding retain keys keys_of
  retain-Distinct p m d = filter_entries-Distinct p m.entries d

  dropped_entry :
      (p : V → Bool) (entries : List (ℕ × V)) (key : ℕ) {v : V}
      → Distinct (keys_of entries)
      → find entries key ≡ some v
      → p v ≡ false
      → contains (keys_of (filter_entries (λ id u. p u) entries)) key ≡ false
  unfolding find filter_entries keys_of contains Distinct
  dropped_entry p [] key d e h = cc
  dropped_entry p ((k, u) ∷ rest) key {v} (first, d) e h = elim (Bool-cases (k == key)) [
    | inl b ↦
        let same : k ≡ key = ground arith in
        let value : u ≡ v = ground arith in
        let away = subst (λ x. contains (keys_of rest) x ≡ false) same first in
        rw (ap p value ∙ h) (filter_entries-absent (λ id u. p u) rest key away)
    | inr b ↦
        let tail = dropped_entry p rest key {v = v} d (ground arith) h in
        elim (Bool-cases (p u)) [ inl c ↦ rw c (ground arith) | inr c ↦ rw c tail ]
  ]

  -- With keys distinct, a value that fails the test is not retained under its key.
  pub retain-absent :
      (p : V → Bool) (m : SlotMap V) (key : ℕ) {v : V}
      → Distinct (keys m)
      → get m key ≡ some v
      → p v ≡ false
      → contains (keys (retain (λ id u. p u) m)) key ≡ false
  unfolding retain keys keys_of get
  retain-absent p m key d e h = dropped_entry p m.entries key d e h
