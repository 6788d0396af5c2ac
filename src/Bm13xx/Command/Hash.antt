-- ===== src/Bm13xx/Command/Hash.antt =====
-- The order of the words of a hash on the wire, of mujina-miner/src/asic/bm13xx/command.rs.
use mathlib.Core.List.{reverse, reverse-cons, reverse-reverse}
use mujina.Common.{ℕ, zero, suc, ◌≡◌, refl, sym, ap, ◌∙◌, List, [], ◌∷◌, ◌++◌, take, drop}
use mujina.Common.{length, length-append, append_assoc, append-nil, arith}
use mujina.Common.Words.{Bytes4, to_list}

-- `for i in 0..8`: word `i` of the one array goes to word `7 - i` of the other, which so fills from
-- its end. `n` is the number of words still to go, and `filled` the end that is filled.
pub copy_words : ℕ → List ℕ → List ℕ → List ℕ
copy_words zero rest filled = filled
copy_words (suc n) rest filled = copy_words n (drop 4 rest) (take 4 rest ++ filled)

unfoldable pub hash_to_wire_bytes : List ℕ → List ℕ
unfolding copy_words
hash_to_wire_bytes hash = copy_words 8 hash []

unfoldable pub hash_from_wire_bytes : List ℕ → List ℕ
unfolding copy_words
hash_from_wire_bytes wire_bytes = copy_words 8 wire_bytes []

-- The bytes of words, one word after the other.
abbrev pub of_words : List Bytes4 → List ℕ
of_words [] = []
of_words (w ∷ ws) = to_list w ++ of_words ws

of_words-append : (vs ws : List Bytes4) → of_words (vs ++ ws) ≡ of_words vs ++ of_words ws
of_words-append [] ws = refl
of_words-append (v ∷ vs) ws = ap (◌++◌ (to_list v)) (of_words-append vs ws)

copy_words-of_words :
    (ws : List Bytes4) (filled : List ℕ)
    → copy_words (length ws) (of_words ws) filled ≡ of_words (reverse ws) ++ filled
unfolding copy_words
copy_words-of_words [] filled = refl
copy_words-of_words (w ∷ ws) filled =
    copy_words-of_words ws (to_list w ++ filled)
    ∙ sym (append_assoc (of_words (reverse ws)) (to_list w) filled)
    ∙ ap (λ t. t ++ filled) (sym (of_words-append (reverse ws) (w ∷ [])))
    ∙ ap (λ t. of_words t ++ filled) (sym (reverse-cons w ws))

-- A hash of eight words goes out with the words in reverse order, and each as it was.
hash_to_wire_bytes-of_words :
    (ws : List Bytes4) → length ws ≡ 8 → hash_to_wire_bytes (of_words ws) ≡ of_words (reverse ws)
unfolding hash_to_wire_bytes
hash_to_wire_bytes-of_words ws h =
    ap (λ n. copy_words n (of_words ws) []) (sym h)
    ∙ copy_words-of_words ws []
    ∙ append-nil (of_words (reverse ws))

length-reverse : (ws : List Bytes4) → length (reverse ws) ≡ length ws
length-reverse [] = refl
length-reverse (w ∷ ws) =
    rw (reverse-cons w ws, length-append (reverse ws) (w ∷ []), length-reverse ws) (omega arith)

-- The conversion of a hash of eight words from the wire undoes the conversion to it.
pub hash_from_wire_bytes-hash_to_wire_bytes :
    (ws : List Bytes4)
    → length ws ≡ 8
    → hash_from_wire_bytes (hash_to_wire_bytes (of_words ws)) ≡ of_words ws
unfolding hash_from_wire_bytes hash_to_wire_bytes
hash_from_wire_bytes-hash_to_wire_bytes ws h =
    ap (λ t. copy_words 8 t []) (hash_to_wire_bytes-of_words ws h)
    ∙ hash_to_wire_bytes-of_words (reverse ws) (length-reverse ws ∙ h)
    ∙ ap of_words (reverse-reverse ws)
