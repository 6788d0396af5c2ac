-- ===== src/Bm13xx/Codec/Stream.antt =====
-- Successive calls of `FrameCodec::decode` on a buffer: what each takes and reports.
use mujina.Common.{
  ℕ, zero, suc, ◌≤◌, ◌<◌, ◌≡◌, ◌≢◌, refl, sym, ap, subst, arith, List, [], ◌∷◌, ◌++◌,
}
use mujina.Common.{append_assoc, length, length-append, drop, All, Option, some, none, ok}
use mujina.Common.{Result-cases, inl, inr, true, Bool-cases, ◌==◌}
use mujina.Common.Words.{to_le_bytes}
use mujina.Bm13xx.Crc.{crc5_is_valid}
use mujina.Bm13xx.Register.ChipModel.{ChipModel}
use mujina.Bm13xx.Response
use mujina.Bm13xx.Response.{Response, Body, read_register, nonce}
use mujina.Bm13xx.Codec.{Frame, first_frame, body_bytes, consume, decode_frame, decode}
use mujina.Bm13xx.Codec.Chip.{chip_frame, front_bytes, IsReportable}
use mujina.Bm13xx.Codec.Decode.{decode-chip_frame}

-- A buffer is too short for a frame, or it is a frame and what follows.
data View (src : List ℕ) : Type 0 where
  short : length src < 11 → first_frame src ≡ none → View src
  full :
      (f : Frame) (rest : List ℕ)
      → first_frame src ≡ some f
      → src ≡ f.preamble0 ∷ f.preamble1 ∷ (body_bytes f.body ++ rest)
      → View src

view : (src : List ℕ) → View src
unfolding first_frame
view (p0 ∷ p1 ∷ b0 ∷ b1 ∷ b2 ∷ b3 ∷ b4 ∷ b5 ∷ b6 ∷ b7 ∷ b8 ∷ rest) = full _ rest refl refl
view _ = short (omega arith) refl

-- What one call does with a frame's worth of bytes.
pub data Outcome (model : ChipModel) (src : List ℕ) : Option Response × List ℕ → Type 0 where
  wait : length src < 11 → Outcome model src (none, src)
  skip : 11 ≤ length src → Outcome model src (none, drop 1 src)
  take_frame :
      (b : Body) (r : Response) (rest : List ℕ)
      → src ≡ 0xaa ∷ 0x55 ∷ (body_bytes b ++ rest)
      → crc5_is_valid (body_bytes b) ≡ true
      → Response.decode b model ≡ ok r
      → Outcome model src (some r, rest)

consume-Outcome :
    (model : ChipModel) (b : Body) (rest src : List ℕ)
    → src ≡ 0xaa ∷ 0x55 ∷ (body_bytes b ++ rest)
    → crc5_is_valid (body_bytes b) ≡ true
    → Outcome model src (consume src (Response.decode b model))
unfolding consume
consume-Outcome model b rest src e v = elim (Result-cases (Response.decode b model)) [
  | inl (r, d) ↦
      rw (d, consume)
        (subst (λ t. Outcome model src (some r, t)) (sym (ap (drop 11) e))
          (take_frame b r rest e v d))
  | inr (x, d) ↦ rw (d, consume) (skip (rw e (omega arith)))
]

preamble_is :
    (f : Frame) (rest src : List ℕ)
    → src ≡ f.preamble0 ∷ f.preamble1 ∷ (body_bytes f.body ++ rest)
    → (f.preamble0 == 0xaa) ≡ true
    → (f.preamble1 == 0x55) ≡ true
    → src ≡ 0xaa ∷ 0x55 ∷ (body_bytes f.body ++ rest)
preamble_is f rest src s p q = ground arith

frame-Outcome :
    (model : ChipModel) (f : Frame) (rest src : List ℕ)
    → src ≡ f.preamble0 ∷ f.preamble1 ∷ (body_bytes f.body ++ rest)
    → Outcome model src (decode_frame model src f)
unfolding decode_frame
frame-Outcome model f rest src s =
    let dropped : Outcome model src (none, drop 1 src) = skip (rw s (omega arith)) in
    elim (Bool-cases (f.preamble0 == 0xaa)) [
      | inr p ↦ rw (p, decode_frame) dropped
      | inl p ↦ elim (Bool-cases (f.preamble1 == 0x55)) [
        | inr q ↦ rw (p, q, decode_frame) dropped
        | inl q ↦ elim (Bool-cases (crc5_is_valid (body_bytes f.body))) [
          | inr v ↦ rw (p, q, v, decode_frame) dropped
          | inl v ↦
              rw (p, q, v, decode_frame)
                (consume-Outcome model f.body rest src (preamble_is f rest src s p q) v)
        ]
      ]
    ]

-- Each call waits with the buffer as it is if that is shorter than a frame, drops one byte, or
-- reports the response of a frame with preamble and valid CRC and takes its eleven bytes.
pub decode-Outcome : (model : ChipModel) (src : List ℕ) → Outcome model src (decode model src)
unfolding decode
decode-Outcome model src = elim (view src) [
  | short h e ↦ rw (e, decode) (wait h)
  | full f rest e s ↦ rw (e, decode) (frame-Outcome model f rest src s)
]

-- A byte that starts no frame is dropped, once ten more bytes are there.
skip_byte :
    (model : ChipModel) (x : ℕ) (src : List ℕ)
    → x ≢ 0xaa
    → 10 ≤ length src
    → decode model (x ∷ src) ≡ (none, src)
unfolding decode decode_frame first_frame
skip_byte model x (b0 ∷ b1 ∷ b2 ∷ b3 ∷ b4 ∷ b5 ∷ b6 ∷ b7 ∷ b8 ∷ b9 ∷ rest) ne h = ground arith
skip_byte model x _ ne h = absurd (omega arith)

-- `n` calls in a row: the responses, in order, and what is left in the buffer.
prepend : Option Response → List Response → List Response
prepend none rs = rs
prepend (some r) rs = r ∷ rs

unfoldable pub calls : ℕ → ChipModel → List ℕ → List Response × List ℕ
unfolding prepend
calls zero model src = ([], src)
calls (suc n) model src =
    let (o, left) = decode model src in let (rs, rest) = calls n model left in (prepend o rs, rest)

abbrev pub frames : ChipModel → List Response → List ℕ
frames model [] = []
frames model (r ∷ rs) = chip_frame model r ++ frames model rs

-- As many calls as chips have sent frames, for responses whose fields fit the frame, report these
-- responses, in order, and leave what follows.
pub calls-frames :
    (model : ChipModel) (rs : List Response) (rest : List ℕ)
    → All (IsReportable model) rs
    → calls (length rs) model (frames model rs ++ rest) ≡ (rs, rest)
unfolding calls
calls-frames model [] rest h = refl
calls-frames model (r ∷ rs) rest (h, hs) = rw (
  append_assoc (chip_frame model r) (frames model rs) rest,
  decode-chip_frame model r (frames model rs ++ rest) h,
  calls-frames model rs rest hs,
)

chip_frame-length : (model : ChipModel) (r : Response) → length (chip_frame model r) ≡ 11
unfolding chip_frame front_bytes to_le_bytes
chip_frame-length model (read_register r) = refl
chip_frame-length model (nonce r) = refl

-- The decoder finds the frame of a response, whose fields fit the frame, behind bytes none of which
-- is the first of a preamble: one call for each of them, and one for the frame.
pub calls-resync :
    (model : ChipModel) (garbage : List ℕ) (r : Response) (rest : List ℕ)
    → All (λ x. x ≢ 0xaa) garbage
    → IsReportable model r
    → calls (suc (length garbage)) model (garbage ++ (chip_frame model r ++ rest)) ≡ (r ∷ [], rest)
unfolding calls
calls-resync model [] r rest g h = rw (decode-chip_frame model r rest h)
calls-resync model (x ∷ garbage) r rest (g, gs) h =
    let behind : List ℕ = garbage ++ (chip_frame model r ++ rest) in
    rw
      (skip_byte model x behind g (
        rw
          (
            length-append garbage (chip_frame model r ++ rest),
            length-append (chip_frame model r) rest,
            chip_frame-length model r,
          )
          (omega arith)))
      (calls-resync model garbage r rest gs h)

-- At a byte that is not the first of a preamble, a call returns nothing, though what it leaves in
-- the buffer is the whole frame of a response, whose fields fit the frame, and the next call on the
-- same buffer returns the response.
pub decode_withholds :
    (model : ChipModel) (x : ℕ) (r : Response) (rest : List ℕ)
    → x ≢ 0xaa
    → IsReportable model r
    → (decode model (x ∷ (chip_frame model r ++ rest)) ≡ (none, chip_frame model r ++ rest))
      × (decode model (chip_frame model r ++ rest) ≡ (some r, rest))
decode_withholds model x r rest ne h = (
  skip_byte model x (chip_frame model r ++ rest) ne
      (rw (length-append (chip_frame model r) rest, chip_frame-length model r) (omega arith)),
  decode-chip_frame model r rest h,
)
