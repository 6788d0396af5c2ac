-- ===== src/Bm13xx/Codec/Frames.antt =====
-- The frames that `FrameCodec` appends to the buffer on the way to the chips.
use mujina.Common.{ℕ, ◌≡◌, refl, sym, List, [], ◌∷◌, ◌++◌, length, drop}
use mujina.Common.{append_assoc, append-nil, some, none, Option}
use mujina.Bm13xx.Crc.{crc5, crc16}
use mujina.Bm13xx.Register.RoundTrip.{encode-wire}
use mujina.Bm13xx.Command.{
  RegisterCommand, set_chip_address, chain_inactive, read_register, write_register, encode_register,
  JobCommand, job_full, job_midstate, encode_job, put_midstate,
}
use mujina.Bm13xx.Codec.{encode_register_frame, encode_job_frame, be_bytes16}

-- What is in the buffer already stays, and does not change what is put behind it.
pub encode_register-append :
    (c : RegisterCommand) (dst : List ℕ) → encode_register c dst ≡ dst ++ encode_register c []
unfolding encode_register
encode_register-append (set_chip_address a) dst = simp append_assoc
encode_register-append chain_inactive dst = simp append_assoc
encode_register-append (read_register d a) dst = simp append_assoc
encode_register-append (write_register d r) dst = simp (encode-wire, append_assoc)

midstate_bytes : Option (List ℕ) → List ℕ
midstate_bytes none = []
midstate_bytes (some midstate) = midstate

put_midstate-append :
    (m : Option (List ℕ)) (dst : List ℕ) → put_midstate m dst ≡ dst ++ midstate_bytes m
unfolding midstate_bytes
put_midstate-append none dst = sym (append-nil dst)
put_midstate-append (some midstate) dst = refl

pub encode_job-append : (c : JobCommand) (dst : List ℕ) → encode_job c dst ≡ dst ++ encode_job c []
unfolding encode_job
encode_job-append (job_full j) dst = simp append_assoc
encode_job-append (job_midstate j) dst = simp (append_assoc, put_midstate-append)

drop-append : (xs ys : List ℕ) → drop (length xs) (xs ++ ys) ≡ ys
drop-append [] ys = refl
drop-append (x ∷ xs) ys = drop-append xs ys

-- A register frame is the preamble, the command and the CRC-5 of the command, behind whatever the
-- buffer holds.
pub encode_register_frame_lem :
    (c : RegisterCommand) (dst : List ℕ)
    → encode_register_frame c dst
      ≡ dst ++ (0x55 ∷ 0xaa ∷ (encode_register c [] ++ (crc5 (encode_register c []) ∷ [])))
unfolding encode_register_frame
encode_register_frame_lem c dst =
    rw
      (
        encode_register-append c (dst ++ (0x55 ∷ 0xaa ∷ [])),
        drop-append (dst ++ (0x55 ∷ 0xaa ∷ [])) (encode_register c []),
      )
      (simp append_assoc)

-- A job frame is the preamble, the job and its CRC-16, the high byte first.
pub encode_job_frame_lem :
    (c : JobCommand) (dst : List ℕ)
    → encode_job_frame c dst
      ≡ dst ++ (0x55 ∷ 0xaa ∷ (encode_job c [] ++ be_bytes16 (crc16 (encode_job c []))))
unfolding encode_job_frame
encode_job_frame_lem c dst =
    rw
      (
        encode_job-append c (dst ++ (0x55 ∷ 0xaa ∷ [])),
        drop-append (dst ++ (0x55 ∷ 0xaa ∷ [])) (encode_job c []),
      )
      (simp append_assoc)
