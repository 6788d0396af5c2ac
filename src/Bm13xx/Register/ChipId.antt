-- ===== src/Bm13xx/Register/ChipId.antt =====
-- `ChipId` (0x00) of mujina-miner/src/asic/bm13xx/register.rs: the model and the chain address.
use mujina.Common.{ℕ, ◌≡◌, List, [], ◌∷◌, ◌++◌, append_assoc, arith, Result, ok, ◌>>=◌, IsByte}
use mujina.Common.Words.{Bytes4, AreBytes, put_u8, to_list}
use mujina.Bm13xx.Error.{ProtocolError}
use mujina.Bm13xx.Register.ChipModel.{
  ChipModel, id_bytes, try_from, try_from-id_bytes, id_bytes-try_from,
}

pub record ChipId : Type 0 where
  pub model : ChipModel
  pub unknown : ℕ
  pub address : ℕ

pub wire : ChipId → Bytes4
wire r = record {
  byte0 = (id_bytes r.model).0;
  byte1 = (id_bytes r.model).1;
  byte2 = r.unknown;
  byte3 = r.address;
}

unfoldable pub encode : ChipId → List ℕ → List ℕ
encode r dst =
    let (high, low) = id_bytes r.model in
    put_u8 r.address (put_u8 r.unknown (dst ++ (high ∷ low ∷ [])))

unfoldable pub decode : Bytes4 → Result ProtocolError ChipId
decode bytes = do
  model ← try_from bytes.byte0 bytes.byte1
  ok (record { model = model; unknown = bytes.byte2; address = bytes.byte3 })

pub record IsCanonical (r : ChipId) : Type 0 where
  pub byte_unknown : IsByte r.unknown
  pub byte_address : IsByte r.address

pub encode-wire : (r : ChipId) (dst : List ℕ) → encode r dst ≡ dst ++ to_list (wire r)
unfolding encode wire
encode-wire r dst = simp append_assoc

-- What is encoded is decoded.
pub decode-wire : (r : ChipId) → decode (wire r) ≡ ok r
unfolding decode wire
decode-wire r = rw (try_from-id_bytes r.model)

-- What is decoded is encoded as it came.
pub wire-decode : (b : Bytes4) (r : ChipId) → decode b ≡ ok r → wire r ≡ b
unfolding decode wire
wire-decode b r e = ground (arith, id_bytes-try_from b.byte0 b.byte1 r.model)

pub decode-IsCanonical : (b : Bytes4) (r : ChipId) → AreBytes b → decode b ≡ ok r → IsCanonical r
unfolding decode
decode-IsCanonical b r h e = ground arith
