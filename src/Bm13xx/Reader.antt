-- ===== src/Bm13xx/Reader.antt =====
-- mujina-miner/src/asic/bm13xx/reader.rs: the responses of the chips put on two channels by their
-- kind. An item of the stream is `none` for an error; with it stands whether the receiver takes it.
use mujina.Common.{Bool, true, false, ◌≡◌, refl, ap, List, [], ◌∷◌, Option, none, some}
use mujina.Bm13xx.Response.{Response, nonce, read_register, NonceResponse, RegisterResponse}

-- What the loop has sent when it exits, on the channels of nonces and of register responses.
unfoldable pub run : List (Option Response × Bool) → List NonceResponse × List RegisterResponse
run [] = ([], [])
run ((none, taken) ∷ stream) = ([], [])
run ((some response, false) ∷ stream) = ([], [])
run ((some (nonce n), true) ∷ stream) =
    let (nonces, register_responses) = run stream in (n ∷ nonces, register_responses)
run ((some (read_register r), true) ∷ stream) =
    let (nonces, register_responses) = run stream in (nonces, r ∷ register_responses)

-- The responses that are delivered before the loop exits, in the order of the wire.
delivered : List (Option Response × Bool) → List Response
delivered [] = []
delivered ((none, taken) ∷ stream) = []
delivered ((some response, false) ∷ stream) = []
delivered ((some response, true) ∷ stream) = response ∷ delivered stream

nonces_of : List Response → List NonceResponse
nonces_of [] = []
nonces_of (nonce n ∷ rs) = n ∷ nonces_of rs
nonces_of (read_register r ∷ rs) = nonces_of rs

registers_of : List Response → List RegisterResponse
registers_of [] = []
registers_of (nonce n ∷ rs) = registers_of rs
registers_of (read_register r ∷ rs) = r ∷ registers_of rs

-- Each channel carries the delivered responses of its kind, all of them and in order.
run-delivered :
    (stream : List (Option Response × Bool))
    → run stream ≡ (nonces_of (delivered stream), registers_of (delivered stream))
unfolding run delivered nonces_of registers_of
run-delivered [] = refl
run-delivered ((none, taken) ∷ stream) = refl
run-delivered ((some response, false) ∷ stream) = refl
run-delivered ((some (nonce n), true) ∷ stream) = ap (λ p. (n ∷ p.0, p.1)) (run-delivered stream)
run-delivered ((some (read_register r), true) ∷ stream) =
    ap (λ p. (p.0, r ∷ p.1)) (run-delivered stream)
