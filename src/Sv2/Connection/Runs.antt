-- ===== src/Sv2/Connection/Runs.antt =====
-- A small library, and the theorem at concrete pieces.
use supryolo.Base.{
  ℕ, ◌+◌, ◌≡◌, refl, arith, true, length, ◌<◌, ◌==◌, List, [], ◌∷◌, ◌++◌, some, replicate,
}
use supryolo.Base.Bytes.{codes}
use supryolo.Sv2.Session.{init}
use supryolo.Sv2.Noise.{Cipher, Handshake}
use supryolo.Sv2.Connection.{Connection, connect, receive}
use supryolo.Sv2.Connection.Chunks.{receive_all, joined, receive_all-joined}

abbrev open_cipher : Cipher ℕ
open_cipher decrypt b k = some (b, k + 1)

abbrev willing : Handshake ℕ
willing b k = some (k + 1)

abbrev fresh : Connection ℕ
fresh = connect 0 (replicate 64 1) (init (codes "pool") 3333 (codes "worker") 0)

abbrev two_pieces : List (List ℕ)
two_pieces = replicate 100 2 ∷ replicate 50 3 ∷ []

fresh_phase : (fresh.session.phase == 0) ≡ true
unfolding connect init
fresh_phase = refl

fresh_short : length (fresh.handshake ++ joined two_pieces) < 234
unfolding connect init
fresh_short = omega arith

receive_all-joined_example :
    receive_all open_cipher willing two_pieces (replicate 90 4) fresh
    ≡ receive open_cipher willing (joined two_pieces ++ replicate 90 4) fresh
receive_all-joined_example =
    receive_all-joined open_cipher willing two_pieces (replicate 90 4) fresh fresh_phase fresh_short
