-- ===== src/Sv2/Noise/Runs.antt =====
-- A small cipher for the tests: a message takes 16 bytes that number it.
use supryolo.Base.{
  ℕ, ◌+◌, ◌-◌, ◌≡◌, refl, sym, ap, ◌∙◌, arith, List, [], ◌∷◌, ◌++◌, Bool, true, false, none, some,
  length, take, drop, replicate, ◌==◌, if◌then◌else◌, ok, err, length-append, ◌≢◌,
}
use supryolo.Words.RoundTrip.{take-length, drop-length}
use supryolo.Sv2.Types.{Frame}
use supryolo.Sv2.Noise.{
  Noise, Cipher, Handshake, finish, encode, receive, header_bytes, seal, transform, loop, pieces,
  seal_all, out_of_rounds,
}
use supryolo.Sv2.Noise.Payload.{Links, live}
use supryolo.Sv2.Noise.RoundTrip.{IsFrame}
use supryolo.Sv2.Noise.RoundTrip.Frames.{receive-encode_all, encode_all}
use supryolo.Sv2.Noise.Poison.{receive-poisons, encode_refusal}
use supryolo.Sv2.Noise.Fuel.{loop-enough}

abbrev tag : ℕ → List ℕ
tag k = replicate 16 k

abbrev tagged : ℕ → List ℕ → Bool
tagged k [] = false
tagged k (t ∷ ts) = t == k

abbrev toy : Cipher ℕ
toy false p k = some (p ++ tag k, k + 1)
toy true c k =
    if tagged k (drop (length c - 16) c) then some (take (length c - 16) c, k + 1) else none

toy_opens : (p : List ℕ) (k : ℕ) → toy true (p ++ tag k) k ≡ some (p, k + 1)
toy_opens p k =
    rw
      (
        drop-length p (tag k) (length (p ++ tag k) - 16) shorter,
        take-length p (tag k) (length (p ++ tag k) - 16) shorter,
        same k,
      )
      refl
  where
    shorter : length p ≡ length (p ++ tag k) - 16
    shorter = omega (arith, length-append p (tag k))

    same : (k : ℕ) → (k == k) ≡ true
    same k = ground arith

toy_links : Links toy ◌≡◌
toy_links a b p paired short = (
  p ++ tag a,
  a + 1,
  a + 1,
  refl,
  length-append p (tag a),
  ap (toy true (p ++ tag a)) (sym paired) ∙ toy_opens p a,
  refl,
)

abbrev ping : Frame
ping = record { extension = 0x8000; type = 0x1a; payload = 1 ∷ 2 ∷ 3 ∷ [] }

abbrev empty_frame : Frame
empty_frame = record { extension = 0; type = 1; payload = [] }

abbrev two_frames : List Frame
two_frames = ping ∷ empty_frame ∷ []

ping-IsFrame : IsFrame ping
ping-IsFrame = record { extensions = omega arith; types = omega arith; payloads = omega arith }

empty-IsFrame : IsFrame empty_frame
empty-IsFrame = record { extensions = omega arith; types = omega arith; payloads = omega arith }

receive-encode_all_example :
    (c : List ℕ) × (a' : ℕ) × (b' : ℕ) × (a' ≡ b')
    × (encode_all toy two_frames (live 0 [] none 0) ≡ (ok c, live a' [] none 0))
    × (receive toy c (live 0 [] none 0) ≡ (ok two_frames, live b' [] none 0))
receive-encode_all_example =
    receive-encode_all toy ◌≡◌ two_frames 0 0 toy_links refl (ping-IsFrame, (empty-IsFrame, tt))
      (omega arith) (omega arith)

-- The bytes of one frame.
encoded_ping : encode toy ping (live 0 [] none 0) ≡ (
  ok ((0 ∷ 128 ∷ 26 ∷ 3 ∷ 0 ∷ 0 ∷ []) ++ (tag 0 ++ ((1 ∷ 2 ∷ 3 ∷ []) ++ tag 1))),
  live 2 [] none 0,
)
unfolding encode seal transform header_bytes seal_all pieces
encoded_ping = refl

abbrev forged : List ℕ
forged = replicate 22 9

abbrev failed_toy : Noise ℕ
failed_toy = record (live 0 forged none 0) { failed = true }

-- With no library answer for a forged header, receiving throws.
refused :
    receive toy forged (live 0 [] none 0)
    ≡ (err "SV2 Noise authentication/encryption failed", failed_toy)
unfolding receive loop transform
refused = refl

receive-poisons_example :
    (failed_toy.failed ≡ true)
    × ((later : List ℕ) → (receive toy later failed_toy).0 ≡ err "SV2 Noise session unavailable")
    × ((f : Frame) → (encode toy f failed_toy).0 ≡ err (encode_refusal f))
    × ((handshake : Handshake ℕ) (later : List ℕ)
        → (finish handshake later failed_toy).0 ≡ err "SV2 Noise certificate authentication failed")
receive-poisons_example =
    receive-poisons toy forged (live 0 [] none 0) failed_toy
      "SV2 Noise authentication/encryption failed" refused

loop-enough_example :
    ((loop toy 29 forged [] (live 0 forged none 0)).0 ≢ err out_of_rounds)
    × (loop toy 29 forged [] (live 0 forged none 0)
        ≡ loop toy (22 + 2) forged [] (live 0 forged none 0))
    × ((receive toy forged (live 0 forged none 0)).0 ≢ err out_of_rounds)
loop-enough_example = loop-enough toy 29 forged [] (live 0 forged none 0) (omega arith)
