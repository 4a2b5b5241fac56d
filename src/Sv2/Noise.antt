-- ===== src/Sv2/Noise.antt =====
-- src/sv2_noise.cpp and the class `Noise` of include/yolo/sv2.hpp: frames over an encrypted stream. The
-- library behind `yolo_noise_finish` and `yolo_noise_transform` is an argument: what it does to its own
-- state and to the bytes, where `none` is a negative return. An operation returns its result, or the
-- text of what it throws, with the object as it is then.
pub mod Payload
pub mod RoundTrip
pub mod Poison
pub mod Falls
pub mod Fuel
mod Runs
use supryolo.Base.{
  ℕ, zero, suc, ◌+◌, ◌-◌, ◌*◌, ◌/◌, ◌%◌, ◌^◌, min, List, [], ◌∷◌, ◌++◌, Bool, true, false, not,
  ◌&&◌, ◌||◌, Option, none, some, length, take, drop, get_or, leb, ltb, ◌==◌, if◌then◌else◌, Result,
  ok, err, String,
}
use supryolo.Sv2.Types.{Frame}

-- `yolo_noise_transform`, decrypting when told so.
abbrev pub Cipher : Type 0 → Type 0
Cipher S = Bool → List ℕ → S → Option (List ℕ × S)

-- `yolo_noise_finish`.
abbrev pub Handshake : Type 0 → Type 0
Handshake S = List ℕ → S → Option S

pub record Noise (S : Type 0) : Type 0 where
  pub state : S
  pub ready : Bool
  pub failed : Bool
  pub input : List ℕ
  pub incoming : Option Frame
  pub remaining : ℕ

-- The constructor, after `yolo_noise_new`.
abbrev pub begin_noise : {S : Type 0} → S → Noise S
begin_noise state = record {
  state = state;
  ready = false;
  failed = false;
  input = [];
  incoming = none;
  remaining = 0;
}

abbrev pub Action : Type 0 → Type 0 → Type 0
Action S A = Noise S → Result A × Noise S

abbrev pub max_payload : ℕ
max_payload = 1024 * 1024

abbrev pub chunk : ℕ
chunk = 65519

module _ {S : Type 0} where
  abbrev pub pure : {A : Type 0} → A → Action S A
  pure a n = (ok a, n)

  abbrev pub throw : {A : Type 0} → String → Action S A
  throw why n = (err why, n)

  abbrev pub and_then : {A B : Type 0} → Result A × Noise S → (A → Action S B) → Result B × Noise S
  and_then (ok a, n) f = f a n
  and_then (err why, n) f = (err why, n)

  infixl 5 ◌>>=◌
  abbrev pub ◌>>=◌ : {A B : Type 0} → Action S A → (A → Action S B) → Action S B
  ◌>>=◌ m f n = and_then (m n) f

  -- `failed = true; throw`.
  abbrev pub poison : {A : Type 0} → Result A × Noise S → Result A × Noise S
  poison (ok a, n) = (ok a, n)
  poison (err why, n) = (err why, record n { failed = true })

  finished : Option S → Action S (Unit {0})
  finished none n = (err "SV2 Noise certificate authentication failed", record n { failed = true })
  finished (some state) n = (ok tt, record n { state = state; ready = true })

  -- The handshake is not asked again once the object is ready or has failed.
  unfoldable pub finish : Handshake S → List ℕ → Action S (Unit {0})
  unfolding finished
  finish handshake b n =
      let answer = handshake b n.state in finished (if n.ready || n.failed then none else answer) n

  transformed : Option (List ℕ × S) → Action S (List ℕ)
  transformed none n =
      (err "SV2 Noise authentication/encryption failed", record n { failed = true })
  transformed (some (out, state)) n = (ok out, record n { state = state })

-- The pieces that the loop over the payload takes; `k` is at least their number.
unfoldable pub pieces : ℕ → List ℕ → List (List ℕ)
pieces zero q = []
pieces (suc k) [] = []
pieces (suc k) (x ∷ q) = take chunk (x ∷ q) ∷ pieces k (drop chunk (x ∷ q))

-- The six bytes before encryption.
unfoldable pub header_bytes : Frame → List ℕ
header_bytes f =
    (f.extension % 256)
    ∷ (f.extension / 2 ^ 8 % 256)
    ∷ f.type
    ∷ (length f.payload % 256)
    ∷ (length f.payload / 2 ^ 8 % 256)
    ∷ (length f.payload / 2 ^ 16 % 256)
    ∷ []

-- The frame that a decrypted header begins.
unfoldable pub begin_frame : List ℕ → Frame
begin_frame h = record {
  extension = get_or h 0 0 + get_or h 1 0 * 2 ^ 8;
  type = get_or h 2 0;
  payload = [];
}

unfoldable pub payload_size : List ℕ → ℕ
payload_size h = get_or h 3 0 + get_or h 4 0 * 2 ^ 8 + get_or h 5 0 * 2 ^ 16

-- How a round of the receiving loop ends: the bytes are not all there, there is more of the payload to
-- come, or the frame is whole; with the input that is left.
pub data Progress : Type 0 where
  wait : List ℕ → Progress
  again : List ℕ → Progress
  whole : List ℕ → Progress

-- What becomes of a loop that has rounds to go when its fuel is spent.
abbrev pub out_of_rounds : String
out_of_rounds = "out of rounds"

-- The frames so far, and the input that is left.
abbrev pub Received : Type 0
Received = List Frame × List ℕ

module _ {S : Type 0} (cipher : Cipher S) where
  unfoldable pub transform : Bool → List ℕ → Action S (List ℕ)
  unfolding transformed
  transform decrypt b n =
      let out = transformed (cipher decrypt b n.state) n in
      if not n.ready || n.failed then throw "SV2 Noise session unavailable" n else out

  unfoldable pub seal_all : List (List ℕ) → List ℕ → Action S (List ℕ)
  seal_all [] out = pure out
  seal_all (p ∷ ps) out = do b ← transform false p; seal_all ps (out ++ b)

  -- The frame after the check of its size.
  unfoldable pub seal : Frame → Action S (List ℕ)
  seal f = do
    out ← transform false (header_bytes f)
    seal_all (pieces (length f.payload) f.payload) out

  unfoldable pub encode : Frame → Action S (List ℕ)
  encode f n =
      if ltb max_payload (length f.payload)
      then throw "SV2 frame exceeds local size limit" n
      else seal f n

  started : List ℕ → List ℕ → Action S (Option (List ℕ))
  started h rest n =
      if ltb max_payload (payload_size h) then throw "SV2 frame exceeds local size limit" n else (
        ok (some rest),
        record n { incoming = some (begin_frame h); remaining = payload_size h },
      )

  read_header : List ℕ → Action S (Option (List ℕ))
  unfolding started
  read_header rest = do h ← transform true (take 22 rest); started h (drop 22 rest)

  -- `none` when a header is wanted and not all there.
  pub open_header : Option Frame → List ℕ → Action S (Option (List ℕ))
  unfolding read_header
  open_header (some f) rest n = pure (some rest) n
  open_header none rest n = if ltb (length rest) 22 then pure none n else read_header rest n

  abbrev append_payload : List ℕ → Option Frame → Option Frame
  append_payload p none = none
  append_payload p (some f) = some (record f { payload = f.payload ++ p })

  added : ℕ → List ℕ → List ℕ → Action S Progress
  added size p rest n = (
    ok (if n.remaining - size == 0 then whole rest else again rest),
    record n { incoming = append_payload p n.incoming; remaining = n.remaining - size },
  )

  read_payload : ℕ → List ℕ → Action S Progress
  unfolding added
  read_payload size rest = do
    p ← transform true (take (size + 16) rest)
    added size p (drop (size + 16) rest)

  pub open_payload : List ℕ → Action S Progress
  unfolding read_payload
  open_payload rest n =
      if n.remaining == 0
      then pure (whole rest) n
      else if ltb (length rest) (min n.remaining chunk + 16)
      then pure (wait rest) n
      else read_payload (min n.remaining chunk) rest n

  abbrev push : List Frame → Option Frame → List Frame
  push out none = out
  push out (some f) = out ++ (f ∷ [])

  push_frame : List Frame → Action S (List Frame)
  push_frame out n =
      if ltb 1024 (length (push out n.incoming))
      then throw "SV2 message flood" (record n { incoming = none })
      else (ok (push out n.incoming), record n { incoming = none })

  -- The rest of the loop is the argument `next`.
  pub after_payload :
      (List ℕ → List Frame → Action S Received) → List Frame → Progress → Action S Received
  unfolding push_frame
  after_payload next out (wait rest) = pure (out, rest)
  after_payload next out (again rest) = next rest out
  after_payload next out (whole rest) = do out' ← push_frame out; next rest out'

  after_header :
      (List ℕ → List Frame → Action S Received)
      → List Frame
      → List ℕ
      → Option (List ℕ)
      → Action S Received
  unfolding open_payload after_payload
  after_header next out rest none = pure (out, rest)
  after_header next out rest (some rest') = do
    progress ← open_payload rest'
    after_payload next out progress

  -- The loop `for (;;)`, with the input that is not consumed. No exception of the source has the text for a
  -- loop that is cut off.
  unfoldable pub loop : ℕ → List ℕ → List Frame → Action S Received
  unfolding open_header after_header
  loop zero rest out n = throw out_of_rounds n
  loop (suc k) rest out n =
      and_then (open_header n.incoming rest n) (after_header (loop k) out rest)

  consume : Received → Action S (List Frame)
  consume (out, rest) n = (ok out, record n { input = rest })

  take_in : List ℕ → Action S (List Frame)
  unfolding consume
  take_in b n =
      if not n.ready || n.failed
      then throw "SV2 Noise session unavailable" n
      else if ltb (max_payload + 4096) (length n.input + length b)
      then throw "SV2 receive buffer limit" n
      else (let input = n.input ++ b in
          and_then (loop (length input + 2) input [] (record n { input = input })) consume)

  unfoldable pub receive : List ℕ → Action S (List Frame)
  unfolding take_in
  receive b n = poison (take_in b n)
