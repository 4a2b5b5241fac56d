-- ===== src/Sv2/Noise/Payload.antt =====
-- A payload, piece by piece, on both sides.
pub mod Pieces
use supryolo.Base.{
  ℕ, zero, suc, ◌+◌, ◌-◌, ◌*◌, ◌/◌, ◌%◌, ◌^◌, ◌≤◌, ◌<◌, min, ◌≡◌, refl, sym, ap, ap₂, subst, ◌∙◌,
  arith, List, [], ◌∷◌, ◌++◌, Bool, true, false, ◌⊎◌, inl, inr, Bool-cases, Option, none, some,
  length, take, drop, leb, ltb, ◌==◌, if◌then◌else◌, Result, ok, err, length-append, length-take,
  length-drop, take-append-drop, append_assoc, append-nil, leb→le,
}
use supryolo.Words.RoundTrip.{take-length, drop-length}
use supryolo.Sv2.Types.{Frame}
use supryolo.Sv2.Noise.{
  Noise, Cipher, and_then, max_payload, chunk, pieces, header_bytes, begin_frame, payload_size,
  Progress, wait, again, whole, transform, seal_all, seal, encode, loop, receive, after_payload,
  after_header, push_frame,
}

-- Two states of the library are at the two ends of one stream: what the first seals, 16 bytes longer,
-- the second opens, and they stay so. Messages have at most 65519 bytes.
abbrev pub Links : {S : Type 0} → Cipher S → (S → S → Type 0) → Type 0
Links {S} cipher Paired =
    (a b : S) (p : List ℕ)
    → Paired a b
    → length p ≤ chunk
    → (c : List ℕ) × (a' : S) × (b' : S) × (cipher false p a ≡ some (c, a'))
      × (length c ≡ length p + 16)
      × (cipher true c b ≡ some (p, b'))
      × Paired a' b'

-- An object after its handshake.
abbrev pub live : {S : Type 0} → S → List ℕ → Option Frame → ℕ → Noise S
live state input incoming remaining = record {
  state = state;
  ready = true;
  failed = false;
  input = input;
  incoming = incoming;
  remaining = remaining;
}

abbrev pub extend : Frame → List ℕ → Frame
extend f p = record f { payload = f.payload ++ p }

module _ {S : Type 0} (cipher : Cipher S) where
  -- The next round, when the piece is all there.
  pub payload_step :
      (j : ℕ) (rest : List ℕ) (out : List Frame) (f : Frame) (q c input : List ℕ) (b b' : S)
      → 0 < length q
      → length c ≡ length (take chunk q) + 16
      → cipher true c b ≡ some (take chunk q, b')
      → loop cipher (suc j) (c ++ rest) out (live b input (some f) (length q))
        ≡ after_payload cipher
            (loop cipher j)
            out
            (if length q - min (length q) chunk == 0 then whole rest else again rest)
            (live b' input (some (extend f (take chunk q))) (length q - min (length q) chunk))
  unfolding loop transform
  payload_step j rest out f q c input b b' h size opened =
      rw
        (
          not_zero (length q) h,
          enough (length c) (length rest) (length q) (length (c ++ rest))
              (size ∙ ap (λ n. n + 16) (length-take chunk q)) (length-append c rest),
          take-length c rest (min (length q) chunk + 16) (size ∙ lengths),
          drop-length c rest (min (length q) chunk + 16) (size ∙ lengths),
          opened,
        )
        refl
    where
      not_zero : (n : ℕ) → 0 < n → (n == 0) ≡ false
      not_zero n h = ground arith

      lengths : length (take chunk q) + 16 ≡ min (length q) chunk + 16
      lengths = omega (arith, length-take chunk q)

      enough : (c r q n : ℕ) → c ≡ min chunk q + 16 → n ≡ c + r → ltb n (min q chunk + 16) ≡ false
      enough c r q n e e' = ground arith

  pub seal_step :
      (p : List ℕ) (ps : List (List ℕ)) (out c : List ℕ) (a a' : S) (input : List ℕ)
      (inc : Option Frame) (rem : ℕ)
      → cipher false p a ≡ some (c, a')
      → seal_all cipher (p ∷ ps) out (live a input inc rem)
        ≡ seal_all cipher ps (out ++ c) (live a' input inc rem)
  unfolding seal_all transform
  seal_step p ps out c a a' input inc rem e = rw e refl

  push_step :
      (j : ℕ) (rest : List ℕ) (out : List Frame) (f : Frame) (input : List ℕ) (b : S)
      → length out < 1024
      → after_payload cipher (loop cipher j) out (whole rest) (live b input (some f) 0)
        ≡ loop cipher j rest (out ++ (f ∷ [])) (live b input none 0)
  unfolding after_payload
  push_step j rest out f input b h =
      rw (room (length out) (length (out ++ (f ∷ []))) h (length-append out (f ∷ []))) refl
    where
      room : (n m : ℕ) → n < 1024 → m ≡ n + 1 → ltb 1024 m ≡ false
      room n m h e = ground arith

  -- A payload that the one side seals and the other receives.
  pub record Carried (q : List ℕ) (k : ℕ) (Paired : S → S → Type 0) (a b : S) : Type 0 where
    pub c : List ℕ
    pub a' : S
    pub b' : S
    pub paired : Paired a' b'
    pub size : length c ≤ length q + 16 * (length q / chunk + 1)
    pub sealed :
        (out input : List ℕ) (inc : Option Frame) (rem : ℕ)
        → seal_all cipher (pieces k q) out (live a input inc rem)
          ≡ (ok (out ++ c), live a' input inc rem)
    pub opened :
        (j : ℕ) (rest : List ℕ) (out : List Frame) (f : Frame) (input : List ℕ)
        → length (c ++ rest) < j
        → length out < 1024
        → (j' : ℕ) × (length rest < j')
          × (loop cipher j (c ++ rest) out (live b input (some f) (length q))
              ≡ loop cipher j' rest (out ++ (extend f q ∷ [])) (live b' input none 0))

  pieces-nil : (k : ℕ) → pieces k [] ≡ []
  unfolding pieces
  pieces-nil zero = refl
  pieces-nil (suc k) = refl

  pub pieces-cons :
      (k : ℕ) (q : List ℕ)
      → 0 < length q
      → pieces (suc k) q ≡ take chunk q ∷ pieces k (drop chunk q)
  unfolding pieces
  pieces-cons k [] h = absurd (omega arith)
  pieces-cons k (x ∷ q) h = refl

  drop-all : (n : ℕ) (q : List ℕ) → length q ≤ n → drop n q ≡ []
  drop-all zero [] h = refl
  drop-all zero (x ∷ q) h = absurd (omega arith)
  drop-all (suc n) [] h = refl
  drop-all (suc n) (x ∷ q) h = drop-all n q (omega arith)

  take-all : (n : ℕ) (q : List ℕ) → length q ≤ n → take n q ≡ q
  take-all zero [] h = refl
  take-all zero (x ∷ q) h = absurd (omega arith)
  take-all (suc n) [] h = refl
  take-all (suc n) (x ∷ q) h = ap (◌∷◌ x) (take-all n q (omega arith))

  no_rest : (n : ℕ) → n ≤ chunk → n - min n chunk ≡ 0
  no_rest n h = omega arith

  -- One piece that is the whole payload.
  pub Carried-last :
      (Paired : S → S → Type 0) (k : ℕ) (q c : List ℕ) (a b a' b' : S)
      → 0 < length q
      → length q ≤ chunk
      → cipher false (take chunk q) a ≡ some (c, a')
      → length c ≡ length (take chunk q) + 16
      → cipher true c b ≡ some (take chunk q, b')
      → Paired a' b'
      → Carried q (suc k) Paired a b
  Carried-last Paired k q c a b a' b' some_bytes short sealed size opened paired =
      let whole_piece : take chunk q ≡ q = take-all chunk q short in
      record {
        c = c;
        a' = a';
        b' = b';
        paired = paired;
        size = omega (arith, ap length whole_piece);
        sealed = λ out input inc rem.
            ap (λ ps. seal_all cipher ps out (live a input inc rem))
              (pieces-cons k q some_bytes
                ∙ ap (◌∷◌ (take chunk q)) (ap (pieces k) (drop-all chunk q short) ∙ pieces-nil k))
            ∙ seal_step (take chunk q) [] out c a a' input inc rem sealed
            ∙ seal_end (out ++ c) (live a' input inc rem);
        opened = λ j rest out f input. opened_last j rest out f input whole_piece;
      }
    where
      seal_end : (out : List ℕ) (n : Noise S) → seal_all cipher [] out n ≡ (ok out, n)
      seal_end out n = unfold seal_all in refl

      opened_last :
          (j : ℕ) (rest : List ℕ) (out : List Frame) (f : Frame) (input : List ℕ)
          → take chunk q ≡ q
          → length (c ++ rest) < j
          → length out < 1024
          → (j' : ℕ) × (length rest < j')
            × (loop cipher j (c ++ rest) out (live b input (some f) (length q))
                ≡ loop cipher j' rest (out ++ (extend f q ∷ [])) (live b' input none 0))
      opened_last zero rest out f input same enough room = absurd (omega arith)
      opened_last (suc j) rest out f input same enough room = (
        j,
        omega (arith, length-append c rest),
        payload_step j rest out f q c input b b' some_bytes size opened
            ∙ ap
                (λ n.
                  after_payload cipher (loop cipher j) out
                    (if n == 0 then whole rest else again rest)
                    (live b' input (some (extend f (take chunk q))) n))
                (no_rest (length q) short)
            ∙ push_step j rest out (extend f (take chunk q)) input b' room
            ∙ ap (λ p. loop cipher j rest (out ++ (extend f p ∷ [])) (live b' input none 0)) same,
      )
