-- ===== src/Sv2/Noise/RoundTrip.antt =====
-- One frame, encoded on one side and received on the other.
pub mod Frames
use supryolo.Base.{
  ℕ, zero, suc, ◌+◌, ◌-◌, ◌*◌, ◌/◌, ◌%◌, ◌^◌, ◌≤◌, ◌<◌, min, ◌≡◌, refl, sym, ap, ap₂, subst, ◌∙◌,
  arith, List, [], ◌∷◌, ◌++◌, Bool, true, false, ◌⊎◌, inl, inr, Bool-cases, Option, none, some,
  length, take, drop, leb, ltb, ◌==◌, if◌then◌else◌, Result, ok, err, length-append, append_assoc,
  append-nil, All, ==_iff,
}
use supryolo.Words.RoundTrip.{take-length, drop-length}
use supryolo.Sv2.Types.{Frame}
use supryolo.Sv2.Noise.{
  Noise, Cipher, Action, and_then, ◌>>=◌, pure, max_payload, chunk, pieces, header_bytes,
  begin_frame, payload_size, transform, seal_all, seal, encode, loop, receive, take_in,
}
use supryolo.Sv2.Noise.Payload.{Links, live, Carried}
use supryolo.Sv2.Noise.Payload.Pieces.{carried}

-- The ranges of a frame's fields.
pub record IsFrame (f : Frame) : Type 0 where
  pub extensions : f.extension < 2 ^ 16
  pub types : f.type < 256
  pub payloads : length f.payload ≤ max_payload

-- The bytes that a frame takes at most.
abbrev pub wire_size : Frame → ℕ
wire_size f = 22 + length f.payload + 16 * (length f.payload / chunk + 1)

header_size : (f : Frame) → length (header_bytes f) ≡ 6
unfolding header_bytes
header_size f = refl

payload_size-header : (f : Frame) → IsFrame f → payload_size (header_bytes f) ≡ length f.payload
unfolding payload_size header_bytes
payload_size-header f v = omega arith

abbrev headed : Frame → Frame
headed f = record f { payload = [] }

begin_frame-header : (f : Frame) → IsFrame f → begin_frame (header_bytes f) ≡ headed f
unfolding begin_frame header_bytes
begin_frame-header f v =
    ap (λ e. record f { extension = e; payload = [] }) (two_bytes f.extension v.extensions)
  where
    two_bytes : (e : ℕ) → e < 2 ^ 16 → e % 256 + e / 2 ^ 8 % 256 * 2 ^ 8 ≡ e
    two_bytes e h = omega arith

module _ {S : Type 0} (cipher : Cipher S) where
  header_step :
      (j : ℕ) (rest : List ℕ) (out : List Frame) (f : Frame) (c input : List ℕ) (b b' : S) (rem : ℕ)
      → IsFrame f
      → length c ≡ 22
      → cipher true c b ≡ some (header_bytes f, b')
      → loop cipher (suc j) (c ++ rest) out (live b input none rem)
        ≡ loop cipher (suc j) rest out (live b' input (some (headed f)) (length f.payload))
  unfolding loop transform
  header_step j rest out f c input b b' rem v size opened =
      rw
        (
          enough (length c) (length rest) (length (c ++ rest)) size (length-append c rest),
          take-length c rest 22 size,
          drop-length c rest 22 size,
          opened,
          payload_size-header f v,
          begin_frame-header f v,
          small (length f.payload) v.payloads,
        )
        refl
    where
      enough : (c r n : ℕ) → c ≡ 22 → n ≡ c + r → ltb n 22 ≡ false
      enough c r n e e' = ground arith

      small : (n : ℕ) → n ≤ max_payload → ltb max_payload n ≡ false
      small n h = ground arith

  empty_step :
      (j : ℕ) (rest : List ℕ) (out : List Frame) (f : Frame) (input : List ℕ) (b : S)
      → length out < 1024
      → loop cipher (suc j) rest out (live b input (some f) 0)
        ≡ loop cipher j rest (out ++ (f ∷ [])) (live b input none 0)
  unfolding loop
  empty_step j rest out f input b h =
      rw (room (length out) (length (out ++ (f ∷ []))) h (length-append out (f ∷ []))) refl
    where
      room : (n m : ℕ) → n < 1024 → m ≡ n + 1 → ltb 1024 m ≡ false
      room n m h e = ground arith

  -- A frame that the one side encodes and the other receives.
  pub record Delivered (f : Frame) (Paired : S → S → Type 0) (a b : S) : Type 0 where
    pub c : List ℕ
    pub a' : S
    pub b' : S
    pub paired : Paired a' b'
    pub size : length c ≤ wire_size f
    pub encoded :
        (input : List ℕ) (inc : Option Frame) (rem : ℕ)
        → encode cipher f (live a input inc rem) ≡ (ok c, live a' input inc rem)
    pub received :
        (j : ℕ) (rest : List ℕ) (out : List Frame) (input : List ℕ)
        → length (c ++ rest) < j
        → length out < 1024
        → (j' : ℕ) × (length rest < j')
          × (loop cipher j (c ++ rest) out (live b input none 0)
              ≡ loop cipher j' rest (out ++ (f ∷ [])) (live b' input none 0))

  encode_parts :
      (f : Frame) (c0 c : List ℕ) (a a1 a' : S) (input : List ℕ) (inc : Option Frame) (rem : ℕ)
      → IsFrame f
      → cipher false (header_bytes f) a ≡ some (c0, a1)
      → seal_all cipher (pieces (length f.payload) f.payload) c0 (live a1 input inc rem)
        ≡ (ok c, live a' input inc rem)
      → encode cipher f (live a input inc rem) ≡ (ok c, live a' input inc rem)
  unfolding encode seal transform
  encode_parts f c0 c a a1 a' input inc rem v head body =
      rw (small (length f.payload) v.payloads, head) body
    where
      small : (n : ℕ) → n ≤ max_payload → ltb max_payload n ≡ false
      small n h = ground arith

  payload_nil : (q : List ℕ) → length q ≡ 0 → q ≡ []
  payload_nil [] h = refl
  payload_nil (x ∷ q) h = absurd (omega arith)

  no_pieces :
      (q : List ℕ) (out : List ℕ) (n : Noise S)
      → length q ≡ 0
      → seal_all cipher (pieces (length q) q) out n ≡ (ok out, n)
  unfolding seal_all pieces
  no_pieces [] out n h = refl
  no_pieces (x ∷ q) out n h = absurd (omega arith)

  Delivered-empty :
      (Paired : S → S → Type 0) (f : Frame) (c0 : List ℕ) (a b a1 b1 : S)
      → IsFrame f
      → length f.payload ≡ 0
      → cipher false (header_bytes f) a ≡ some (c0, a1)
      → length c0 ≡ 22
      → cipher true c0 b ≡ some (header_bytes f, b1)
      → Paired a1 b1
      → Delivered f Paired a b
  Delivered-empty Paired f c0 a b a1 b1 v no_payload sealed size opened paired = record {
    c = c0;
    a' = a1;
    b' = b1;
    paired = paired;
    size = omega arith;
    encoded = λ input inc rem.
        encode_parts f c0 c0 a a1 a1 input inc rem v sealed
          (no_pieces f.payload c0 (live a1 input inc rem) no_payload);
    received = λ j rest out input. receive_empty j rest out input;
  }
    where
      receive_empty :
          (j : ℕ) (rest : List ℕ) (out : List Frame) (input : List ℕ)
          → length (c0 ++ rest) < j
          → length out < 1024
          → (j' : ℕ) × (length rest < j')
            × (loop cipher j (c0 ++ rest) out (live b input none 0)
                ≡ loop cipher j' rest (out ++ (f ∷ [])) (live b1 input none 0))
      receive_empty zero rest out input enough room = absurd (omega arith)
      receive_empty (suc j) rest out input enough room = (
        j,
        omega (arith, length-append c0 rest),
        header_step j rest out f c0 input b b1 0 v size opened
            ∙ ap (λ n. loop cipher (suc j) rest out (live b1 input (some (headed f)) n)) no_payload
            ∙ empty_step j rest out (headed f) input b1 room
            ∙ ap
                (λ p.
                  loop cipher j rest (out ++ (record f { payload = p } ∷ []))
                    (live b1 input none 0))
                (sym (payload_nil f.payload no_payload)),
      )

  Delivered-full :
      (Paired : S → S → Type 0) (f : Frame) (c0 : List ℕ) (a b a1 b1 : S)
      → IsFrame f
      → cipher false (header_bytes f) a ≡ some (c0, a1)
      → length c0 ≡ 22
      → cipher true c0 b ≡ some (header_bytes f, b1)
      → Carried cipher f.payload (length f.payload) Paired a1 b1
      → Delivered f Paired a b
  Delivered-full Paired f c0 a b a1 b1 v sealed size opened body = record {
    c = c0 ++ body.c;
    a' = body.a';
    b' = body.b';
    paired = body.paired;
    size = omega (arith, length-append c0 body.c, body.size);
    encoded = λ input inc rem.
        encode_parts f c0 (c0 ++ body.c) a a1 body.a' input inc rem v sealed
          (body.sealed c0 input inc rem);
    received = λ j rest out input. receive_full j rest out input;
  }
    where
      receive_full :
          (j : ℕ) (rest : List ℕ) (out : List Frame) (input : List ℕ)
          → length ((c0 ++ body.c) ++ rest) < j
          → length out < 1024
          → (j' : ℕ) × (length rest < j')
            × (loop cipher j ((c0 ++ body.c) ++ rest) out (live b input none 0)
                ≡ loop cipher j' rest (out ++ (f ∷ [])) (live body.b' input none 0))
      receive_full zero rest out input enough room = absurd (omega arith)
      receive_full (suc j) rest out input enough room =
          let (j', more, e) =
            body.opened (suc j) rest out (headed f) input
              (omega (
                arith,
                length-append (c0 ++ body.c) rest,
                length-append c0 body.c,
                length-append body.c rest,
              ))
              room in
          (
            j',
            more,
            ap (λ i. loop cipher (suc j) i out (live b input none 0)) (append_assoc c0 body.c rest)
                ∙ header_step j (body.c ++ rest) out f c0 input b b1 0 v size opened
                ∙ e,
          )

  pub delivered :
      (Paired : S → S → Type 0) (f : Frame) (a b : S)
      → Links cipher Paired
      → Paired a b
      → IsFrame f
      → Delivered f Paired a b
  delivered Paired f a b link paired v =
      let (c0, a1, b1, sealed, size, opened, next) =
        link a b (header_bytes f) paired (omega (arith, header_size f)) in
      let size22 : length c0 ≡ 22 = size ∙ ap (λ n. n + 16) (header_size f) in
      elim (Bool-cases (length f.payload == 0)) [
        | inl empty ↦
            Delivered-empty Paired f c0 a b a1 b1 v ((==_iff (length f.payload) 0).0 empty) sealed
              size22 opened next
        | inr full ↦ Delivered-full Paired f c0 a b a1 b1 v sealed size22 opened (
            carried cipher Paired (length f.payload) f.payload a1 b1 link next
              (ground (arith, full)) (omega arith))
      ]
