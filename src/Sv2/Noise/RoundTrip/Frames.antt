-- ===== src/Sv2/Noise/RoundTrip/Frames.antt =====
-- Many frames, encoded one after another and received at once.
use supryolo.Base.{
  ℕ, zero, suc, ◌+◌, ◌≤◌, ◌<◌, ◌≡◌, refl, sym, ap, ◌∙◌, arith, List, [], ◌∷◌, ◌++◌, Option, none,
  length, ltb, false, ok, length-append, append_assoc, append-nil, All,
}
use supryolo.Sv2.Types.{Frame}
use supryolo.Sv2.Noise.{Cipher, Action, ◌>>=◌, pure, max_payload, encode, loop, receive, take_in}
use supryolo.Sv2.Noise.Payload.{Links, live}
use supryolo.Sv2.Noise.RoundTrip.{IsFrame, wire_size, Delivered, delivered}

abbrev pub wire_sizes : List Frame → ℕ
wire_sizes [] = 0
wire_sizes (f ∷ fs) = wire_size f + wire_sizes fs

module _ {S : Type 0} (cipher : Cipher S) where
  -- The bytes of frames that are encoded one after another.
  unfoldable pub encode_all : List Frame → Action S (List ℕ)
  encode_all [] = pure []
  encode_all (f ∷ fs) = do c ← encode cipher f; cs ← encode_all fs; pure (c ++ cs)

  record AllDelivered (fs : List Frame) (Paired : S → S → Type 0) (a b : S) : Type 0 where
    c : List ℕ
    a' : S
    b' : S
    paired : Paired a' b'
    size : length c ≤ wire_sizes fs
    encoded :
        (input : List ℕ) (inc : Option Frame) (rem : ℕ)
        → encode_all fs (live a input inc rem) ≡ (ok c, live a' input inc rem)
    received :
        (j : ℕ) (out : List Frame) (input : List ℕ)
        → length c < j
        → length out + length fs ≤ 1024
        → loop cipher j c out (live b input none 0) ≡ (ok (out ++ fs, []), live b' input none 0)

  at_end :
      (j : ℕ) (out : List Frame) (input : List ℕ) (b : S)
      → 0 < j
      → length out + 0 ≤ 1024
      → loop cipher j [] out (live b input none 0) ≡ (ok (out ++ [], []), live b input none 0)
  unfolding loop
  at_end zero out input b h room = absurd (omega arith)
  at_end (suc j) out input b h room =
      ap (λ o. (ok (o, []), live b input none 0)) (sym (append-nil out))

  no_frames : (Paired : S → S → Type 0) (a b : S) → Paired a b → AllDelivered [] Paired a b
  no_frames Paired a b paired = record {
    c = [];
    a' = a;
    b' = b;
    paired = paired;
    size = omega arith;
    encoded = λ input inc rem. unfold encode_all in refl;
    received = λ j out input. at_end j out input b;
  }

  more_frames :
      (Paired : S → S → Type 0) (f : Frame) (fs : List Frame) (a b : S)
      (d : Delivered cipher f Paired a b)
      → AllDelivered fs Paired d.a' d.b'
      → AllDelivered (f ∷ fs) Paired a b
  more_frames Paired f fs a b d ds = record {
    c = d.c ++ ds.c;
    a' = ds.a';
    b' = ds.b';
    paired = ds.paired;
    size = omega (arith, length-append d.c ds.c, d.size, ds.size);
    encoded = λ input inc rem. encode_more input inc rem;
    received = λ j out input. receive_more j out input;
  }
    where
      encode_more :
          (input : List ℕ) (inc : Option Frame) (rem : ℕ)
          → encode_all (f ∷ fs) (live a input inc rem)
            ≡ (ok (d.c ++ ds.c), live ds.a' input inc rem)
      encode_more input inc rem =
          unfold encode_all in rw (d.encoded input inc rem, ds.encoded input inc rem) refl

      receive_more :
          (j : ℕ) (out : List Frame) (input : List ℕ)
          → length (d.c ++ ds.c) < j
          → length out + suc (length fs) ≤ 1024
          → loop cipher j (d.c ++ ds.c) out (live b input none 0)
            ≡ (ok (out ++ (f ∷ fs), []), live ds.b' input none 0)
      receive_more j out input enough room =
          let (j', more, e) = d.received j ds.c out input enough (omega arith) in
          e
          ∙ ds.received j' (out ++ (f ∷ [])) input more (omega (arith, length-append out (f ∷ [])))
          ∙ ap (λ o. (ok (o, []), live ds.b' input none 0)) (append_assoc out (f ∷ []) fs)

  all_delivered :
      (Paired : S → S → Type 0) (fs : List Frame) (a b : S)
      → Links cipher Paired
      → Paired a b
      → All IsFrame fs
      → AllDelivered fs Paired a b
  all_delivered Paired [] a b link paired v = no_frames Paired a b paired
  all_delivered Paired (f ∷ fs) a b link paired (v, vs) =
      let d = delivered cipher Paired f a b link paired v in
      more_frames Paired f fs a b d (all_delivered Paired fs d.a' d.b' link d.paired vs)

  receive_whole :
      (c : List ℕ) (fs : List Frame) (b b' : S)
      → length c ≤ max_payload + 4096
      → loop cipher (length c + 2) c [] (live b c none 0) ≡ (ok (fs, []), live b' c none 0)
      → receive cipher c (live b [] none 0) ≡ (ok fs, live b' [] none 0)
  unfolding receive take_in
  receive_whole c fs b b' small e = rw (fits (length c) small, e) refl
    where
      fits : (n : ℕ) → n ≤ max_payload + 4096 → ltb (max_payload + 4096) (0 + n) ≡ false
      fits n h = ground arith

  -- Two objects after the handshake, whose library states are at the two ends of one stream: at most
  -- 1024 frames, with fields in range and at most 1 MiB of payload each, and at most 1 MiB + 4096 bytes
  -- in all, that one object encodes one after another are, when the other receives all the bytes at
  -- once, those frames in this order. No byte and no part of a frame is left over, and the states are
  -- again at the two ends of the stream.
  pub receive-encode_all :
      (Paired : S → S → Type 0) (fs : List Frame) (a b : S)
      → Links cipher Paired
      → Paired a b
      → All IsFrame fs
      → length fs ≤ 1024
      → wire_sizes fs ≤ max_payload + 4096
      → (c : List ℕ) × (a' : S) × (b' : S) × Paired a' b'
        × (encode_all fs (live a [] none 0) ≡ (ok c, live a' [] none 0))
        × (receive cipher c (live b [] none 0) ≡ (ok fs, live b' [] none 0))
  receive-encode_all Paired fs a b link paired v few small =
      let ds = all_delivered Paired fs a b link paired v in
      (
        ds.c,
        ds.a',
        ds.b',
        ds.paired,
        ds.encoded [] none 0,
        receive_whole ds.c fs b ds.b' (omega (arith, ds.size))
            (ds.received (length ds.c + 2) [] ds.c (omega arith) (omega arith)),
      )
