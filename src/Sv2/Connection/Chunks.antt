-- ===== src/Sv2/Connection/Chunks.antt =====
-- The pool's answer to the handshake may come in any pieces.
use supryolo.Base.{
  ℕ, ◌<◌, ◌≡◌, refl, sym, ap, ◌∙◌, arith, List, [], ◌∷◌, ◌++◌, Bool, true, false, length, ltb, ◌==◌,
  if◌then◌else◌, Result, ok, err, ◌>>=◌, length-append, append_assoc,
}
use supryolo.Sv2.Session.Settle.{Event}
use supryolo.Sv2.Noise.{Cipher, Handshake}
use supryolo.Sv2.Connection.{Connection, handshaking, finish_handshake, receive}

abbrev pub joined : List (List ℕ) → List ℕ
joined [] = []
joined (b ∷ bs) = b ++ joined bs

module _ {S : Type 0} (cipher : Cipher S) (library : Handshake S) where
  -- Pieces that arrive one after another, and then a last one.
  unfoldable pub receive_all :
      List (List ℕ) → List ℕ → Connection S → Result (Connection S × List Event)
  receive_all [] last c = receive cipher library last c
  receive_all (b ∷ bs) last c = do
    r ← receive cipher library b c
    rest ← receive_all bs last r.0
    ok (rest.0, r.1 ++ rest.1)

  same_result : {A : Type 0} (r : Result A) → (r >>= (λ a. ok a)) ≡ r
  same_result (ok a) = refl
  same_result (err why) = refl

  short : (n : ℕ) → n < 234 → (ltb 65536 n ≡ false) × (ltb n 234 ≡ true)
  short n h = (ground arith, ground arith)

  receive_short :
      (b : List ℕ) (c : Connection S)
      → (c.session.phase == 0) ≡ true
      → length (c.handshake ++ b) < 234
      → receive cipher library b c ≡ ok (record c { handshake = c.handshake ++ b }, [])
  unfolding receive handshaking
  receive_short b c phase h =
      let (small, early) = short (length (c.handshake ++ b)) h in rw (phase, small, early) refl

  forgets :
      (bytes h : List ℕ) (c : Connection S)
      → handshaking cipher library bytes (record c { handshake = h })
        ≡ handshaking cipher library bytes c
  unfolding handshaking finish_handshake
  forgets bytes h c = refl

  receive_later :
      (b last : List ℕ) (c : Connection S)
      → (c.session.phase == 0) ≡ true
      → receive cipher library last (record c { handshake = c.handshake ++ b })
        ≡ receive cipher library (b ++ last) c
  unfolding receive
  receive_later b last c phase = chosen _ _ _ _ _ phase (
      forgets ((c.handshake ++ b) ++ last) (c.handshake ++ b) c
      ∙ ap (λ bytes. handshaking cipher library bytes c) (append_assoc c.handshake b last))
    where
      chosen :
          {A : Type 0} (k : Bool) (x y x' y' : A)
          → k ≡ true
          → x ≡ x'
          → (if k then x else y) ≡ (if k then x' else y')
      chosen true x y x' y' e h = h
      chosen false x y x' y' e h = absurd (cc (e))

  -- In phase 0, pieces that with what is buffered are together less than 234 bytes, and then any last
  -- piece: received one after another they leave the same connection, write the same and give the
  -- same events, or throw the same, as all their bytes received at once.
  pub receive_all-joined :
      (bs : List (List ℕ)) (last : List ℕ) (c : Connection S)
      → (c.session.phase == 0) ≡ true
      → length (c.handshake ++ joined bs) < 234
      → receive_all bs last c ≡ receive cipher library (joined bs ++ last) c
  unfolding receive_all
  receive_all-joined [] last c phase h = refl
  receive_all-joined (b ∷ bs) last c phase h =
      let c1 : Connection S = record c { handshake = c.handshake ++ b } in
      ap (λ r. r >>= (λ r. receive_all bs last r.0 >>= (λ rest. ok (rest.0, r.1 ++ rest.1))))
        (receive_short b c phase (
          omega (
            arith,
            h,
            length-append c.handshake b,
            length-append c.handshake (b ++ joined bs),
            length-append b (joined bs),
          )))
      ∙ same_result (receive_all bs last c1)
      ∙ receive_all-joined bs last c1 phase
          (omega (arith, ap length (append_assoc c.handshake b (joined bs))))
      ∙ receive_later b (joined bs ++ last) c phase
      ∙ ap (λ bytes. receive cipher library bytes c) (sym (append_assoc b (joined bs) last))
