-- ===== src/Sv2/Noise/Payload/Pieces.antt =====
-- A payload of any size: a piece, and then the rest.
use supryolo.Base.{
  ℕ, zero, suc, ◌+◌, ◌-◌, ◌≤◌, ◌<◌, min, ◌≡◌, refl, ap, ◌∙◌, arith, List, [], ◌∷◌, ◌++◌, true,
  false, ◌⊎◌, inl, inr, Bool-cases, none, some, length, take, drop, leb, ◌==◌, if◌then◌else◌, ok,
  length-append, length-take, length-drop, take-append-drop, append_assoc, leb→le,
}
use supryolo.Sv2.Types.{Frame}
use supryolo.Sv2.Noise.{Cipher, chunk, pieces, again, whole, seal_all, loop, after_payload}
use supryolo.Sv2.Noise.Payload.{
  Links, live, Carried, payload_step, seal_step, pieces-cons, Carried-last, extend,
}

module _ {S : Type 0} (cipher : Cipher S) where
  short_or_long : (n : ℕ) → (n ≤ chunk) ⊎ (chunk < n)
  short_or_long n = elim (Bool-cases (leb n chunk)) [
    | inl short ↦ inl (leb→le n chunk short)
    | inr long ↦ inr (ground arith)
  ]

  positive : (n : ℕ) → 0 < n → (n == 0) ≡ false
  positive n h = ground arith

  split_length : (q : List ℕ) → chunk < length q → length q ≡ chunk + length (drop chunk q)
  split_length q h = omega (arith, length-drop chunk q)

  left_over :
      (q : List ℕ) → chunk < length q → length q - min (length q) chunk ≡ length (drop chunk q)
  left_over q h = omega (arith, length-drop chunk q)

  -- A piece, and then the rest.
  Carried-more :
      (Paired : S → S → Type 0) (k : ℕ) (q c : List ℕ) (a b a1 b1 : S)
      → chunk < length q
      → cipher false (take chunk q) a ≡ some (c, a1)
      → length c ≡ length (take chunk q) + 16
      → cipher true c b ≡ some (take chunk q, b1)
      → Carried cipher (drop chunk q) k Paired a1 b1
      → Carried cipher q (suc k) Paired a b
  Carried-more Paired k q c a b a1 b1 long sealed size opened rest_of = record {
    c = c ++ rest_of.c;
    a' = rest_of.a';
    b' = rest_of.b';
    paired = rest_of.paired;
    size =
        omega (
          arith,
          length-append c rest_of.c,
          rest_of.size,
          length-take chunk q,
          split_length q long,
        );
    sealed = λ out input inc rem.
        ap (λ ps. seal_all cipher ps out (live a input inc rem))
          (pieces-cons cipher k q (omega arith))
        ∙ seal_step cipher (take chunk q) (pieces k (drop chunk q)) out c a a1 input inc rem sealed
        ∙ rest_of.sealed (out ++ c) input inc rem
        ∙ ap (λ o. (ok o, live rest_of.a' input inc rem)) (append_assoc out c rest_of.c);
    opened = λ j rest out f input. opened_more j rest out f input;
  }
    where
      opened_more :
          (j : ℕ) (rest : List ℕ) (out : List Frame) (f : Frame) (input : List ℕ)
          → length ((c ++ rest_of.c) ++ rest) < j
          → length out < 1024
          → (j' : ℕ) × (length rest < j')
            × (loop cipher j ((c ++ rest_of.c) ++ rest) out (live b input (some f) (length q))
                ≡ loop cipher j' rest (out ++ (extend f q ∷ [])) (live rest_of.b' input none 0))
      opened_more zero rest out f input enough room = absurd (omega arith)
      opened_more (suc j) rest out f input enough room =
          let (j', more, e) =
            rest_of.opened j rest out (extend f (take chunk q)) input
              (omega (
                arith,
                length-append (c ++ rest_of.c) rest,
                length-append c rest_of.c,
                length-append rest_of.c rest,
              ))
              room in
          (
            j',
            more,
            ap (λ i. loop cipher (suc j) i out (live b input (some f) (length q)))
                  (append_assoc c rest_of.c rest)
                ∙ payload_step cipher j (rest_of.c ++ rest) out f q c input b b1 (omega arith) size
                    opened
                ∙ ap
                    (λ n.
                      after_payload cipher (loop cipher j) out
                        (if n == 0 then whole (rest_of.c ++ rest) else again (rest_of.c ++ rest))
                        (live b1 input (some (extend f (take chunk q))) n))
                    (left_over q long)
                ∙ again_step (length (drop chunk q))
                    (positive _ (omega (arith, split_length q long)))
                ∙ e
                ∙ ap
                    (λ p.
                      loop cipher j' rest (out ++ (record f { payload = p } ∷ []))
                        (live rest_of.b' input none 0))
                    (append_assoc f.payload (take chunk q) (drop chunk q)
                      ∙ ap (λ p. f.payload ++ p) (take-append-drop chunk q)),
          )
        where
          again_step :
              (n : ℕ)
              → (n == 0) ≡ false
              → after_payload cipher
                  (loop cipher j)
                  out
                  (if n == 0 then whole (rest_of.c ++ rest) else again (rest_of.c ++ rest))
                  (live b1 input (some (extend f (take chunk q))) n)
                ≡ loop cipher j
                    (rest_of.c ++ rest)
                    out
                    (live b1 input (some (extend f (take chunk q))) n)
          again_step n h = unfold after_payload in rw h refl

  pub carried :
      (Paired : S → S → Type 0) (k : ℕ) (q : List ℕ) (a b : S)
      → Links cipher Paired
      → Paired a b
      → 0 < length q
      → length q ≤ k
      → Carried cipher q k Paired a b
  carried Paired zero q a b link paired some_bytes enough = absurd (omega arith)
  carried Paired (suc k) q a b link paired some_bytes enough =
      let (c, a1, b1, sealed, size, opened, next) =
        link a b (take chunk q) paired (omega (arith, length-take chunk q)) in
      elim (short_or_long (length q)) [
        | inl short ↦
            Carried-last cipher Paired k q c a b a1 b1 some_bytes short sealed size opened next
        | inr long ↦ Carried-more Paired k q c a b a1 b1 long sealed size opened (
            carried Paired k (drop chunk q) a1 b1 link next (omega (arith, split_length q long))
              (omega (arith, split_length q long)))
      ]
