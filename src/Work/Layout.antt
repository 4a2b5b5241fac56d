-- ===== src/Work/Layout.antt =====
-- Where the parts of a header lie, and that both protocols build the same one.
use supryolo.Base.{
  ℕ, ◌+◌, ◌≡◌, refl, sym, ap, ◌∙◌, arith, List, [], ◌∷◌, ◌++◌, Bool, true, length, take, drop,
  replicate, ◌==◌, append_assoc, append-nil, ok, zero, suc, ◌-◌, >>=-eq-ok, require, require-ok,
  ok-injective, ◌&&◌,
}
use supryolo.Words.{overwrite, store_le}
use supryolo.Words.RoundTrip.{length-le_bytes}
use supryolo.Hex.{unhex}
use supryolo.Blake2b.{blake2b256, digest, rounds, load_words, initial_state}
use supryolo.Work.{zero_header, sia_work, work_header}

take_skip : (a b : List ℕ) (at k : ℕ) → at ≡ length a + k → take at (a ++ b) ≡ a ++ take k b
take_skip [] b at k e = ap (λ n. take n b) (omega arith)
take_skip (x ∷ a) b zero k e = absurd (omega arith)
take_skip (x ∷ a) b (suc at) k e = ap (◌∷◌ x) (take_skip a b at k (omega arith))

drop_skip : (a b : List ℕ) (at k : ℕ) → at ≡ length a + k → drop at (a ++ b) ≡ drop k b
drop_skip [] b at k e = ap (λ n. drop n b) (omega arith)
drop_skip (x ∷ a) b zero k e = absurd (omega arith)
drop_skip (x ∷ a) b (suc at) k e = drop_skip a b at k (omega arith)

-- A write behind a front part leaves that part alone.
overwrite_skip :
    (a b c : List ℕ) (at k : ℕ) → at ≡ length a + k → overwrite (a ++ b) at c ≡ a ++ overwrite b k c
unfolding overwrite
overwrite_skip a b c at k e =
    rw (take_skip a b at k e, drop_skip a b (at + length c) (k + length c) (omega arith))
      (append_assoc a (take k b) (c ++ drop (k + length c) b))

overwrite_front : (c b : List ℕ) (n : ℕ) → length c ≡ n → overwrite b 0 c ≡ c ++ drop n b
unfolding overwrite
overwrite_front c b n e = ap (λ k. c ++ drop k b) (omega arith)

-- Writing the three parts leaves the nonce, bytes 32 to 39, zero.
overwrite-parts :
    (p t r : List ℕ)
    → length p ≡ 32
    → length t ≡ 8
    → length r ≡ 32
    → overwrite (overwrite (overwrite zero_header 0 p) 40 t) 48 r ≡ p ++ (replicate 8 0 ++ (t ++ r))
overwrite-parts p t r hp ht hr =
    ap (λ h. overwrite (overwrite h 40 t) 48 r) (overwrite_front p zero_header 32 hp)
    ∙ ap (λ h. overwrite h 48 r)
        (overwrite_skip p (replicate 48 0) t 40 8 (omega arith)
          ∙ ap (λ h. p ++ h)
              (overwrite_skip (replicate 8 0) (replicate 40 0) t 8 0 refl
                ∙ ap (λ h. replicate 8 0 ++ h) (overwrite_front t (replicate 40 0) 8 ht)))
    ∙ overwrite_skip p (replicate 8 0 ++ (t ++ replicate 32 0)) r 48 16 (omega arith)
    ∙ ap (λ h. p ++ h)
        (overwrite_skip (replicate 8 0) (t ++ replicate 32 0) r 16 8 refl
          ∙ ap (λ h. replicate 8 0 ++ h)
              (overwrite_skip t (replicate 32 0) r 8 0 (omega arith)
                ∙ ap (λ h. t ++ h) (overwrite_front r (replicate 32 0) 32 hr ∙ append-nil r)))

length-digest : (v : List ℕ) → length (digest v) ≡ 32
unfolding digest
length-digest v = refl

pub length-blake2b256 : (b h : List ℕ) → blake2b256 b ≡ ok h → length h ≡ 32
unfolding blake2b256
length-blake2b256 b h e = ground (
  arith,
  length-digest
      (rounds 12 0 (load_words 16 (b ++ replicate (128 - length b) 0)) (initial_state (length b))),
)

pub length-store_le : (t : ℕ) → length (store_le t) ≡ 8
unfolding store_le
length-store_le t = length-le_bytes 8 t

-- On hidden hash and root of 32 bytes a header is these, with eight zero bytes of nonce and the
-- little-endian time between them.
pub work_header_lem :
    (hidden root : List ℕ) (t : ℕ)
    → length hidden ≡ 32
    → length root ≡ 32
    → work_header hidden root t ≡ hidden ++ (replicate 8 0 ++ (store_le t ++ root))
unfolding work_header
work_header_lem hidden root t h r = overwrite-parts hidden (store_le t) root h (length-store_le t) r

abbrev is_layout : List ℕ → List ℕ → List ℕ → List ℕ → List ℕ → List ℕ → Bool
is_layout p a b e1 e2 t =
    length p == 32
    && length a == 39
    && length b == 0
    && length e1 + length e2 == 12
    && length t == 8

layout_parts :
    (p a b e1 e2 t : List ℕ)
    → is_layout p a b e1 e2 t ≡ true
    → (length p ≡ 32) × (length a ≡ 39) × (b ≡ []) × (length e1 + length e2 ≡ 12) × (length t ≡ 8)
layout_parts p a [] e1 e2 t h = ground arith
layout_parts p a (x ∷ b) e1 e2 t h = absurd (ground arith)

-- When `sia_work` gives a header, its texts are hexadecimal for 32 bytes of hidden hash, 39 bytes of the first
-- coinbase part, no bytes of the second, 12 bytes of extranonce in two parts, and 8 bytes of time. The header is
-- the hidden hash, eight zero bytes of nonce, the time, and the BLAKE2b-256 of a zero byte, the first coinbase
-- part and the two parts of the extranonce.
pub sia_work-ok :
    (prev c1 c2 en1 en2 time w : List ℕ)
    → sia_work prev c1 c2 en1 en2 time ≡ ok w
    → (p : List ℕ) × (a : List ℕ) × (e1 : List ℕ) × (e2 : List ℕ) × (t : List ℕ) × (root : List ℕ)
      × (unhex prev ≡ ok p)
      × (unhex c1 ≡ ok a)
      × (unhex c2 ≡ ok [])
      × (unhex en1 ≡ ok e1)
      × (unhex en2 ≡ ok e2)
      × (unhex time ≡ ok t)
      × (length p ≡ 32)
      × (length a ≡ 39)
      × (length e1 + length e2 ≡ 12)
      × (length t ≡ 8)
      × (blake2b256 (0 ∷ (a ++ (e1 ++ e2))) ≡ ok root)
      × (w ≡ p ++ (replicate 8 0 ++ (t ++ root)))
unfolding sia_work
sia_work-ok prev c1 c2 en1 en2 time w h =
    let (p, hp, h) = >>=-eq-ok (unhex prev) _ h in
    let (a, ha, h) = >>=-eq-ok (unhex c1) _ h in
    let (b, hb, h) = >>=-eq-ok (unhex c2) _ h in
    let (e1, he1, h) = >>=-eq-ok (unhex en1) _ h in
    let (e2, he2, h) = >>=-eq-ok (unhex en2) _ h in
    let (t, ht, h) = >>=-eq-ok (unhex time) _ h in
    let (u, layout, h) = >>=-eq-ok (require (is_layout p a b e1 e2 t) _) _ h in
    let (root, hr, h) = >>=-eq-ok (blake2b256 (0 ∷ (a ++ (e1 ++ e2)))) _ h in
    let (lp, la, lb, le, lt) = layout_parts p a b e1 e2 t (require-ok _ _ layout) in
    (
      p,
      a,
      e1,
      e2,
      t,
      root,
      hp,
      ha,
      hb ∙ ap ok lb,
      he1,
      he2,
      ht,
      lp,
      la,
      le,
      lt,
      hr,
      sym (ok-injective h) ∙ overwrite-parts p t root lp lt (length-blake2b256 _ root hr),
    )
