-- ===== src/Sv2/Noise/Poison.antt =====
-- An object that has failed stays failed.
use supryolo.Base.{
  ℕ, ◌≡◌, refl, sym, ap, List, Bool, true, not, ◌||◌, inl, inr, Bool-cases, Result, ok, err, String,
  ltb, length, if◌then◌else◌, arith,
}
use supryolo.Sv2.Types.{Frame}
use supryolo.Sv2.Noise.{
  Noise, Cipher, Handshake, finish, transform, seal, encode, take_in, poison, receive, max_payload,
}

poison-failed :
    {S A : Type 0} (r : Result A × Noise S) (n : Noise S) (why : String)
    → poison r ≡ (err why, n)
    → n.failed ≡ true
poison-failed (ok a, m) n why e = cc
poison-failed (err w, m) n why e = ap (λ r. r.1.failed) (sym e)

no_session : (a b : Bool) → b ≡ true → (not a || b) ≡ true
no_session a b h = ground arith

handled : (a b : Bool) → b ≡ true → (a || b) ≡ true
handled a b h = ground arith

-- The text that a failed object throws when asked to encode.
abbrev pub encode_refusal : Frame → String
encode_refusal f =
    if ltb max_payload (length f.payload)
    then "SV2 frame exceeds local size limit"
    else "SV2 Noise session unavailable"

encode-failed :
    {S : Type 0} (cipher : Cipher S) (f : Frame) (n : Noise S)
    → n.failed ≡ true
    → (encode cipher f n).0 ≡ err (encode_refusal f)
unfolding encode seal transform
encode-failed cipher f n h = elim (Bool-cases (ltb max_payload (length f.payload))) [
  | inl big ↦ rw big refl
  | inr small ↦ rw (small, no_session n.ready n.failed h) refl
]

receive-failed :
    {S : Type 0} (cipher : Cipher S) (b : List ℕ) (n : Noise S)
    → n.failed ≡ true
    → (receive cipher b n).0 ≡ err "SV2 Noise session unavailable"
unfolding receive take_in
receive-failed cipher b n h = rw (no_session n.ready n.failed h) refl

finish-failed :
    {S : Type 0} (handshake : Handshake S) (b : List ℕ) (n : Noise S)
    → n.failed ≡ true
    → (finish handshake b n).0 ≡ err "SV2 Noise certificate authentication failed"
unfolding finish
finish-failed handshake b n h = rw (handled n.ready n.failed h) refl

-- When receiving throws, whatever the reason, the object has failed for good: from then on receiving,
-- encoding and another handshake throw, whatever the library would answer.
pub receive-poisons :
    {S : Type 0} (cipher : Cipher S) (b : List ℕ) (n n' : Noise S) (why : String)
    → receive cipher b n ≡ (err why, n')
    → (n'.failed ≡ true)
      × ((later : List ℕ) → (receive cipher later n').0 ≡ err "SV2 Noise session unavailable")
      × ((f : Frame) → (encode cipher f n').0 ≡ err (encode_refusal f))
      × ((handshake : Handshake S) (later : List ℕ)
          → (finish handshake later n').0 ≡ err "SV2 Noise certificate authentication failed")
unfolding receive
receive-poisons cipher b n n' why e =
    let failed : n'.failed ≡ true = poison-failed (take_in cipher b n) n' why e in
    (
      failed,
      λ later. receive-failed cipher later n' failed,
      λ f. encode-failed cipher f n' failed,
      λ handshake later. finish-failed handshake later n' failed,
    )
