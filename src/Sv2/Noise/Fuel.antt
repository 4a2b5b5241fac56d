-- ===== src/Sv2/Noise/Fuel.antt =====
-- src/sv2_noise.cpp: the rounds of the receiving loop are enough.
use supryolo.Base.{
  ℕ, [], ◌++◌, zero, suc, ◌+◌, ◌-◌, ◌≤◌, ◌<◌, ◌≡◌, refl, ap, ◌∙◌, arith, List, inl, inr, Bool-cases,
  Option, none, some, length, ltb, Result, ok, err, ◌≢◌, subst, not, ◌||◌,
}
use supryolo.Sv2.Types.{Frame}
use supryolo.Sv2.Noise.{
  Noise, Cipher, Action, and_then, max_payload, Progress, wait, again, whole, Received,
  out_of_rounds, open_header, open_payload, push, push_frame, after_payload, after_header, loop,
  poison, consume, take_in, receive,
}
use supryolo.Sv2.Noise.Falls.{
  measure, Ends, HeaderFalls, PayloadFalls, at_most_one, open_header-falls, open_payload-falls,
}

module _ {S : Type 0} where
  module _ (cipher : Cipher S) where
    -- Two rests of the loop that agree below a bound.
    abbrev Agree :
        ℕ
        → (List ℕ → List Frame → Action S Received)
        → (List ℕ → List Frame → Action S Received)
        → Type 0
    Agree b next next' =
        (rest : List ℕ) (out : List Frame) (n : Noise S)
        → measure rest n < b
        → next rest out n ≡ next' rest out n

    push-Agree :
        (b : ℕ) (next next' : List ℕ → List Frame → Action S Received)
        → Agree b next next'
        → (rest : List ℕ) (out : List Frame) (n : Noise S) → length rest < b
        → and_then (push_frame cipher out n) (next rest)
          ≡ and_then (push_frame cipher out n) (next' rest)
    unfolding push_frame
    push-Agree b next next' agree rest out n e =
        elim (Bool-cases (ltb 1024 (length (push cipher out n.incoming)))) [
          | inl flood ↦ rw flood refl
          | inr room ↦
              rw room (
                agree rest (push cipher out n.incoming) (record n { incoming = none })
                  (omega arith))
        ]

    after_payload-Agree :
        (b : ℕ) (next next' : List ℕ → List Frame → Action S Received) (out : List Frame)
        → Agree b next next'
        → (r : Result Progress × Noise S) → PayloadFalls b r
        → and_then r (after_payload cipher next out) ≡ and_then r (after_payload cipher next' out)
    unfolding after_payload
    after_payload-Agree b next next' out agree (ok (wait r), n) falls = refl
    after_payload-Agree b next next' out agree (ok (again r), n) falls =
        agree r out n (omega (arith, at_most_one n.incoming))
    after_payload-Agree b next next' out agree (ok (whole r), n) falls =
        push-Agree b next next' agree r out n falls
    after_payload-Agree b next next' out agree (err why, n) falls = refl

    after_header-Agree :
        (b : ℕ) (next next' : List ℕ → List Frame → Action S Received) (out : List Frame)
        (rest : List ℕ)
        → Agree b next next'
        → (r : Result (Option (List ℕ)) × Noise S) → HeaderFalls b r
        → and_then r (after_header cipher next out rest)
          ≡ and_then r (after_header cipher next' out rest)
    unfolding after_header
    after_header-Agree b next next' out rest agree (ok (some r), n) falls =
        after_payload-Agree b next next' out agree (open_payload cipher r n)
          (open_payload-falls cipher b r n falls)
    after_header-Agree b next next' out rest agree (ok none, n) falls = refl
    after_header-Agree b next next' out rest agree (err why, n) falls = refl

    pub loop-more :
        (k m : ℕ) (rest : List ℕ) (out : List Frame) (n : Noise S)
        → measure rest n < k
        → loop cipher (k + m) rest out n ≡ loop cipher k rest out n
    unfolding loop
    loop-more zero m rest out n e = absurd (omega arith)
    loop-more (suc k) m rest out n e =
        ap (λ j. loop cipher j rest out n) (suc_add k m)
        ∙ after_header-Agree (measure rest n) (loop cipher (k + m)) (loop cipher k) out rest
            (λ rest' out' n' h. loop-more k m rest' out' n' (omega arith))
            (open_header cipher n.incoming rest n) (open_header-falls cipher n.incoming rest n)
      where
        suc_add : (k m : ℕ) → suc k + m ≡ suc (k + m)
        suc_add k m = omega arith

    -- The rest of a loop, which ends below a bound.
    abbrev EndsBelow : ℕ → (List ℕ → List Frame → Action S Received) → Type 0
    EndsBelow b next =
        (rest : List ℕ) (out : List Frame) (n : Noise S)
        → measure rest n < b
        → Ends (next rest out n)

    push-Ends :
        (b : ℕ) (next : List ℕ → List Frame → Action S Received)
        → EndsBelow b next
        → (rest : List ℕ) (out : List Frame) (n : Noise S) → length rest < b
        → Ends (and_then (push_frame cipher out n) (next rest))
    unfolding push_frame
    push-Ends b next ends rest out n e =
        elim (Bool-cases (ltb 1024 (length (push cipher out n.incoming)))) [
          | inl flood ↦ rw flood (λ e. cc)
          | inr room ↦
              rw room (
                ends rest (push cipher out n.incoming) (record n { incoming = none }) (omega arith))
        ]

    after_payload-Ends :
        (b : ℕ) (next : List ℕ → List Frame → Action S Received) (out : List Frame)
        → EndsBelow b next
        → (r : Result Progress × Noise S) → PayloadFalls b r
        → Ends (and_then r (after_payload cipher next out))
    unfolding after_payload
    after_payload-Ends b next out ends (ok (wait r), n) falls = tt
    after_payload-Ends b next out ends (ok (again r), n) falls =
        ends r out n (omega (arith, at_most_one n.incoming))
    after_payload-Ends b next out ends (ok (whole r), n) falls = push-Ends b next ends r out n falls
    after_payload-Ends b next out ends (err why, n) falls = falls

    after_header-Ends :
        (b : ℕ) (next : List ℕ → List Frame → Action S Received) (out : List Frame) (rest : List ℕ)
        → EndsBelow b next
        → (r : Result (Option (List ℕ)) × Noise S) → HeaderFalls b r
        → Ends (and_then r (after_header cipher next out rest))
    unfolding after_header
    after_header-Ends b next out rest ends (ok (some r), n) falls =
        after_payload-Ends b next out ends (open_payload cipher r n)
          (open_payload-falls cipher b r n falls)
    after_header-Ends b next out rest ends (ok none, n) falls = tt
    after_header-Ends b next out rest ends (err why, n) falls = falls

    pub loop-Ends :
        (k : ℕ) (rest : List ℕ) (out : List Frame) (n : Noise S)
        → measure rest n < k
        → Ends (loop cipher k rest out n)
    unfolding loop
    loop-Ends zero rest out n e = absurd (omega arith)
    loop-Ends (suc k) rest out n e =
        after_header-Ends (measure rest n) (loop cipher k) out rest
          (λ rest' out' n' h. loop-Ends k rest' out' n' (omega arith))
          (open_header cipher n.incoming rest n) (open_header-falls cipher n.incoming rest n)

    consume-Ends : (r : Result Received × Noise S) → Ends r → Ends (and_then r (consume cipher))
    unfolding consume
    consume-Ends (ok (out, rest), n) ends = tt
    consume-Ends (err why, n) ends = ends

    poison-Ends : {A : Type 0} (r : Result A × Noise S) → Ends r → Ends (poison r)
    poison-Ends (ok a, n) ends = tt
    poison-Ends (err why, n) ends = ends

    take_in-Ends : (b : List ℕ) (n : Noise S) → Ends (take_in cipher b n)
    unfolding take_in
    take_in-Ends b n = elim (Bool-cases (not n.ready || n.failed)) [
      | inl unavailable ↦ rw unavailable (λ e. cc)
      | inr available ↦ elim (Bool-cases (ltb (max_payload + 4096) (length n.input + length b))) [
        | inl full ↦ rw (available, full) (λ e. cc)
        | inr room ↦
            (let input = n.input ++ b in
              rw (available, room)
                (consume-Ends (loop cipher (length input + 2) input [] (record n { input = input }))
                  (loop-Ends (length input + 2) input [] (record n { input = input })
                    (omega (arith, at_most_one n.incoming)))))
      ]
    ]

    not_out : {A : Type 0} (r : Result A × Noise S) → Ends r → r.0 ≢ err out_of_rounds
    not_out (ok a, n) ends e = cc
    not_out (err why, n) ends e = ends cc

    -- The loop of `receive` ends on every input, whatever the library answers: with two rounds more than there
    -- are bytes of input, or any larger number of rounds, it comes to one of its own ends, which are a break
    -- and an exception of the source, and never to the end of its rounds, and it comes to the same end with
    -- the same frames, input and object. So `receive` returns or throws one of those exceptions.
    pub loop-enough :
        (k : ℕ) (input : List ℕ) (out : List Frame) (n : Noise S)
        → length input + 2 ≤ k
        → ((loop cipher k input out n).0 ≢ err out_of_rounds)
          × (loop cipher k input out n ≡ loop cipher (length input + 2) input out n)
          × ((receive cipher input n).0 ≢ err out_of_rounds)
    unfolding receive
    loop-enough k input out n enough = (
      not_out (loop cipher k input out n)
          (loop-Ends k input out n (omega (arith, at_most_one n.incoming))),
      subst (λ k. loop cipher k input out n ≡ loop cipher (length input + 2) input out n) rounds
          (loop-more (length input + 2) (k - (length input + 2)) input out n
            (omega (arith, at_most_one n.incoming))),
      not_out (poison (take_in cipher input n))
          (poison-Ends (take_in cipher input n) (take_in-Ends input n)),
    )
      where
        rounds : (length input + 2) + (k - (length input + 2)) ≡ k
        rounds = omega arith
