-- ===== src/Sv2/Noise/Falls.antt =====
-- src/sv2_noise.cpp: what each round of the receiving loop takes, and how it may end.
use supryolo.Base.{
  ℕ, ◌+◌, ◌-◌, ◌≤◌, ◌<◌, min, ◌≡◌, refl, arith, List, true, false, inl, inr, Bool-cases, Option,
  none, some, length, take, drop, ltb, ◌==◌, Result, ok, err, length-drop, ◌≢◌, not, ◌||◌,
}
use supryolo.Sv2.Types.{Frame}
use supryolo.Sv2.Noise.{
  Noise, Cipher, and_then, max_payload, chunk, payload_size, Progress, wait, again, whole,
  out_of_rounds, transformed, transform, started, read_header, open_header, added, read_payload,
  open_payload,
}

abbrev pub open_frame : Option Frame → ℕ
open_frame none = 0
open_frame (some f) = 1

-- What falls in each round: the input, and a frame that may be whole already.
abbrev pub measure : {S : Type 0} → List ℕ → Noise S → ℕ
measure rest n = length rest + open_frame n.incoming

-- A result, or an exception of the source.
abbrev pub Ends : {S A : Type 0} → Result A × Noise S → Type 0
Ends (ok a, n) = Unit {0}
Ends (err why, n) = why ≢ out_of_rounds

pub at_most_one : (i : Option Frame) → open_frame i ≤ 1
at_most_one none = omega arith
at_most_one (some f) = omega arith

module _ {S : Type 0} where
  abbrev pub HeaderFalls : ℕ → Result (Option (List ℕ)) × Noise S → Type 0
  HeaderFalls b (ok (some r), n) = length r < b
  HeaderFalls b (ok none, n) = Unit {0}
  HeaderFalls b (err why, n) = why ≢ out_of_rounds

  abbrev pub PayloadFalls : ℕ → Result Progress × Noise S → Type 0
  PayloadFalls b (ok (wait r), n) = Unit {0}
  PayloadFalls b (ok (again r), n) = length r + 1 < b
  PayloadFalls b (ok (whole r), n) = length r < b
  PayloadFalls b (err why, n) = why ≢ out_of_rounds

  module _ (cipher : Cipher S) where
    transform-Ends : (b : List ℕ) (n : Noise S) → Ends (transform cipher true b n)
    unfolding transform
    transform-Ends b n = elim (Bool-cases (not n.ready || n.failed)) [
      | inl unavailable ↦ rw unavailable (λ e. cc)
      | inr available ↦ rw available (answered (cipher true b n.state))
    ]
      where
        answered : (o : Option (List ℕ × S)) → Ends (transformed o n)
        answered none = λ e. cc
        answered (some (out, state)) = tt

    started-falls :
        (rest : List ℕ) (b : ℕ)
        → length rest < b
        → (h : List ℕ) (n : Noise S) → HeaderFalls b (started cipher h rest n)
    unfolding started
    started-falls rest b e h n = elim (Bool-cases (ltb max_payload (payload_size h))) [
      | inl big ↦ rw big (λ e. cc)
      | inr small ↦ rw small e
    ]

    header-falls :
        (rest : List ℕ) (b : ℕ)
        → length rest < b
        → (r : Result (List ℕ) × Noise S) → Ends r
        → HeaderFalls b (and_then r (λ h. started cipher h rest))
    header-falls rest b e (ok h, n) ends = started-falls rest b e h n
    header-falls rest b e (err why, n) ends = ends

    pub open_header-falls :
        (i : Option Frame) (rest : List ℕ) (n : Noise S)
        → HeaderFalls (length rest + open_frame i) (open_header cipher i rest n)
    unfolding open_header read_header
    open_header-falls (some f) rest n = omega arith
    open_header-falls none rest n = elim (Bool-cases (ltb (length rest) 22)) [
      | inl short ↦ rw short tt
      | inr enough ↦ rw enough (
          header-falls (drop 22 rest) (length rest + 0)
            (ground (arith, enough, length-drop 22 rest)) (transform cipher true (take 22 rest) n)
            (transform-Ends (take 22 rest) n))
    ]

    added-falls :
        (size : ℕ) (rest : List ℕ) (b : ℕ)
        → length rest + 1 < b
        → (p : List ℕ) (n : Noise S) → PayloadFalls b (added cipher size p rest n)
    unfolding added
    added-falls size rest b e p n = elim (Bool-cases (n.remaining - size == 0)) [
      | inl all ↦ rw all (omega arith)
      | inr some_left ↦ rw some_left e
    ]

    payload-falls :
        (size : ℕ) (rest : List ℕ) (b : ℕ)
        → length rest + 1 < b
        → (r : Result (List ℕ) × Noise S) → Ends r
        → PayloadFalls b (and_then r (λ p. added cipher size p rest))
    payload-falls size rest b e (ok p, n) ends = added-falls size rest b e p n
    payload-falls size rest b e (err why, n) ends = ends

    pub open_payload-falls :
        (b : ℕ) (rest : List ℕ) (n : Noise S)
        → length rest < b
        → PayloadFalls b (open_payload cipher rest n)
    unfolding open_payload read_payload
    open_payload-falls b rest n e = elim (Bool-cases (n.remaining == 0)) [
      | inl nothing ↦ rw nothing e
      | inr some_left ↦ elim (Bool-cases (ltb (length rest) (min n.remaining chunk + 16))) [
        | inl short ↦ rw (some_left, short) tt
        | inr enough ↦
            rw (some_left, enough)
              (payload-falls (min n.remaining chunk) (drop (min n.remaining chunk + 16) rest) b
                (shorter (min n.remaining chunk) (length rest) refl enough)
                (transform cipher true (take (min n.remaining chunk + 16) rest) n)
                (transform-Ends (take (min n.remaining chunk + 16) rest) n))
      ]
    ]
      where
        shorter :
            (m l : ℕ)
            → l ≡ length rest
            → ltb l (m + 16) ≡ false
            → length (drop (m + 16) rest) + 1 < b
        shorter m l same h = ground (arith, h, same, e, length-drop (m + 16) rest)
