-- ===== src/Sv2/Session/Settle/Laws.antt =====
-- What `settle` answers, and the ascending list of pending sequence numbers.
use mathlib.Core.List.{map-append}
use supryolo.Base.{
  ℕ, ◌≤◌, ◌<◌, ◌≡◌, refl, sym, ap, subst, ◌∙◌, arith, List, [], ◌∷◌, ◌++◌, inl, inr, map, length,
  leb, ltb, ◌==◌, true, Result, ok, err, append_assoc, Bool-cases, ok-injective,
}
use supryolo.Sv2.Session.Settle.{
  Batch, Event, answer_accepted, answer_rejected, retarget, prompt, count_up_to, split_up_to,
  Settled, answer, settle, text_eq,
}

-- The sequence numbers that a list of events answers.
abbrev pub answered : List Event → List ℕ
answered [] = []
answered (answer_accepted k ∷ out) = k ∷ answered out
answered (answer_rejected k code reason ∷ out) = k ∷ answered out
answered (retarget t ∷ out) = answered out
answered (prompt ∷ out) = answered out

pub answered-append : (xs ys : List Event) → answered (xs ++ ys) ≡ answered xs ++ answered ys
answered-append [] ys = refl
answered-append (answer_accepted k ∷ xs) ys = ap (◌∷◌ k) (answered-append xs ys)
answered-append (answer_rejected k c r ∷ xs) ys = ap (◌∷◌ k) (answered-append xs ys)
answered-append (retarget t ∷ xs) ys = answered-append xs ys
answered-append (prompt ∷ xs) ys = answered-append xs ys

pub answered-map : (ks : List ℕ) → answered (map answer_accepted ks) ≡ ks
answered-map [] = refl
answered-map (k ∷ ks) = ap (◌∷◌ k) (answered-map ks)

-- Strictly ascending, and above `lo`.
abbrev pub Above : ℕ → List ℕ → Type 0
Above lo [] = Unit {0}
Above lo (x ∷ xs) = (lo < x) × Above x xs

abbrev pub UpTo : ℕ → List ℕ → Type 0
UpTo hi [] = Unit {0}
UpTo hi (x ∷ xs) = (x ≤ hi) × UpTo hi xs

pub Above-mono : {lo lo' : ℕ} (xs : List ℕ) → lo' ≤ lo → Above lo xs → Above lo' xs
Above-mono [] h a = tt
Above-mono (x ∷ xs) h a = (omega arith, a.1)

pub UpTo-mono : {hi hi' : ℕ} (xs : List ℕ) → hi ≤ hi' → UpTo hi xs → UpTo hi' xs
UpTo-mono [] h a = tt
UpTo-mono (x ∷ xs) h a = (omega arith, UpTo-mono xs h a.1)

split_up_to-append : (last : ℕ) (m : List ℕ) → m ≡ (split_up_to last m).0 ++ (split_up_to last m).1
unfolding split_up_to
split_up_to-append last [] = refl
split_up_to-append last (s ∷ m) = ground (arith, split_up_to-append last m)

answer-ok :
    (front : List ℕ) (q : Result Settled) (r : Settled)
    → answer front q ≡ ok r
    → (r' : Settled) × (q ≡ ok r')
      × (r.0 ≡ r'.0)
      × (r.1 ≡ r'.1)
      × (r.2 ≡ map answer_accepted front ++ r'.2)
unfolding answer
answer-ok front (ok r') r e = (r', refl, ground arith, ground arith, ground arith)
answer-ok front (err why) r e = cc

-- The three ways through one round of the loop.
settle_cases {ℓ} :
    (P : Type ℓ) (b : Batch) (batches : List Batch) (pending : List ℕ) (r : Settled)
    → settle (b ∷ batches) pending ≡ ok r
    → (b.count < count_up_to b.last pending → r ≡ (b ∷ batches, pending, []) → P)
    → (b.count ≡ count_up_to b.last pending
        → answer (split_up_to b.last pending).0 (settle batches (split_up_to b.last pending).1)
          ≡ ok r
        → P)
    → P
unfolding settle
settle_cases P b batches pending r e wait go =
    elim (Bool-cases (ltb (count_up_to b.last pending) b.count)) [
      | inl few ↦ cc (rw few at e)
      | inr enough ↦ elim (Bool-cases (count_up_to b.last pending == b.count)) [
        | inl exact ↦ go (ground arith) (rw (enough, exact) at e)
        | inr more ↦ wait (ground arith) (sym (ok-injective (rw (enough, more) at e)))
      ]
    ]

-- What the loop takes is a front part of the pending shares, and it answers exactly these, in order.
pub settle-ok :
    (batches : List Batch) (pending : List ℕ) (r : Settled)
    → settle batches pending ≡ ok r
    → (front : List ℕ) × (pending ≡ front ++ r.1) × (r.2 ≡ map answer_accepted front)
settle-ok [] pending r e = unfold settle in ([], ground arith, ground arith)
settle-ok (b ∷ batches) pending r e =
    settle_cases _ b batches pending r e (λ h q. ([], sym (ap (λ t. t.1) q), ap (λ t. t.2) q))
      (λ h q.
        let (front, back) = split_up_to b.last pending in
        let (r', e', _, p, out) = answer-ok (split_up_to b.last pending).0 _ r q in
        let (front', p', out') = settle-ok batches (split_up_to b.last pending).1 r' e' in
        (
          (split_up_to b.last pending).0 ++ front',
          split_up_to-append b.last pending
              ∙ ap (λ t. (split_up_to b.last pending).0 ++ t) (p' ∙ ap (λ t. front' ++ t) (sym p))
              ∙ sym (append_assoc (split_up_to b.last pending).0 front' r.1),
          out
              ∙ ap (λ t. map answer_accepted (split_up_to b.last pending).0 ++ t) out'
              ∙ sym (map-append answer_accepted (split_up_to b.last pending).0 front'),
        ))

count_none : (last lo : ℕ) (m : List ℕ) → last ≤ lo → Above lo m → count_up_to last m ≡ 0
unfolding count_up_to
count_none last lo [] h a = refl
count_none last lo (s ∷ m) h a = ground (arith, count_none last s m)

-- On ascending keys the loop that erases takes exactly the shares that the other loop counts.
split_up_to-sorted :
    (last lo : ℕ) (m : List ℕ)
    → Above lo m
    → let (front, back) = split_up_to last m in
      (length front ≡ count_up_to last m) × UpTo last front × Above last back × Above lo back
unfolding split_up_to count_up_to
split_up_to-sorted last lo [] a = (refl, tt, tt, tt)
split_up_to-sorted last lo (s ∷ m) a = elim (Bool-cases (leb s last)) [
  | inl low ↦
      let (size, front, back, rest) = split_up_to-sorted last s m a.1 in
      rw low (
        omega (arith, size),
        (ground arith, front),
        back,
        Above-mono {lo = s} {lo' = lo} _ (omega arith) rest,
      )
  | inr high ↦
      rw high (omega (arith, count_none last s m (ground arith) a.1), tt, (ground arith, a.1), a)
]

-- What the loop is meant to do: an acknowledgement of `count` shares up to `last` answers the shares
-- up to `last` if they are as many, and waits, with all that follow it, while they are more.
pub data Settles : List Batch → List ℕ → Settled → Type 0 where
  done : (pending : List ℕ) → Settles [] pending ([], pending, [])
  wait :
      (b : Batch) (batches : List Batch) (pending : List ℕ)
      → b.count < count_up_to b.last pending
      → Settles (b ∷ batches) pending (b ∷ batches, pending, [])
  round :
      (b : Batch) (batches : List Batch) (front back pending : List ℕ) (r r' : Settled)
      → pending ≡ front ++ back
      → length front ≡ b.count
      → UpTo b.last front
      → Above b.last back
      → Settles batches back r'
      → r ≡ (r'.0, r'.1, map answer_accepted front ++ r'.2)
      → Settles (b ∷ batches) pending r

-- On ascending sequence numbers, whenever `settle` returns: an acknowledgement answers, as accepted, the shares
-- up to its last sequence number if they are as many as it counts, and waits with all that follow it if they
-- are more.
pub settle-Settles :
    (batches : List Batch) (lo : ℕ) (pending : List ℕ) (r : Settled)
    → Above lo pending
    → settle batches pending ≡ ok r
    → Settles batches pending r
settle-Settles [] lo pending r a e =
    unfold settle in subst (Settles [] pending) (ok-injective e) (done pending)
settle-Settles (b ∷ batches) lo pending r a e =
    settle_cases _ b batches pending r e
      (λ h q. subst (Settles (b ∷ batches) pending) (sym q) (wait b batches pending h))
      (λ h q.
        let (r', e', bs, p, out) = answer-ok (split_up_to b.last pending).0 _ r q in
        let (size, front, back, rest) = split_up_to-sorted b.last lo pending a in
        round b batches (split_up_to b.last pending).0 (split_up_to b.last pending).1 pending r r'
          (split_up_to-append b.last pending) (omega arith) front back
          (settle-Settles batches lo (split_up_to b.last pending).1 r' rest e')
          (λ i. (bs i, p i, out i)))

pub text_eq_self : (s : List ℕ) → text_eq s s ≡ true
unfolding text_eq
text_eq_self [] = refl
text_eq_self (c ∷ s) = ground (arith, text_eq_self s)
