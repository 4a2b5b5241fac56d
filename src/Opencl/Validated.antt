-- ===== src/Opencl/Validated.antt =====
-- What `OpenCl::scan` returns, whatever the device answers.
use supryolo.Base.{
  ℕ, ◌+◌, ◌-◌, ◌≤◌, ◌<◌, ◌≡◌, refl, ap, arith, subst, List, [], ◌∷◌, Bool, true, false, not, ◌||◌,
  inl, inr, Bool-cases, leb, ltb, ◌==◌, if◌then◌else◌, ok, require-ok, ok-injective, >>=-eq-ok, All,
}
use supryolo.Words.{store_le, overwrite}
use supryolo.Blake2b.{blake2b256}
use supryolo.Target.{meets}
use supryolo.Work.{Work}
use supryolo.Cpu.{Scan}
use supryolo.Cpu.Scanned.{Ascends, IsFound}
use supryolo.Actions.{lift, and_then-ok}
use supryolo.Opencl.Candidates.{
  high, check_candidate, check_candidates, insert, sort, has_repeat, validated,
}
use supryolo.Opencl.Host.{Library, candidates, scan}

in_range :
    (start count n : ℕ)
    → not (ltb n start || leb count (n - start)) ≡ true
    → (start ≤ n) × (n < start + count)
in_range start count n h = ground arith

-- A candidate that passes lies in the range, and is kept when its hash meets the target.
pub candidate-ok :
    (w : Work) (start count c : ℕ) (keep : Bool)
    → check_candidate w start count c ≡ ok keep
    → (start ≤ c)
      × (c < start + count)
      × ((hash : List ℕ) × (blake2b256 (overwrite w.header 32 (store_le c)) ≡ ok hash)
          × (meets hash w.target ≡ keep))
unfolding check_candidate
candidate-ok w start count c keep e =
    let (u, here, e1) = >>=-eq-ok _ _ e in
    let (hash, hashed, e2) = >>=-eq-ok _ _ e1 in
    let (lo, hi) = in_range start count c (require-ok _ _ here) in
    elim (Bool-cases (leb (high hash) (high w.target))) [
      | inl valid ↦ (lo, hi, (hash, hashed, ok-injective (rw valid at e2)))
      | inr failed ↦ cc (rw failed at e2)
    ]

pub candidates-IsFound :
    (w : Work) (start count : ℕ) (cs ns : List ℕ)
    → check_candidates w start count cs ≡ ok ns
    → All (IsFound w start (start + count)) ns
unfolding check_candidates
candidates-IsFound w start count [] ns e =
    subst (All (IsFound w start (start + count))) (ok-injective e) tt
candidates-IsFound w start count (c ∷ cs) ns e =
    let (keep, checked, e1) = >>=-eq-ok _ _ e in
    let (ns', rest, e2) = >>=-eq-ok _ _ e1 in
    subst (All (IsFound w start (start + count))) (ok-injective e2) (
      kept c keep ns' (candidate-ok w start count c keep checked)
        (candidates-IsFound w start count cs ns' rest))
  where
    kept :
        (c : ℕ) (keep : Bool) (ns' : List ℕ)
        → (start ≤ c)
          × (c < start + count)
          × ((hash : List ℕ) × (blake2b256 (overwrite w.header 32 (store_le c)) ≡ ok hash)
              × (meets hash w.target ≡ keep))
        → All (IsFound w start (start + count)) ns'
        → All (IsFound w start (start + count)) (if keep then c ∷ ns' else ns')
    kept c true ns' found rest = (found, rest)
    kept c false ns' found rest = rest

-- Ascending, where neighbours may be equal.
abbrev Sorted : ℕ → List ℕ → Type 0
Sorted lo [] = Unit {0}
Sorted lo (x ∷ xs) = (lo ≤ x) × Sorted x xs

insert-Sorted : (lo x : ℕ) (ys : List ℕ) → lo ≤ x → Sorted lo ys → Sorted lo (insert x ys)
unfolding insert
insert-Sorted lo x [] h s = (h, tt)
insert-Sorted lo x (y ∷ ys) h (lo_y, s) = elim (Bool-cases (leb x y)) [
  | inl first ↦ rw first (h, (ground arith, s))
  | inr later ↦ rw later (lo_y, insert-Sorted y x ys (ground arith) s)
]

insert-All : (P : ℕ → Type 0) (x : ℕ) (ys : List ℕ) → P x → All P ys → All P (insert x ys)
unfolding insert
insert-All P x [] p ps = (p, tt)
insert-All P x (y ∷ ys) p (q, qs) = elim (Bool-cases (leb x y)) [
  | inl first ↦ rw first (p, (q, qs))
  | inr later ↦ rw later (q, insert-All P x ys p qs)
]

sort-All : (P : ℕ → Type 0) (xs : List ℕ) → All P xs → All P (sort xs)
unfolding sort
sort-All P [] ps = tt
sort-All P (x ∷ xs) (p, ps) = insert-All P x (sort xs) p (sort-All P xs ps)

sort-Sorted : (xs : List ℕ) → Sorted 0 (sort xs)
unfolding sort
sort-Sorted [] = tt
sort-Sorted (x ∷ xs) = insert-Sorted 0 x (sort xs) (omega arith) (sort-Sorted xs)

Sorted-raise :
    (P : ℕ → Type 0) (lo lo' : ℕ) (xs : List ℕ)
    → ((x : ℕ) → P x → lo ≤ x)
    → All P xs
    → Sorted lo' xs
    → Sorted lo xs
Sorted-raise P lo lo' [] h ps s = tt
Sorted-raise P lo lo' (x ∷ xs) h (p, ps) (_, s) = (h x p, s)

strict : (lo : ℕ) (xs : List ℕ) → Sorted lo xs → has_repeat xs ≡ false → Ascends lo xs
unfolding has_repeat
strict lo [] s h = tt
strict lo (x ∷ []) s h = (s.0, tt)
strict lo (x ∷ y ∷ ys) (lo_x, (x_y, s)) h =
    (lo_x, strict (x + 1) (y ∷ ys) (ground arith, s) (ground arith))

-- What the checks let pass.
abbrev pub Validated : Work → ℕ → ℕ → Scan → Type 0
Validated w start count r =
    (r.hashes ≡ count) × Ascends start r.nonces × All (IsFound w start (start + count)) r.nonces

pub validated-found :
    (w : Work) (start count : ℕ) (cs : List ℕ) (r : Scan)
    → validated w start count cs ≡ ok r
    → Validated w start count r
unfolding validated
validated-found w start count cs r e =
    let (ns, checked, e1) = >>=-eq-ok _ _ e in
    let (u, once, e2) = >>=-eq-ok _ _ e1 in
    let found : All (IsFound w start (start + count)) (sort ns) =
      sort-All (IsFound w start (start + count)) ns
        (candidates-IsFound w start count cs ns checked) in
    subst (Validated w start count) (ok-injective e2) (
      refl,
      strict start (sort ns)
          (Sorted-raise (IsFound w start (start + count)) start 0 (sort ns) (λ x f. f.0) found
            (sort-Sorted ns))
          (negated (has_repeat (sort ns)) (require-ok _ _ once)),
      found,
    )
  where
    negated : (b : Bool) → not b ≡ true → b ≡ false
    negated b h = ground arith

-- Whatever the OpenCL library and the device answer to any call, a scan that returns counts the whole
-- range, and lists, in strictly ascending order, nonces of the range for which the header with that
-- nonce has a hash that meets the target.
pub scan-IsFound :
    {S : Type 0} (library : Library S) (block start count : ℕ) (w : Work) (s s' : S) (r : Scan)
    → scan library block w start count s ≡ (ok r, s')
    → (r.hashes ≡ count) × Ascends start r.nonces × All (IsFound w start (start + count)) r.nonces
unfolding scan
scan-IsFound library block start count w s s' r e =
    elim (Bool-cases (count == 0 || ltb (0xffff_ffff_ffff_ffff - (count - 1)) start)) [
      | inl outside ↦ cc (rw outside at e)
      | inr inside ↦
          (let (cs, s1, read, rest) =
              and_then-ok (candidates library block w start count s)
                (λ found. lift (validated w start count found)) (rw inside at e) in
            validated-found w start count cs r (ap (λ p. p.0) rest))
    ]
