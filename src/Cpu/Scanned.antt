-- ===== src/Cpu/Scanned.antt =====
-- A scan finds the nonces of its range whose hash meets the target, and no others.
use mathlib.Core.List.{Mem, mem-cons_self, mem-cons_of_mem}
use supryolo.Base.{
  ℕ, zero, suc, ◌+◌, ◌-◌, ◌^◌, ◌≤◌, ◌<◌, ◌≡◌, ◌⊎◌, inl, inr, refl, sym, ap, ap₂, subst, ◌∙◌, arith,
  List, [], ◌∷◌, ◌++◌, true, false, not, ◌&&◌, length, take, drop, leb, ltb, ◌==◌, if◌then◌else◌,
  ok, length-take, Bool-cases, ==_iff, All, zero,
}
use supryolo.Words.{store_le, overwrite}
use supryolo.Words.RoundTrip.{take-length, drop-length, length-overwrite, drop-overwrite}
use supryolo.Blake2b.{blake2b256}
use supryolo.Target.{meets}
use supryolo.Work.{Work}
use supryolo.Work.Layout.{length-store_le}
use supryolo.Cpu.{Scan, scan_from, scan}

take-overwrite :
    (h b : List ℕ) (at : ℕ) → at + length b ≤ length h → take at (overwrite h at b) ≡ take at h
unfolding overwrite
take-overwrite h b at fits =
    take-length (take at h) (b ++ drop (at + length b) h) at (omega (arith, length-take at h))

drop-nil : (n : ℕ) → ◌≡◌ {A = List ℕ} (drop n []) []
drop-nil zero = refl
drop-nil (suc n) = refl

plus_zero : (n : ℕ) → 0 + n ≡ n
plus_zero n = omega arith

suc_plus : (m n : ℕ) → suc m + n ≡ suc (m + n)
suc_plus m n = omega arith

drop-drop : (m n : ℕ) (xs : List ℕ) → drop (m + n) xs ≡ drop n (drop m xs)
drop-drop zero n xs = ap (λ k. drop k xs) (plus_zero n)
drop-drop (suc m) n (x ∷ xs) = ap (λ k. drop k (x ∷ xs)) (suc_plus m n) ∙ drop-drop m n xs
drop-drop (suc m) n [] = drop-nil (suc m + n) ∙ sym (drop-nil n)

-- A second write of the same length leaves nothing of the first.
pub overwrite-overwrite :
    (h a b : List ℕ) (at : ℕ)
    → length a ≡ length b
    → at + length a ≤ length h
    → overwrite (overwrite h at a) at b ≡ overwrite h at b
overwrite-overwrite h a b at same fits =
    unfold overwrite in
    ap₂ (λ x y. x ++ (b ++ y)) (take-overwrite h a at fits)
      (ap (λ k. drop k (overwrite h at a)) (omega arith)
        ∙ drop-drop at (length a) (overwrite h at a)
        ∙ ap (drop (length a)) (drop-overwrite h a at fits)
        ∙ drop-length a (drop (at + length a) h) (length a) refl
        ∙ ap (λ k. drop k h) (omega arith))

-- The hash of the header with this nonce meets the target.
abbrev pub Solves : Work → ℕ → Type 0
Solves w n =
    (hash : List ℕ) × (blake2b256 (overwrite w.header 32 (store_le n)) ≡ ok hash)
    × (meets hash w.target ≡ true)

-- Strictly ascending, and at least `lo`.
abbrev pub Ascends : ℕ → List ℕ → Type 0
Ascends lo [] = Unit {0}
Ascends lo (n ∷ ns) = (lo ≤ n) × Ascends (n + 1) ns

Ascends-mono : (lo lo' : ℕ) (ns : List ℕ) → lo' ≤ lo → Ascends lo ns → Ascends lo' ns
Ascends-mono lo lo' [] h a = tt
Ascends-mono lo lo' (n ∷ ns) h a = (omega arith, a.1)

pub blake2b256-total : (b : List ℕ) → length b ≤ 128 → (h : List ℕ) × (blake2b256 b ≡ ok h)
unfolding blake2b256
blake2b256-total b fits = rw (leb→ltb (length b) fits) (_, refl)
  where
    leb→ltb : (n : ℕ) → n ≤ 128 → ltb 128 n ≡ false
    leb→ltb n h = ground arith

-- A nonce of the range that solves the work.
abbrev pub IsFound : Work → ℕ → ℕ → ℕ → Type 0
IsFound w lo hi n = (lo ≤ n) × (n < hi) × Solves w n

-- What `k` rounds from nonce `n` on return.
abbrev Scanned : Work → ℕ → ℕ → List ℕ → Type 0
Scanned w k n ns =
    Ascends n ns × All (IsFound w n (n + k)) ns × ((x : ℕ) → IsFound w n (n + k) x → Mem x ns)

widen :
    (w : Work) (k n : ℕ) (ns : List ℕ)
    → All (IsFound w (n + 1) (n + 1 + k)) ns
    → All (IsFound w n (n + suc k)) ns
widen w k n [] h = tt
widen w k n (x ∷ ns) ((lo, hi, solves), h) = ((omega arith, omega arith, solves), widen w k n ns h)

first_or_later : (n x : ℕ) → n ≤ x → (x ≡ n) ⊎ (n + 1 ≤ x)
first_or_later n x h = elim (Bool-cases (x == n)) [
  | inl same ↦ inl ((==_iff x n).0 same)
  | inr other ↦ inr (ground arith)
]

scan_hit :
    (w : Work) (k n : ℕ) (ns : List ℕ)
    → Solves w n
    → Scanned w k (n + 1) ns
    → Scanned w (suc k) n (n ∷ ns)
scan_hit w k n ns solves (ascends, found, complete) = (
  (omega arith, ascends),
  ((omega arith, omega arith, solves), widen w k n ns found),
  λ x f. elim (first_or_later n x f.0) [
    | inl e ↦ subst (λ y. Mem y (n ∷ ns)) (sym e) mem-cons_self
    | inr later ↦ mem-cons_of_mem n (complete x (later, omega (arith, f.1), f.2))
  ],
)

-- The header of a nonce that does not solve the work has another hash.
scan_miss :
    (w : Work) (k n : ℕ) (ns hash : List ℕ)
    → blake2b256 (overwrite w.header 32 (store_le n)) ≡ ok hash
    → meets hash w.target ≡ false
    → Scanned w k (n + 1) ns
    → Scanned w (suc k) n ns
scan_miss w k n ns hash e miss (ascends, found, complete) = (
  Ascends-mono (n + 1) n ns (omega arith) ascends,
  widen w k n ns found,
  λ x f. elim (first_or_later n x f.0) [
    | inl same ↦ absurd (contradiction (subst (Solves w) same f.2))
    | inr later ↦ complete x (later, omega (arith, f.1), f.2)
  ],
)
  where
    contradiction : Solves w n → ⊥
    contradiction (hash', e', hit) = cc (e, e', hit, miss)

-- One round.
scan_from-suc :
    (k n : ℕ) (h target hash ns : List ℕ)
    → blake2b256 (overwrite h 32 (store_le n)) ≡ ok hash
    → scan_from k (n + 1) (overwrite h 32 (store_le n)) target ≡ ok ns
    → scan_from (suc k) n h target ≡ ok (if meets hash target then n ∷ ns else ns)
unfolding scan_from
scan_from-suc k n h target hash ns e rest = rw (e, rest) refl

-- The loop from a header to which a write gives the same as one to `w.header`.
scan_from-lem :
    (w : Work) (k n : ℕ) (h : List ℕ)
    → length w.header ≡ 80
    → ((x : ℕ) → overwrite h 32 (store_le x) ≡ overwrite w.header 32 (store_le x))
    → (ns : List ℕ) × (scan_from k n h w.target ≡ ok ns) × Scanned w k n ns
unfolding scan_from
scan_from-lem w zero n h size same = ([], refl, (tt, tt, λ x f. absurd (omega (arith, f.0, f.1))))
scan_from-lem w (suc k) n h size same =
    let written : List ℕ = overwrite h 32 (store_le n) in
    let same' : (x : ℕ) → overwrite written 32 (store_le x) ≡ overwrite w.header 32 (store_le x) =
      λ x.
        ap (λ h. overwrite h 32 (store_le x)) (same n)
        ∙ overwrite-overwrite w.header (store_le n) (store_le x) 32
            (length-store_le n ∙ sym (length-store_le x)) (omega (arith, length-store_le n)) in
    let (ns, rest, scanned) = scan_from-lem w k (n + 1) written size same' in
    let (hash, hashed) = blake2b256-total (overwrite w.header 32 (store_le n)) (
      omega
        (arith, length-overwrite w.header (store_le n) 32 (omega (arith, length-store_le n)))) in
    let round = scan_from-suc k n h w.target hash ns (ap blake2b256 (same n) ∙ hashed) rest in
    elim (Bool-cases (meets hash w.target)) [
      | inl hit ↦ (n ∷ ns, rw hit at round, scan_hit w k n ns (hash, hashed, hit) scanned)
      | inr miss ↦ (ns, rw miss at round, scan_miss w k n ns hash hashed miss scanned)
    ]

-- For a header of 80 bytes and a non-empty range of nonces below 2^64, a scan returns: it counts the
-- whole range, and it lists, in ascending order, nonces of the range for which the header with that
-- nonce has a hash that meets the target, and all of these.
pub scan-finds :
    (w : Work) (start count : ℕ)
    → length w.header ≡ 80
    → 0 < count
    → start + count ≤ 2 ^ 64
    → (r : Scan) × (scan w start count ≡ ok r)
      × (r.hashes ≡ count)
      × Ascends start r.nonces
      × All (IsFound w start (start + count)) r.nonces
      × ((n : ℕ) → IsFound w start (start + count) n → Mem n r.nonces)
unfolding scan
scan-finds w start count size some fits =
    let (ns, e, scanned) = scan_from-lem w count start w.header size (λ x. refl) in
    (
      record { hashes = count; nonces = ns },
      rw (in_range start count some fits, e) refl,
      refl,
      scanned.0,
      scanned.1,
      scanned.2,
    )
  where
    in_range :
        (start count : ℕ)
        → 0 < count
        → start + count ≤ 2 ^ 64
        → (not (count == 0) && leb start (0xffff_ffff_ffff_ffff - (count - 1))) ≡ true
    in_range start count some fits = ground arith
