-- ===== src/Sv2/Reader/Laws.antt =====
-- What each reader takes from the input. `Sound r p W`: a value of `r` satisfies `W`, and what was
-- taken is its printed form `p`. `Complete r p W`: every printed form of such a value is read back.
use supryolo.Base.{
  ℕ, ◌^◌, ◌≤◌, ◌<◌, ◌≡◌, refl, sym, ap, ap₂, subst, ◌∙◌, arith, List, [], ◌++◌, length, take, drop,
  All, ltb, le→ltb, ltb→le, take-append-drop, length-take, length-append, append_assoc, All-take,
  All-drop, Bool-cases, inl, inr, Result, ok, err, ok-injective,
}
use supryolo.Base.Bytes.{IsByte}
use supryolo.Words.{le_value, le_bytes}
use supryolo.Words.RoundTrip.{
  le_value-le_bytes, le_bytes-le_value, le_value-lt, length-le_bytes, take-length, drop-length,
}
use supryolo.Sv2.Reader.{Reader, and_then, ◌>>=◌, pure, integer, bytes}

abbrev pub Sound : {A : Type 0} → Reader A → (A → List ℕ) → (A → Type 0) → Type 0
Sound {A} r p W =
    (b rest : List ℕ) (a : A)
    → All IsByte b
    → r b ≡ ok (a, rest)
    → (b ≡ p a ++ rest) × W a × All IsByte rest

abbrev pub Complete : {A : Type 0} → Reader A → (A → List ℕ) → (A → Type 0) → Type 0
Complete {A} r p W = (a : A) (rest : List ℕ) → W a → r (p a ++ rest) ≡ ok (a, rest)

-- Every value of `r` and what was taken for it are related by `Q`.
abbrev pub Yields : {A : Type 0} → Reader A → (A → List ℕ → Type 0) → Type 0
Yields {A} r Q =
    (b rest : List ℕ) (a : A)
    → All IsByte b
    → r b ≡ ok (a, rest)
    → (c : List ℕ) × (b ≡ c ++ rest) × Q a c × All IsByte rest

pub pure-Yields : {A : Type 0} (x : A) (Q : A → List ℕ → Type 0) → Q x [] → Yields (pure x) Q
pure-Yields x Q q b rest a h e = (
  [],
  ap (λ t. t.1) (ok-injective e),
  subst (λ t. Q t []) (ap (λ t. t.0) (ok-injective e)) q,
  subst (All IsByte) (ap (λ t. t.1) (ok-injective e)) h,
)

pub and_then-ok :
    {A B : Type 0} (v : Result (A × List ℕ)) (k : A → Reader B) {z : B × List ℕ}
    → and_then v k ≡ ok z
    → (a : A) × (b : List ℕ) × (v ≡ ok (a, b)) × (k a b ≡ ok z)
and_then-ok (ok (a, b)) k e = (a, b, refl, e)
and_then-ok (err why) k e = cc

-- The rule for one step of a `do` block.
pub bind-Yields :
    {A B : Type 0} (r : Reader A) (p : A → List ℕ) (W : A → Type 0) (k : A → Reader B)
    (Q : B → List ℕ → Type 0)
    → Sound r p W
    → ((x : A) → W x → Yields (k x) (λ m c. Q m (p x ++ c)))
    → Yields (r >>= k) Q
bind-Yields r p W k Q s y b rest m h e =
    let (x, b', read, go) = and_then-ok (r b) k e in
    let (split, w, h') = s b b' x h read in
    let (c, split', q, h'') = y x w b' rest m h' go in
    (p x ++ c, split ∙ ap (◌++◌ (p x)) split' ∙ sym (append_assoc (p x) c rest), q, h'')

pub bind-Complete :
    {A B : Type 0} (r : Reader A) (p : A → List ℕ) (W : A → Type 0) (k : A → Reader B)
    → Complete r p W
    → (x : A) (b : List ℕ) → W x
    → (r >>= k) (p x ++ b) ≡ k x b
bind-Complete r p W k c x b w = ap (λ v. and_then v k) (c x b w)

abbrev pub Below : ℕ → ℕ → Type 0
Below n x = x < 256 ^ n

-- The first `n` bytes and what follows them.
split_at :
    (n : ℕ) (b : List ℕ)
    → n ≤ length b
    → All IsByte b
    → (length (take n b) ≡ n) × All IsByte (take n b) × All IsByte (drop n b)
split_at n b enough h =
    (omega (arith, length-take n b), All-take IsByte n b h, All-drop IsByte n b h)

pub integer-Sound : (n : ℕ) → Sound (integer n) (le_bytes n) (Below n)
unfolding integer
integer-Sound n b rest a h e = elim (Bool-cases (ltb (length b) n)) [
  | inl short ↦ cc (rw short at e)
  | inr enough ↦
      let (size, front, back) = split_at n b (ltb→le _ _ enough) h in
      let read = ok-injective (rw enough at e) in
      let value : le_value (take n b) ≡ a = ap (λ t. t.0) read in
      let left : drop n b ≡ rest = ap (λ t. t.1) read in
      let printed : le_bytes n a ≡ take n b =
        subst (λ k. le_bytes k a ≡ take n b) size
          (subst (λ v. le_bytes (length (take n b)) v ≡ take n b) value
            (le_bytes-le_value (take n b) front)) in
      (
        sym (take-append-drop n b) ∙ ap₂ (λ x y. x ++ y) (sym printed) left,
        omega (arith, value, le_value-lt (take n b) front, ap (λ (k : ℕ). 256 ^ k) size),
        subst (All IsByte) left back,
      )
]

pub integer-Complete : (n : ℕ) → Complete (integer n) (le_bytes n) (Below n)
unfolding integer
integer-Complete n a rest w = rw (
  le→ltb (length (le_bytes n a ++ rest)) n
      (omega (arith, length-append (le_bytes n a) rest, length-le_bytes n a)),
  take-length (le_bytes n a) rest n (length-le_bytes n a),
  drop-length (le_bytes n a) rest n (length-le_bytes n a),
  le_value-le_bytes n a w,
)

-- Byte strings of a fixed size are taken as they are.
abbrev pub Sized : ℕ → List ℕ → Type 0
Sized n v = (length v ≡ n) × All IsByte v

abbrev pub as_is : List ℕ → List ℕ
as_is v = v

pub bytes-Sound : (n : ℕ) → Sound (bytes n) as_is (Sized n)
unfolding bytes
bytes-Sound n b rest a h e = elim (Bool-cases (ltb (length b) n)) [
  | inl short ↦ cc (rw short at e)
  | inr enough ↦
      let (size, front, back) = split_at n b (ltb→le _ _ enough) h in
      let read = ok-injective (rw enough at e) in
      let value : take n b ≡ a = ap (λ t. t.0) read in
      let left : drop n b ≡ rest = ap (λ t. t.1) read in
      (
        sym (take-append-drop n b) ∙ ap₂ (λ x y. x ++ y) value left,
        subst (Sized n) value (size, front),
        subst (All IsByte) left back,
      )
]

pub bytes-Complete : (n : ℕ) → Complete (bytes n) as_is (Sized n)
unfolding bytes
bytes-Complete n a rest w = rw (
  le→ltb (length (a ++ rest)) n (omega (arith, length-append a rest, w.0)),
  take-length a rest n w.0,
  drop-length a rest n w.0,
)
