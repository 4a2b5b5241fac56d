-- ===== src/Sv2/Reader/Strings.antt =====
-- The composite readers: targets, and byte strings with a length in front.
use mathlib.Core.List.{reverse, reverse-reverse}
use supryolo.Base.{
  ℕ, ◌≤◌, ◌<◌, ◌≡◌, refl, sym, ap, subst, ◌∙◌, arith, List, [], ◌++◌, Bool, true, false, not,
  length, All, all, ltb, ◌==◌, ok-injective, append-nil, append_assoc, String,
}
use supryolo.Base.Bytes.{IsByte, IsU32}
use supryolo.Words.{le_bytes}
use supryolo.Sv2.Reader.{
  Reader, ◌>>◌, check, integer, u32, bytes, hash, target_hash, short_bytes, string,
}
use supryolo.Sv2.Reader.Laws.{
  Sound, Complete, Yields, pure-Yields, bind-Yields, bind-Complete, Below, integer-Sound,
  integer-Complete, Sized, as_is, bytes-Sound, bytes-Complete,
}

pub Sound-Yields :
    {A : Type 0} (r : Reader A) (p : A → List ℕ) (W : A → Type 0)
    → Yields r (λ a c. (c ≡ p a) × W a)
    → Sound r p W
Sound-Yields r p W y b rest a h e =
    let (c, split, (printed, w), h') = y b rest a h e in
    (split ∙ ap (λ x. x ++ rest) printed, w, h')

-- The last step of a `do` block that returns what it reads.
pub last-Yields :
    {A : Type 0} (r : Reader A) (p : A → List ℕ) (W : A → Type 0) (Q : A → List ℕ → Type 0)
    → Sound r p W
    → ((a : A) → W a → Q a (p a))
    → Yields r Q
last-Yields r p W Q s q b rest a h e =
    let (split, w, h') = s b rest a h e in (p a, split, q a w, h')

pub check-Sound : (t : Bool) (why : String) → Sound (check t why) (λ u. []) (λ u. t ≡ true)
check-Sound true why b rest a h e =
    let left : b ≡ rest = ap (λ t. t.1) (ok-injective e) in (left, refl, subst (All IsByte) left h)
check-Sound false why b rest a h e = cc

pub check-true :
    {B : Type 0} (t : Bool) (why : String) (k : Reader B) (b : List ℕ)
    → t ≡ true
    → (check t why >> k) b ≡ k b
check-true t why k b h = rw h

pub u32-Sound : Sound u32 (le_bytes 4) IsU32
unfolding u32
u32-Sound = integer-Sound 4

pub u32-Complete : Complete u32 (le_bytes 4) IsU32
unfolding u32
u32-Complete = integer-Complete 4

pub hash-Sound : Sound hash as_is (Sized 32)
unfolding hash
hash-Sound = bytes-Sound 32

pub hash-Complete : Complete hash as_is (Sized 32)
unfolding hash
hash-Complete = bytes-Complete 32

-- A target that is not zero, the most significant byte first. On the wire it is reversed.
pub record IsTarget (t : List ℕ) : Type 0 where
  pub sized : Sized 32 (reverse t)
  pub nonzero : all (λ x. x == 0) t ≡ false

target_test : (t : List ℕ) → not (all (λ x. x == 0) t) ≡ true → all (λ x. x == 0) t ≡ false
target_test t h = ground arith

pub target_hash-Sound : Sound target_hash reverse IsTarget
unfolding target_hash
target_hash-Sound = Sound-Yields target_hash reverse IsTarget (
    bind-Yields (bytes 32) as_is (Sized 32) _ _ (bytes-Sound 32) λ v w.
      bind-Yields (check _ _) (λ u. []) _ _ _ (check-Sound _ _)
        λ u t. pure-Yields (reverse v) _ (
          append-nil v ∙ sym (reverse-reverse v),
          record { sized = rw (reverse-reverse v) w; nonzero = target_test (reverse v) t },
        ))

pub target_hash-Complete : Complete target_hash reverse IsTarget
unfolding target_hash
target_hash-Complete t rest w =
    bind-Complete (bytes 32) as_is (Sized 32) _ (bytes-Complete 32) (reverse t) rest w.sized
    ∙ rw (reverse-reverse t, w.nonzero)

-- One byte of length, then the bytes.
unfoldable pub with_length : List ℕ → List ℕ
with_length v = le_bytes 1 (length v) ++ v

abbrev pub Within : ℕ → List ℕ → Type 0
Within max v = (length v ≤ max) × All IsByte v

module _ (max : ℕ) (small : max < 256) where
  within : (n : ℕ) (v : List ℕ) → Sized n v → not (ltb max n) ≡ true → Within max v
  within n v w t = (ground arith, w.1)

  pub short_bytes-Sound : Sound (short_bytes max) with_length (Within max)
  unfolding short_bytes with_length
  short_bytes-Sound = Sound-Yields (short_bytes max) with_length (Within max) (
      bind-Yields (integer 1) (le_bytes 1) (Below 1) _ _ (integer-Sound 1) λ n b.
        bind-Yields (check _ _) (λ u. []) _ _ _ (check-Sound _ _)
          λ u t.
            last-Yields (bytes n) as_is (Sized n) _ (bytes-Sound n)
              λ v w. (ap (λ k. le_bytes 1 k ++ v) (sym w.0), within n v w t))

  pub short_bytes-Complete : Complete (short_bytes max) with_length (Within max)
  unfolding short_bytes with_length
  short_bytes-Complete v rest w =
      ap (short_bytes max) (append_assoc (le_bytes 1 (length v)) v rest)
      ∙ bind-Complete (integer 1) (le_bytes 1) (Below 1) _ (integer-Complete 1) (length v)
          (v ++ rest) (omega (arith, w.0))
      ∙ check-true (not (ltb max (length v))) "invalid SV2 byte string length" (bytes (length v))
          (v ++ rest) (ground (arith, w.0))
      ∙ bytes-Complete (length v) v rest (refl, w.1)

pub string-Sound : Sound string with_length (Within 255)
unfolding string
string-Sound = short_bytes-Sound 255 (omega arith)

pub string-Complete : Complete string with_length (Within 255)
unfolding string
string-Complete = short_bytes-Complete 255 (omega arith)
