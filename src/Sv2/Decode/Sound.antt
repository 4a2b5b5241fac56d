-- ===== src/Sv2/Decode/Sound.antt =====
-- What `decode` accepts is exactly the wire format.
use mathlib.Core.List.{reverse}
use supryolo.Base.{
  ℕ, ◌≡◌, refl, sym, ap, subst, ◌∙◌, arith, List, [], ◌∷◌, ◌++◌, ◌⊎◌, inl, inr, All, append-nil,
  Bool, true, false, not, ltb, ◌==◌, ◌||◌, if◌then◌else◌, Bool-cases, ==_iff, Result, ok, err,
}
use supryolo.Base.Bytes.{IsByte, IsU32}
use supryolo.Words.{le_bytes}
use supryolo.Sv2.Types.{
  Frame, Message, setup_success, open_success, new_job, prev_hash, target, accepted, rejected,
  error,
}
use supryolo.Sv2.Reader.{
  Reader, ◌>>=◌, check, integer, u32, hash, target_hash, short_bytes, string, finish,
}
use supryolo.Sv2.Reader.Laws.{
  Sound, Yields, pure-Yields, bind-Yields, Below, integer-Sound, Sized, as_is,
}
use supryolo.Sv2.Reader.Strings.{
  Sound-Yields, check-Sound, u32-Sound, hash-Sound, target_hash-Sound, short_bytes-Sound,
  string-Sound, IsTarget, Within, with_length,
}
use supryolo.Sv2.Decode
use supryolo.Sv2.Decode.{decode, expected_extension}
use supryolo.Sv2.Decode.Format.{
  payload_of, type_of, extension_of, frame_of, IsMessage, ntime_field, OptionalU32,
}

-- What a branch of the switch takes: the payload of a message of its type.
abbrev Prints : ℕ → Message → List ℕ → Type 0
Prints k m c = (c ≡ payload_of m) × IsMessage m × (type_of m ≡ k)

-- The step for a 32-bit field.
u32-step :
    {B : Type 0} (k : ℕ → Reader B) (Q : B → List ℕ → Type 0)
    → ((x : ℕ) → IsU32 x → Yields (k x) (λ m c. Q m (le_bytes 4 x ++ c)))
    → Yields (u32 >>= k) Q
u32-step k Q = bind-Yields u32 (le_bytes 4) IsU32 k Q u32-Sound

string-step :
    {B : Type 0} (k : List ℕ → Reader B) (Q : B → List ℕ → Type 0)
    → ((x : List ℕ) → Within 255 x → Yields (k x) (λ m c. Q m (with_length x ++ c)))
    → Yields (string >>= k) Q
string-step k Q = bind-Yields string with_length (Within 255) k Q string-Sound

hash-step :
    {B : Type 0} (k : List ℕ → Reader B) (Q : B → List ℕ → Type 0)
    → ((x : List ℕ) → Sized 32 x → Yields (k x) (λ m c. Q m (x ++ c)))
    → Yields (hash >>= k) Q
hash-step k Q = bind-Yields hash as_is (Sized 32) k Q hash-Sound

target-step :
    {B : Type 0} (k : List ℕ → Reader B) (Q : B → List ℕ → Type 0)
    → ((x : List ℕ) → IsTarget x → Yields (k x) (λ m c. Q m (reverse x ++ c)))
    → Yields (target_hash >>= k) Q
target-step k Q = bind-Yields target_hash reverse IsTarget k Q target_hash-Sound

setup_success-Yields : Yields Decode.read_setup_success (Prints 1)
unfolding Decode.read_setup_success payload_of type_of IsMessage
setup_success-Yields =
    bind-Yields (integer 2) (le_bytes 2) (Below 2) _ _ (integer-Sound 2)
      λ v a. u32-step _ _ λ f b. pure-Yields _ _ (refl, (a, b), refl)

open_success-Yields : Yields Decode.read_open_success (Prints 0x11)
unfolding Decode.read_open_success payload_of type_of IsMessage
open_success-Yields = u32-step _ _ λ r a. u32-step _ _ λ c b. target-step _ _ λ t d.
    bind-Yields (short_bytes 32) with_length (Within 32) _ _ (short_bytes-Sound 32 (omega arith))
      λ p e. u32-step _ _ λ g f. pure-Yields _ _ (refl, (a, b, d, e, f), refl)

branch-Yields :
    {A : Type 0} (t : Bool) (r s : Reader A) (Q : A → List ℕ → Type 0)
    → (t ≡ true → Yields r Q)
    → (t ≡ false → Yields s Q)
    → Yields (if t then r else s) Q
branch-Yields true r s Q f g = f refl
branch-Yields false r s Q f g = g refl

is_one : (n : ℕ) → not (ltb 1 n) ≡ true → (n == 0) ≡ false → n ≡ 1
is_one n t z = ground arith

ntime-Sound : Sound Decode.read_ntime ntime_field OptionalU32
unfolding Decode.read_ntime ntime_field
ntime-Sound = Sound-Yields Decode.read_ntime ntime_field OptionalU32 (
    bind-Yields (integer 1) (le_bytes 1) (Below 1) _ _ (integer-Sound 1) λ n a.
      bind-Yields (check _ _) (λ u. []) _ _ _ (check-Sound _ _)
        λ u t.
          branch-Yields (n == 0) _ _ _
            (λ z.
              pure-Yields _ _
                (ap (λ k. le_bytes 1 k ++ []) ((==_iff n 0).0 z) ∙ append-nil (le_bytes 1 0), tt))
            (λ z. u32-step _ _ λ s b. pure-Yields _ _ (
              ap (λ k. le_bytes 1 k ++ (le_bytes 4 s ++ [])) (is_one n t z)
                  ∙ ap (λ c. le_bytes 1 1 ++ c) (append-nil (le_bytes 4 s)),
              b,
            )))

new_job-Yields : Yields Decode.read_new_job (Prints 0x15)
unfolding Decode.read_new_job payload_of type_of IsMessage
new_job-Yields = u32-step _ _ λ c a. u32-step _ _ λ j b.
    bind-Yields Decode.read_ntime ntime_field OptionalU32 _ _ ntime-Sound
      λ t d. u32-step _ _ λ v e. hash-step _ _ λ h f. pure-Yields _ _ (refl, (a, b, d, e, f), refl)

prev_hash-Yields : Yields Decode.read_prev_hash (Prints 0x20)
unfolding Decode.read_prev_hash payload_of type_of IsMessage
prev_hash-Yields = u32-step _ _ λ c a. u32-step _ _ λ j b.
    hash-step _ _
      λ h d. u32-step _ _ λ t e. u32-step _ _ λ n f. pure-Yields _ _ (refl, (a, b, d, e, f), refl)

target-Yields : Yields Decode.read_target (Prints 0x21)
unfolding Decode.read_target payload_of type_of IsMessage
target-Yields = u32-step _ _ λ c a. target-step _ _ λ t b. pure-Yields _ _ (refl, (a, b), refl)

accepted-Yields : Yields Decode.read_accepted (Prints 0x1c)
unfolding Decode.read_accepted payload_of type_of IsMessage
accepted-Yields = u32-step _ _ λ c a. u32-step _ _ λ s b. u32-step _ _ λ n d.
    bind-Yields (integer 8) (le_bytes 8) (Below 8) _ _ (integer-Sound 8)
      λ v e. pure-Yields _ _ (refl, (a, b, d, e), refl)

rejected-Yields : Yields Decode.read_rejected (Prints 0x1d)
unfolding Decode.read_rejected payload_of type_of IsMessage
rejected-Yields =
    u32-step _ _
      λ c a. u32-step _ _ λ s b. string-step _ _ λ r d. pure-Yields _ _ (refl, (a, b, d), refl)

abbrev pub ErrorType : ℕ → Type 0
ErrorType k = (k ≡ 2) ⊎ (k ≡ 0x12) ⊎ (k ≡ 0x18)

error-Yields : (k : ℕ) → ErrorType k → Yields (Decode.read_error k) (Prints k)
unfolding Decode.read_error payload_of type_of IsMessage
error-Yields k t =
    u32-step _ _ λ r a. string-step _ _ λ s b. pure-Yields _ _ (refl, (t, a, b), refl)

of_type :
    (k n : ℕ) {r : Reader Message} → Yields r (Prints n) → (k == n) ≡ true → Yields r (Prints k)
of_type k n {r} y t = subst (λ i. Yields r (Prints i)) (sym ((==_iff k n).0 t)) y

error_type : (k : ℕ) → (k == 2 || k == 0x12 || k == 0x18) ≡ true → ErrorType k
error_type k t = ground arith

value-Yields : (k : ℕ) → Yields (Decode.read_value k) (Prints k)
unfolding Decode.read_value
value-Yields k = branch-Yields (k == 1) _ _ _ (of_type k 1 setup_success-Yields) λ _.
    branch-Yields (k == 0x11) _ _ _ (of_type k 0x11 open_success-Yields) λ _.
      branch-Yields (k == 0x15) _ _ _ (of_type k 0x15 new_job-Yields) λ _.
        branch-Yields (k == 0x20) _ _ _ (of_type k 0x20 prev_hash-Yields) λ _.
          branch-Yields (k == 0x21) _ _ _ (of_type k 0x21 target-Yields) λ _.
            branch-Yields (k == 0x1c) _ _ _ (of_type k 0x1c accepted-Yields) λ _.
              branch-Yields (k == 0x1d) _ _ _ (of_type k 0x1d rejected-Yields) λ _.
                branch-Yields (k == 2 || k == 0x12 || k == 0x18) _ _ _
                  (λ t. error-Yields k (error_type k t)) (λ _ b rest m h e. cc)

finish-ok : {A : Type 0} (r : Result (A × List ℕ)) (a : A) → finish r ≡ ok a → r ≡ ok (a, [])
finish-ok (ok (b, [])) a e = ground arith
finish-ok (ok (b, x ∷ xs)) a e = cc
finish-ok (err why) a e = cc

pub extension_of-expected :
    (m : Message) → IsMessage m → extension_of m ≡ expected_extension (type_of m)
unfolding IsMessage extension_of type_of
extension_of-expected (setup_success m) w = refl
extension_of-expected (open_success m) w = refl
extension_of-expected (new_job m) w = refl
extension_of-expected (prev_hash m) w = refl
extension_of-expected (target m) w = refl
extension_of-expected (accepted m) w = refl
extension_of-expected (rejected m) w = refl
extension_of-expected (error m) (inl t, a, b) = rw t
extension_of-expected (error m) (inr (inl t), a, b) = rw t
extension_of-expected (error m) (inr (inr t), a, b) = rw t

-- A frame that decodes is the frame of its message, byte for byte: type, extension field and payload
-- follow from the message, nothing trails it, and every field of the message is in its range.
pub frame_of-decode :
    (f : Frame) (m : Message)
    → All IsByte f.payload
    → decode f ≡ ok m
    → (f ≡ frame_of m) × IsMessage m
unfolding decode frame_of
frame_of-decode f m h e = elim (Bool-cases (f.extension == expected_extension f.type)) [
  | inr bad ↦ cc (rw bad at e)
  | inl good ↦
      let read = finish-ok (Decode.read_value f.type f.payload) m (rw good at e) in
      let (c, split, (printed, w, type), _) = value-Yields f.type f.payload [] m h read in
      let payload : f.payload ≡ payload_of m = split ∙ append-nil c ∙ printed in
      let extension : f.extension ≡ extension_of m =
        (==_iff _ _).0 good ∙ ap expected_extension (sym type) ∙ sym (extension_of-expected m w) in
      (λ i. record { extension = extension i; type = sym type i; payload = payload i }, w)
]
