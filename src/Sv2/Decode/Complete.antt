-- ===== src/Sv2/Decode/Complete.antt =====
-- Every message in the wire format is decoded.
use mathlib.Core.List.{reverse}
use supryolo.Base.{
  ℕ, ◌≡◌, ap, ◌∙◌, arith, List, [], ◌++◌, inl, inr, none, some, append_assoc, ok, ==_refl,
}
use supryolo.Base.Bytes.{IsU32}
use supryolo.Words.{le_bytes}
use supryolo.Sv2.Types.{
  Message, Error, setup_success, open_success, new_job, prev_hash, target, accepted, rejected,
  error,
}
use supryolo.Sv2.Reader.{Reader, ◌>>=◌, integer, u32, hash, target_hash, short_bytes, string}
use supryolo.Sv2.Reader.Laws.{Complete, bind-Complete, Below, integer-Complete, Sized, as_is}
use supryolo.Sv2.Reader.Strings.{
  u32-Complete, hash-Complete, target_hash-Complete, short_bytes-Complete, string-Complete,
  IsTarget, Within, with_length,
}
use supryolo.Sv2.Decode
use supryolo.Sv2.Decode.{decode, expected_extension}
use supryolo.Sv2.Decode.Format.{payload_of, type_of, frame_of, IsMessage, ntime_field, OptionalU32}
use supryolo.Sv2.Decode.Sound.{extension_of-expected, ErrorType}

u32-then :
    {B : Type 0} (k : ℕ → Reader B) (x : ℕ) (b : List ℕ)
    → IsU32 x
    → (u32 >>= k) (le_bytes 4 x ++ b) ≡ k x b
u32-then k = bind-Complete u32 (le_bytes 4) IsU32 k u32-Complete

string-then :
    {B : Type 0} (k : List ℕ → Reader B) (x b : List ℕ)
    → Within 255 x
    → (string >>= k) (with_length x ++ b) ≡ k x b
string-then k = bind-Complete string with_length (Within 255) k string-Complete

hash-then :
    {B : Type 0} (k : List ℕ → Reader B) (x b : List ℕ) → Sized 32 x → (hash >>= k) (x ++ b) ≡ k x b
hash-then k = bind-Complete hash as_is (Sized 32) k hash-Complete

target-then :
    {B : Type 0} (k : List ℕ → Reader B) (x b : List ℕ)
    → IsTarget x
    → (target_hash >>= k) (reverse x ++ b) ≡ k x b
target-then k = bind-Complete target_hash reverse IsTarget k target_hash-Complete

ntime-Complete : Complete Decode.read_ntime ntime_field OptionalU32
unfolding Decode.read_ntime ntime_field
ntime-Complete none rest w =
    bind-Complete (integer 1) (le_bytes 1) (Below 1) _ (integer-Complete 1) 0 rest (omega arith)
ntime-Complete (some t) rest w =
    ap Decode.read_ntime (append_assoc (le_bytes 1 1) (le_bytes 4 t) rest)
    ∙ bind-Complete (integer 1) (le_bytes 1) (Below 1) _ (integer-Complete 1) 1
        (le_bytes 4 t ++ rest) (omega arith)
    ∙ u32-then _ t rest w

error-branch : (k : ℕ) → ErrorType k → Decode.read_value k ≡ Decode.read_error k
unfolding Decode.read_value
error-branch k (inl e) = rw e
error-branch k (inr (inl e)) = rw e
error-branch k (inr (inr e)) = rw e

error-reads :
    (m : Error)
    → IsMessage (error m)
    → Decode.read_error m.type (payload_of (error m)) ≡ ok (error m, [])
unfolding Decode.read_error IsMessage payload_of
error-reads m w = u32-then _ m.reference _ w.1 ∙ string-then _ m.reason _ w.2

value-reads :
    (m : Message) → IsMessage m → Decode.read_value (type_of m) (payload_of m) ≡ ok (m, [])
unfolding Decode.read_value IsMessage payload_of type_of
value-reads (setup_success m) w =
    unfold Decode.read_setup_success in
    (bind-Complete (integer 2) (le_bytes 2) (Below 2) _ (integer-Complete 2) m.version _ w.0
      ∙ u32-then _ m.flags _ w.1)
value-reads (open_success m) w =
    unfold Decode.read_open_success in
    (u32-then _ m.request _ w.0
      ∙ u32-then _ m.channel _ w.1
      ∙ target-then _ m.target _ w.2
      ∙ bind-Complete (short_bytes 32) with_length (Within 32) _
          (short_bytes-Complete 32 (omega arith)) m.prefix _ w.3
      ∙ u32-then _ m.group _ w.4)
value-reads (new_job m) w =
    unfold Decode.read_new_job in
    (u32-then _ m.channel _ w.0
      ∙ u32-then _ m.job _ w.1
      ∙ bind-Complete Decode.read_ntime ntime_field OptionalU32 _ ntime-Complete m.ntime _ w.2
      ∙ u32-then _ m.version _ w.3
      ∙ hash-then _ m.root _ w.4)
value-reads (prev_hash m) w =
    unfold Decode.read_prev_hash in
    (u32-then _ m.channel _ w.0
      ∙ u32-then _ m.job _ w.1
      ∙ hash-then _ m.hash _ w.2
      ∙ u32-then _ m.ntime _ w.3
      ∙ u32-then _ m.nbits _ w.4)
value-reads (target m) w =
    unfold Decode.read_target in (u32-then _ m.channel _ w.0 ∙ target-then _ m.target _ w.1)
value-reads (accepted m) w =
    unfold Decode.read_accepted in
    (u32-then _ m.channel _ w.0
      ∙ u32-then _ m.last_sequence _ w.1
      ∙ u32-then _ m.count _ w.2
      ∙ bind-Complete (integer 8) (le_bytes 8) (Below 8) _ (integer-Complete 8) m.difficulty_sum _
          w.3)
value-reads (rejected m) w =
    unfold Decode.read_rejected in
    (u32-then _ m.channel _ w.0 ∙ u32-then _ m.sequence _ w.1 ∙ string-then _ m.reason _ w.2)
value-reads (error m) w =
    ap (λ r. r (payload_of (error m))) (error-branch m.type w.0) ∙ error-reads m w

-- Every message whose fields are in range decodes from its frame, to itself.
pub decode-frame_of : (m : Message) → IsMessage m → decode (frame_of m) ≡ ok m
unfolding decode frame_of
decode-frame_of m w =
    rw (extension_of-expected m w, ==_refl (expected_extension (type_of m)), value-reads m w)
