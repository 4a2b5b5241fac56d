-- ===== src/Sv2/Encode/Laws.antt =====
-- What the miner's messages say, read back field by field with the readers of the pool's messages.
use mathlib.Core.List.{reverse, reverse-reverse}
use supryolo.Base.{
  ℕ, ◌^◌, ◌≤◌, ◌<◌, ◌≡◌, refl, ap, ◌∙◌, arith, List, [], ◌∷◌, ◌++◌, length, le→ltb, lt→ltb,
  append_assoc, append-nil, Result, ok, err, true, false,
}
use supryolo.Base.Bytes.{IsU32, codes}
use supryolo.Words.{le_bytes}
use supryolo.Sv2.Types.{Frame}
use supryolo.Sv2.Reader
use supryolo.Sv2.Reader.{Reader, ◌>>=◌, pure, finish, u32}
use supryolo.Sv2.Reader.Laws.{bind-Complete, integer-Complete, Below, Sized, as_is}
use supryolo.Sv2.Reader.Strings.{u32-Complete, hash-Complete, string-Complete, Within, with_length}
use supryolo.Sv2.Decode.Format.{fields}
use supryolo.Sv2.Encode.{
  integer, string, setup, open_standard, words, submit_standard, is_finite, is_negative,
}

pub record Submit : Type 0 where
  pub channel : ℕ
  pub sequence : ℕ
  pub job : ℕ
  pub nonce : ℕ
  pub ntime : ℕ
  pub version : ℕ

unfoldable pub read_submit : Reader Submit
read_submit = do
  c ← u32
  s ← u32
  j ← u32
  n ← u32
  t ← u32
  v ← u32
  pure (record { channel = c; sequence = s; job = j; nonce = n; ntime = t; version = v })

u32-then :
    {B : Type 0} (k : ℕ → Reader B) (x : ℕ) (b : List ℕ)
    → IsU32 x
    → (u32 >>= k) (le_bytes 4 x ++ b) ≡ k x b
u32-then k = bind-Complete u32 (le_bytes 4) IsU32 k u32-Complete

string-then :
    {B : Type 0} (k : List ℕ → Reader B) (x b : List ℕ)
    → Within 255 x
    → (Reader.string >>= k) (with_length x ++ b) ≡ k x b
string-then k = bind-Complete Reader.string with_length (Within 255) k string-Complete

integer-then :
    {B : Type 0} (n : ℕ) (k : ℕ → Reader B) (x : ℕ) (b : List ℕ)
    → x < 256 ^ n
    → (Reader.integer n >>= k) (le_bytes n x ++ b) ≡ k x b
integer-then n k = bind-Complete (Reader.integer n) (le_bytes n) (Below n) k (integer-Complete n)

submit-fields :
    (c s j n t v : ℕ)
    → (submit_standard c s j n t v).payload
      ≡ fields (
          le_bytes 4 c
          ∷ le_bytes 4 s
          ∷ le_bytes 4 j
          ∷ le_bytes 4 n
          ∷ le_bytes 4 t
          ∷ le_bytes 4 v
          ∷ [])
unfolding submit_standard words integer
submit-fields c s j n t v = simp (append_assoc, append-nil)

-- A submitted share carries the channel bit and its type, and its payload is the six numbers, in
-- order and with nothing behind them.
pub read_submit-submit_standard :
    (c s j n t v : ℕ)
    → IsU32 c
    → IsU32 s
    → IsU32 j
    → IsU32 n
    → IsU32 t
    → IsU32 v
    → let f = submit_standard c s j n t v in
      (f.extension ≡ 0x8000)
      × (f.type ≡ 0x1a)
      × (finish (read_submit f.payload)
          ≡ ok (record { channel = c; sequence = s; job = j; nonce = n; ntime = t; version = v }))
unfolding read_submit submit_standard
read_submit-submit_standard c s j n t v hc hs hj hn ht hv = (
  refl,
  refl,
  ap finish (
      ap read_submit (submit-fields c s j n t v)
      ∙ u32-then _ c _ hc
      ∙ u32-then _ s _ hs
      ∙ u32-then _ j _ hj
      ∙ u32-then _ n _ hn
      ∙ u32-then _ t _ ht
      ∙ u32-then _ v _ hv),
)

-- The fields of a setup message, as the protocol orders them.
pub record Setup : Type 0 where
  pub protocol : ℕ
  pub min_version : ℕ
  pub max_version : ℕ
  pub flags : ℕ
  pub host : List ℕ
  pub port : ℕ
  pub vendor : List ℕ
  pub hardware : List ℕ
  pub firmware : List ℕ
  pub device : List ℕ

unfoldable pub read_setup : Reader Setup
read_setup = do
  protocol ← Reader.integer 1
  low ← Reader.integer 2
  high ← Reader.integer 2
  flags ← Reader.integer 4
  host ← Reader.string
  port ← Reader.integer 2
  vendor ← Reader.string
  hardware ← Reader.string
  firmware ← Reader.string
  device ← Reader.string
  pure (record {
    protocol = protocol;
    min_version = low;
    max_version = high;
    flags = flags;
    host = host;
    port = port;
    vendor = vendor;
    hardware = hardware;
    firmware = firmware;
    device = device;
  })

string-ok : (s b : List ℕ) → length s ≤ 255 → string s b ≡ ok (b ++ with_length s)
unfolding string integer with_length
string-ok s b h = rw (le→ltb 255 (length s) h, append_assoc)

string-err : (s b : List ℕ) → 255 < length s → string s b ≡ err "SV2 string exceeds 255 bytes"
unfolding string
string-err s b h = rw (lt→ltb 255 (length s) h)

setup-fields :
    (host : List ℕ) (port : ℕ) (agent : List ℕ)
    → length host ≤ 255
    → length agent ≤ 255
    → setup host port agent
      ≡ ok (record {
        extension = 0;
        type = 0;
        payload = fields (
            le_bytes 1 0
            ∷ le_bytes 2 2
            ∷ le_bytes 2 2
            ∷ le_bytes 4 1
            ∷ with_length host
            ∷ le_bytes 2 port
            ∷ with_length (codes "ocminer")
            ∷ with_length (codes "supryolo")
            ∷ with_length agent
            ∷ with_length (codes "")
            ∷ []);
      })
unfolding setup integer
setup-fields host port agent h a =
    rw
      (
        string-ok host _ h,
        string-ok (codes "ocminer") _ (omega arith),
        string-ok (codes "supryolo") _ (omega arith),
        string-ok agent _ a,
        string-ok (codes "") _ (omega arith),
      )
      (simp (append_assoc, append-nil))

-- For a host and an agent of at most 255 bytes and a 16-bit port the setup frame asks for mining
-- protocol 0, version 2 to 2, flag 1, and names the host, the port, the vendor, the program and the
-- agent, with an empty device id and nothing behind it.
pub read_setup-setup :
    (host : List ℕ) (port : ℕ) (agent : List ℕ)
    → Within 255 host
    → port < 2 ^ 16
    → Within 255 agent
    → (f : Frame) × (setup host port agent ≡ ok f)
      × (f.extension ≡ 0)
      × (f.type ≡ 0)
      × (finish (read_setup f.payload)
          ≡ ok (record {
            protocol = 0;
            min_version = 2;
            max_version = 2;
            flags = 1;
            host = host;
            port = port;
            vendor = codes "ocminer";
            hardware = codes "supryolo";
            firmware = agent;
            device = [];
          }))
unfolding read_setup
read_setup-setup host port agent h p a = (
  _,
  setup-fields host port agent h.0 a.0,
  refl,
  refl,
  ap finish (
      integer-then 1 _ 0 _ (omega arith)
      ∙ integer-then 2 _ 2 _ (omega arith)
      ∙ integer-then 2 _ 2 _ (omega arith)
      ∙ integer-then 4 _ 1 _ (omega arith)
      ∙ string-then _ host _ h
      ∙ integer-then 2 _ port _ (omega arith)
      ∙ string-then _ (codes "ocminer") _ (omega arith)
      ∙ string-then _ (codes "supryolo") _ (omega arith)
      ∙ string-then _ agent _ a
      ∙ string-then _ [] _ (omega arith)),
)

-- An open request, as a pool reads it: the target is sent in reverse.
pub record Open : Type 0 where
  pub request : ℕ
  pub user : List ℕ
  pub rate : ℕ
  pub target : List ℕ

unfoldable pub read_open : Reader Open
read_open = do
  request ← u32
  user ← Reader.string
  rate ← u32
  target ← Reader.hash
  pure (record { request = request; user = user; rate = rate; target = reverse target })

open-fields :
    (request : ℕ) (user : List ℕ) (rate : ℕ) (max_target : List ℕ)
    → length user ≤ 255
    → is_finite rate ≡ true
    → is_negative rate ≡ false
    → open_standard request user rate max_target
      ≡ ok (record {
        extension = 0;
        type = 0x10;
        payload =
            fields
              (le_bytes 4 request ∷ with_length user ∷ le_bytes 4 rate ∷ reverse max_target ∷ []);
      })
unfolding open_standard integer
open-fields request user rate max_target u f n =
    rw (f, n, string-ok user _ u) (simp (append_assoc, append-nil))

-- A channel request with a finite rate that is not negative and a user of at most 255 bytes is sent,
-- and a pool reads back the request number, the user, the rate and the 32 bytes of the target.
pub read_open-open_standard :
    (request : ℕ) (user : List ℕ) (rate : ℕ) (max_target : List ℕ)
    → IsU32 request
    → Within 255 user
    → IsU32 rate
    → is_finite rate ≡ true
    → is_negative rate ≡ false
    → Sized 32 (reverse max_target)
    → (f : Frame) × (open_standard request user rate max_target ≡ ok f)
      × (f.extension ≡ 0)
      × (f.type ≡ 0x10)
      × (finish (read_open f.payload)
          ≡ ok (record { request = request; user = user; rate = rate; target = max_target }))
unfolding read_open
read_open-open_standard request user rate max_target hr hu hf fin pos sized = (
  _,
  open-fields request user rate max_target hu.0 fin pos,
  refl,
  refl,
  ap finish (
      u32-then _ request _ hr
      ∙ string-then _ user _ hu
      ∙ u32-then _ rate _ hf
      ∙ bind-Complete Reader.hash as_is (Sized 32) _ hash-Complete (reverse max_target) [] sized
      ∙ ap {B = Result (Open × List ℕ)}
          (λ t. ok (record { request = request; user = user; rate = rate; target = t }, []))
          (reverse-reverse max_target)),
)
