-- ===== src/Opencl/Devices.antt =====
-- src/opencl/runtime.cpp: `enumerate` and `opencl_devices`. src/devices.cpp: `gpu_devices` and `gpu_block`. What
-- the OpenCL library and the CUDA driver list is an argument. A handle is the library's answers to
-- `clGetDeviceInfo` about the device, where `none` is an error code; for the two texts, what `string_info`
-- gives, or `none` when it throws.
pub mod Numbered
pub mod Gpus
use supryolo.Base.{
  ℕ, zero, suc, ◌+◌, ◌-◌, ◌/◌, ◌%◌, List, [], ◌∷◌, ◌++◌, Bool, true, false, not, ◌&&◌, ◌||◌, Option,
  none, some, length, take, replicate, get_or, map, ltb, ◌==◌, if◌then◌else◌, Result, ok, err,
  ◌>>=◌, ◌>>◌, require,
}
use supryolo.Base.Bytes.{codes}
use supryolo.Hex.{hex_digits}
use supryolo.Sv2.Session.Settle.{text_eq}
use supryolo.Miner.Select.{GpuApi, GpuInfo, cuda, opencl}

pub record Handle : Type 0 where
  pub available : Option Bool
  pub compiler : Option Bool
  pub little : Option Bool
  pub vendor : Option ℕ
  pub bus_info : Option (ℕ × ℕ × ℕ × ℕ)
  pub topology : Option (ℕ × ℕ × ℕ × ℕ)
  pub name : Option (List ℕ)
  pub board : Option (List ℕ)

pub record Device : Type 0 where
  pub handle : Handle
  pub info : GpuInfo

-- What the library lists: the code that says there are none, another error code, or the list.
pub data Listing (A : Type 0) : Type 0 where
  missing failed : Listing A
  listed : List A → Listing A

-- A failed `query` leaves the value that the variable has.
abbrev pub query : {A : Type 0} → Option A → A → A
query none initial = initial
query (some a) initial = a

-- `%x` of a number below 2^32, behind zeros up to a width.
unfoldable pub hex_number : ℕ → ℕ → List ℕ → List ℕ
hex_number zero n s = s
hex_number (suc k) n s =
    let more = hex_number k (n / 16) (get_or hex_digits (n % 16) 0 ∷ s) in
    if ltb n 16 then get_or hex_digits (n % 16) 0 ∷ s else more

unfoldable pub padded : ℕ → ℕ → List ℕ
unfolding hex_number
padded width n = let s = hex_number 8 n [] in replicate (width - length s) b'0' ++ s

-- `%04x:%02x:%02x.%x`; `snprintf` cuts the text at 31 characters.
unfoldable pub pci_text : ℕ × ℕ × ℕ × ℕ → List ℕ
unfolding padded
pci_text (domain, bus, device, function) = take 31 (
    padded 4 domain
    ++ ((b':' ∷ padded 2 bus) ++ ((b':' ∷ padded 2 device) ++ (b'.' ∷ padded 1 function))))

-- The AMD answer is of use when its type is 1; its numbers are bytes.
unfoldable pub topology_text : Option (ℕ × ℕ × ℕ × ℕ) → List ℕ
topology_text none = []
topology_text (some (kind, bus, device, function)) =
    if kind == 1 then pci_text (0, bus % 256, device % 256, function % 256) else []

abbrev pub amd_vendor : ℕ
amd_vendor = 0x1002

abbrev pub vendor_of : Handle → ℕ
vendor_of d = query d.vendor 0

unfoldable pub pci_or : Option (ℕ × ℕ × ℕ × ℕ) → Handle → List ℕ
unfolding topology_text
pci_or (some bus) d = pci_text bus
pci_or none d = if vendor_of d == amd_vendor then topology_text d.topology else []

abbrev pub pci_of : Handle → List ℕ
pci_of d = pci_or d.bus_info d

abbrev pub is_usable : Handle → Bool
is_usable d = query d.available false && (query d.compiler false && query d.little false)

abbrev pub string_info : Option (List ℕ) → Result (List ℕ)
string_info none = err "device info"
string_info (some s) = ok s

-- An AMD board's name stands first, if there is one.
unfoldable pub board_name : Option (List ℕ) → List ℕ → List ℕ
board_name none name = name
board_name (some []) name = name
board_name (some (c ∷ board)) name = (c ∷ board) ++ (codes " (" ++ (name ++ codes ")"))

-- `std::set::contains`.
unfoldable pub is_seen : List ℕ → List (List ℕ) → Bool
is_seen p [] = false
is_seen p (q ∷ seen) = text_eq q p || is_seen p seen

abbrev pub is_empty : List ℕ → Bool
is_empty [] = true
is_empty (c ∷ s) = false

-- The set and the list that the loops fill.
pub record Found : Type 0 where
  pub seen : List (List ℕ)
  pub out : List Device

abbrev pub nothing_found : Found
nothing_found = record { seen = []; out = [] }

-- The entry with number `n`.
abbrev pub described : Handle → List ℕ → ℕ → Device
described d name n = record {
  handle = d;
  info = record {
    index = n;
    name = if vendor_of d == amd_vendor then board_name d.board name else name;
    pci_bus = pci_of d;
    api = opencl;
    backend_index = some n;
    amd = vendor_of d == amd_vendor;
  };
}

unfoldable pub add : Handle → Found → Result Found
add d f = do
  name ← string_info d.name
  ok (record {
    seen = if is_empty (pci_of d) then f.seen else pci_of d ∷ f.seen;
    out = f.out ++ (described d name (length f.out) ∷ []);
  })

-- The body of the loop over devices.
unfoldable pub visit : Handle → Found → Result Found
visit d f =
    if not (is_usable d)
    then ok f
    else if not (is_empty (pci_of d)) && is_seen (pci_of d) f.seen
    then ok f
    else add d f

unfoldable pub visit_all : List Handle → Found → Result Found
visit_all [] f = ok f
visit_all (d ∷ ds) f = do f' ← visit d f; visit_all ds f'

unfoldable pub visit_platforms : List (Listing Handle) → Found → Result Found
visit_platforms [] f = ok f
visit_platforms (missing ∷ ps) f = visit_platforms ps f
visit_platforms (failed ∷ ps) f = err "device enumeration"
visit_platforms (listed ds ∷ ps) f = do f' ← visit_all ds f; visit_platforms ps f'

-- A library that is not installed lists nothing, like one without platforms.
unfoldable pub enumerate : Listing (Listing Handle) → Result (List Device)
enumerate missing = ok []
enumerate failed = err "platform enumeration"
enumerate (listed ps) = do f ← visit_platforms ps nothing_found; ok f.out

unfoldable pub keep_infos : Bool → List Device → List GpuInfo
keep_infos amd_only [] = []
keep_infos amd_only (d ∷ ds) =
    let rest = keep_infos amd_only ds in if not amd_only || d.info.amd then d.info ∷ rest else rest

unfoldable pub opencl_devices : Bool → Listing (Listing Handle) → Result (List GpuInfo)
opencl_devices amd_only platforms = do ds ← enumerate platforms; ok (keep_infos amd_only ds)

-- The loop that appends with new numbers.
unfoldable pub append_numbered : List GpuInfo → List GpuInfo → List GpuInfo
append_numbered out [] = out
append_numbered out (d ∷ ds) = append_numbered (out ++ (record d { index = length out } ∷ [])) ds

abbrev pub with_backend : GpuInfo → GpuInfo
with_backend d = record d { backend_index = some d.index }

-- The CUDA part, of which there is none in mode `opencl`.
abbrev pub cuda_part : List ℕ → List GpuInfo → List GpuInfo
cuda_part mode cuda_devices =
    if text_eq mode (codes "opencl") then [] else map with_backend cuda_devices

abbrev pub no_devices : List GpuInfo → Bool
no_devices [] = true
no_devices (d ∷ ds) = false

abbrev pub is_mode : List ℕ → Bool
is_mode mode =
    text_eq mode (codes "auto") || (text_eq mode (codes "cuda") || text_eq mode (codes "opencl"))

unfoldable pub gpu_devices :
    List ℕ → List GpuInfo → Listing (Listing Handle) → Result (List GpuInfo)
gpu_devices mode cuda_devices platforms =
    let out = cuda_part mode cuda_devices in
    let others = opencl_devices (text_eq mode (codes "auto") && not (no_devices out)) platforms in
    if not (is_mode mode)
    then err "GPU backend must be auto, cuda or opencl"
    else if text_eq mode (codes "cuda")
    then ok out
    else others >>= (λ ds. ok (append_numbered out ds))

-- The workgroup size; 0 is the default of the API.
unfoldable pub gpu_block : GpuApi → ℕ → ℕ
gpu_block cuda configured = if configured == 0 then 256 else configured
gpu_block opencl configured = if configured == 0 then 64 else configured
