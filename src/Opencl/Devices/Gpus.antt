-- ===== src/Opencl/Devices/Gpus.antt =====
-- src/devices.cpp: the numbers of all GPUs.
use supryolo.Base.{
  ℕ, ◌+◌, ◌≡◌, refl, subst, ◌∙◌, arith, List, [], ◌∷◌, ◌++◌, not, ◌&&◌, inl, inr, Bool-cases,
  length, map, ok, ok-injective, >>=-eq-ok,
}
use supryolo.Base.Bytes.{codes}
use supryolo.Sv2.Session.Settle.{text_eq}
use supryolo.Miner.Select.{GpuInfo}
use supryolo.Opencl.Devices.{
  Handle, Listing, opencl_devices, append_numbered, with_backend, cuda_part, no_devices, is_mode,
  gpu_devices,
}

-- The n-th GPU has number n.
abbrev pub InOrder : ℕ → List GpuInfo → Type 0
InOrder k [] = Unit {0}
InOrder k (d ∷ ds) = (d.index ≡ k) × InOrder (k + 1) ds

snoc-InOrder :
    (k n : ℕ) (ds : List GpuInfo) (d : GpuInfo)
    → InOrder k ds
    → n ≡ k + length ds
    → d.index ≡ n
    → InOrder k (ds ++ (d ∷ []))
snoc-InOrder k n [] d h e i = (i ∙ at_k, tt)
  where
    at_k : n ≡ k
    at_k = omega arith
snoc-InOrder k n (x ∷ ds) d (h, hs) e i = (h, snoc-InOrder (k + 1) n ds d hs (omega arith) i)

append-InOrder : (out ds : List GpuInfo) → InOrder 0 out → InOrder 0 (append_numbered out ds)
unfolding append_numbered
append-InOrder out [] h = h
append-InOrder out (d ∷ ds) h =
    append-InOrder (out ++ (record d { index = length out } ∷ [])) ds
      (snoc-InOrder 0 (length out) out (record d { index = length out }) h (omega arith) refl)

backend-InOrder : (k : ℕ) (ds : List GpuInfo) → InOrder k ds → InOrder k (map with_backend ds)
backend-InOrder k [] h = tt
backend-InOrder k (d ∷ ds) (h, hs) = (h, backend-InOrder (k + 1) ds hs)

cuda-InOrder : (mode : List ℕ) (ds : List GpuInfo) → InOrder 0 ds → InOrder 0 (cuda_part mode ds)
cuda-InOrder mode ds h = elim (Bool-cases (text_eq mode (codes "opencl"))) [
  | inl other ↦ rw other tt
  | inr both ↦ rw both (backend-InOrder 0 ds h)
]

-- When the CUDA driver numbers its devices by their places, then in every mode, and whatever the
-- OpenCL platforms answer, the numbers of all GPUs that are listed are their places in the list.
pub gpu_devices-InOrder :
    (mode : List ℕ) (cuda_devices : List GpuInfo) (platforms : Listing (Listing Handle))
    (ds : List GpuInfo)
    → InOrder 0 cuda_devices
    → gpu_devices mode cuda_devices platforms ≡ ok ds
    → InOrder 0 ds
unfolding gpu_devices
gpu_devices-InOrder mode cuda_devices platforms ds h e =
    let out = cuda_part mode cuda_devices in
    let only = text_eq mode (codes "auto") && not (no_devices out) in
    elim (Bool-cases (is_mode mode)) [
      | inr unknown ↦ cc (rw unknown at e)
      | inl known ↦ elim (Bool-cases (text_eq mode (codes "cuda"))) [
        | inl cuda_only ↦
            subst (InOrder 0) (ok-injective (rw (known, cuda_only) at e))
              (cuda-InOrder mode cuda_devices h)
        | inr both ↦
            (let (others, listed, e2) =
                >>=-eq-ok (opencl_devices only platforms) (λ ds. ok (append_numbered out ds))
                  (rw (known, both) at e) in
              subst (InOrder 0) (ok-injective e2)
                (append-InOrder out others (cuda-InOrder mode cuda_devices h)))
      ]
    ]
