-- ===== src/Opencl/Devices/Numbered.antt =====
-- The devices that are listed: their numbers, and their places on the bus.
use supryolo.Base.{
  ℕ, ◌+◌, ◌≡◌, refl, ap, subst, ◌∙◌, arith, List, [], ◌∷◌, ◌++◌, Bool, false, not, ◌&&◌, ◌||◌, inl,
  inr, Bool-cases, some, length, if◌then◌else◌, ok, ok-injective, >>=-eq-ok, All, All-append,
}
use supryolo.Sv2.Session.Settle.{text_eq}
use supryolo.Opencl.Devices.{
  Handle, Device, Found, Listing, missing, failed, listed, nothing_found, is_seen, is_empty, pci_of,
  is_usable, string_info, described, add, visit, visit_all, visit_platforms, enumerate,
}

-- The n-th device has number n, as an OpenCL device and among all.
abbrev pub Numbered : ℕ → List Device → Type 0
Numbered k [] = Unit {0}
Numbered k (d ∷ ds) = ((d.info.index ≡ k) × (d.info.backend_index ≡ some k)) × Numbered (k + 1) ds

-- The devices known to have one place on the bus.
abbrev pub same_place : List ℕ → List ℕ → Bool
same_place p q = not (is_empty p) && text_eq p q

abbrev pub Apart : List Device → Type 0
Apart [] = Unit {0}
Apart (d ∷ ds) = All (λ e. same_place d.info.pci_bus e.info.pci_bus ≡ false) ds × Apart ds

Numbered-snoc :
    (k n : ℕ) (ds : List Device) (d : Device)
    → Numbered k ds
    → n ≡ k + length ds
    → d.info.index ≡ n
    → d.info.backend_index ≡ some n
    → Numbered k (ds ++ (d ∷ []))
Numbered-snoc k n [] d h e i b = ((i ∙ at_k, b ∙ ap some at_k), tt)
  where
    at_k : n ≡ k
    at_k = omega arith
Numbered-snoc k n (e ∷ ds) d (h, hs) n_k i b =
    (h, Numbered-snoc (k + 1) n ds d hs (omega arith) i b)

Apart-snoc :
    (ds : List Device) (d : Device)
    → Apart ds
    → All (λ e. same_place e.info.pci_bus d.info.pci_bus ≡ false) ds
    → Apart (ds ++ (d ∷ []))
Apart-snoc [] d h new = (tt, tt)
Apart-snoc (e ∷ ds) d (h, hs) (other, others) =
    (All-append _ ds (d ∷ []) h (other, tt), Apart-snoc ds d hs others)

-- The set holds the places of the devices in the list.
abbrev Covers : List (List ℕ) → Device → Type 0
Covers seen d = (q : List ℕ) → is_seen q seen ≡ false → same_place d.info.pci_bus q ≡ false

record Good (f : Found) : Type 0 where
  numbered : Numbered 0 f.out
  apart : Apart f.out
  covered : All (Covers f.seen) f.out

nowhere : (p : List ℕ) → same_place p [] ≡ false
unfolding text_eq
nowhere [] = refl
nowhere (c ∷ p) = refl

map_All {κ} :
    (P Q : Device → Type κ) (ds : List Device) → ((d : Device) → P d → Q d) → All P ds → All Q ds
map_All P Q [] h ps = tt
map_All P Q (d ∷ ds) h (p, ps) = (h d p, map_All P Q ds h ps)

-- A place that is new, or not known.
abbrev Fresh : List ℕ → List (List ℕ) → Type 0
Fresh p seen = (not (is_empty p) && is_seen p seen) ≡ false

abbrev see : List ℕ → List (List ℕ) → List (List ℕ)
see p seen = if is_empty p then seen else p ∷ seen

elsewhere :
    (seen : List (List ℕ)) (p : List ℕ) (d : Device)
    → Fresh p seen
    → Covers seen d
    → same_place d.info.pci_bus p ≡ false
elsewhere seen [] d fresh covers = nowhere d.info.pci_bus
elsewhere seen (c ∷ p) d fresh covers = covers (c ∷ p) fresh

still_covered :
    (seen : List (List ℕ)) (p : List ℕ) (d : Device) → Covers seen d → Covers (see p seen) d
unfolding is_seen
still_covered seen [] d covers q h = covers q h
still_covered seen (c ∷ p) d covers q h = covers q (ground arith)

now_covered :
    (seen : List (List ℕ)) (p : List ℕ) (d : Device) → d.info.pci_bus ≡ p → Covers (see p seen) d
unfolding is_seen
now_covered seen [] d e q h = ap (λ p. same_place p q) e
now_covered seen (c ∷ p) d e q h =
    ap (λ p. same_place p q) e ∙ first (text_eq (c ∷ p) q) (is_seen q seen) h
  where
    first : (a b : Bool) → (a || b) ≡ false → a ≡ false
    first a b h = ground arith

push-Good :
    (f : Found) (d : Device) (p : List ℕ)
    → d.info.pci_bus ≡ p
    → d.info.index ≡ length f.out
    → d.info.backend_index ≡ some (length f.out)
    → Fresh p f.seen
    → Good f
    → Good (record { seen = see p f.seen; out = f.out ++ (d ∷ []) })
push-Good f d p e i b fresh g = record {
  numbered = Numbered-snoc 0 (length f.out) f.out d g.numbered (omega arith) i b;
  apart = Apart-snoc f.out d g.apart (
      map_All (Covers f.seen) (λ o. same_place o.info.pci_bus d.info.pci_bus ≡ false) f.out
        (λ o c. ap (same_place o.info.pci_bus) e ∙ elsewhere f.seen p o fresh c) g.covered);
  covered =
      All-append (Covers (see p f.seen)) f.out (d ∷ [])
        (map_All (Covers f.seen) (Covers (see p f.seen)) f.out (λ o. still_covered f.seen p o)
          g.covered)
        (now_covered f.seen p d e, tt);
}

add-Good :
    (d : Handle) (f f' : Found) → Fresh (pci_of d) f.seen → Good f → add d f ≡ ok f' → Good f'
unfolding add
add-Good d f f' fresh g e =
    let (name, named, e1) = >>=-eq-ok (string_info d.name) _ e in
    subst Good (ok-injective e1)
      (push-Good f (described d name (length f.out)) (pci_of d) refl refl refl fresh g)

visit-Good : (d : Handle) (f f' : Found) → Good f → visit d f ≡ ok f' → Good f'
unfolding visit
visit-Good d f f' g e = elim (Bool-cases (is_usable d)) [
  | inr unusable ↦ subst Good (ok-injective (rw unusable at e)) g
  | inl usable ↦ elim (Bool-cases (not (is_empty (pci_of d)) && is_seen (pci_of d) f.seen)) [
    | inl known ↦ subst Good (ok-injective (rw (usable, known) at e)) g
    | inr fresh ↦ add-Good d f f' fresh g (rw (usable, fresh) at e)
  ]
]

visit_all-Good : (ds : List Handle) (f f' : Found) → Good f → visit_all ds f ≡ ok f' → Good f'
unfolding visit_all
visit_all-Good [] f f' g e = subst Good (ok-injective e) g
visit_all-Good (d ∷ ds) f f' g e =
    let (f1, first, e1) = >>=-eq-ok (visit d f) _ e in
    visit_all-Good ds f1 f' (visit-Good d f f1 g first) e1

platforms-Good :
    (ps : List (Listing Handle)) (f f' : Found) → Good f → visit_platforms ps f ≡ ok f' → Good f'
unfolding visit_platforms
platforms-Good [] f f' g e = subst Good (ok-injective e) g
platforms-Good (missing ∷ ps) f f' g e = platforms-Good ps f f' g e
platforms-Good (failed ∷ ps) f f' g e = cc
platforms-Good (listed ds ∷ ps) f f' g e =
    let (f1, first, e1) = >>=-eq-ok (visit_all ds f) _ e in
    platforms-Good ps f1 f' (visit_all-Good ds f f1 g first) e1

-- Whatever the platforms answer, when the devices are listed, each has its place in the list as its
-- number and as its OpenCL number, and no two of them have the same known place on the bus.
pub enumerate-Numbered :
    (platforms : Listing (Listing Handle)) (ds : List Device)
    → enumerate platforms ≡ ok ds
    → Numbered 0 ds × Apart ds
unfolding enumerate
enumerate-Numbered missing ds e = subst (λ ds. Numbered 0 ds × Apart ds) (ok-injective e) (tt, tt)
enumerate-Numbered failed ds e = cc
enumerate-Numbered (listed ps) ds e =
    let (f, visited, e1) = >>=-eq-ok (visit_platforms ps nothing_found) _ e in
    let g =
      platforms-Good ps nothing_found f (record { numbered = tt; apart = tt; covered = tt })
        visited in
    subst (λ ds. Numbered 0 ds × Apart ds) (ok-injective e1) (g.numbered, g.apart)
